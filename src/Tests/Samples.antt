-- ===== src/Tests/Samples.antt =====
-- The arenas and keys that the tests share.
use memlane.Arena.{Arena, slot_count}
use memlane.Hashmap.Alone.{Within, Separates, alone, Within-assign}
use memlane.Hashmap.Run.{Holds}
use memlane.Hashmap.Invariant.{IsValid, NoCollision, AbstractMap, assign, Models}
use memlane.Hashmap.Refine.{Ends}
use memlane.Hashmap.Set.{set-SetOutcome}
use memlane.Hashmap.SetEnds.{update, insert, replace, refuse}
use memlane.Hashmap.{Clock, set, inserted}
use memlane.Hashmap.Flush.{no_entries}
use memlane.Sip.{siphash}
use memlane.Prelude.{
  ℕ, ◌+◌, ◌≡◌, ◌≢◌, refl, sym, ◌∙◌, ◌⊎◌, inl, inr, some, Bytes, codes, arith, replicate,
  length-replicate,
}
use memlane.Slot.{Slot}
use memlane.Ttl.{ttl_to_expiry}

abbrev pub blank_slot : Slot
blank_slot = record {
  state = 0;
  fingerprint = 0;
  expires_at_ms = 0;
  key_len = 0;
  val_len = 0;
  key_buf = replicate 128 0;
  val_buf = replicate 1024 0;
}

abbrev pub blank : Arena
blank = record {
  header = record { magic = 0; version = 1; slot_count = slot_count; used_count = 0 };
  slots = λ _. blank_slot;
}

pub blank-IsValid : IsValid blank
blank-IsValid = record {
  sized = λ p hp. record {
    key_room = length-replicate {A = ℕ} 128 0;
    val_room = length-replicate {A = ℕ} 1024 0;
  };
  known = λ p hp. omega arith;
  filled = λ p hp o. absurd (omega arith);
  reached = λ p hp o. absurd (omega arith);
  unique = λ p q hp hq o. absurd (omega arith);
}

pub blank-Models : Models blank no_entries
blank-Models = record { sound = λ p hp o. absurd (omega arith); complete = λ key e has. cc }

pub blank-NoCollision : (key : Bytes) → NoCollision blank key
blank-NoCollision key p hp o = absurd (omega arith)

abbrev pub noon : Clock
noon i = 1000 + i

abbrev pub midnight : Clock
midnight i = 900000 + i

abbrev pub mq : Bytes
mq = codes "mq"

-- A key whose probe sequence starts at the slot of `mq`.
abbrev pub nt : Bytes
nt = codes "nt"

abbrev pub one_entry : AbstractMap
one_entry = assign no_entries mq (some (codes "7", ttl_to_expiry (noon 0) 5))

-- The arena after `SET mq 7 EX 5`.
abbrev pub one : Arena
one = (set noon blank mq (codes "7") 5).0

pub one-Ends : Ends (set noon blank mq (codes "7") 5) one_entry inserted
one-Ends =
    elim (set-SetOutcome noon mq (codes "7") 5 (omega arith) (omega arith) blank-IsValid
      (blank-NoCollision mq) blank-Models) [
        | update i e has live ends ↦ absurd cc
        | insert no_entry ends ↦ ends
        | replace i e has dead ends ↦ absurd cc
        | refuse no_entry all unchanged ↦ absurd (let o = all 0 (omega arith) in omega arith)
      ]

-- The two keys of the samples.
abbrev pub Sample : Bytes → Type 0
Sample q = (q ≡ mq) ⊎ (q ≡ nt)

pub siphash-differ : siphash mq ≢ siphash nt
unfolding siphash
siphash-differ e = absurd (omega arith)

pub Sample-Separates : Separates Sample
Sample-Separates q r (inl e) (inl f) h = e ∙ sym f
Sample-Separates q r (inl e) (inr f) h = absurd (siphash-differ cc)
Sample-Separates q r (inr e) (inl f) h = absurd (siphash-differ cc)
Sample-Separates q r (inr e) (inr f) h = e ∙ sym f

pub blank-Within : Within Sample no_entries
blank-Within q e has = absurd cc

pub one-Within : Within Sample one_entry
one-Within = Within-assign mq (some (codes "7", ttl_to_expiry (noon 0) 5)) (inl refl) blank-Within

pub one-Holds : Holds Sample one one_entry
one-Holds = record { valid = one-Ends.valid; models = one-Ends.models; within = one-Within }

pub one_alone : (key : Bytes) → Sample key → NoCollision one key
one_alone key mine = alone Sample-Separates one-Ends.valid one-Ends.models one-Within mine
