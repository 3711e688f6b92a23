-- ===== src/Hashmap/SetEnds.antt =====
-- SET of src/hashmap.rs: the outcomes that it may have, and how a claimed slot gives one.
use memlane.Arena.{Arena, slot_count}
use memlane.Hashmap.Claim.{claim-IsValid, claim-Models}
use memlane.Hashmap.Invariant.{Occupied, IsValid, Stores, Entry, AbstractMap, assign, Models}
use memlane.Hashmap.Refine.{Ends, header-IsValid, header-Models}
use memlane.Hashmap.SetFree.{Claims}
use memlane.Hashmap.Spec.{is_dead}
use memlane.Hashmap.{Clock, SetResult, inserted, updated, full, primary_index, set_loop, set}
use memlane.Prelude.{ℕ, suc, ◌<◌, ◌≤◌, ◌≡◌, refl, Bytes, length, none, some, false, true}
use memlane.Sip.{siphash}
use memlane.Slot.{max_key_len, max_val_len}
use memlane.Ttl.{ttl_to_expiry}

pub set-loop :
    (clock : Clock) (a : Arena) (key value : Bytes) (ttl_secs : ℕ)
    → set clock a key value ttl_secs
      ≡ set_loop clock key value
          (siphash key)
          (primary_index key)
          (ttl_to_expiry (clock 0) ttl_secs)
          a
          none
          slot_count
          0
unfolding set primary_index
set-loop clock a key value ttl_secs = refl

module _ (key value : Bytes) (expiry : ℕ) (key_fits : length key ≤ max_key_len)
    (val_fits : length value ≤ max_val_len) where
  pub Claims-Ends :
      {a : Arena} {m : AbstractMap} {run : Arena × SetResult}
      → IsValid a
      → Models a m
      → ((p : ℕ) → ¬ Stores a key p)
      → Claims a key value expiry run
      → Ends run (assign m key (some (value, expiry))) inserted
  Claims-Ends {a} {m} {run} v h new c = record {
    valid =
        rw c.arena_eq
          (header-IsValid c.header (claim-IsValid key value expiry v key_fits c.inside c.path new));
    models = rw c.arena_eq (
        header-Models c.header
          (claim-Models key value expiry v key_fits c.inside c.path new c.free val_fits h));
    result = c.result_eq;
  }

-- How SET ends on an arena that stands for `m`.
pub data SetOutcome (a : Arena) (m : AbstractMap) (key : Bytes) (new : Entry) (clock : Clock)
    (run : Arena × SetResult) : Type 0 where
  -- the key had an entry that was alive at some round of the loop
  update :
      (i : ℕ) (e : Entry)
      → m key ≡ some e
      → is_dead (clock (suc i)) e ≡ false
      → Ends run (assign m key (some new)) updated
      → SetOutcome a m key new clock run
  -- the key had no entry
  insert :
      m key ≡ none → Ends run (assign m key (some new)) inserted → SetOutcome a m key new clock run
  -- the key had an entry that was dead at some round of the loop
  replace :
      (i : ℕ) (e : Entry)
      → m key ≡ some e
      → is_dead (clock (suc i)) e ≡ true
      → Ends run (assign m key (some new)) inserted
      → SetOutcome a m key new clock run
  -- the key had no entry, every slot is occupied, and nothing changed
  refuse :
      m key ≡ none
      → ((p : ℕ) → p < slot_count → Occupied (a.slots p))
      → run ≡ (a, full)
      → SetOutcome a m key new clock run
