-- ===== src/Hashmap/Crash/Claiming.antt =====
-- SET of src/hashmap.rs: what holds after every store of a claim.
use memlane.Arena.{Arena, slot_count, slot, slot_mut}
use memlane.Hashmap.Claim.{claim-read_key}
use memlane.Hashmap.Crash.Apart.{IsApart, slot_mut-IsApart}
use memlane.Hashmap.Crash.Everywhere.{AllHold}
use memlane.Hashmap.Crash.Stages.{IsBetween-IsValid}
use memlane.Hashmap.Crash.{claim_stages, last_of, claim_trace}
use memlane.Hashmap.Invariant.{Occupied, IsValid}
use memlane.Hashmap.{Clock, primary_index, claim_slot}
use memlane.Prelude.{ℕ, ◌<◌, ◌≤◌, ◌≡◌, refl, sym, ◌∙◌, Bytes, length}
use memlane.Sip.{siphash}
use memlane.Slot.Buffers.{IsSized, write_key-IsSized, write_value-IsSized}
use memlane.Slot.{Slot, write_key, write_value, max_key_len, max_val_len}

-- An arena on the way of a SET of `key` that began on `origin`.
pub record IsSafe (key : Bytes) (origin a : Arena) : Type 0 where
  pub valid : IsValid a
  pub apart : IsApart key origin a

module _ (origin : Arena) (key value : Bytes) (expiry : ℕ) (fits : length key ≤ max_key_len) where
  -- A free slot while it is claimed.
  claimed_between :
      {a : Arena} (t : ℕ) (x : Slot)
      → IsValid a
      → ¬ Occupied (a.slots t)
      → x.state ≡ (a.slots t).state
      → IsSized x
      → IsApart key origin a
      → IsSafe key origin (slot_mut a t x)
  claimed_between t x v free e room w = record {
    valid = IsBetween-IsValid v (record {
      state_eq = e;
      room = room;
      filled = λ o. absurd (free o);
      key_kept = λ o. absurd (free o);
    });
    apart = slot_mut-IsApart t x w (λ o. absurd (free (sym e ∙ o))) (λ o. absurd (free o));
  }

  -- A free slot once it is claimed.
  pub claimed-IsSafe :
      {a : Arena} (t : ℕ)
      → ¬ Occupied (a.slots t)
      → IsApart key origin a
      → IsValid (slot_mut a t (claim_slot (a.slots t) (siphash key) key value expiry))
      → IsSafe key origin (slot_mut a t (claim_slot (a.slots t) (siphash key) key value expiry))
  claimed-IsSafe {a} t free w v = record {
    valid = v;
    apart =
        slot_mut-IsApart t _ w (λ _. claim-read_key (a.slots t) key value expiry fits)
          (λ o. absurd (free o));
  }

  pub claim_trace-AllSafe :
      {a : Arena} (clock : Clock) (t : ℕ)
      → IsValid a
      → t < slot_count
      → ¬ Occupied (a.slots t)
      → IsValid (slot_mut a t (claim_slot (a.slots t) (siphash key) key value expiry))
      → IsApart key origin a
      → AllHold
          (IsSafe key origin)
          (claim_trace clock key value (siphash key) (primary_index key) expiry a t)
        × (last_of a (claim_trace clock key value (siphash key) (primary_index key) expiry a t)
            ≡ slot_mut a t (claim_slot (a.slots t) (siphash key) key value expiry))
  unfolding claim_trace claim_stages claim_slot slot write_key write_value
  claim_trace-AllSafe {a} clock t v inside free done apart =
      let k = write_key-IsSized key (v.sized t inside) in
      let w = write_value-IsSized value k in
      let sized =
        λ (x : Slot) (e : x.state ≡ (a.slots t).state) (r : length x.key_buf ≡ max_key_len)
            (r' : length x.val_buf ≡ max_val_len).
          claimed_between t x v free e (record { key_room = r; val_room = r' }) apart in
      (
        (
          sized _ refl k.key_room k.val_room,
          (
            sized _ refl k.key_room k.val_room,
            (
              sized _ refl w.key_room w.val_room,
              (
                sized _ refl w.key_room w.val_room,
                (
                  sized _ refl w.key_room w.val_room,
                  (sized _ refl w.key_room w.val_room, (claimed-IsSafe t free apart done, tt)),
                ),
              ),
            ),
          ),
        ),
        refl,
      )
