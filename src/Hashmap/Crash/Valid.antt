-- ===== src/Hashmap/Crash/Valid.antt =====
-- SET of src/hashmap.rs: the arena is valid after every single store, and other keys keep their entries.
use memlane.Arena.{Arena, slot_count}
use memlane.Hashmap.Crash.Apart.{IsApart, IsApart_self}
use memlane.Hashmap.Crash.Everywhere.{AllHold, AllHold-map, AllHold-last_of}
use memlane.Hashmap.Crash.Claiming.{IsSafe}
use memlane.Hashmap.Crash.Trace.{set_loop-Traced}
use memlane.Hashmap.Crash.{last_of, set_trace}
use memlane.Hashmap.Invariant.{IsValid}
use memlane.Hashmap.{Clock, primary_index, set}
use memlane.Prelude.{ℕ, ◌≤◌, ◌≡◌, subst, Bytes, length, arith, none}
use memlane.Slot.{max_key_len}
use memlane.Ttl.{ttl_to_expiry}

pub set_trace-AllSafe :
    (clock : Clock) (a : Arena) (key value : Bytes) (ttl_secs : ℕ)
    → length key ≤ max_key_len
    → IsValid a
    → AllHold (IsSafe key a) (set_trace clock a key value ttl_secs)
      × (last_of a (set_trace clock a key value ttl_secs) ≡ (set clock a key value ttl_secs).0)
unfolding set set_trace primary_index
set_trace-AllSafe clock a key value ttl_secs fits v =
    let expiry = ttl_to_expiry (clock 0) ttl_secs in
    set_loop-Traced a key value expiry fits clock slot_count 0 none a (omega arith)
      (IsApart_self key a)
      (record {
        valid = v;
        before = λ j lt. absurd (omega arith);
        noted = λ t none_some. absurd cc;
      })

-- A process may die at any store of SET: on a valid arena and for a key of at most 128 bytes, the arena is valid
-- after every store that SET makes, of whatever length the value is and whatever keys collide, and the last of
-- them leaves the arena that SET returns.
pub set_trace-AllValid :
    (clock : Clock) (a : Arena) (key value : Bytes) (ttl_secs : ℕ)
    → length key ≤ max_key_len
    → IsValid a
    → AllHold IsValid (set_trace clock a key value ttl_secs)
      × (last_of a (set_trace clock a key value ttl_secs) ≡ (set clock a key value ttl_secs).0)
set_trace-AllValid clock a key value ttl_secs fits v =
    let (vs, last) = set_trace-AllSafe clock a key value ttl_secs fits v in
    (
      AllHold-map (IsSafe key a) IsValid (set_trace clock a key value ttl_secs)
          (λ b safe. safe.valid) vs,
      last,
    )

-- Nothing of another key is seen to change while SET runs: on a valid arena and for a key of at most 128 bytes, after
-- every store that SET makes, each slot that held an entry before, of a key with another hash, holds it still, byte
-- for byte; and each slot that shows an entry of another key held it before.
pub set_trace-IsApart :
    (clock : Clock) (a : Arena) (key value : Bytes) (ttl_secs : ℕ)
    → length key ≤ max_key_len
    → IsValid a
    → AllHold (IsApart key a) (set_trace clock a key value ttl_secs)
set_trace-IsApart clock a key value ttl_secs fits v =
    AllHold-map (IsSafe key a) (IsApart key a) (set_trace clock a key value ttl_secs)
      (λ b safe. safe.apart) (set_trace-AllSafe clock a key value ttl_secs fits v).0

pub set-IsValid :
    (clock : Clock) (a : Arena) (key value : Bytes) (ttl_secs : ℕ)
    → length key ≤ max_key_len
    → IsValid a
    → IsValid (set clock a key value ttl_secs).0
set-IsValid clock a key value ttl_secs fits v =
    let (vs, last) = set_trace-AllValid clock a key value ttl_secs fits v in
    subst IsValid last (AllHold-last_of IsValid a (set_trace clock a key value ttl_secs) v vs)
