-- ===== src/Client/Calls.antt =====
-- What the methods of src/client.rs promise, on the abstract map: each result with the map after it.
use memlane.Arena.{slot_count}
use memlane.Client.{MemLaneError, arena_full, key_too_long, value_too_long, Clocks, later}
use memlane.Hashmap.Invariant.{Entry, AbstractMap, assign}
use memlane.Hashmap.Spec.{is_dead, keep_entry}
use memlane.Hashmap.Steps.{IsFull}
use memlane.Hashmap.{Clock}
use memlane.Prelude.{
  ℕ, suc, ◌+◌, ◌<◌, ◌≤◌, ◌≡◌, Bool, true, false, Option, none, some, List, [], ◌∷◌, Bytes, length,
  if◌then◌else◌, Result, ok, err,
}
use memlane.Slot.{max_key_len, max_val_len}
use memlane.Text.Numeral.{ReadsAs}
use memlane.Text.{to_string}
use memlane.Ttl.{ttl_to_expiry}

-- The value of an entry that is alive.
unfoldable pub live_value : ℕ → Option Entry → Option Bytes
live_value now none = none
live_value now (some e) = if is_dead now e then none else some e.0

abbrev pub is_some : {A : Type 0} → Option A → Bool
is_some none = false
is_some (some x) = true

module _ (m : AbstractMap) (clock : Clock) (key : Bytes) where
  pub data GetStep : Result MemLaneError (Option Bytes) → AbstractMap → Type 0 where
    get_key_too_long : max_key_len < length key → GetStep (err (key_too_long (length key))) m
    get_answers :
        length key ≤ max_key_len
        → (i : ℕ)
        → GetStep (ok (live_value (clock i) (m key))) (assign m key (keep_entry (clock i) (m key)))

  pub data ExistsStep : Result MemLaneError Bool → AbstractMap → Type 0 where
    exists_key_too_long : max_key_len < length key → ExistsStep (err (key_too_long (length key))) m
    exists_answers :
        length key ≤ max_key_len
        → (i : ℕ)
        → ExistsStep
            (ok (is_some (live_value (clock i) (m key))))
            (assign m key (keep_entry (clock i) (m key)))

  -- `true` is for an entry that is new, or that takes the place of a dead one.
  pub data SetStep (value : Bytes) (ttl_secs : ℕ)
      : Result MemLaneError Bool → AbstractMap → Type 0 where
    set_key_too_long :
        max_key_len < length key → SetStep value ttl_secs (err (key_too_long (length key))) m
    set_value_too_long :
        length key ≤ max_key_len
        → max_val_len < length value
        → SetStep value ttl_secs (err (value_too_long (length value))) m
    set_full :
        length key ≤ max_key_len
        → length value ≤ max_val_len
        → m key ≡ none
        → IsFull m
        → SetStep value ttl_secs (err (arena_full slot_count)) m
    set_updates :
        length key ≤ max_key_len
        → length value ≤ max_val_len
        → (i : ℕ) {e : Entry} → m key ≡ some e
        → is_dead (clock (suc i)) e ≡ false
        → SetStep value ttl_secs
            (ok false)
            (assign m key (some (value, ttl_to_expiry (clock 0) ttl_secs)))
    set_replaces :
        length key ≤ max_key_len
        → length value ≤ max_val_len
        → (i : ℕ) {e : Entry} → m key ≡ some e
        → is_dead (clock (suc i)) e ≡ true
        → SetStep value ttl_secs
            (ok true)
            (assign m key (some (value, ttl_to_expiry (clock 0) ttl_secs)))
    set_inserts :
        length key ≤ max_key_len
        → length value ≤ max_val_len
        → m key ≡ none
        → SetStep value ttl_secs
            (ok true)
            (assign m key (some (value, ttl_to_expiry (clock 0) ttl_secs)))

-- Expired or not, an entry that is there is removed.
pub data DelStep (m : AbstractMap) (key : Bytes)
    : Result MemLaneError Bool → AbstractMap → Type 0 where
  del_key_too_long : max_key_len < length key → DelStep m key (err (key_too_long (length key))) m
  del_answers : length key ≤ max_key_len → DelStep m key (ok (is_some (m key))) (assign m key none)

-- The number that a read value counts as: a missing one as 0.
pub data Counts : Option Bytes → ℕ → Type 0 where
  missing : Counts none 0
  present : {s : Bytes} {n : ℕ} → ReadsAs s n → Counts (some s) n

-- `incr` and `decr`: a read, then a write of the number that `count` makes of it, with no expiry.
pub data CountStep (count : ℕ → ℕ) (clocks : Clocks) (key : Bytes) (m : AbstractMap)
    : Result MemLaneError ℕ → AbstractMap → Type 0 where
  count_read_fails :
      {e : MemLaneError} {m' : AbstractMap}
      → GetStep m (clocks 0) key (err e) m'
      → CountStep count clocks key m (err e) m'
  count_write_fails :
      {v : Option Bytes} {n : ℕ} {e : MemLaneError} {m' m'' : AbstractMap}
      → GetStep m (clocks 0) key (ok v) m'
      → Counts v n
      → SetStep m' (clocks 1) key (to_string (count n)) 0 (err e) m''
      → CountStep count clocks key m (err e) m''
  counted :
      {v : Option Bytes} {n : ℕ} {b : Bool} {m' m'' : AbstractMap}
      → GetStep m (clocks 0) key (ok v) m'
      → Counts v n
      → SetStep m' (clocks 1) key (to_string (count n)) 0 (ok b) m''
      → CountStep count clocks key m (ok (count n)) m''

-- `mget`: reads up to the first error.
pub data MgetStep
    : Clocks
      → List Bytes
      → AbstractMap
      → Result MemLaneError (List (Option Bytes))
      → AbstractMap
      → Type 0 where
  mget_done : {clocks : Clocks} {m : AbstractMap} → MgetStep clocks [] m (ok []) m
  mget_fails :
      {clocks : Clocks} {key : Bytes} {keys : List Bytes} {m m' : AbstractMap} {e : MemLaneError}
      → GetStep m (clocks 0) key (err e) m'
      → MgetStep clocks (key ∷ keys) m (err e) m'
  mget_fails_later :
      {clocks : Clocks} {key : Bytes} {keys : List Bytes} {m m' m'' : AbstractMap}
      {v : Option Bytes} {e : MemLaneError}
      → GetStep m (clocks 0) key (ok v) m'
      → MgetStep (later clocks) keys m' (err e) m''
      → MgetStep clocks (key ∷ keys) m (err e) m''
  mget_next :
      {clocks : Clocks} {key : Bytes} {keys : List Bytes} {m m' m'' : AbstractMap}
      {v : Option Bytes} {vs : List (Option Bytes)}
      → GetStep m (clocks 0) key (ok v) m'
      → MgetStep (later clocks) keys m' (ok vs) m''
      → MgetStep clocks (key ∷ keys) m (ok (v ∷ vs)) m''

-- `mset`: writes up to the first error, which stay; `count` of them were made before.
pub data MsetStep
    : Clocks
      → ℕ
      → ℕ
      → List (Bytes × Bytes)
      → AbstractMap
      → Result MemLaneError ℕ
      → AbstractMap
      → Type 0 where
  mset_done :
      {clocks : Clocks} {ttl_secs count : ℕ} {m : AbstractMap}
      → MsetStep clocks ttl_secs count [] m (ok count) m
  mset_fails :
      {clocks : Clocks} {ttl_secs count : ℕ} {key val : Bytes} {pairs : List (Bytes × Bytes)}
      {m m' : AbstractMap} {e : MemLaneError}
      → SetStep m (clocks 0) key val ttl_secs (err e) m'
      → MsetStep clocks ttl_secs count ((key, val) ∷ pairs) m (err e) m'
  mset_next :
      {clocks : Clocks} {ttl_secs count : ℕ} {key val : Bytes} {pairs : List (Bytes × Bytes)}
      {m m' m'' : AbstractMap} {b : Bool} {r : Result MemLaneError ℕ}
      → SetStep m (clocks 0) key val ttl_secs (ok b) m'
      → MsetStep (later clocks) ttl_secs (count + 1) pairs m' r m''
      → MsetStep clocks ttl_secs count ((key, val) ∷ pairs) m r m''
