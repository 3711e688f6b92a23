-- ===== src/Client.antt =====
-- src/client.rs: the checks of `MemLaneClient` in front of the table. A method takes the arena and
-- returns the new one with its `Result`; what a failed method wrote stays. `clocks n` is the clock of
-- the n-th operation on the table that a call makes. Sums wrap, as in a release build.
pub mod Calls
pub mod Simple
pub mod Batch
pub mod Number
pub mod Safe
use memlane.Arena.{Arena, Os, create_arena, open_arena, slot_count}
use memlane.Hashmap
use memlane.Hashmap.{
  Clock, GetResult, found, expired, SetResult, inserted, updated, full, DelResult, deleted,
}
use memlane.Prelude.{
  ℕ, suc, ◌+◌, ◌-◌, Bool, true, false, Option, none, some, List, [], ◌∷◌, ltb, if◌then◌else◌, Bytes,
  codes, length, Result, ok, err,
}
use memlane.Slot.{max_key_len, max_val_len}
use memlane.Text.{from_utf8, parse_u64, to_string}
use memlane.Word.{wrapping_add}

pub data MemLaneError : Type 0 where
  arena_init : Bytes → MemLaneError
  arena_full : ℕ → MemLaneError
  key_too_long : ℕ → MemLaneError
  value_too_long : ℕ → MemLaneError

abbrev pub Reply : Type 0 → Type 0
Reply A = Arena × Result MemLaneError A

abbrev pub Clocks : Type 0
Clocks = ℕ → Clock

-- The clocks of the operations after the first.
abbrev pub later : Clocks → Clocks
later clocks n = clocks (suc n)

-- `?`: an error ends the method, a value goes on from the arena that is left.
abbrev pub and_then : {A B : Type 0} → Reply A → (A → Arena → Reply B) → Reply B
and_then (a, ok x) f = f x a
and_then (a, err e) f = (a, err e)

-- `map_err(MemLaneError::ArenaInit)` on what `create_arena` or `open_arena` returns.
abbrev pub client_of : Result Bytes Arena → Result MemLaneError Arena
client_of (ok a) = ok a
client_of (err e) = err (arena_init e)

-- `create` and `open`: a client is the arena that it owns.
unfoldable pub create_client : Os → Result MemLaneError Arena
create_client os = client_of (create_arena os)

unfoldable pub open_client : Os → Result MemLaneError Arena
open_client os = client_of (open_arena os)

-- The `match` on the result of `hashmap::get`.
abbrev pub got : GetResult → Option Bytes
got (found v) = some v
got GetResult.not_found = none
got expired = none

-- The `match` on the result of `hashmap::set`.
abbrev pub was_set : SetResult → Result MemLaneError Bool
was_set inserted = ok true
was_set updated = ok false
was_set full = err (arena_full slot_count)

-- `matches!(r, DelResult::Deleted)`
abbrev pub was_deleted : DelResult → Bool
was_deleted deleted = true
was_deleted DelResult.not_found = false

unfoldable pub get : Clock → Arena → Bytes → Reply (Option Bytes)
get clock a key =
    if ltb max_key_len (length key)
    then (a, err (key_too_long (length key)))
    else (let (a', r) = Hashmap.get clock a key in (a', ok (got r)))

unfoldable pub set : Clock → Arena → Bytes → Bytes → ℕ → Reply Bool
set clock a key value ttl_secs =
    if ltb max_key_len (length key)
    then (a, err (key_too_long (length key)))
    else if ltb max_val_len (length value)
    then (a, err (value_too_long (length value)))
    else (let (a', r) = Hashmap.set clock a key value ttl_secs in (a', was_set r))

unfoldable pub del : Arena → Bytes → Reply Bool
del a key =
    if ltb max_key_len (length key)
    then (a, err (key_too_long (length key)))
    else (let (a', r) = Hashmap.del a key in (a', ok (was_deleted r)))

unfoldable pub exists : Clock → Arena → Bytes → Reply Bool
exists clock a key =
    if ltb max_key_len (length key)
    then (a, err (key_too_long (length key)))
    else (let (a', r) = Hashmap.exists clock a key in (a', ok r))

unfoldable pub flush : Arena → Reply (Unit {0})
flush a = (Hashmap.flush_all a, ok tt)

unfoldable pub used_count : Arena → ℕ
used_count a = Hashmap.used_count a

unfoldable pub capacity : Arena → ℕ
capacity a = Hashmap.capacity a

-- `collect()` into a `Result` stops at the first error.
unfoldable pub mget : Clocks → Arena → List Bytes → Reply (List (Option Bytes))
unfolding get
mget clocks a [] = (a, ok [])
mget clocks a (key ∷ keys) =
    and_then (get (clocks 0) a key)
      λ v a'. and_then (mget (later clocks) a' keys) λ vs b. (b, ok (v ∷ vs))

-- The loop of `mset`, with `count` pairs written before it.
unfoldable pub mset_loop : Clocks → ℕ → ℕ → Arena → List (Bytes × Bytes) → Reply ℕ
unfolding set
mset_loop clocks ttl_secs count a [] = (a, ok count)
mset_loop clocks ttl_secs count a ((key, value) ∷ pairs) =
    and_then (set (clocks 0) a key value ttl_secs)
      λ _ a'. mset_loop (later clocks) ttl_secs (count + 1) a' pairs

unfoldable pub mset : Clocks → Arena → List (Bytes × Bytes) → ℕ → Reply ℕ
unfolding mset_loop
mset clocks a pairs ttl_secs = mset_loop clocks ttl_secs 0 a pairs

abbrev pub unwrap_or {ℓ} : {A : Type ℓ} → Option A → A → A
unwrap_or none d = d
unwrap_or (some x) d = x

-- The number that `incr` and `decr` read: 0 where there is none.
unfoldable pub current : Option Bytes → ℕ
unfolding from_utf8 parse_u64
current none = 0
current (some bytes) = unwrap_or (parse_u64 (unwrap_or (from_utf8 bytes) (codes "0"))) 0

unfoldable pub incr : Clocks → Arena → Bytes → Reply ℕ
unfolding get set current to_string wrapping_add
incr clocks a key = and_then (get (clocks 0) a key) λ v a'.
    let next = wrapping_add (current v) 1 in
    and_then (set (clocks 1) a' key (to_string next) 0) λ _ b. (b, ok next)

unfoldable pub decr : Clocks → Arena → Bytes → Reply ℕ
unfolding get set current to_string
decr clocks a key = and_then (get (clocks 0) a key) λ v a'.
    let next = current v - 1 in
    and_then (set (clocks 1) a' key (to_string next) 0) λ _ b. (b, ok next)
