-- ===== src/Hashmap.antt =====
-- src/hashmap.rs: the open-addressing table over the slots of an arena. A loop
-- `for i in 0..SLOT_COUNT` is a recursion on the rounds that are left, with `i` beside them; what a
-- round binds as `next` is the `continue`. The operations are those of one thread at a time.
-- `clock i` is what `now_ms` reads in round i; it may be any function.
pub mod Probe
pub mod Race
pub mod Invariant
pub mod Write
pub mod Get
pub mod Walk
pub mod Bury
pub mod Spec
pub mod Refine
pub mod Del
pub mod Claim
pub mod SetLoop
pub mod SetFree
pub mod SetEnds
pub mod Set
pub mod Steps
pub mod Run
pub mod SafeRead
pub mod SafeSet
pub mod Safe
pub mod Crash
pub mod Count
pub mod Alone
pub mod Flush
use Prim.Native.Nat.{bit_and}
use memlane.Arena.{Arena, slot_count, slot, slot_mut}
use memlane.Prelude.{
  ℕ, zero, suc, ◌+◌, ◌-◌, ◌%◌, Bool, true, false, not, Option, none, some, ◌==◌, if◌then◌else◌,
  bytes_eq, Bytes,
}
use memlane.Sip.{siphash}
use memlane.Slot.{
  Slot, state_empty, state_occupied, state_tombstone, read_key, read_value, write_key, write_value,
  compare_exchange, init,
}
use memlane.Ttl.{ttl_to_expiry, lazy_evict_if_expired}
use memlane.Word.{u64_mod, wrapping_add}

abbrev pub Clock : Type 0
Clock = ℕ → ℕ

pub data GetResult : Type 0 where
  found : Bytes → GetResult
  not_found : GetResult
  expired : GetResult

pub data SetResult : Type 0 where
  inserted updated full : SetResult

pub data DelResult : Type 0 where
  deleted not_found : DelResult

unfoldable pub primary_index : Bytes → ℕ
primary_index key = bit_and (siphash key) (slot_count - 1)

-- `(start + i) & (SLOT_COUNT - 1)`
unfoldable pub probe : ℕ → ℕ → ℕ
probe start i = bit_and (start + i) (slot_count - 1)

-- `used_count.fetch_add(1)` and `used_count.fetch_sub(1)`, which wrap.
unfoldable pub fetch_add_used : Arena → Arena
unfolding wrapping_add
fetch_add_used a = record a {
  header = record (a.header) { used_count = wrapping_add a.header.used_count 1 };
}

unfoldable pub fetch_sub_used : Arena → Arena
fetch_sub_used a = record a {
  header = record (a.header) { used_count = (a.header.used_count + u64_mod - 1) % u64_mod };
}

unfoldable pub claim_slot : Slot → ℕ → Bytes → Bytes → ℕ → Slot
unfolding write_key write_value
claim_slot s fingerprint key value expiry =
    let w = write_value value (write_key key s) in
    record w { fingerprint = fingerprint; expires_at_ms = expiry; state = state_occupied }

module _ (clock : Clock) (key : Bytes) (hash start : ℕ) where
  unfoldable pub get_loop : Arena → ℕ → ℕ → Arena × GetResult
  get_loop a zero i = (a, GetResult.not_found)
  get_loop a (suc left) i =
      let idx = probe start i in
      let s = slot a idx in
      let next = get_loop a left (suc i) in
      let (s', evicted) = lazy_evict_if_expired (clock i) s in
      if s.state == state_empty
      then (a, GetResult.not_found)
      else if s.state == state_tombstone
      then next
      else if s.state == state_occupied
      then if not (s.fingerprint == hash)
        then next
        else if evicted
        then (slot_mut a idx s', expired)
        else if not (bytes_eq (read_key s') key)
        then next
        else (a, found (read_value s'))
      else next

unfoldable pub get : Clock → Arena → Bytes → Arena × GetResult
get clock a key =
    let hash = siphash key in get_loop clock key hash (bit_and hash (slot_count - 1)) a slot_count 0

abbrev pub unwrap_or {ℓ} : {A : Type ℓ} → Option A → A → A
unwrap_or none d = d
unwrap_or (some x) d = x

-- `first_tombstone = Some(idx)` if it is still `None`.
abbrev pub note_first : Option ℕ → ℕ → Option ℕ
note_first none idx = some idx
note_first (some t) idx = some t

-- `clock 0` is the reading of `ttl_to_expiry`, and `clock (i + 1)` that of round i.
module _ (clock : Clock) (key value : Bytes) (hash start expiry : ℕ) where
  -- What follows the loop.
  unfoldable pub set_end : Arena → Option ℕ → Arena × SetResult
  unfolding claim_slot
  set_end a none = (a, full)
  set_end a (some t) = (slot_mut a t (claim_slot (slot a t) hash key value expiry), inserted)

  unfoldable pub set_loop : Arena → Option ℕ → ℕ → ℕ → Arena × SetResult
  unfolding set_end claim_slot
  set_loop a first zero i = set_end a first
  set_loop a first (suc left) i =
      let idx = probe start i in
      let s = slot a idx in
      let next = set_loop a first left (suc i) in
      let (s', evicted) = lazy_evict_if_expired (clock (suc i)) s in
      let evict = set_loop (slot_mut a idx s') (note_first first idx) left (suc i) in
      let bury = set_loop a (note_first first idx) left (suc i) in
      let target = unwrap_or first idx in
      if s.state == state_empty
      then (
        fetch_add_used (slot_mut a target (claim_slot (slot a target) hash key value expiry)),
        inserted,
      )
      else if s.state == state_tombstone
      then bury
      else if s.state == state_occupied
      then if not (s.fingerprint == hash)
        then next
        else if evicted
        then evict
        else if not (bytes_eq (read_key s') key)
        then next
        else (slot_mut a idx (record (write_value value s') { expires_at_ms = expiry }), updated)
      else next

unfoldable pub set : Clock → Arena → Bytes → Bytes → ℕ → Arena × SetResult
set clock a key value ttl_secs =
    let hash = siphash key in
    let expiry = ttl_to_expiry (clock 0) ttl_secs in
    set_loop clock key value hash (bit_and hash (slot_count - 1)) expiry a none slot_count 0

module _ (key : Bytes) (hash start : ℕ) where
  unfoldable pub del_loop : Arena → ℕ → ℕ → Arena × DelResult
  unfolding compare_exchange fetch_sub_used
  del_loop a zero i = (a, DelResult.not_found)
  del_loop a (suc left) i =
      let idx = probe start i in
      let s = slot a idx in
      let next = del_loop a left (suc i) in
      let (s', swapped) = compare_exchange state_occupied state_tombstone s in
      if s.state == state_empty
      then (a, DelResult.not_found)
      else if s.state == state_tombstone
      then next
      else if s.state == state_occupied
      then if not (s.fingerprint == hash)
        then next
        else if not (bytes_eq (read_key s) key)
        then next
        else if swapped
        then (fetch_sub_used (slot_mut a idx s'), deleted)
        else next
      else next

unfoldable pub del : Arena → Bytes → Arena × DelResult
del a key =
    let hash = siphash key in del_loop key hash (bit_and hash (slot_count - 1)) a slot_count 0

-- `matches!(r, GetResult::Found(_))`
abbrev pub is_found : GetResult → Bool
is_found (found v) = true
is_found GetResult.not_found = false
is_found expired = false

unfoldable pub exists : Clock → Arena → Bytes → Arena × Bool
exists clock a key = let (a', r) = get clock a key in (a', is_found r)

-- The loop of `flush_all` over the slots, `left` of them from index i on; each is reset by the five
-- stores that `Slot::init` makes too.
unfoldable pub flush_loop : Arena → ℕ → ℕ → Arena
unfolding init
flush_loop a zero i = a
flush_loop a (suc left) i = flush_loop (slot_mut a i (init (slot a i))) left (suc i)

unfoldable pub flush_all : Arena → Arena
flush_all a =
    let b = flush_loop a slot_count 0 in record b { header = record (b.header) { used_count = 0 } }

unfoldable pub used_count : Arena → ℕ
used_count a = a.header.used_count

unfoldable pub capacity : Arena → ℕ
capacity a = slot_count
