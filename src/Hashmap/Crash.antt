-- ===== src/Hashmap/Crash.antt =====
-- SET of src/hashmap.rs store by store: the arenas that the shared memory shows after each of them. A process
-- that dies in SET leaves one of these behind.
pub mod Apart
pub mod Claiming
pub mod Everywhere
pub mod Isolated
pub mod Stages
pub mod Trace
pub mod Valid
use Prim.Native.Nat.{bit_and}
use mathlib.Core.List.{map}
use memlane.Arena.{Arena, slot_count, slot, slot_mut}
use memlane.Hashmap.{Clock, note_first, unwrap_or, probe, fetch_add_used}
use memlane.Prelude.{
  ℕ, zero, suc, ◌-◌, not, Option, none, some, List, [], ◌∷◌, ◌++◌, Bytes, bytes_eq, ◌==◌,
  if◌then◌else◌,
}
use memlane.Sip.{siphash}
use memlane.Slot.{
  Slot, state_empty, state_occupied, state_tombstone, read_key, write_key, write_value,
}
use memlane.Ttl.{ttl_to_expiry, lazy_evict_if_expired}

-- `write_key` and `write_value` up to the store of the length: the buffer alone.
abbrev pub key_written : Bytes → Slot → Slot
key_written key s = record s { key_buf = (write_key key s).key_buf }

abbrev pub value_written : Bytes → Slot → Slot
value_written val s = record s { val_buf = (write_value val s).val_buf }

-- The slot after each store of `claim_slot`.
unfoldable pub claim_stages : Slot → ℕ → Bytes → Bytes → ℕ → List Slot
claim_stages s fingerprint key value expiry =
    let keyed = write_key key s in
    let valued = write_value value keyed in
    let printed = record valued { fingerprint = fingerprint } in
    let timed = record printed { expires_at_ms = expiry } in
    key_written key s
    ∷ keyed
    ∷ value_written value keyed
    ∷ valued
    ∷ printed
    ∷ timed
    ∷ record timed { state = state_occupied }
    ∷ []

-- The slot after each store of an update in place.
unfoldable pub update_stages : Slot → Bytes → ℕ → List Slot
update_stages s value expiry =
    let valued = write_value value s in
    value_written value s ∷ valued ∷ record valued { expires_at_ms = expiry } ∷ []

abbrev pub last_of {ℓ} : {A : Type ℓ} → A → List A → A
last_of a [] = a
last_of a (b ∷ bs) = last_of b bs

module _ (clock : Clock) (key value : Bytes) (hash start expiry : ℕ) where
  -- The claim of slot `t`.
  unfoldable pub claim_trace : Arena → ℕ → List Arena
  unfolding claim_stages
  claim_trace a t = map (slot_mut a t) (claim_stages (slot a t) hash key value expiry)

  unfoldable pub set_end_trace : Arena → Option ℕ → List Arena
  unfolding claim_trace
  set_end_trace a none = []
  set_end_trace a (some t) = claim_trace a t

  -- The rounds of SET, as `set_loop`.
  unfoldable pub set_trace_loop : Arena → Option ℕ → ℕ → ℕ → List Arena
  unfolding set_end_trace claim_trace update_stages
  set_trace_loop a first zero i = set_end_trace a first
  set_trace_loop a first (suc left) i =
      let idx = probe start i in
      let s = slot a idx in
      let next = set_trace_loop a first left (suc i) in
      let (s', evicted) = lazy_evict_if_expired (clock (suc i)) s in
      let evict =
        slot_mut a idx s'
        ∷ set_trace_loop (slot_mut a idx s') (note_first first idx) left (suc i) in
      let bury = set_trace_loop a (note_first first idx) left (suc i) in
      let claim = claim_trace a (unwrap_or first idx) in
      if s.state == state_empty
      then claim ++ fetch_add_used (last_of a claim) ∷ []
      else if s.state == state_tombstone
      then bury
      else if s.state == state_occupied
      then if not (s.fingerprint == hash)
        then next
        else if evicted
        then evict
        else if not (bytes_eq (read_key s') key)
        then next
        else map (slot_mut a idx) (update_stages s' value expiry)
      else next

unfoldable pub set_trace : Clock → Arena → Bytes → Bytes → ℕ → List Arena
set_trace clock a key value ttl_secs =
    let hash = siphash key in
    set_trace_loop clock key value hash (bit_and hash (slot_count - 1))
      (ttl_to_expiry (clock 0) ttl_secs) a none slot_count 0
