-- ===== src/Hashmap/Count/Exact.antt =====
-- src/hashmap.rs: when `used_count` is the number of occupied slots.
use memlane.Arena.{Arena, slot_count, slot, slot_mut}
use memlane.Hashmap.Count.{
  IsExact, IsAlive, none_occupied, alive_stays, get_loop-alive, del_loop-IsExact, counted,
  updated-IsExact,
}
use memlane.Hashmap.Flush.{flush_all-slots}
use memlane.Hashmap.Invariant.{Occupied}
use memlane.Hashmap.Probe.{probe-lt, probe_covers, primary_index-lt}
use memlane.Hashmap.SafeRead.{both, occupied_of, lazy_evict-false}
use memlane.Hashmap.SetLoop.{below}
use memlane.Hashmap.Steps.{Op, op_get, op_exists, op_set, op_del, op_flush, run_op}
use memlane.Hashmap.{
  Clock, SetResult, primary_index, probe, get, exists, set_loop, set, del, claim_slot,
  fetch_add_used, used_count, note_first, unwrap_or, flush_all,
}
use memlane.Prelude.{
  ℕ, zero, suc, ◌+◌, ◌<◌, ◌≡◌, ◌≢◌, refl, sym, ap, subst, ◌∙◌, ◌⊎◌, inl, inr, not, ◌==◌, Bytes,
  bytes_eq, arith, Option, none, some,
}
use memlane.Sip.{siphash}
use memlane.Slot.{Slot, state_empty, state_occupied, state_tombstone, read_key, init}
use memlane.Ttl.{ttl_to_expiry, lazy_evict_if_expired}

-- What SET knows at a round: the slots before were not empty, and the tombstone that it noted is free.
record Seeks (start : ℕ) (a : Arena) (i : ℕ) (first : Option ℕ) : Type 0 where
  full : (j : ℕ) → j < i → (a.slots (probe start j)).state ≢ state_empty
  noted : (t : ℕ) → first ≡ some t → (t < slot_count) × (¬ Occupied (a.slots t))

-- A slot that was never used.
abbrev pub HasEmpty : Arena → Type 0
HasEmpty a = (q : ℕ) × (q < slot_count) × ((a.slots q).state ≡ state_empty)

init-state : (s : Slot) → (init s).state ≡ state_empty
unfolding init
init-state s = refl

flush_all-used : (a : Arena) → used_count (flush_all a) ≡ 0
unfolding flush_all used_count
flush_all-used a = refl

abbrev Exact : Arena × SetResult → Type 0
Exact run = IsExact run.0

module _ (clock : Clock) (key value : Bytes) (hash start expiry : ℕ) {a : Arena}
    (alive : IsAlive (λ i. clock (suc i)) hash start a) (inside : start < slot_count)
    (empty : HasEmpty a) (exact : IsExact a) where
  Seeks-next :
      {i : ℕ} {first : Option ℕ}
      → Seeks start a i first
      → (a.slots (probe start i)).state ≢ state_empty
      → Seeks start a (suc i) first
  Seeks-next {i} h n = record { full = λ j lt. earlier j lt (below j i lt); noted = h.noted }
    where
      earlier :
          (j : ℕ) → j < suc i → (j < i) ⊎ (j ≡ i) → (a.slots (probe start j)).state ≢ state_empty
      earlier j lt (inl lt') = h.full j lt'
      earlier j lt (inr e) = rw e n

  Seeks-note :
      {i p : ℕ} (first : Option ℕ)
      → p < slot_count
      → ¬ Occupied (a.slots p)
      → Seeks start a i first
      → Seeks start a i (note_first first p)
  Seeks-note (some t) lt free h = h
  Seeks-note {p = p} none lt free h = record {
    full = h.full;
    noted = λ t e.
        let same : p ≡ t = cc in
        subst (λ q. (q < slot_count) × (¬ Occupied (a.slots q))) same (lt, free);
  }

  -- The claim at an empty slot.
  claims :
      {i : ℕ} (first : Option ℕ)
      → Seeks start a i first
      → (a.slots (probe start i)).state ≡ state_empty
      → (let t = unwrap_or first (probe start i) in
          IsExact (fetch_add_used (slot_mut a t (claim_slot (a.slots t) hash key value expiry))))
  claims {i} none h e =
      counted a (probe start i) hash key value expiry (probe-lt start i) (λ o. omega arith) exact
  claims (some t) h e =
      let (lt, free) = h.noted t refl in counted a t hash key value expiry lt free exact

  set_loop-IsExact :
      (left i : ℕ) (first : Option ℕ)
      → i + left ≡ slot_count
      → Seeks start a i first
      → Exact (set_loop clock key value hash start expiry a first left i)
  unfolding set_loop slot
  set_loop-IsExact zero i first e h =
      let (q, lt, at) = empty in
      let (j, lj, there, once) = probe_covers start q inside lt in
      absurd (h.full j (omega arith) (ap (λ r. (a.slots r).state) there ∙ at))
  set_loop-IsExact (suc left) i first e h =
      let idx = probe start i in
      let s = a.slots idx in
      both Exact (s.state == state_empty) (λ z. claims first h (ground arith))
        λ full.
          let on = Seeks-next h (λ z. ground arith) in
          let next = set_loop-IsExact left (suc i) first (omega arith) on in
          both Exact (s.state == state_tombstone)
            (λ t.
              set_loop-IsExact left (suc i) (note_first first idx) (omega arith)
                (Seeks-note first (probe-lt start i) (λ o. ground arith) on))
            λ live.
              both Exact (s.state == state_occupied)
                (λ o.
                  both Exact (not (s.fingerprint == hash)) (λ _. next)
                    λ same.
                      let stays =
                        alive_stays (clock (suc i)) s (alive i (occupied_of s o) (ground arith)) in
                      both Exact (lazy_evict_if_expired (clock (suc i)) s).1 (λ dead. absurd cc)
                        λ _.
                          both Exact
                            (not
                              (bytes_eq (read_key (lazy_evict_if_expired (clock (suc i)) s).0) key))
                            (λ _. next)
                            (λ mine.
                              rw (lazy_evict-false (clock (suc i)) s stays)
                                (updated-IsExact a idx expiry value (probe-lt start i) exact)))
                (λ _. next)

-- An operation meets no entry that has run out: none of its key's hash, in the slot of a round, at the reading of that round.
abbrev pub MeetsAlive : Op → Arena → Type 0
MeetsAlive (op_get clock key) a = IsAlive clock (siphash key) (primary_index key) a
MeetsAlive (op_exists clock key) a = IsAlive clock (siphash key) (primary_index key) a
MeetsAlive (op_set clock key value ttl_secs) a =
    IsAlive (λ i. clock (suc i)) (siphash key) (primary_index key) a
MeetsAlive (op_del key) a = Unit {0}
MeetsAlive op_flush a = Unit {0}

flush_all-IsExact : (a : Arena) → IsExact (flush_all a)
unfolding used_count
flush_all-IsExact a =
    flush_all-used a
    ∙ sym (
        none_occupied (flush_all a).slots
          (λ p lt. ap (λ s. s.state) (flush_all-slots a p lt) ∙ init-state (a.slots p)))

-- The counter of the header stays the number of occupied slots under every operation, on an arena where it is
-- that number and some slot was never used, when a GET, EXISTS or SET finds no entry with the hash of its key that
-- has run out: whatever round's slot it stands in, it is alive at the clock reading of that round. Other entries may
-- have run out.
pub run_op-IsExact :
    (op : Op) (a : Arena) → MeetsAlive op a → HasEmpty a → IsExact a → IsExact (run_op a op).0
unfolding run_op exists get set del primary_index
run_op-IsExact (op_get clock key) a alive empty e =
    subst IsExact
      (sym (get_loop-alive clock key (siphash key) (primary_index key) alive slot_count 0)) e
run_op-IsExact (op_exists clock key) a alive empty e =
    subst IsExact
      (sym (get_loop-alive clock key (siphash key) (primary_index key) alive slot_count 0)) e
run_op-IsExact (op_set clock key value ttl_secs) a alive empty e =
    set_loop-IsExact clock key value (siphash key) (primary_index key)
      (ttl_to_expiry (clock 0) ttl_secs) alive (primary_index-lt key) empty e slot_count 0 none
      (omega arith) (record { full = λ j lt. absurd (omega arith); noted = λ t no. absurd cc })
run_op-IsExact (op_del key) a alive empty e =
    del_loop-IsExact key (siphash key) (primary_index key) a slot_count 0 e
run_op-IsExact op_flush a alive empty e = flush_all-IsExact a
