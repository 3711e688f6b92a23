-- ===== src/Hashmap/SetFree.antt =====
-- SET of src/hashmap.rs for a key that is in no slot: it claims a free slot, or there is none.
use memlane.Arena.{Arena, ArenaHeader, slot_count, slot_mut}
use memlane.Hashmap.Invariant.{Occupied, IsReached}
use memlane.Hashmap.Probe.{
  probe-lt, probe-injective, distance, distance-lt, probe-distance, primary_index-lt,
}
use memlane.Hashmap.Walk.{IsOther, Passes, PassesBefore}
use memlane.Hashmap.{
  Clock, SetResult, inserted, full, primary_index, probe, claim_slot, fetch_add_used, set_loop,
}
use memlane.Prelude.{
  ℕ, zero, suc, ◌+◌, ◌<◌, ◌≤◌, ◌≡◌, ◌≢◌, refl, sym, ap, subst, ◌∙◌, ◌⊎◌, inl, inr, Bytes, arith,
  Option, none, some,
}
use memlane.Sip.{siphash}
use memlane.Slot.{state_empty, state_tombstone}
use memlane.Hashmap.SetLoop.{
  below, NotedFirst, NotedFirst-next, next_first, set_loop-pass, set_loop-stop, set_loop-full,
  set_loop-reuse,
}

-- Where SET puts a new key: a slot that is not occupied, and that no empty slot precedes on the probe
-- sequence of the key. The count of the header may have been raised.
pub record Claims (a : Arena) (key value : Bytes) (expiry : ℕ) (run : Arena × SetResult)
    : Type 0 where
  pub place : ℕ
  pub header : ArenaHeader
  pub inside : place < slot_count
  pub free : ¬ Occupied (a.slots place)
  pub path : IsReached a key place
  pub arena_eq :
      run.0
      ≡ record (slot_mut a place (claim_slot (a.slots place) (siphash key) key value expiry)) {
        header = header;
      }
  pub result_eq : run.1 ≡ inserted

-- No slot is empty or a tombstone, and SET changed nothing.
pub record Refuses (a : Arena) (run : Arena × SetResult) : Type 0 where
  pub no_room :
      (p : ℕ)
      → p < slot_count
      → ((a.slots p).state ≢ state_empty) × ((a.slots p).state ≢ state_tombstone)
  pub unchanged : run ≡ (a, full)

pub IsReached-of_before :
    (a : Arena) (key : Bytes) (i : ℕ)
    → i < slot_count
    → ((j : ℕ) → j < i → (a.slots (probe (primary_index key) j)).state ≢ state_empty)
    → IsReached a key (probe (primary_index key) i)
IsReached-of_before a key i hi before i' j hi' hj e =
    before j (omega (arith, probe-injective (primary_index key) i' i hi' hi e))

module _ (clock : Clock) (key value : Bytes) (expiry : ℕ) (a : Arena) where
  abbrev start : ℕ
  start = primary_index key

  abbrev loop : Option ℕ → ℕ → ℕ → Arena × SetResult
  loop = set_loop clock key value (siphash key) start expiry a

  claim_at :
      (i : ℕ) {run : Arena × SetResult}
      → i < slot_count
      → PassesBefore a (IsOther (siphash key)) start i
      → (t : ℕ) → probe start i ≡ t
      → ¬ Occupied (a.slots t)
      → (header : ArenaHeader)
      → run ≡ (
        record (slot_mut a t (claim_slot (a.slots t) (siphash key) key value expiry)) {
          header = header;
        },
        inserted,
      )
      → Claims a key value expiry run
  claim_at i {run} hi before t at free header e = record {
    place = t;
    header = header;
    inside = rw (sym at) (probe-lt start i);
    free = free;
    path = rw (sym at) (IsReached-of_before a key i hi (λ j lt. (before j lt).not_empty));
    arena_eq = ap (λ r. r.0) e;
    result_eq = ap (λ r. r.1) e;
  }

  claim_empty :
      (left i : ℕ) (first : Option ℕ)
      → i + suc left ≡ slot_count
      → PassesBefore a (IsOther (siphash key)) start i
      → NotedFirst a start i first
      → (a.slots (probe start i)).state ≡ state_empty
      → Claims a key value expiry (loop first (suc left) i)
  unfolding fetch_add_used
  claim_empty left i none e before noted here =
      claim_at i (omega arith) before (probe start i) refl (λ o. omega arith) _
        (set_loop-stop clock key value (siphash key) start expiry a none left i here)
  claim_empty left i (some t) e before (j, lt, at, dead) here =
      claim_at j (omega arith) (λ k lk. before k (omega arith)) t at (λ o. omega arith) _
        (set_loop-stop clock key value (siphash key) start expiry a (some t) left i here)

  before_suc :
      (i : ℕ)
      → PassesBefore a (IsOther (siphash key)) start i
      → Passes a (IsOther (siphash key)) start i
      → PassesBefore a (IsOther (siphash key)) start (suc i)
  before_suc i before here j lt = elim (below j i lt) [
    | inl lt' ↦ before j lt'
    | inr e ↦ subst (λ k. Passes a (IsOther (siphash key)) start k) (sym e) here
  ]

  empty? : (x : ℕ) → (x ≡ state_empty) ⊎ (x ≢ state_empty)
  empty? x = ground arith

  -- From round i on, with every round before it passed and the key in no slot from it on.
  pub set_loop_absent :
      (left i : ℕ) (first : Option ℕ)
      → i + left ≡ slot_count
      → PassesBefore a (IsOther (siphash key)) start i
      → NotedFirst a start i first
      → ((j : ℕ) → i ≤ j → j < slot_count → IsOther (siphash key) (a.slots (probe start j)))
      → Claims a key value expiry (loop first left i) ⊎ Refuses a (loop first left i)
  unfolding slot_mut
  set_loop_absent zero i none e before noted others = inr (record {
    no_room = λ p hp.
        let d = distance start p in
        let d-i : d < i = omega (arith, distance-lt start p) in
        rw (probe-distance start p (primary_index-lt key) hp) at (
          let pair : ((a.slots (probe start d)).state ≢ state_empty)
              × ((a.slots (probe start d)).state ≢ state_tombstone) =
            ((before d d-i).not_empty, noted d d-i) in
          pair);
    unchanged = set_loop-full clock key value (siphash key) start expiry a i;
  })
  set_loop_absent zero i (some t) e before (j, lt, at, dead) others = inl (
      claim_at j (omega arith) (λ k lk. before k (omega arith)) t at (λ o. omega arith) a.header
        (set_loop-reuse clock key value (siphash key) start expiry a t i ∙ same_header t))
    where
      same_header :
          (t : ℕ)
          → ◌≡◌ {A = Arena × SetResult}
              (slot_mut a t (claim_slot (a.slots t) (siphash key) key value expiry), inserted)
              (
                record (slot_mut a t (claim_slot (a.slots t) (siphash key) key value expiry)) {
                  header = a.header;
                },
                inserted,
              )
      same_header t = refl
  set_loop_absent (suc left) i first e before noted others =
      elim (empty? (a.slots (probe start i)).state) [
        | inl none_here ↦ inl (claim_empty left i first e before noted none_here)
        | inr ne ↦
            let here : Passes a (IsOther (siphash key)) start i = record {
              not_empty = ne;
              other = others i (omega arith) (omega arith);
            } in
            rw (set_loop-pass clock key value (siphash key) start expiry a first left i here) (
              set_loop_absent left (suc i) (next_first a start i first) (omega arith)
                (before_suc i before here) (NotedFirst-next a start i first noted)
                (λ j lo hi. others j (omega arith) hi))
      ]
