-- ===== src/Hashmap/SetLoop.antt =====
-- The loop of SET in src/hashmap.rs, round by round, and where it ends for a key that is in no slot.
use mathlib.Core.Path.{ap₂}
use memlane.Arena.{Arena, slot, slot_mut}
use memlane.Hashmap.Claim.{revalue}
use memlane.Hashmap.Invariant.{Occupied}
use memlane.Hashmap.Walk.{IsOther, Passes}
use memlane.Hashmap.{
  Clock, inserted, updated, full, note_first, probe, claim_slot, fetch_add_used, set_end, set_loop,
  unwrap_or,
}
use memlane.Prelude.{
  ℕ, zero, suc, ◌+◌, ◌<◌, ◌≤◌, ◌≡◌, ◌≢◌, refl, subst, ◌∙◌, ◌⊎◌, inl, inr, ◌==◌, Bytes, eq→bytes_eq,
  arith, Option, none, some, if◌then◌else◌, false, true, Bool-cases, ==_iff,
}
use memlane.Slot.{state_empty, state_tombstone, read_key}
use memlane.Ttl.{bury, is_expired, lazy_evict_if_expired}

-- `first_tombstone` at round i: the first tombstone among the rounds before, if there is one.
abbrev pub NotedFirst : Arena → (start i : ℕ) → Option ℕ → Type 0
NotedFirst a start i none = (j : ℕ) → j < i → (a.slots (probe start j)).state ≢ state_tombstone
NotedFirst a start i (some t) =
    (j : ℕ) × (j < i) × (probe start j ≡ t) × ((a.slots t).state ≡ state_tombstone)

-- `first_tombstone` after a round that passes.
abbrev pub next_first : Arena → (start i : ℕ) → Option ℕ → Option ℕ
next_first a start i first =
    if (a.slots (probe start i)).state == state_tombstone
    then note_first first (probe start i)
    else first

pub below : (j i : ℕ) → j < suc i → (j < i) ⊎ (j ≡ i)
below j i h = omega arith

pub NotedFirst-next :
    (a : Arena) (start i : ℕ) (first : Option ℕ)
    → NotedFirst a start i first
    → NotedFirst a start (suc i) (next_first a start i first)
NotedFirst-next a start i none h =
    elim (Bool-cases ((a.slots (probe start i)).state == state_tombstone)) [
      | inl e ↦ rw e (i, omega arith, refl, (==_iff _ _).0 e)
      | inr n ↦ rw n (λ j lt. elim (below j i lt) [
        | inl lt' ↦ h j lt'
        | inr e ↦ λ dead. cc (n, (==_iff _ _).1 (rw e at dead))
      ])
    ]
NotedFirst-next a start i (some t) (j, lt, at, dead) =
    elim (Bool-cases ((a.slots (probe start i)).state == state_tombstone)) [
      | inl e ↦ rw e (j, omega arith, at, dead)
      | inr n ↦ rw n (j, omega arith, at, dead)
    ]

module _ (clock : Clock) (key value : Bytes) (hash start expiry : ℕ) (a : Arena) where
  pub set_loop-pass :
      (first : Option ℕ) (left i : ℕ)
      → Passes a (IsOther hash) start i
      → set_loop clock key value hash start expiry a first (suc left) i
        ≡ set_loop clock key value hash start expiry a (next_first a start i first) left (suc i)
  unfolding set_loop slot
  set_loop-pass first left i p = ground (arith, p.other)

  pub set_loop-stop :
      (first : Option ℕ) (left i : ℕ)
      → (a.slots (probe start i)).state ≡ state_empty
      → set_loop clock key value hash start expiry a first (suc left) i ≡ (
          let t = unwrap_or first (probe start i) in
          (fetch_add_used (slot_mut a t (claim_slot (a.slots t) hash key value expiry)), inserted))
  unfolding set_loop slot
  set_loop-stop first left i e = ground arith

  pub set_loop-full : (i : ℕ) → set_loop clock key value hash start expiry a none 0 i ≡ (a, full)
  unfolding set_loop set_end
  set_loop-full i = refl

  pub set_loop-reuse :
      (t i : ℕ)
      → set_loop clock key value hash start expiry a (some t) 0 i
        ≡ (slot_mut a t (claim_slot (a.slots t) hash key value expiry), inserted)
  unfolding set_loop set_end slot
  set_loop-reuse t i = refl

  pub set_loop-live :
      (first : Option ℕ) (left i : ℕ)
      → Occupied (a.slots (probe start i))
      → (a.slots (probe start i)).fingerprint ≡ hash
      → read_key (a.slots (probe start i)) ≡ key
      → is_expired (clock (suc i)) (a.slots (probe start i)) ≡ false
      → set_loop clock key value hash start expiry a first (suc left) i
        ≡ (slot_mut a (probe start i) (revalue (a.slots (probe start i)) value expiry), updated)
  unfolding set_loop slot lazy_evict_if_expired
  set_loop-live first left i o f k live =
      ground (arith, eq→bytes_eq (read_key (a.slots (probe start i))) key)

  pub set_loop-dead :
      (first : Option ℕ) (left i : ℕ)
      → Occupied (a.slots (probe start i))
      → (a.slots (probe start i)).fingerprint ≡ hash
      → is_expired (clock (suc i)) (a.slots (probe start i)) ≡ true
      → set_loop clock key value hash start expiry a first (suc left) i
        ≡ set_loop clock key value hash start expiry
            (slot_mut a (probe start i) (bury (a.slots (probe start i))))
            (note_first first (probe start i))
            left
            (suc i)
  unfolding set_loop slot lazy_evict_if_expired bury
  set_loop-dead first left i o f dead = ground arith

-- Rounds that pass, from round i to round j, with what they note.
pub set_loop_walk :
    (clock : Clock) (key value : Bytes) (hash start expiry : ℕ) (a : Arena)
    → (d left n i j : ℕ) (first : Option ℕ) → n ≡ d + left
    → i + d ≡ j
    → ((k : ℕ) → i ≤ k → k < j → Passes a (IsOther hash) start k)
    → NotedFirst a start i first
    → (after : Option ℕ) × (set_loop clock key value hash start expiry a first n i
        ≡ set_loop clock key value hash start expiry a after left j)
      × NotedFirst a start j after
set_loop_walk clock key value hash start expiry a zero left n i j first e ij p noted =
    let i-j : i ≡ j = omega arith in
    let n-left : n ≡ left = omega arith in
    (
      first,
      ap₂ (λ x y. set_loop clock key value hash start expiry a first x y) n-left i-j,
      subst (λ k. NotedFirst a start k first) i-j noted,
    )
set_loop_walk clock key value hash start expiry a (suc d) left zero i j first e ij p noted =
    absurd (omega arith)
set_loop_walk clock key value hash start expiry a (suc d) left (suc n) i j first e ij p noted =
    let (after, run, noted') =
      set_loop_walk clock key value hash start expiry a d left n (suc i) j
        (next_first a start i first) (omega arith) (omega arith) (λ k lo hi. p k (omega arith) hi)
        (NotedFirst-next a start i first noted) in
    (
      after,
      set_loop-pass clock key value hash start expiry a first n i (p i (omega arith) (omega arith))
          ∙ run,
      noted',
    )
