-- ===== src/Hashmap/Walk.antt =====
-- What the three loops of src/hashmap.rs share: rounds that pass a slot by, the end of a scan, and
-- the round at which a key that is stored is met.
use memlane.Arena.{Arena, slot_count}
use memlane.Hashmap.Invariant.{Occupied, IsReached, IsValid, Stores, NoCollision}
use memlane.Hashmap.Probe.{
  primary_index-lt, probe-lt, probe-injective, distance, distance-lt, probe-distance,
}
use memlane.Hashmap.{primary_index, probe}
use memlane.Prelude.{
  ℕ, zero, suc, ◌+◌, ◌-◌, ◌<◌, ◌≤◌, ◌≡◌, ◌≢◌, sym, ap, subst, ◌∙◌, ◌⊎◌, inl, inr, Bytes, arith,
}
use memlane.Sip.{siphash}
use memlane.Slot.{Slot, state_empty, read_key}

-- A slot that holds no key with the fingerprint `hash`.
abbrev pub IsOther : ℕ → Slot → Type 0
IsOther hash s = Occupied s → s.fingerprint ≢ hash

-- A slot that does not hold `key`.
abbrev pub IsOtherKey : Bytes → Slot → Type 0
IsOtherKey key s = Occupied s → read_key s ≢ key

-- A round that does not end the loop.
pub record Passes (a : Arena) (Q : Slot → Type 0) (start i : ℕ) : Type 0 where
  pub not_empty : (a.slots (probe start i)).state ≢ state_empty
  pub other : Q (a.slots (probe start i))

-- `d` rounds from round `i` on.
abbrev PassesFor : Arena → (Slot → Type 0) → (start i d : ℕ) → Type 0
PassesFor a Q start i d = (j : ℕ) → i ≤ j → j < i + d → Passes a Q start j

walk_from {ℓ} :
    {X : Type ℓ} {P : ℕ → Type 0} (loop : ℕ → ℕ → X)
    → ((left i : ℕ) → P i → loop (suc left) i ≡ loop left (suc i))
    → (d left i n : ℕ) → n ≡ d + left
    → ((j : ℕ) → i ≤ j → j < i + d → P j)
    → loop n i ≡ loop left (i + d)
walk_from loop pass zero left i n e p =
    let n-left : n ≡ left = omega arith in
    let i-zero : i + 0 ≡ i = omega arith in rw (n-left, i-zero)
walk_from loop pass (suc d) left i zero e p = absurd (omega arith)
walk_from loop pass (suc d) left i (suc n) e p =
    let shift : suc i + d ≡ i + suc d = omega arith in
    pass n i (p i (omega arith) (omega arith))
    ∙ rw shift at (
        walk_from loop pass d left (suc i) n (omega arith)
          (λ j lo hi. p j (omega arith) (omega arith)))

Passes-cons :
    {a : Arena} {Q : Slot → Type 0} {start i : ℕ} (n : ℕ)
    → Passes a Q start i
    → PassesFor a Q start (suc i) n
    → PassesFor a Q start i (suc n)
Passes-cons {a} {Q} {start} {i} n here rest j lo hi = elim (same? j) [
  | inl e ↦ subst (λ k. Passes a Q start k) e here
  | inr ne ↦ rest j (omega arith) (omega arith)
]
  where
    same? : (j : ℕ) → (i ≡ j) ⊎ (i ≢ j)
    same? j = ground arith

-- A scan that meets no slot with the fingerprint either passes all of them, or comes to an empty one.
record StopsFrom (a : Arena) (Q : Slot → Type 0) (start i n d : ℕ) : Type 0 where
  pub within : d < n
  pub before : PassesFor a Q start i d
  pub empty : (a.slots (probe start (i + d))).state ≡ state_empty

scan_from :
    (a : Arena) (Q : Slot → Type 0) (start n i : ℕ)
    → ((j : ℕ) → i ≤ j → j < i + n → Q (a.slots (probe start j)))
    → PassesFor a Q start i n ⊎ ((d : ℕ) × StopsFrom a Q start i n d)
scan_from a Q start zero i h = inl (λ j lo hi. absurd (omega arith))
scan_from a Q start (suc n) i h = elim (empty? (a.slots (probe start i)).state) [
  | inl e ↦ inr (
    0,
    record {
      within = omega arith;
      before = λ j lo hi. absurd (omega arith);
      empty = let i-zero : i + 0 ≡ i = omega arith in rw i-zero e;
    },
  )
  | inr ne ↦ elim (scan_from a Q start n (suc i) (λ j lo hi. h j (omega arith) (omega arith))) [
    | inl all ↦ inl (Passes-cons n (record { not_empty = ne; other = here }) all)
    | inr (d, st) ↦ inr (
      suc d,
      record {
        within = omega arith;
        before = Passes-cons d (record { not_empty = ne; other = here }) st.before;
        empty = let shift : i + suc d ≡ suc i + d = omega arith in rw shift st.empty;
      },
    )
  ]
]
  where
    here : Q (a.slots (probe start i))
    here = h i (omega arith) (omega arith)

    empty? : (x : ℕ) → (x ≡ state_empty) ⊎ (x ≢ state_empty)
    empty? x = ground arith

-- The same from round 0.
abbrev pub PassesBefore : Arena → (Slot → Type 0) → (start d : ℕ) → Type 0
PassesBefore a Q start d = (j : ℕ) → j < d → Passes a Q start j

module _ {ℓ} {X : Type ℓ} {P : ℕ → Type 0} (loop : ℕ → ℕ → X)
    (pass : (left i : ℕ) → P i → loop (suc left) i ≡ loop left (suc i)) where
  pub walk_all : (n : ℕ) → ((j : ℕ) → j < n → P j) → loop n 0 ≡ loop 0 n
  walk_all n p =
      let zero_n : 0 + n ≡ n = omega arith in
      rw zero_n at (walk_from loop pass n 0 0 n (omega arith) (λ j lo hi. p j (omega arith)))

  pub walk : (n d : ℕ) → d < n → ((j : ℕ) → j < d → P j) → loop n 0 ≡ loop (suc (n - suc d)) d
  walk n d h p =
      let zero_d : 0 + d ≡ d = omega arith in
      rw zero_d at
        (walk_from loop pass d (suc (n - suc d)) 0 n (omega arith) (λ j lo hi. p j (omega arith)))

pub record StopsAt (a : Arena) (Q : Slot → Type 0) (start n d : ℕ) : Type 0 where
  pub within : d < n
  pub before : PassesBefore a Q start d
  pub empty : (a.slots (probe start d)).state ≡ state_empty

pub scan :
    (a : Arena) (Q : Slot → Type 0) (start n : ℕ)
    → ((j : ℕ) → j < n → Q (a.slots (probe start j)))
    → PassesBefore a Q start n ⊎ ((d : ℕ) × StopsAt a Q start n d)
scan a Q start n h = elim (scan_from a Q start n 0 (λ j lo hi. h j (omega arith))) [
  | inl all ↦ inl (λ j hi. all j (omega arith) (omega arith))
  | inr (d, st) ↦
      let zero_d : 0 + d ≡ d = omega arith in
      inr (
        d,
        record {
          within = st.within;
          before = λ j hi. st.before j (omega arith) (omega arith);
          empty = rw zero_d at st.empty;
        },
      )
]

-- The round in which the loops for `key` come to slot `p` that holds it.
module _ {a : Arena} {key : Bytes} (v : IsValid a) where
  pub IsOther-of_absent :
      NoCollision a key
      → ((p : ℕ) → ¬ Stores a key p)
      → (i : ℕ) → IsOther (siphash key) (a.slots (probe (primary_index key) i))
  IsOther-of_absent alone absent i o e =
      let p = probe (primary_index key) i in
      let inside = probe-lt (primary_index key) i in
      absent p (record { inside = inside; occupied = o; key_eq = alone p inside o e })

  pub IsOtherKey-of_absent :
      ((p : ℕ) → ¬ Stores a key p)
      → (i : ℕ) → IsOtherKey key (a.slots (probe (primary_index key) i))
  IsOtherKey-of_absent absent i o e =
      let start = primary_index key in
      absent (probe start i) (record { inside = probe-lt start i; occupied = o; key_eq = e })

  module _ {p : ℕ} (st : Stores a key p) where
    pub round : ℕ
    round = distance (primary_index key) p

    pub probe-round : probe (primary_index key) round ≡ p
    unfolding round
    probe-round = probe-distance (primary_index key) p (primary_index-lt key) st.inside

    pub round-lt : round < slot_count
    unfolding round
    round-lt = distance-lt (primary_index key) p

    -- The key is met in this round only.
    pub IsOtherKey-round :
        (j : ℕ)
        → j < slot_count
        → j ≢ round
        → IsOtherKey key (a.slots (probe (primary_index key) j))
    IsOtherKey-round j hj ne o e =
        let start = primary_index key in
        let q-p =
          v.unique (probe start j) p (probe-lt start j) st.inside o st.occupied
            (e ∙ sym st.key_eq) in
        ne (probe-injective start j round hj round-lt (q-p ∙ sym probe-round))

    pub IsOther-round :
        NoCollision a key
        → (j : ℕ) → j < slot_count
        → j ≢ round
        → IsOther (siphash key) (a.slots (probe (primary_index key) j))
    IsOther-round alone j hj ne o e =
        IsOtherKey-round j hj ne o
          (alone (probe (primary_index key) j) (probe-lt (primary_index key) j) o e)

    -- No slot before it is empty.
    pub IsReached-round : IsReached a key p
    IsReached-round = subst (λ k. IsReached a k p) st.key_eq (v.reached p st.inside st.occupied)

    pub passes_before :
        NoCollision a key → PassesBefore a (IsOther (siphash key)) (primary_index key) round
    passes_before alone j hi = record {
      not_empty = IsReached-round round j round-lt hi probe-round;
      other = IsOther-round alone j (omega (arith, round-lt)) (omega arith);
    }

    pub PassesBefore-key : PassesBefore a (IsOtherKey key) (primary_index key) round
    PassesBefore-key j hi = record {
      not_empty = IsReached-round round j round-lt hi probe-round;
      other = IsOtherKey-round j (omega (arith, round-lt)) (omega arith);
    }

    pub at_round :
        (Occupied (a.slots (probe (primary_index key) round)))
        × ((a.slots (probe (primary_index key) round)).fingerprint ≡ siphash key)
        × (read_key (a.slots (probe (primary_index key) round)) ≡ key)
    at_round =
        let f = v.filled p st.inside st.occupied in
        rw probe-round (st.occupied, f.hashed ∙ ap siphash st.key_eq, st.key_eq)
