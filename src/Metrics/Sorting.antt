-- ===== src/Metrics/Sorting.antt =====
-- The sort of the samples in src/server/ws_bridge.rs: ascending, with the samples and no others, and the
-- same for every order of them.
use memlane.Metrics.{insert_sorted, sort_unstable, get_or_zero}
use memlane.Prelude.{
  ℕ, zero, suc, ◌≤◌, ◌<◌, ◌≡◌, refl, ap, ◌∙◌, ◌⊎◌, inl, inr, Bool-cases, List, [], ◌∷◌, leb, length,
  arith,
}

-- Every element is at least `x`.
abbrev pub IsBelow : ℕ → List ℕ → Type 0
IsBelow x [] = Unit {0}
IsBelow x (y ∷ ys) = (x ≤ y) × IsBelow x ys

abbrev pub IsAscending : List ℕ → Type 0
IsAscending [] = Unit {0}
IsAscending (x ∷ xs) = IsBelow x xs × IsAscending xs

abbrev pub Among : ℕ → List ℕ → Type 0
Among x [] = ⊥
Among x (y ∷ ys) = (x ≡ y) ⊎ Among x ys

IsBelow-mono : (x y : ℕ) (l : List ℕ) → x ≤ y → IsBelow y l → IsBelow x l
IsBelow-mono x y [] h b = tt
IsBelow-mono x y (z ∷ l) h (le, b) = (omega arith, IsBelow-mono x y l h b)

insert_sorted-IsBelow : (x y : ℕ) (l : List ℕ) → x ≤ y → IsBelow x l → IsBelow x (insert_sorted y l)
unfolding insert_sorted
insert_sorted-IsBelow x y [] h b = (h, tt)
insert_sorted-IsBelow x y (z ∷ l) h (le, b) = elim (Bool-cases (leb y z)) [
  | inl e ↦ rw e (h, (le, b))
  | inr e ↦ rw e (le, insert_sorted-IsBelow x y l h b)
]

insert_sorted-IsAscending : (y : ℕ) (l : List ℕ) → IsAscending l → IsAscending (insert_sorted y l)
unfolding insert_sorted
insert_sorted-IsAscending y [] h = (tt, tt)
insert_sorted-IsAscending y (z ∷ l) (below, h) = elim (Bool-cases (leb y z)) [
  | inl e ↦ let le : y ≤ z = ground arith in rw e ((le, IsBelow-mono y z l le below), (below, h))
  | inr e ↦
      let le : z ≤ y = ground arith in
      rw e (insert_sorted-IsBelow z y l le below, insert_sorted-IsAscending y l h)
]

pub sort_unstable-IsAscending : (l : List ℕ) → IsAscending (sort_unstable l)
unfolding sort_unstable
sort_unstable-IsAscending [] = tt
sort_unstable-IsAscending (x ∷ l) =
    insert_sorted-IsAscending x (sort_unstable l) (sort_unstable-IsAscending l)

length-insert_sorted : (x : ℕ) (l : List ℕ) → length (insert_sorted x l) ≡ suc (length l)
unfolding insert_sorted
length-insert_sorted x [] = refl
length-insert_sorted x (y ∷ l) = ground (arith, length-insert_sorted x l)

pub length-sort_unstable : (l : List ℕ) → length (sort_unstable l) ≡ length l
unfolding sort_unstable
length-sort_unstable [] = refl
length-sort_unstable (x ∷ l) =
    length-insert_sorted x (sort_unstable l) ∙ ap suc (length-sort_unstable l)

Among-inserted : (v x : ℕ) (l : List ℕ) → Among v (insert_sorted x l) → (v ≡ x) ⊎ Among v l
unfolding insert_sorted
Among-inserted v x [] m = m
Among-inserted v x (y ∷ l) m = elim (Bool-cases (leb x y)) [
  | inl e ↦ rw e at m
  | inr e ↦ among_further v x y l (Among-inserted v x l) (rw e at m)
]
  where
    among_further :
        (v x y : ℕ) (l : List ℕ)
        → (Among v (insert_sorted x l) → (v ≡ x) ⊎ Among v l)
        → Among v (y ∷ insert_sorted x l)
        → (v ≡ x) ⊎ Among v (y ∷ l)
    among_further v x y l rec (inl e) = inr (inl e)
    among_further v x y l rec (inr m) = elim (rec m) [ inl e ↦ inl e | inr m' ↦ inr (inr m') ]

pub Among-sort_unstable : (v : ℕ) (l : List ℕ) → Among v (sort_unstable l) → Among v l
unfolding sort_unstable
Among-sort_unstable v [] m = m
Among-sort_unstable v (x ∷ l) m = elim (Among-inserted v x (sort_unstable l) m) [
  | inl e ↦ inl e
  | inr m' ↦ inr (Among-sort_unstable v l m')
]

insert_sorted_comm :
    (x y : ℕ) (l : List ℕ)
    → insert_sorted x (insert_sorted y l) ≡ insert_sorted y (insert_sorted x l)
unfolding insert_sorted
insert_sorted_comm x y [] = ground arith
insert_sorted_comm x y (z ∷ l) = ground (arith, insert_sorted_comm x y l)

-- The same elements in another order: neighbours changed places, any number of times.
pub data Reordered {ℓ} {A : Type ℓ} : List A → List A → Type ℓ where
  as_is : {l : List A} → Reordered l l
  keep_first : {x : A} {l r : List A} → Reordered l r → Reordered (x ∷ l) (x ∷ r)
  exchange : {x y : A} {l r : List A} → Reordered l r → Reordered (x ∷ y ∷ l) (y ∷ x ∷ r)
  and_again : {l m r : List A} → Reordered l m → Reordered m r → Reordered l r

pub sort_unstable-Reordered : {l r : List ℕ} → Reordered l r → sort_unstable l ≡ sort_unstable r
unfolding sort_unstable
sort_unstable-Reordered as_is = refl
sort_unstable-Reordered (keep_first {x = x} p) = ap (insert_sorted x) (sort_unstable-Reordered p)
sort_unstable-Reordered (exchange {x = x} {y = y} {l = l} p) =
    insert_sorted_comm x y (sort_unstable l)
    ∙ ap (λ m. insert_sorted y (insert_sorted x m)) (sort_unstable-Reordered p)
sort_unstable-Reordered (and_again p q) = sort_unstable-Reordered p ∙ sort_unstable-Reordered q

below_get : (x : ℕ) (l : List ℕ) (j : ℕ) → IsBelow x l → j < length l → x ≤ get_or_zero l j
unfolding get_or_zero
below_get x [] j b lt = absurd (omega arith)
below_get x (y ∷ l) zero (le, b) lt = le
below_get x (y ∷ l) (suc j) (le, b) lt = below_get x l j b (omega arith)

pub get_or_zero_mono :
    (l : List ℕ) (i j : ℕ)
    → IsAscending l
    → i ≤ j
    → j < length l
    → get_or_zero l i ≤ get_or_zero l j
unfolding get_or_zero
get_or_zero_mono [] i j h le lt = absurd (omega arith)
get_or_zero_mono (x ∷ l) zero zero h le lt = omega arith
get_or_zero_mono (x ∷ l) zero (suc j) (below, h) le lt = below_get x l j below (omega arith)
get_or_zero_mono (x ∷ l) (suc i) zero h le lt = absurd (omega arith)
get_or_zero_mono (x ∷ l) (suc i) (suc j) (below, h) le lt =
    get_or_zero_mono l i j h (omega arith) (omega arith)

pub get_or_zero-Among : (l : List ℕ) (i : ℕ) → i < length l → Among (get_or_zero l i) l
unfolding get_or_zero
get_or_zero-Among [] i lt = absurd (omega arith)
get_or_zero-Among (x ∷ l) zero lt = inl refl
get_or_zero-Among (x ∷ l) (suc i) lt = inr (get_or_zero-Among l i (omega arith))
