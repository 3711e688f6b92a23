-- ===== src/Hashmap/Crash/Everywhere.antt =====
-- What holds of every arena that a trace of src/hashmap.rs shows.
use memlane.Arena.{Arena}
use memlane.Hashmap.Crash.{last_of}
use memlane.Prelude.{◌≡◌, refl, List, [], ◌∷◌, ◌++◌}

abbrev pub AllHold {ℓ} : (Arena → Type ℓ) → List Arena → Type ℓ
AllHold P [] = Unit
AllHold P (a ∷ rest) = P a × AllHold P rest

module _ {ℓ} (P : Arena → Type ℓ) where
  pub AllHold-map {κ} :
      (Q : Arena → Type κ) (rest : List Arena)
      → ((a : Arena) → P a → Q a)
      → AllHold P rest
      → AllHold Q rest
  AllHold-map Q [] f vs = tt
  AllHold-map Q (a ∷ rest) f (v, vs) = (f a v, AllHold-map Q rest f vs)

  pub AllHold-last_of : (a : Arena) (rest : List Arena) → P a → AllHold P rest → P (last_of a rest)
  AllHold-last_of a [] v vs = v
  AllHold-last_of a (b ∷ bs) v (w, vs) = AllHold-last_of b bs w vs

  pub AllHold-snoc :
      (rest : List Arena) (b : Arena) → AllHold P rest → P b → AllHold P (rest ++ b ∷ [])
  AllHold-snoc [] b vs v = (v, tt)
  AllHold-snoc (a ∷ rest) b (w, vs) v = (w, AllHold-snoc rest b vs v)

pub last_of-snoc : (a : Arena) (rest : List Arena) (b : Arena) → last_of a (rest ++ b ∷ []) ≡ b
last_of-snoc a [] b = refl
last_of-snoc a (c ∷ cs) b = last_of-snoc c cs b
