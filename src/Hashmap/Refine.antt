-- ===== src/Hashmap/Refine.antt =====
-- How an arena of src/hashmap.rs stands for an abstract map.
use mathlib.Core.Path.{fun_ext}
use memlane.Arena.{Arena, ArenaHeader}
use memlane.Hashmap.Invariant.{IsValid, Stores, AbstractMap, assign, Entry, entry, Models}
use memlane.Hashmap.Spec.{is_dead}
use memlane.Prelude.{
  ℕ, ◌≡◌, refl, sym, ap, subst, ◌∙◌, inl, inr, Option, none, some, Bytes, Bool-cases, bytes_eq,
  bytes_eq→eq,
}
use memlane.Slot.{Slot}
use memlane.Ttl.{is_expired}

-- The run of an operation ended in a valid arena that models `m`, with result `r`.
pub record Ends {ℓ} {R : Type ℓ} (run : Arena × R) (m : AbstractMap) (r : R) : Type ℓ where
  pub valid : IsValid run.0
  pub models : Models run.0 m
  pub result : run.1 ≡ r

module _ {a : Arena} {m : AbstractMap} (h : Models a m) (key : Bytes) where
  -- A key of the map is in a slot, with its entry; any other is in none.
  pub stored : (e : Entry) → m key ≡ some e → (p : ℕ) × Stores a key p × (entry (a.slots p) ≡ e)
  stored e has =
      let (p, st) = h.complete key e has in
      let here =
        subst (λ k. m k ≡ some (entry (a.slots p))) st.key_eq (h.sound p st.inside st.occupied) in
      (p, st, cc)

  pub absent : m key ≡ none → (p : ℕ) → ¬ Stores a key p
  absent no_entry p st =
      let here =
        subst (λ k. m k ≡ some (entry (a.slots p))) st.key_eq (h.sound p st.inside st.occupied) in
      cc

pub is_expired-dead : (now : ℕ) (s : Slot) → is_expired now s ≡ is_dead now (entry s)
unfolding is_expired
is_expired-dead now s = refl

-- Writing back what is there changes nothing.
pub assign_same :
    {a : Arena} {m : AbstractMap} (key : Bytes) (e : Option Entry)
    → m key ≡ e
    → Models a m
    → Models a (assign m key e)
assign_same {a} {m} key e has h = rw (fun_ext same) h
  where
    same : (q : Bytes) → assign m key e q ≡ m q
    same q = elim (Bool-cases (bytes_eq q key)) [
      | inl eq ↦ rw eq (sym has ∙ ap m (sym (bytes_eq→eq q key eq)))
      | inr ne ↦ rw ne
    ]

-- The header has no part in the invariant or in the map.
module _ (header : ArenaHeader) {a : Arena} where
  pub header-IsValid : IsValid a → IsValid (record a { header = header })
  header-IsValid v = record {
    sized = v.sized;
    known = v.known;
    filled = v.filled;
    reached = v.reached;
    unique = v.unique;
  }

  pub header-Models : {m : AbstractMap} → Models a m → Models (record a { header = header }) m
  header-Models h = record {
    sound = h.sound;
    complete = λ key e has.
        let (p, st) = h.complete key e has in
        (p, record { inside = st.inside; occupied = st.occupied; key_eq = st.key_eq });
  }
