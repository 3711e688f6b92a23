-- ===== src/Hashmap/Race/Phases.antt =====
-- src/hashmap.rs: what the single steps of concurrent deletions do to a thread and to a slot.
use memlane.Arena.{Arena, slot_mut}
use memlane.Hashmap.Invariant.{Occupied}
use memlane.Hashmap.Race.{Phase, looking, swapping, counting, returned, after_load, after_compare}
use memlane.Hashmap.SafeRead.{both}
use memlane.Hashmap.{deleted}
use memlane.Prelude.{
  ℕ, suc, ◌≡◌, ◌≢◌, refl, ap, ◌⊎◌, inl, inr, true, false, Bool-cases, not, Bytes, bytes_eq,
  bytes_eq→eq, ◌==◌, ==_iff, update, arith, subst,
}
use memlane.Sip.{siphash}
use memlane.Slot.{Slot, state_empty, state_occupied, state_tombstone, read_key, compare_exchange}
use memlane.Ttl.{bury}

-- The thread has made a slot a tombstone.
abbrev pub HasWon : Phase → Type 0
HasWon counting = Unit {0}
HasWon (returned deleted) = Unit {0}
HasWon _ = ⊥

-- The threads have taken entries out of the arena `b`, and changed no key.
pub record Shrinks (a b : Arena) : Type 0 where
  pub kept : (p : ℕ) → read_key (b.slots p) ≡ read_key (a.slots p)
  pub was : (p : ℕ) → Occupied (b.slots p) → Occupied (a.slots p)

pub at_each :
    {A : Type 0} (P : ℕ → A → Type 0) (f : ℕ → A) (i : ℕ) (x : A)
    → P i x
    → ((j : ℕ) → j ≢ i → P j (f j))
    → (j : ℕ) → P j (update f i x j)
at_each P f i x here there j = elim (Bool-cases (j == i)) [
  | inl e ↦ rw (e, (==_iff j i).0 e) here
  | inr e ↦ rw e (there j (ground arith))
]

pub Shrinks-slot_mut :
    (a : Arena) (p : ℕ) (s : Slot)
    → read_key s ≡ read_key (a.slots p)
    → (Occupied s → Occupied (a.slots p))
    → Shrinks a (slot_mut a p s)
unfolding slot_mut
Shrinks-slot_mut a p s kept was = record {
  kept = at_each (λ q x. read_key x ≡ read_key (a.slots q)) a.slots p s kept (λ q n. refl);
  was = at_each (λ q x. Occupied x → Occupied (a.slots q)) a.slots p s was (λ q n o. o);
}

-- The phase is not that of a winner, nor one that is about to be.
abbrev pub Loses : Phase → Type 0
Loses ph = (HasWon ph → ⊥) × ((j : ℕ) → ph ≡ swapping j → ⊥)

pub looking-Loses : (i : ℕ) → Loses (looking i)
looking-Loses i = (λ w. w, λ j e. absurd cc)

pub after_load-Loses : (i : ℕ) (x : Slot) → Loses (after_load i x)
unfolding after_load
after_load-Loses i x =
    both Loses (x.state == state_empty) (λ _. (λ w. w, λ j e. absurd cc))
      λ _.
        both Loses (x.state == state_tombstone) (λ _. looking-Loses (suc i))
          λ _.
            both Loses (x.state == state_occupied) (λ _. (λ w. w, λ j e. absurd cc))
              (λ _. looking-Loses (suc i))

-- The phase is not that of a winner, and about to be one only with the key in its slot.
abbrev pub Aims : Bytes → ℕ → Slot → Phase → Type 0
Aims key i x ph = (HasWon ph → ⊥) × ((j : ℕ) → ph ≡ swapping j → (i ≡ j) × (read_key x ≡ key))

pub looking-Aims : (key : Bytes) (i l : ℕ) (x : Slot) → Aims key i x (looking l)
looking-Aims key i l x = (λ w. w, λ j e. absurd cc)

pub after_compare-Aims : (key : Bytes) (i : ℕ) (x : Slot) → Aims key i x (after_compare key i x)
unfolding after_compare
after_compare-Aims key i x =
    both (Aims key i x) (not (x.fingerprint == siphash key)) (λ _. looking-Aims key i (suc i) x)
      λ _.
        both (Aims key i x) (not (bytes_eq (read_key x) key)) (λ _. looking-Aims key i (suc i) x)
          λ e. (λ w. w, λ j aim. (cc, bytes_eq→eq (read_key x) key (ground (arith, e))))

pub swap_cases :
    (x : Slot)
    → (Occupied x
        × (compare_exchange state_occupied state_tombstone x
            ≡ (record x { state = state_tombstone }, true)))
      ⊎ (compare_exchange state_occupied state_tombstone x ≡ (x, false))
unfolding compare_exchange
swap_cases x = elim (Bool-cases (x.state == state_occupied)) [
  | inl e ↦ inl ((==_iff _ _).0 e, rw e refl)
  | inr e ↦ inr (rw e refl)
]

pub read_key-bury : (x : Slot) → read_key (bury x) ≡ read_key x
unfolding bury read_key
read_key-bury x = elim (swap_cases x) [
  | inl (o, e) ↦ ap (λ r. read_key r.0) e
  | inr e ↦ ap (λ r. read_key r.0) e
]

pub bury-Occupied : (x : Slot) → Occupied (bury x) → Occupied x
unfolding bury
bury-Occupied x o = elim (swap_cases x) [ inl (o', e) ↦ o' | inr e ↦ subst (λ r. Occupied r.0) e o ]
