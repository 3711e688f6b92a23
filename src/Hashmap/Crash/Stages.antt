-- ===== src/Hashmap/Crash/Stages.antt =====
-- src/hashmap.rs: the slot between two stores of SET.
use memlane.Arena.{Arena, slot_count, slot_mut}
use memlane.Hashmap.Invariant.{Occupied, IsFilled, IsValid}
use memlane.Hashmap.Write.{by_slot}
use memlane.Hashmap.{primary_index, probe}
use memlane.Prelude.{ℕ, ◌<◌, ◌≡◌, refl, sym, ap, ◌∙◌}
use memlane.Slot.Buffers.{IsSized}
use memlane.Slot.{Slot, read_key}

-- A slot between two stores: the state has not changed, and if that shows an entry, the entry is one, of the same key.
pub record IsBetween (s x : Slot) : Type 0 where
  pub state_eq : x.state ≡ s.state
  pub room : IsSized x
  pub filled : Occupied s → IsFilled x
  pub key_kept : Occupied s → read_key x ≡ read_key s

module _ {a : Arena} {t : ℕ} {x : Slot} (v : IsValid a) (w : IsBetween (a.slots t) x) where
  state_kept : (p : ℕ) → ((slot_mut a t x).slots p).state ≡ (a.slots p).state
  state_kept = by_slot a t x (λ p y. y.state ≡ (a.slots p).state) w.state_eq (λ p _. refl)

  key_same :
      (p : ℕ) → Occupied (a.slots p) → read_key ((slot_mut a t x).slots p) ≡ read_key (a.slots p)
  key_same =
      by_slot a t x (λ p y. Occupied (a.slots p) → read_key y ≡ read_key (a.slots p)) w.key_kept
        (λ p _ o. refl)

  pub IsBetween-IsValid : IsValid (slot_mut a t x)
  IsBetween-IsValid = record {
    sized = by_slot a t x (λ p y. p < slot_count → IsSized y) (λ _. w.room) (λ p _. v.sized p);
    known = λ p hp. rw (state_kept p) (v.known p hp);
    filled =
        by_slot a t x (λ p y. p < slot_count → Occupied y → IsFilled y)
          (λ _ o. w.filled (sym w.state_eq ∙ o)) (λ p _. v.filled p);
    reached = λ p hp o i j hi hj e.
        let o' : Occupied (a.slots p) = sym (state_kept p) ∙ o in
        let same = key_same p o' in
        let r = v.reached p hp o' i j hi hj (ap (λ k. probe (primary_index k) i) (sym same) ∙ e) in
        λ empty. r (
          ap (λ k. (a.slots (probe (primary_index k) j)).state) (sym same)
          ∙ sym (state_kept _)
          ∙ empty);
    unique = λ p q hp hq o o' e.
        let u : Occupied (a.slots p) = sym (state_kept p) ∙ o in
        let u' : Occupied (a.slots q) = sym (state_kept q) ∙ o' in
        v.unique p q hp hq u u' (sym (key_same p u) ∙ e ∙ key_same q u');
  }
