-- ===== src/Hashmap/Write.antt =====
-- One write to a slot: when it keeps the invariant, and what it does to the abstract map.
use mathlib.Core.Path.{fun_ext}
use memlane.Arena.{Arena, slot_count, slot_mut}
use memlane.Hashmap.Invariant.{
  Occupied, IsFilled, IsReached, IsValid, Stores, AbstractMap, Entry, assign, entry, Models,
}
use memlane.Hashmap.{primary_index, probe}
use memlane.Prelude.{
  ℕ, ◌<◌, ◌≤◌, ◌≡◌, ◌≢◌, refl, sym, ap, subst, ◌∙◌, ◌⊎◌, inl, inr, true, false, Option, none, some,
  Bytes, bytes_eq, bytes_eq→eq, eq→bytes_eq, if◌then◌else◌, arith, ◌==◌, Bool-cases, update,
  update_self, update-ne,
}
use memlane.Slot.Buffers.{IsSized}
use memlane.Slot.{Slot, state_empty, state_occupied, state_tombstone, read_key}

same? : (p t : ℕ) → (p ≡ t) ⊎ (p ≢ t)
same? p t = ground arith

module _ (a : Arena) (t : ℕ) (s : Slot) where
  -- To prove something of each slot after the write, prove it of the new one and of the old others.
  pub by_slot {ℓ} :
      (P : ℕ → Slot → Type ℓ)
      → P t s
      → ((p : ℕ) → p ≢ t → P p (a.slots p))
      → (p : ℕ) → P p ((slot_mut a t s).slots p)
  unfolding slot_mut
  by_slot P new old p = elim (same? p t) [
    | inl e ↦ subst (λ q. P q (update a.slots t s q)) (sym e) (rw update_self new)
    | inr n ↦ rw (update-ne a.slots t p s n) (old p n)
  ]

  pub slot_mut_self : (slot_mut a t s).slots t ≡ s
  unfolding slot_mut
  slot_mut_self = update_self a.slots t s

  pub slot_mut-ne : (p : ℕ) → p ≢ t → (slot_mut a t s).slots p ≡ a.slots p
  unfolding slot_mut
  slot_mut-ne p n = update-ne a.slots t p s n

-- What a new content of slot `t` has to meet.
pub record Fits (a : Arena) (t : ℕ) (s : Slot) : Type 0 where
  pub inside : t < slot_count
  pub room : IsSized s
  pub not_empty : s.state ≢ state_empty
  pub known : s.state ≤ state_tombstone
  pub filled : Occupied s → IsFilled s
  pub path : Occupied s → IsReached a (read_key s) t
  pub alone :
      Occupied s
      → (p : ℕ) → p < slot_count
      → p ≢ t
      → Occupied (a.slots p)
      → read_key (a.slots p) ≢ read_key s

module _ {a : Arena} {t : ℕ} {s : Slot} (v : IsValid a) (w : Fits a t s) where
  IsReached-after : (key : Bytes) (p : ℕ) → IsReached a key p → IsReached (slot_mut a t s) key p
  IsReached-after key p r i j hi hj e =
      by_slot a t s (λ q x. q ≡ probe (primary_index key) j → x.state ≢ state_empty)
        (λ _. w.not_empty)
        (λ q _ eq. subst (λ y. (a.slots y).state ≢ state_empty) (sym eq) (r i j hi hj e)) _ refl

  pub slot_mut-IsValid : IsValid (slot_mut a t s)
  slot_mut-IsValid = record {
    sized = by_slot a t s (λ p x. p < slot_count → IsSized x) (λ _. w.room) (λ p _. v.sized p);
    known =
        by_slot a t s (λ p x. p < slot_count → x.state ≤ state_tombstone) (λ _. w.known)
          (λ p _. v.known p);
    filled =
        by_slot a t s (λ p x. p < slot_count → Occupied x → IsFilled x) (λ _. w.filled)
          (λ p _. v.filled p);
    reached =
        by_slot a t s
          (λ p x. p < slot_count → Occupied x → IsReached (slot_mut a t s) (read_key x) p)
          (λ _ o. IsReached-after (read_key s) t (w.path o))
          (λ p _ hp o. IsReached-after (read_key (a.slots p)) p (v.reached p hp o));
    unique =
        by_slot a t s
          (λ p x.
            (q : ℕ)
            → p < slot_count
            → q < slot_count
            → Occupied x
            → Occupied ((slot_mut a t s).slots q)
            → read_key x ≡ read_key ((slot_mut a t s).slots q)
            → p ≡ q)
          (by_slot a t s
            (λ q y.
              t < slot_count
              → q < slot_count
              → Occupied s
              → Occupied y
              → read_key s ≡ read_key y
              → t ≡ q)
            (λ _ _ _ _ _. refl) (λ q n _ hq o o' e. absurd (w.alone o q hq n o' (sym e))))
          (λ p n.
            by_slot a t s
              (λ q y.
                p < slot_count
                → q < slot_count
                → Occupied (a.slots p)
                → Occupied y
                → read_key (a.slots p) ≡ read_key y
                → p ≡ q)
              (λ hp _ o o' e. absurd (w.alone o' p hp n o e))
              (λ q _ hp hq o o' e. v.unique p q hp hq o o' e));
  }

-- What slot content `s` adds to the map.
abbrev pub content : Slot → Option Entry
content s = if s.state == state_occupied then some (entry s) else none

pub assign_self :
    (m : AbstractMap) (key q : Bytes) (e : Option Entry) → q ≡ key → assign m key e q ≡ e
assign_self m key q e h = rw (eq→bytes_eq q key h)

pub assign-ne :
    (m : AbstractMap) (key q : Bytes) (e : Option Entry) → q ≢ key → assign m key e q ≡ m q
assign-ne m key q e h = elim (Bool-cases (bytes_eq q key)) [
  | inl same ↦ absurd (h (bytes_eq→eq q key same))
  | inr other ↦ rw other
]

stored_after :
    {a : Arena} {t : ℕ} (s : Slot) {q : Bytes} (p : ℕ)
    → p ≢ t
    → Stores a q p
    → Stores (slot_mut a t s) q p
stored_after {a} {t} s p n st = record {
  inside = st.inside;
  occupied = ap (λ x. x.state) (slot_mut-ne a t s p n) ∙ st.occupied;
  key_eq = ap read_key (slot_mut-ne a t s p n) ∙ st.key_eq;
}

content-some : (s : Slot) (e : Entry) → content s ≡ some e → Occupied s
content-some s e h = ground arith

pub assign_twice :
    (m : AbstractMap) (key : Bytes) (x y : Option Entry)
    → assign (assign m key x) key y ≡ assign m key y
assign_twice m key x y = fun_ext (λ q. ground arith)

module _ {a : Arena} {m : AbstractMap} (t : ℕ) (s : Slot) (key : Bytes) where
  -- A write to the slot of `key` changes the map at `key` alone.
  pub slot_mut-Models :
      t < slot_count
      → (Occupied s → read_key s ≡ key)
      → (Occupied (a.slots t) → read_key (a.slots t) ≡ key)
      → ((p : ℕ) → Stores a key p → p ≡ t)
      → Models a m
      → Models (slot_mut a t s) (assign m key (content s))
  slot_mut-Models inside mine was only h = record {
    sound =
        by_slot a t s
          (λ p x.
            p < slot_count → Occupied x → assign m key (content s) (read_key x) ≡ some (entry x))
          (λ _ o. assign_self m key (read_key s) (content s) (mine o) ∙ ground arith)
          (λ p n hp o.
            assign-ne m key (read_key (a.slots p)) (content s)
              (λ e. n (only p (record { inside = hp; occupied = o; key_eq = e })))
            ∙ h.sound p hp o);
    complete = λ q e found. elim (Bool-cases (bytes_eq q key)) [
      | inl same ↦ (t, self_stored q same (content-some s e (rw same at found)))
      | inr other ↦
          let (p, st) = h.complete q e (rw other at found) in
          (p, stored_after s p (λ pt. moved q other p st pt) st)
    ];
  }
    where
      moved : (q : Bytes) → bytes_eq q key ≡ false → (p : ℕ) → Stores a q p → p ≡ t → ⊥
      moved q other p st pt =
          let at_t = subst (λ y. Stores a q y) pt st in
          cc (other, eq→bytes_eq q key (sym at_t.key_eq ∙ was at_t.occupied))

      self_stored : (q : Bytes) → bytes_eq q key ≡ true → Occupied s → Stores (slot_mut a t s) q t
      self_stored q same o = record {
        inside = inside;
        occupied = ap (λ x. x.state) (slot_mut_self a t s) ∙ o;
        key_eq = ap read_key (slot_mut_self a t s) ∙ mine o ∙ sym (bytes_eq→eq q key same);
      }
