-- ===== src/Hashmap/Bury.antt =====
-- The transition OCCUPIED → TOMBSTONE of src/hashmap.rs and src/ttl.rs: it removes a key.
use memlane.Arena.{Arena, slot_count, slot_mut}
use memlane.Hashmap.Invariant.{Occupied, IsValid, Stores, NoCollision, AbstractMap, assign, Models}
use memlane.Hashmap.Write.{by_slot, Fits, slot_mut-IsValid, content, slot_mut-Models}
use memlane.Prelude.{ℕ, ◌<◌, ◌≡◌, ◌≢◌, sym, ◌∙◌, none, Bytes, arith}
use memlane.Sip.{siphash}
use memlane.Slot.{Slot, state_tombstone, read_key}
use memlane.Ttl.{bury}

bury_eq : (s : Slot) → Occupied s → bury s ≡ record s { state = state_tombstone }
unfolding bury
bury_eq s o = ground arith

pub bury-state : (s : Slot) → Occupied s → (bury s).state ≡ state_tombstone
unfolding bury
bury-state s o = ground arith

bury-free : (s : Slot) → Occupied s → ¬ Occupied (bury s)
bury-free s o o' = let e = bury-state s o in omega arith

module _ {a : Arena} {key : Bytes} {p : ℕ} (v : IsValid a) (st : Stores a key p) where
  abbrev pub buried : Arena
  buried = slot_mut a p (bury (a.slots p))

  bury-Fits : Fits a p (bury (a.slots p))
  bury-Fits = record {
    inside = st.inside;
    room =
        let r = v.sized p st.inside in
        rw (bury_eq (a.slots p) st.occupied)
          (record { key_room = r.key_room; val_room = r.val_room });
    not_empty = let e = bury-state (a.slots p) st.occupied in omega arith;
    known = let e = bury-state (a.slots p) st.occupied in omega arith;
    filled = λ o. absurd (bury-free (a.slots p) st.occupied o);
    path = λ o. absurd (bury-free (a.slots p) st.occupied o);
    alone = λ o. absurd (bury-free (a.slots p) st.occupied o);
  }

  pub bury-IsValid : IsValid buried
  bury-IsValid = slot_mut-IsValid v bury-Fits

  -- No slot holds the key any more.
  pub bury_absent : (q : ℕ) → ¬ Stores buried key q
  bury_absent q s' =
      by_slot a p (bury (a.slots p)) (λ r x. r < slot_count → Occupied x → read_key x ≢ key)
        (λ _ o. absurd (bury-free (a.slots p) st.occupied o))
        (λ r n hr o e. n (v.unique r p hr st.inside o st.occupied (e ∙ sym st.key_eq))) q s'.inside
        s'.occupied s'.key_eq

  pub bury-NoCollision : (other : Bytes) → NoCollision a other → NoCollision buried other
  bury-NoCollision other alone =
      by_slot a p (bury (a.slots p))
        (λ r x. r < slot_count → Occupied x → x.fingerprint ≡ siphash other → read_key x ≡ other)
        (λ _ o. absurd (bury-free (a.slots p) st.occupied o)) (λ r n. alone r)

  content-bury : content (bury (a.slots p)) ≡ none
  content-bury = let e = bury-state (a.slots p) st.occupied in ground arith

  -- The slot that holds a key is the only one.
  pub Stores-once : (q : ℕ) → Stores a key q → q ≡ p
  Stores-once q s' =
      v.unique q p s'.inside st.inside s'.occupied st.occupied (s'.key_eq ∙ sym st.key_eq)

  pub bury-Models : {m : AbstractMap} → Models a m → Models buried (assign m key none)
  bury-Models {m} h = rw content-bury at (
      slot_mut-Models p (bury (a.slots p)) key st.inside
        (λ o. absurd (bury-free (a.slots p) st.occupied o)) (λ _. st.key_eq) Stores-once h)
