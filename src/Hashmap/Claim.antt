-- ===== src/Hashmap/Claim.antt =====
-- `claim_slot` and the update in place of src/hashmap.rs: what the written slot holds.
use memlane.Arena.{Arena, slot_count, slot_mut}
use memlane.Hashmap.Invariant.{
  Occupied, IsFilled, IsReached, IsValid, Stores, AbstractMap, assign, Entry, entry, Models,
}
use memlane.Hashmap.Bury.{Stores-once}
use memlane.Hashmap.Write.{Fits, slot_mut-IsValid, content, slot_mut-Models}
use memlane.Hashmap.{claim_slot}
use memlane.Prelude.{
  ℕ, ◌<◌, ◌≤◌, ◌≡◌, refl, sym, ap, ◌∙◌, some, Bytes, arith, length, take_of_length-le,
}
use memlane.Sip.{siphash}
use memlane.Slot.Buffers.{
  IsSized, read_key-write_key, read_value-write_value, write_key-IsSized, write_value-IsSized,
}
use memlane.Slot.{
  Slot, max_key_len, max_val_len, state_occupied, read_key, read_value, write_key, write_value,
}

-- The slot that SET leaves behind when it updates a key in place.
abbrev pub revalue : Slot → Bytes → ℕ → Slot
revalue s value expiry = record (write_value value s) { expires_at_ms = expiry }

module _ (s : Slot) (key value : Bytes) (expiry : ℕ) where
  abbrev claimed : Slot
  claimed = claim_slot s (siphash key) key value expiry

  pub claim-read_key : length key ≤ max_key_len → read_key claimed ≡ key
  unfolding claim_slot read_key write_value
  claim-read_key fits = read_key-write_key key s ∙ take_of_length-le max_key_len key fits

  claim-entry : length value ≤ max_val_len → entry claimed ≡ (value, expiry)
  unfolding claim_slot read_value
  claim-entry fits =
      ap (λ x. (x, expiry))
        (read_value-write_value value (write_key key s) ∙ take_of_length-le max_val_len value fits)

  claim-IsSized : IsSized s → IsSized claimed
  unfolding claim_slot
  claim-IsSized h =
      let w = write_value-IsSized value (write_key-IsSized key h) in
      record { key_room = w.key_room; val_room = w.val_room }

  claim-IsFilled : length key ≤ max_key_len → IsFilled claimed
  unfolding claim_slot
  claim-IsFilled fits = record {
    key_fits = omega arith;
    val_fits = omega arith;
    hashed = ap siphash (sym (claim-read_key fits));
  }

  claim-state : claimed.state ≡ state_occupied
  unfolding claim_slot
  claim-state = refl

content_of : (s : Slot) {e : Entry} → Occupied s → entry s ≡ e → content s ≡ some e
content_of s {e} o eq = ground arith

-- SET on a slot that is not occupied, and that a probe for the key comes to.
module _ {a : Arena} {t : ℕ} (key value : Bytes) (expiry : ℕ) (v : IsValid a)
    (key_fits : length key ≤ max_key_len) (inside : t < slot_count) (path : IsReached a key t)
    (new : (p : ℕ) → ¬ Stores a key p) where
  claim-Fits : Fits a t (claimed (a.slots t) key value expiry)
  claim-Fits =
      let s = a.slots t in
      let o = claim-state s key value expiry in
      let k = claim-read_key s key value expiry key_fits in
      record {
        inside = inside;
        room = claim-IsSized s key value expiry (v.sized t inside);
        not_empty = omega arith;
        known = omega arith;
        filled = λ _. claim-IsFilled s key value expiry key_fits;
        path = λ _. rw k path;
        alone = λ _ p hp _ o' e. new p (record { inside = hp; occupied = o'; key_eq = e ∙ k });
      }

  pub claim-IsValid : IsValid (slot_mut a t (claimed (a.slots t) key value expiry))
  claim-IsValid = slot_mut-IsValid v claim-Fits

  pub claim-Models :
      {m : AbstractMap}
      → ¬ Occupied (a.slots t)
      → length value ≤ max_val_len
      → Models a m
      → Models
          (slot_mut a t (claimed (a.slots t) key value expiry))
          (assign m key (some (value, expiry)))
  claim-Models {m} free val_fits h =
      let s = a.slots t in
      rw (content_of _ (claim-state s key value expiry) (claim-entry s key value expiry val_fits))
        at
        (slot_mut-Models t (claimed s key value expiry) key inside
          (λ _. claim-read_key s key value expiry key_fits) (λ o. absurd (free o))
          (λ p st. absurd (new p st)) h)

revalue-read_key :
    (s : Slot) (value : Bytes) (expiry : ℕ) → read_key (revalue s value expiry) ≡ read_key s
unfolding read_key write_value
revalue-read_key s value expiry = refl

revalue-entry :
    (s : Slot) (value : Bytes) (expiry : ℕ)
    → length value ≤ max_val_len
    → entry (revalue s value expiry) ≡ (value, expiry)
unfolding read_value
revalue-entry s value expiry fits =
    ap (λ x. (x, expiry))
      (read_value-write_value value s ∙ take_of_length-le max_val_len value fits)

revalue-state : (s : Slot) (value : Bytes) (expiry : ℕ) → (revalue s value expiry).state ≡ s.state
unfolding write_value
revalue-state s value expiry = refl

-- SET on the slot that holds the key.
module _ {a : Arena} {p : ℕ} {key : Bytes} (value : Bytes) (expiry : ℕ) (v : IsValid a)
    (st : Stores a key p) where
  abbrev s : Slot
  s = a.slots p

  same_key : read_key (revalue s value expiry) ≡ read_key s
  same_key = revalue-read_key s value expiry

  revalue-IsFilled : IsFilled (revalue s value expiry)
  unfolding write_value
  revalue-IsFilled =
      let f = v.filled p st.inside st.occupied in
      record {
        key_fits = f.key_fits;
        val_fits = omega arith;
        hashed = f.hashed ∙ ap siphash (sym same_key);
      }

  revalue-Fits : Fits a p (revalue s value expiry)
  revalue-Fits =
      let w = write_value-IsSized value (v.sized p st.inside) in
      let o = revalue-state s value expiry ∙ st.occupied in
      record {
        inside = st.inside;
        room = record { key_room = w.key_room; val_room = w.val_room };
        not_empty = omega arith;
        known = omega arith;
        filled = λ _. revalue-IsFilled;
        path = λ _. rw same_key (v.reached p st.inside st.occupied);
        alone = λ _ q hq n o' e. n (v.unique q p hq st.inside o' st.occupied (e ∙ same_key));
      }

  pub revalue-IsValid : IsValid (slot_mut a p (revalue s value expiry))
  revalue-IsValid = slot_mut-IsValid v revalue-Fits

  pub revalue-Models :
      {m : AbstractMap}
      → length value ≤ max_val_len
      → Models a m
      → Models (slot_mut a p (revalue s value expiry)) (assign m key (some (value, expiry)))
  revalue-Models {m} fits h =
      rw
        (content_of _ (revalue-state s value expiry ∙ st.occupied)
          (revalue-entry s value expiry fits))
        at
        (slot_mut-Models p (revalue s value expiry) key st.inside (λ _. same_key ∙ st.key_eq)
          (λ _. st.key_eq) (Stores-once v st) h)
