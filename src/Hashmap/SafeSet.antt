-- ===== src/Hashmap/SafeSet.antt =====
-- SET of src/hashmap.rs, whatever hashes collide: what it knows at a round, and what keeps an arena valid.
use memlane.Arena.{Arena, slot_count, slot_mut}
use memlane.Hashmap.Bury.{bury-IsValid, bury-state}
use memlane.Hashmap.Claim.{claim-IsValid}
use memlane.Hashmap.Invariant.{Occupied, IsValid, Stores}
use memlane.Hashmap.Probe.{probe-lt, probe-injective}
use memlane.Hashmap.SetFree.{IsReached-of_before}
use memlane.Hashmap.SetLoop.{below}
use memlane.Hashmap.Walk.{
  IsOtherKey, Passes, PassesBefore, round, round-lt, probe-round, IsReached-round,
}
use memlane.Hashmap.Write.{slot_mut_self, slot_mut-ne}
use memlane.Hashmap.{primary_index, probe, claim_slot, note_first, unwrap_or}
use memlane.Prelude.{
  ℕ, suc, ◌<◌, ◌≤◌, ◌≡◌, ◌≢◌, refl, sym, ap, subst, ◌∙◌, ◌⊎◌, inl, inr, true, not, ◌==◌, Bytes,
  length, bytes_eq, eq→bytes_eq, arith, Option, none, some,
}
use memlane.Sip.{siphash}
use memlane.Slot.{Slot, state_empty, state_tombstone, read_key, max_key_len}
use memlane.Ttl.{bury}
use memlane.Hashmap.SafeRead.{here}

order : (x y : ℕ) → (x < y) ⊎ ((x ≡ y) ⊎ (y < x))
order x y = omega arith

module _ (key value : Bytes) (expiry : ℕ) (fits : length key ≤ max_key_len) where
  abbrev pub start : ℕ
  start = primary_index key

  -- What SET knows at round i: no slot before was empty or held the key, and the tombstone that it noted
  -- is no occupied slot.
  pub record Searched (a : Arena) (i : ℕ) (first : Option ℕ) : Type 0 where
    pub valid : IsValid a
    pub before : PassesBefore a (IsOtherKey key) start i
    pub noted :
        (t : ℕ)
        → first ≡ some t
        → (j : ℕ) × (j < i) × (probe start j ≡ t) × (¬ Occupied (a.slots t))

  -- Once the rounds end, the key is in no slot.
  pub absent_at_end :
      {a : Arena} {i : ℕ} {first : Option ℕ}
      → Searched a i first
      → (i ≡ slot_count) ⊎ ((a.slots (probe start i)).state ≡ state_empty)
      → i ≤ slot_count
      → (p : ℕ) → ¬ Stores a key p
  absent_at_end {a} {i} h stop le p st =
      let d = round h.valid st in
      let d-lt = round-lt h.valid st in
      let at = probe-round h.valid st in
      let occupied : Occupied (a.slots (probe start d)) = rw at st.occupied in
      let mine : read_key (a.slots (probe start d)) ≡ key = rw at st.key_eq in
      (h.before d (before_stop stop)).other occupied mine
    where
      before_stop :
          (i ≡ slot_count) ⊎ ((a.slots (probe start i)).state ≡ state_empty) → round h.valid st < i
      before_stop (inl e) = omega (arith, round-lt h.valid st)
      before_stop (inr empty) = elim (order (round h.valid st) i) [
        | inl lt ↦ lt
        | inr (inl e) ↦
            let o : Occupied (a.slots (probe start i)) =
              rw (sym e, probe-round h.valid st) st.occupied in
            absurd (omega arith)
        | inr (inr gt) ↦ absurd (
            IsReached-round h.valid st (round h.valid st) i (round-lt h.valid st) gt
              (probe-round h.valid st) empty)
      ]

  pub claim_noted :
      {a : Arena} {i : ℕ} {first : Option ℕ}
      → Searched a i first
      → (new : (p : ℕ) → ¬ Stores a key p) → i ≤ slot_count
      → (t : ℕ) → first ≡ some t
      → IsValid (slot_mut a t (claim_slot (a.slots t) (siphash key) key value expiry))
  claim_noted {a} {i} h new le t e =
      let (j, lt, at, free) = h.noted t e in
      claim-IsValid key value expiry h.valid fits (rw (sym at) (probe-lt start j))
        (rw (sym at) (
          IsReached-of_before a key j (omega arith) (λ k lk. (h.before k (omega arith)).not_empty)))
        new

  pub claim_empty :
      {a : Arena} {i : ℕ} (first : Option ℕ)
      → Searched a i first
      → (a.slots (probe start i)).state ≡ state_empty
      → i < slot_count
      → (let t = unwrap_or first (probe start i) in
          IsValid (slot_mut a t (claim_slot (a.slots t) (siphash key) key value expiry)))
  claim_empty {a} {i} none h empty lt =
      claim-IsValid key value expiry h.valid fits (probe-lt start i)
        (IsReached-of_before a key i lt (λ k lk. (h.before k lk).not_empty))
        (absent_at_end h (inr empty) (omega arith))
  claim_empty {a} {i} (some t) h empty lt =
      claim_noted h (absent_at_end h (inr empty) (omega arith)) (omega arith) t refl

  before_next :
      {a : Arena} {i : ℕ}
      → PassesBefore a (IsOtherKey key) start i
      → Passes a (IsOtherKey key) start i
      → PassesBefore a (IsOtherKey key) start (suc i)
  before_next {a} {i} before now j lt = elim (below j i lt) [
    | inl lt' ↦ before j lt'
    | inr e ↦ subst (λ k. Passes a (IsOtherKey key) start k) (sym e) now
  ]

  pub Searched-next :
      {a : Arena} {i : ℕ} {first : Option ℕ}
      → Searched a i first
      → Passes a (IsOtherKey key) start i
      → Searched a (suc i) first
  Searched-next h now = record {
    valid = h.valid;
    before = before_next h.before now;
    noted = λ t e. let (j, lt, at, free) = h.noted t e in (j, omega arith, at, free);
  }

  pub Searched-note :
      {a : Arena} {i : ℕ} (first : Option ℕ)
      → Searched a (suc i) first
      → ¬ Occupied (a.slots (probe start i))
      → Searched a (suc i) (note_first first (probe start i))
  Searched-note (some t) h free = h
  Searched-note {a} {i} none h free = record {
    valid = h.valid;
    before = h.before;
    noted = λ t e. let same : probe start i ≡ t = cc in (i, omega arith, same, rw same at free);
  }

  pub Searched-buried :
      {a : Arena} {i : ℕ} (first : Option ℕ)
      → i < slot_count
      → Searched a i first
      → Occupied (a.slots (probe start i))
      → Searched
          (slot_mut a (probe start i) (bury (a.slots (probe start i))))
          (suc i)
          (note_first first (probe start i))
  Searched-buried {a} {i} first lt h o =
      let idx = probe start i in
      let s = bury (a.slots idx) in
      let b = slot_mut a idx s in
      let dead : (b.slots idx).state ≡ state_tombstone =
        ap (λ x. x.state) (slot_mut_self a idx s) ∙ bury-state (a.slots idx) o in
      Searched-note first
        (record {
          valid = bury-IsValid h.valid (here a start i o);
          before =
              before_next
                (λ j lj.
                  let q = h.before j lj in
                  let kept = slot_mut-ne a idx s (probe start j) (λ e.
                    absurd
                      (let same = probe-injective start j i (omega arith) lt e in omega arith)) in
                  record { not_empty = rw kept q.not_empty; other = rw kept q.other })
                (record { not_empty = λ e. omega arith; other = λ o'. absurd (omega arith) });
          noted = λ t e.
              let (j, lj, at, free) = h.noted t e in
              let elsewhere : t ≢ idx = λ same. free (rw (sym same) at o) in
              (j, omega arith, at, rw (slot_mut-ne a idx s t elsewhere) free);
        })
        (λ o'. omega arith)

  pub other_fingerprint :
      {a : Arena} (v : IsValid a) (i : ℕ)
      → not ((a.slots (probe start i)).fingerprint == siphash key) ≡ true
      → IsOtherKey key (a.slots (probe start i))
  other_fingerprint {a} v i e o mine =
      let hashed = (v.filled (probe start i) (probe-lt start i) o).hashed ∙ ap siphash mine in
      ground arith

  pub other_key : (s : Slot) (k : Bytes) → not (bytes_eq (read_key s) k) ≡ true → IsOtherKey k s
  other_key s k e o mine = let same = eq→bytes_eq (read_key s) k mine in cc
