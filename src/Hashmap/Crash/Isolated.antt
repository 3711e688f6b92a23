-- ===== src/Hashmap/Crash/Isolated.antt =====
-- src/hashmap.rs: what GET answers of other keys while SET runs.
use memlane.Arena.{Arena, slot_count}
use memlane.Hashmap.Crash.Apart.{IsApart}
use memlane.Hashmap.Crash.Everywhere.{AllHold, AllHold-map}
use memlane.Hashmap.Crash.Claiming.{IsSafe}
use memlane.Hashmap.Crash.Valid.{set_trace-AllSafe}
use memlane.Hashmap.Crash.{set_trace}
use memlane.Hashmap.Get.{get-Ends}
use memlane.Hashmap.Invariant.{
  Occupied, IsValid, Stores, NoCollision, Entry, AbstractMap, assign, entry, Models,
}
use memlane.Hashmap.Spec.{read_entry}
use memlane.Hashmap.Write.{assign_self, assign-ne}
use memlane.Hashmap.{Clock, get}
use memlane.Prelude.{
  ℕ, zero, suc, ◌<◌, ◌≤◌, ◌≡◌, ◌≢◌, refl, sym, ap, subst, ◌∙◌, ◌⊎◌, inl, inr, Option, none, some,
  Bytes, bytes_eq, bytes_eq→eq, eq→bytes_eq, Bool-cases, length, arith,
}
use memlane.Sip.{siphash}
use memlane.Slot.{max_key_len, read_key, state_occupied}

same_bytes : (x y : Bytes) → (x ≡ y) ⊎ (x ≢ y)
same_bytes x y = elim (Bool-cases (bytes_eq x y)) [
  | inl same ↦ inl (bytes_eq→eq x y same)
  | inr other ↦ inr (λ e. let same = eq→bytes_eq x y e in cc)
]

same_state : (x y : ℕ) → (x ≡ y) ⊎ (x ≢ y)
same_state x y = ground arith

module _ (a : Arena) (key : Bytes) where
  -- A slot before `n` holds the key, or none does.
  stores_before :
      (n : ℕ) → n ≤ slot_count → ((p : ℕ) × Stores a key p) ⊎ ((p : ℕ) → p < n → ¬ Stores a key p)
  stores_before zero le = inr (λ p lt. absurd (omega arith))
  stores_before (suc n) le = elim (stores_before n (omega arith)) [
    | inl found ↦ inl found
    | inr rest ↦
        let step = λ (no : ¬ Stores a key n) (p : ℕ) (lt : p < suc n) (st : Stores a key p).
          rest p (let other : p ≢ n = λ e. no (subst (λ q. Stores a key q) e st) in omega arith)
            st in
        elim (same_state (a.slots n).state state_occupied) [
          | inr free ↦ inr (step (λ st. free st.occupied))
          | inl o ↦ elim (same_bytes (read_key (a.slots n)) key) [
            | inl e ↦ inl (n, record { inside = omega arith; occupied = o; key_eq = e })
            | inr n_e ↦ inr (step (λ st. n_e st.key_eq))
          ]
        ]
  ]

-- What the arena holds of a key.
Holding : Arena → Bytes → Option Entry → Type 0
Holding b key none = (p : ℕ) → ¬ Stores b key p
Holding b key (some e) = (p : ℕ) × Stores b key p × (entry (b.slots p) ≡ e)

held : (b : Arena) (key : Bytes) → (x : Option Entry) × Holding b key x
unfolding Holding
held b key = elim (stores_before b key slot_count (omega arith)) [
  | inl (p, st) ↦ (some (entry (b.slots p)), (p, st, refl))
  | inr nowhere ↦ (none, λ p st. nowhere p st.inside st)
]

module _ {a : Arena} {key : Bytes} (v : IsValid a) (alone : NoCollision a key) where
  -- A slot of another key has another hash.
  other_hash :
      (q : Bytes) (p : ℕ) → Stores a q p → q ≢ key → siphash (read_key (a.slots p)) ≢ siphash key
  other_hash q p st n e = n (
      sym st.key_eq ∙ alone p st.inside st.occupied ((v.filled p st.inside st.occupied).hashed ∙ e))

  -- Apart from what it holds of the key, the arena models the map that it did.
  IsApart-Models :
      {b : Arena} {m : AbstractMap} (x : Option Entry)
      → Holding b key x
      → IsValid b
      → IsApart key a b
      → Models a m
      → Models b (assign m key x)
  unfolding Holding
  IsApart-Models {b} {m} x holding w apart h = record {
    sound = λ p hp o. elim (same_bytes (read_key (b.slots p)) key) [
      | inl e ↦
          assign_self m key (read_key (b.slots p)) x e
          ∙ mine x holding p (record { inside = hp; occupied = o; key_eq = e })
      | inr n ↦
          let same = apart.brought p o n in
          assign-ne m key (read_key (b.slots p)) x n
          ∙ subst (λ s. m (read_key s) ≡ some (entry s)) (sym same)
              (h.sound p hp (subst Occupied same o))
    ];
    complete = λ q e found. elim (same_bytes q key) [
      | inl same ↦
          let (p, st) = its x holding e (sym (assign_self m key q x same) ∙ found) in
          (p, subst (λ k. Stores b k p) (sym same) st)
      | inr n ↦
          let (p, st) = h.complete q e (sym (assign-ne m key q x n) ∙ found) in
          let same = apart.kept p st.occupied (other_hash q p st n) in
          (
            p,
            record {
              inside = st.inside;
              occupied = subst Occupied (sym same) st.occupied;
              key_eq = ap read_key same ∙ st.key_eq;
            },
          )
    ];
  }
    where
      mine :
          (x : Option Entry)
          → Holding b key x
          → (p : ℕ) → Stores b key p
          → x ≡ some (entry (b.slots p))
      mine none nowhere p st = absurd (nowhere p st)
      mine (some e) (q, st', eq) p st =
          let here =
            w.unique q p st'.inside st.inside st'.occupied st.occupied
              (st'.key_eq ∙ sym st.key_eq) in
          ap some (sym eq ∙ ap (λ r. entry (b.slots r)) here)

      its :
          (x : Option Entry) → Holding b key x → (e : Entry) → x ≡ some e → (p : ℕ) × Stores b key p
      its none nowhere e eq = absurd cc
      its (some e') (p, st, eq') e eq = (p, st)

-- No key collides with another one, whose hash is not that of the key.
NoCollision-apart :
    {a b : Arena} {key : Bytes} (q : Bytes)
    → siphash q ≢ siphash key
    → NoCollision a q
    → IsValid b
    → IsApart key a b
    → NoCollision b q
NoCollision-apart {b = b} {key = key} q n alone_q w apart p hp o f =
    elim (same_bytes (read_key (b.slots p)) key) [
      | inl e ↦ absurd (n (sym f ∙ (w.filled p hp o).hashed ∙ ap siphash e))
      | inr other ↦
          let same = apart.brought p o other in
          ap read_key same
          ∙ alone_q p hp (subst Occupied same o) (ap (λ s. s.fingerprint) (sym same) ∙ f)
    ]

-- GET of another key, while a SET has made some of its stores, answers as it did before: let the arena be valid and model
-- a map, let no stored key have the hash of either key, unless it is that key, let the two hashes differ, and let the key that is
-- set have at most 128 bytes. Then after every store of SET, a GET of the other key answers what that map says of it,
-- at some reading of its clock.
pub set_trace-get :
    (clock : Clock) (a : Arena) (m : AbstractMap) (key value : Bytes) (ttl_secs : ℕ) (later : Clock)
    (q : Bytes)
    → length key ≤ max_key_len
    → IsValid a
    → Models a m
    → NoCollision a key
    → NoCollision a q
    → siphash q ≢ siphash key
    → AllHold
        (λ b. (i : ℕ) × ((get later b q).1 ≡ read_entry (later i) (m q)))
        (set_trace clock a key value ttl_secs)
set_trace-get clock a m key value ttl_secs later q fits v h alone alone_q n =
    AllHold-map (IsSafe key a) (λ b. (i : ℕ) × ((get later b q).1 ≡ read_entry (later i) (m q)))
      (set_trace clock a key value ttl_secs) at_store
      (set_trace-AllSafe clock a key value ttl_secs fits v).0
  where
    at_store :
        (b : Arena) → IsSafe key a b → (i : ℕ) × ((get later b q).1 ≡ read_entry (later i) (m q))
    at_store b safe =
        let (x, holding) = held b key in
        let models = IsApart-Models v alone x holding safe.valid safe.apart h in
        let (i, ends) =
          get-Ends later q safe.valid (NoCollision-apart q n alone_q safe.valid safe.apart)
            models in
        (i, ends.result ∙ ap (read_entry (later i)) (assign-ne m key q x (λ e. n (ap siphash e))))
