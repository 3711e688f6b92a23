-- ===== src/Hashmap/Del.antt =====
-- DEL of src/hashmap.rs: its loop round by round, and the removal of the key from the abstract map.
use memlane.Arena.{Arena, slot_count, slot, slot_mut}
use memlane.Hashmap.Bury.{bury-IsValid, bury-Models}
use memlane.Hashmap.Invariant.{Occupied, IsValid, Stores, AbstractMap, assign, Models}
use memlane.Hashmap.Refine.{Ends, stored, absent, assign_same, header-IsValid, header-Models}
use memlane.Hashmap.Spec.{del_entry}
use memlane.Hashmap.Walk.{
  IsOtherKey, Passes, walk, walk_all, scan, round, round-lt, at_round, probe-round,
  IsOtherKey-of_absent, PassesBefore-key,
}
use memlane.Hashmap.{DelResult, deleted, primary_index, probe, fetch_sub_used, del_loop, del}
use memlane.Prelude.{
  ℕ, suc, ◌-◌, ◌≡◌, refl, ◌∙◌, inl, inr, Bytes, bytes_eq→eq, eq→bytes_eq, arith, none, Option-cases,
}
use memlane.Sip.{siphash}
use memlane.Slot.{state_empty, read_key}
use memlane.Ttl.{bury}

module _ (key : Bytes) (hash start : ℕ) (a : Arena) where
  del_loop-pass :
      (left i : ℕ)
      → Passes a (IsOtherKey key) start i
      → del_loop key hash start a (suc left) i ≡ del_loop key hash start a left (suc i)
  unfolding del_loop slot
  del_loop-pass left i p =
      ground (arith, p.other, bytes_eq→eq (read_key (a.slots (probe start i))) key)

  del_loop-out : (i : ℕ) → del_loop key hash start a 0 i ≡ (a, DelResult.not_found)
  unfolding del_loop
  del_loop-out i = refl

  del_loop-stop :
      (left i : ℕ)
      → (a.slots (probe start i)).state ≡ state_empty
      → del_loop key hash start a (suc left) i ≡ (a, DelResult.not_found)
  unfolding del_loop slot
  del_loop-stop left i e = ground arith

  del_loop-hit :
      (left i : ℕ)
      → Occupied (a.slots (probe start i))
      → (a.slots (probe start i)).fingerprint ≡ hash
      → read_key (a.slots (probe start i)) ≡ key
      → del_loop key hash start a (suc left) i
        ≡ (fetch_sub_used (slot_mut a (probe start i) (bury (a.slots (probe start i)))), deleted)
  unfolding del_loop slot bury
  del_loop-hit left i o f k = ground (arith, eq→bytes_eq (read_key (a.slots (probe start i))) key)

del-loop :
    (a : Arena) (key : Bytes)
    → del a key ≡ del_loop key (siphash key) (primary_index key) a slot_count 0
unfolding del primary_index
del-loop a key = refl

module _ {a : Arena} {key : Bytes} (v : IsValid a) where
  del_absent : ((p : ℕ) → ¬ Stores a key p) → del a key ≡ (a, DelResult.not_found)
  del_absent absent =
      let hash = siphash key in
      let start = primary_index key in
      let loop = del_loop key hash start a in
      let pass = del_loop-pass key hash start a in
      let others = IsOtherKey-of_absent v absent in
      del-loop a key ∙ elim (scan a (IsOtherKey key) start slot_count (λ j hi. others j)) [
        | inl all ↦ walk_all loop pass slot_count all ∙ del_loop-out key hash start a slot_count
        | inr (d, st) ↦
            walk loop pass slot_count d st.within st.before
            ∙ del_loop-stop key hash start a (slot_count - suc d) d st.empty
      ]

  del_present :
      {p : ℕ}
      → Stores a key p
      → del a key ≡ (fetch_sub_used (slot_mut a p (bury (a.slots p))), deleted)
  del_present {p} st =
      let hash = siphash key in
      let start = primary_index key in
      let d = round v st in
      let (o, f, k) = at_round v st in
      del-loop a key
      ∙ walk (del_loop key hash start a) (del_loop-pass key hash start a) slot_count d
          (round-lt v st) (PassesBefore-key v st)
      ∙ rw (probe-round v st) at (del_loop-hit key hash start a (slot_count - suc d) d o f k)

-- On a valid arena that models `m`, whatever hashes collide: DEL answers whether the map has the
-- key, expired or not; then the arena is valid and models the map without the key.
pub del-Ends :
    {a : Arena} {m : AbstractMap} (key : Bytes)
    → IsValid a
    → Models a m
    → Ends (del a key) (assign m key none) (del_entry (m key))
unfolding del_entry fetch_sub_used
del-Ends {a} {m} key v h = elim (Option-cases (m key)) [
  | inl no_entry ↦
      rw (no_entry, del_absent v (absent h key no_entry))
        (record { valid = v; models = assign_same key none no_entry h; result = refl })
  | inr (e, has) ↦
      let (p, st, eq) = stored h key e has in
      rw (has, del_present v st)
        (record {
          valid = header-IsValid _ (bury-IsValid v st);
          models = header-Models _ (bury-Models v st h);
          result = refl;
        })
]
