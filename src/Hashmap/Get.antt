-- ===== src/Hashmap/Get.antt =====
-- GET of src/hashmap.rs: its loop round by round, and its result in terms of the abstract map.
use memlane.Arena.{Arena, slot_count, slot, slot_mut}
use memlane.Hashmap.Invariant.{Occupied, IsValid, Stores, NoCollision}
use memlane.Hashmap.{Clock, GetResult, found, expired, primary_index, probe, get_loop, get}
use memlane.Prelude.{
  ℕ, suc, ◌-◌, ◌≡◌, refl, sym, ap, ◌∙◌, inl, inr, Bytes, eq→bytes_eq, arith, Bool-cases,
  Option-cases, none, some, if◌then◌else◌,
}
use memlane.Hashmap.Walk.{
  IsOther, Passes, walk, walk_all, scan, at_round, round, round-lt, probe-round, IsOther-of_absent,
  passes_before,
}
use memlane.Hashmap.Bury.{bury-IsValid, bury-Models}
use memlane.Hashmap.Invariant.{AbstractMap, assign, Models}
use memlane.Hashmap.Spec.{is_dead, read_entry, keep_entry}
use memlane.Hashmap.Refine.{Ends, stored, absent, assign_same, is_expired-dead}
use memlane.Sip.{siphash}
use memlane.Slot.{state_empty, read_key, read_value}
use memlane.Ttl.{bury, is_expired, lazy_evict_if_expired}

module _ (clock : Clock) (key : Bytes) (hash start : ℕ) (a : Arena) where
  get_loop-pass :
      (left i : ℕ)
      → Passes a (IsOther hash) start i
      → get_loop clock key hash start a (suc left) i ≡ get_loop clock key hash start a left (suc i)
  unfolding get_loop slot
  get_loop-pass left i p = ground (arith, p.other)

  get_loop-out : (i : ℕ) → get_loop clock key hash start a 0 i ≡ (a, GetResult.not_found)
  unfolding get_loop
  get_loop-out i = refl

  get_loop-stop :
      (left i : ℕ)
      → (a.slots (probe start i)).state ≡ state_empty
      → get_loop clock key hash start a (suc left) i ≡ (a, GetResult.not_found)
  unfolding get_loop slot
  get_loop-stop left i e = ground arith

  get_loop-hit :
      (left i : ℕ)
      → Occupied (a.slots (probe start i))
      → (a.slots (probe start i)).fingerprint ≡ hash
      → read_key (a.slots (probe start i)) ≡ key
      → get_loop clock key hash start a (suc left) i ≡ (
          let s = a.slots (probe start i) in
          if is_expired (clock i) s
          then (slot_mut a (probe start i) (bury s), expired)
          else (a, found (read_value s)))
  unfolding get_loop slot lazy_evict_if_expired bury
  get_loop-hit left i o f k = ground (arith, eq→bytes_eq (read_key (a.slots (probe start i))) key)

get-loop :
    (clock : Clock) (a : Arena) (key : Bytes)
    → get clock a key ≡ get_loop clock key (siphash key) (primary_index key) a slot_count 0
unfolding get primary_index
get-loop clock a key = refl

module _ (clock : Clock) {a : Arena} {key : Bytes} (v : IsValid a) (alone : NoCollision a key) where
  -- A key that is nowhere in the arena is not found, and nothing changes.
  pub get_absent : ((p : ℕ) → ¬ Stores a key p) → get clock a key ≡ (a, GetResult.not_found)
  get_absent absent =
      let hash = siphash key in
      let start = primary_index key in
      let loop = get_loop clock key hash start a in
      let pass = get_loop-pass clock key hash start a in
      let others = IsOther-of_absent v alone absent in
      get-loop clock a key ∙ elim (scan a (IsOther hash) start slot_count (λ j hi. others j)) [
        | inl all ↦
            walk_all loop pass slot_count all ∙ get_loop-out clock key hash start a slot_count
        | inr (d, st) ↦
            walk loop pass slot_count d st.within st.before
            ∙ get_loop-stop clock key hash start a (slot_count - suc d) d st.empty
      ]

  -- A key that slot `p` holds is expired, and its slot buried, if the clock of that round has come
  -- to its expiry time; else its value is found, and nothing changes.
  pub get_present :
      {p : ℕ} (st : Stores a key p)
      → get clock a key ≡ (
          if is_expired (clock (round v st)) (a.slots p)
          then (slot_mut a p (bury (a.slots p)), expired)
          else (a, found (read_value (a.slots p))))
  get_present {p} st =
      let hash = siphash key in
      let start = primary_index key in
      let d = round v st in
      let (o, f, k) = at_round v st in
      get-loop clock a key
      ∙ walk (get_loop clock key hash start a) (get_loop-pass clock key hash start a) slot_count d
          (round-lt v st) (passes_before v st alone)
      ∙ rw (probe-round v st) at (get_loop-hit clock key hash start a (slot_count - suc d) d o f k)

-- On a valid arena that models `m`, where no other stored key has the fingerprint of `key`: there is
-- a round whose clock reading decides the answer as the abstract map does, the arena stays valid,
-- and a dead entry, and nothing else, is gone from the map.
pub get-Ends :
    (clock : Clock) {a : Arena} {m : AbstractMap} (key : Bytes)
    → IsValid a
    → NoCollision a key
    → Models a m
    → (i : ℕ) × Ends
        (get clock a key)
        (assign m key (keep_entry (clock i) (m key)))
        (read_entry (clock i) (m key))
unfolding read_entry keep_entry
get-Ends clock {a} {m} key v alone h = elim (Option-cases (m key)) [
  | inl no_entry ↦
      let run = get_absent clock v alone (absent h key no_entry) in
      (
        0,
        rw (no_entry, run)
            (record { valid = v; models = assign_same key none no_entry h; result = refl }),
      )
  | inr (e, has) ↦
      let (p, st, eq) = stored h key e has in
      let now = clock (round v st) in
      let run = get_present clock v alone st in
      let same : is_expired now (a.slots p) ≡ is_dead now e =
        is_expired-dead now (a.slots p) ∙ ap (is_dead now) eq in
      (
        round v st,
        elim (Bool-cases (is_expired now (a.slots p))) [
          | inl dead ↦
              rw (has, sym same, dead, rw dead at run)
                (record { valid = bury-IsValid v st; models = bury-Models v st h; result = refl })
          | inr live ↦
              rw (has, sym same, live, rw live at run)
                (record {
                  valid = v;
                  models = assign_same key (some e) has h;
                  result = ap (λ x. found x.0) eq;
                })
        ],
      )
]
