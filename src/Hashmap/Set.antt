-- ===== src/Hashmap/Set.antt =====
-- SET of src/hashmap.rs: the three outcomes, and the entry that it leaves in the abstract map.
use memlane.Arena.{Arena, slot_count}
use memlane.Hashmap.Bury.{
  buried, bury-state, bury-IsValid, bury_absent, bury-NoCollision, bury-Models,
}
use memlane.Hashmap.Claim.{revalue-IsValid, revalue-Models}
use memlane.Hashmap.Invariant.{Occupied, IsValid, Stores, NoCollision, Entry, AbstractMap, Models}
use memlane.Hashmap.Refine.{stored, absent, is_expired-dead}
use memlane.Hashmap.SetEnds.{set-loop, Claims-Ends, SetOutcome}
use memlane.Hashmap.SetFree.{Refuses, set_loop_absent}
use memlane.Hashmap.SetLoop.{below, NotedFirst, set_loop-live, set_loop-dead, set_loop_walk}
use memlane.Hashmap.Spec.{is_dead}
use memlane.Hashmap.Walk.{
  IsOther, Passes, PassesBefore, round, round-lt, at_round, probe-round, IsOther-of_absent,
  passes_before,
}
use memlane.Hashmap.Write.{assign_twice, slot_mut_self, slot_mut-ne}
use memlane.Hashmap.Probe.{probe-injective}
use memlane.Hashmap.{Clock, SetResult, note_first, primary_index, probe, set_loop, set}
use memlane.Prelude.{
  ℕ, suc, ◌-◌, ◌<◌, ◌≤◌, ◌≡◌, ◌≢◌, refl, sym, ap, subst, ◌∙◌, inl, inr, Bytes, length, arith,
  Option, none, some, Bool-cases, Option-cases, false, true,
}
use memlane.Sip.{siphash}
use memlane.Slot.{max_key_len, max_val_len, state_tombstone}
use memlane.Ttl.{ttl_to_expiry, bury, is_expired}

module _ (clock : Clock) {a : Arena} {m : AbstractMap} (key value : Bytes) (ttl_secs : ℕ)
    (key_fits : length key ≤ max_key_len) (val_fits : length value ≤ max_val_len) (v : IsValid a)
    (alone : NoCollision a key) (h : Models a m) where
  abbrev expiry : ℕ
  expiry = ttl_to_expiry (clock 0) ttl_secs

  abbrev start : ℕ
  start = primary_index key

  abbrev Outcome : Arena × SetResult → Type 0
  Outcome = SetOutcome a m key (value, expiry) clock

  -- With no empty slot and no tombstone, every slot is occupied.
  all-Occupied :
      {run : Arena × SetResult} → Refuses a run → (p : ℕ) → p < slot_count → Occupied (a.slots p)
  all-Occupied r p hp =
      let (no_empty, no_tombstone) = r.no_room p hp in let known = v.known p hp in omega arith

  set_absent : m key ≡ none → Outcome (set clock a key value ttl_secs)
  set_absent no_entry =
      let new = absent h key no_entry in
      rw (set-loop clock a key value ttl_secs)
        (elim (set_loop_absent clock key value expiry a slot_count 0 none (omega arith)
          (λ j lt. absurd (omega arith)) (λ j lt. absurd (omega arith))
          (λ j lo hi. IsOther-of_absent v alone new j)) [
            | inl c ↦
                SetOutcome.insert no_entry
                  (Claims-Ends key value expiry key_fits val_fits v h new c)
            | inr r ↦ SetOutcome.refuse no_entry (all-Occupied r) r.unchanged
          ])

  module _ {p : ℕ} (st : Stores a key p) where
    abbrev d : ℕ
    d = round v st

    -- The loop comes to the round of the key.
    to_round :
        (after : Option ℕ) × (set clock a key value ttl_secs
          ≡ set_loop clock key value
              (siphash key)
              start
              expiry
              a
              after
              (suc (slot_count - suc d))
              d)
        × NotedFirst a start d after
    to_round =
        let (after, run, noted) =
          set_loop_walk clock key value (siphash key) start expiry a d (suc (slot_count - suc d))
            slot_count 0 d none (omega (arith, round-lt v st)) (omega arith)
            (λ k lo hi. passes_before v st alone k hi) (λ j lt. absurd (omega arith)) in
        (after, set-loop clock a key value ttl_secs ∙ run, noted)

    set_live :
        (e : Entry)
        → m key ≡ some e
        → is_expired (clock (suc d)) (a.slots p) ≡ false
        → is_dead (clock (suc d)) e ≡ false
        → Outcome (set clock a key value ttl_secs)
    set_live e has live live' =
        let (after, run, noted) = to_round in
        let (o, f, k) = at_round v st in
        let at_p = probe-round v st in
        let hit =
          set_loop-live clock key value (siphash key) start expiry a after (slot_count - suc d) d o
            f k (rw at_p live) in
        SetOutcome.update d e has live' (
          rw (run ∙ rw at_p at hit) (record {
            valid = revalue-IsValid value expiry v st;
            models = revalue-Models value expiry v st val_fits h;
            result = refl;
          }))

    buried_state : ((buried v st).slots p).state ≡ state_tombstone
    buried_state =
        ap (λ s. s.state) (slot_mut_self a p (bury (a.slots p)))
        ∙ bury-state (a.slots p) st.occupied

    tombstone_elsewhere : (t : ℕ) → (a.slots t).state ≡ state_tombstone → t ≢ p
    tombstone_elsewhere t dead e =
        let dead_p = subst (λ x. (a.slots x).state ≡ state_tombstone) e dead in
        let o = st.occupied in omega arith

    passes_buried : PassesBefore (buried v st) (IsOther (siphash key)) start (suc d)
    passes_buried j lt = elim (below j d lt) [
      | inr e ↦ subst (λ k. Passes (buried v st) (IsOther (siphash key)) start k) (sym e) at_d
      | inl lt' ↦
          let q = passes_before v st alone j lt' in
          let kept = slot_mut-ne a p (bury (a.slots p)) (probe start j) (not_p j lt') in
          record { not_empty = rw kept q.not_empty; other = rw kept q.other }
    ]
      where
        at_d : Passes (buried v st) (IsOther (siphash key)) start d
        at_d =
            let at_p = ap (λ x. ((buried v st).slots x).state) (probe-round v st) ∙ buried_state in
            record { not_empty = λ e. omega arith; other = λ o. absurd (omega arith) }

        not_p : (j : ℕ) → j < d → probe start j ≢ p
        not_p j lt e =
            let same =
              probe-injective start j d (omega (arith, round-lt v st)) (round-lt v st)
                (e ∙ sym (probe-round v st)) in
            omega arith

    noted_buried :
        (after : Option ℕ)
        → NotedFirst a start d after
        → NotedFirst (buried v st) start (suc d) (note_first after p)
    noted_buried none _ = (d, omega arith, probe-round v st, buried_state)
    noted_buried (some t) (j, lt, at, dead) = (
      j,
      omega arith,
      at,
      ap (λ s. s.state) (slot_mut-ne a p (bury (a.slots p)) t (tombstone_elsewhere t dead)) ∙ dead,
    )

    set_dead :
        (e : Entry)
        → m key ≡ some e
        → is_expired (clock (suc d)) (a.slots p) ≡ true
        → is_dead (clock (suc d)) e ≡ true
        → Outcome (set clock a key value ttl_secs)
    set_dead e has dead dead' =
        let (after, run, noted) = to_round in
        let (o, f, k) = at_round v st in
        let at_p = probe-round v st in
        let hit =
          set_loop-dead clock key value (siphash key) start expiry a after (slot_count - suc d) d o
            f (rw at_p dead) in
        let v' = bury-IsValid v st in
        let new = bury_absent v st in
        let other = IsOther-of_absent v' (bury-NoCollision v st key alone) new in
        SetOutcome.replace d e has dead' (
          rw (run ∙ rw at_p at hit)
            (elim (set_loop_absent clock key value expiry (buried v st) (slot_count - suc d) (suc d)
              (note_first after p) (omega (arith, round-lt v st)) passes_buried
              (noted_buried after noted) (λ j lo hi. other j)) [
                | inl c ↦
                    rw (assign_twice m key none (some (value, expiry))) at
                      (Claims-Ends key value expiry key_fits val_fits v' (bury-Models v st h) new c)
                | inr r ↦ absurd ((r.no_room p st.inside).1 buried_state)
              ]))

-- SET on a valid arena that models `m`, where no other stored key has the fingerprint of `key`,
-- and the key and the value fit their buffers: after it the arena is valid and models `m` with the
-- new value and expiry time at `key`, and the answer is `updated` if the key had an entry that was
-- alive at some round and `inserted` if it had none or a dead one; or the key had no entry, every
-- slot was occupied, the answer is `full`, and nothing changed.
pub set-SetOutcome :
    (clock : Clock) {a : Arena} {m : AbstractMap} (key value : Bytes) (ttl_secs : ℕ)
    → length key ≤ max_key_len
    → length value ≤ max_val_len
    → IsValid a
    → NoCollision a key
    → Models a m
    → SetOutcome a m key
        (value, ttl_to_expiry (clock 0) ttl_secs)
        clock
        (set clock a key value ttl_secs)
set-SetOutcome clock {a} {m} key value ttl_secs key_fits val_fits v alone h =
    elim (Option-cases (m key)) [
      | inl no_entry ↦ set_absent clock key value ttl_secs key_fits val_fits v alone h no_entry
      | inr (e, has) ↦
          let (p, st, eq) = stored h key e has in
          let now = clock (suc (round v st)) in
          let same = is_expired-dead now (a.slots p) ∙ ap (is_dead now) eq in
          elim (Bool-cases (is_expired now (a.slots p))) [
            | inl dead ↦
                set_dead clock key value ttl_secs key_fits val_fits v alone h st e has dead
                  (sym same ∙ dead)
            | inr live ↦
                set_live clock key value ttl_secs key_fits val_fits v alone h st e has live
                  (sym same ∙ live)
          ]
    ]
