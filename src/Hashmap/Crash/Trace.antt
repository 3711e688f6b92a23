-- ===== src/Hashmap/Crash/Trace.antt =====
-- SET of src/hashmap.rs: what holds after every single store.
use mathlib.Core.List.{map}
use memlane.Arena.{Arena, slot_count, slot, slot_mut}
use memlane.Hashmap.Bury.{bury-IsValid, bury-state}
use memlane.Hashmap.Crash.Apart.{IsApart, slot_mut-IsApart, fetch_add_used-IsApart}
use memlane.Hashmap.Crash.Claiming.{IsSafe, claimed-IsSafe, claim_trace-AllSafe}
use memlane.Hashmap.Crash.Everywhere.{AllHold, AllHold-snoc, last_of-snoc}
use memlane.Hashmap.Crash.Stages.{IsBetween-IsValid}
use memlane.Hashmap.Crash.{update_stages, last_of, claim_trace, set_end_trace, set_trace_loop}
use memlane.Hashmap.Invariant.{Occupied, IsValid}
use memlane.Hashmap.Probe.{probe-lt}
use memlane.Hashmap.Refine.{header-IsValid}
use memlane.Hashmap.SafeRead.{occupied_of, lazy_evict-true, lazy_evict-false, here}
use memlane.Hashmap.SafeSet.{
  Searched, absent_at_end, claim_noted, claim_empty, Searched-next, Searched-note, Searched-buried,
  other_fingerprint, other_key,
}
use memlane.Hashmap.{
  Clock, SetResult, inserted, primary_index, probe, set_end, set_loop, claim_slot, fetch_add_used,
  note_first, unwrap_or,
}
use memlane.Prelude.{
  ℕ, zero, suc, ◌+◌, ◌<◌, ◌≤◌, ◌≡◌, refl, sym, ap, ◌∙◌, inl, not, ◌==◌, branches, List, [], ◌∷◌,
  ◌++◌, Bytes, length, bytes_eq, bytes_eq→eq, false, arith, Option, none, some,
}
use memlane.Sip.{siphash}
use memlane.Slot.Buffers.{write_value-IsSized}
use memlane.Slot.{
  Slot, state_empty, state_occupied, state_tombstone, read_key, write_value, max_key_len,
  max_val_len,
}
use memlane.Ttl.{bury, lazy_evict_if_expired}

same_key : (s : Slot) (k : Bytes) → not (bytes_eq (read_key s) k) ≡ false → read_key s ≡ k
same_key s k e = bytes_eq→eq (read_key s) k (ground arith)

module _ (origin : Arena) (key value : Bytes) (expiry : ℕ) (fits : length key ≤ max_key_len) where
  module _ (clock : Clock) where
    abbrev loop : Arena → Option ℕ → ℕ → ℕ → Arena × SetResult
    loop = set_loop clock key value (siphash key) (primary_index key) expiry

    abbrev trace : Arena → Option ℕ → ℕ → ℕ → List Arena
    trace = set_trace_loop clock key value (siphash key) (primary_index key) expiry

    -- Every arena of the trace is safe, and the last is that of the run.
    abbrev Traced : Arena → List Arena → Arena × SetResult → Type 0
    Traced a tr run = AllHold (IsSafe key origin) tr × (last_of a tr ≡ run.0)

    set_end-Traced :
        {a : Arena} (first : Option ℕ)
        → IsApart key origin a
        → Searched key value expiry fits a slot_count first
        → Traced a
            (set_end_trace clock key value (siphash key) (primary_index key) expiry a first)
            (set_end clock key value (siphash key) (primary_index key) expiry a first)
    unfolding set_end slot set_end_trace
    set_end-Traced none w h = (tt, refl)
    set_end-Traced (some t) w h =
        let (j, lt, at, free) = h.noted t refl in
        claim_trace-AllSafe origin key value expiry fits clock t h.valid
          (rw (sym at) (probe-lt (primary_index key) j)) free
          (claim_noted key value expiry fits h
            (absent_at_end key value expiry fits h (inl refl) (omega arith)) (omega arith) t refl)
          w

    -- The slot that SET claims when it meets an empty one.
    claim_at_empty :
        {a : Arena} {i : ℕ} (first : Option ℕ)
        → Searched key value expiry fits a i first
        → i < slot_count
        → (a.slots (probe (primary_index key) i)).state ≡ state_empty
        → (let t = unwrap_or first (probe (primary_index key) i) in
            (t < slot_count) × (¬ Occupied (a.slots t)))
    claim_at_empty {i = i} none h lt empty = (probe-lt (primary_index key) i, λ o. omega arith)
    claim_at_empty (some t) h lt empty =
        let (j, lj, at, free) = h.noted t refl in
        (rw (sym at) (probe-lt (primary_index key) j), free)

    at_empty :
        {a : Arena} {i : ℕ} (first : Option ℕ)
        → IsApart key origin a
        → Searched key value expiry fits a i first
        → i < slot_count
        → (a.slots (probe (primary_index key) i)).state ≡ state_empty
        → (let t = unwrap_or first (probe (primary_index key) i) in
            let claim = claim_trace clock key value (siphash key) (primary_index key) expiry a t in
            Traced a (claim ++ fetch_add_used (last_of a claim) ∷ []) (
              fetch_add_used (slot_mut a t (claim_slot (a.slots t) (siphash key) key value expiry)),
              inserted,
            ))
    unfolding fetch_add_used
    at_empty {a} {i} first w h lt empty =
        let t = unwrap_or first (probe (primary_index key) i) in
        let claim = claim_trace clock key value (siphash key) (primary_index key) expiry a t in
        let (inside, free) = claim_at_empty first h lt empty in
        let done = claim_empty key value expiry fits first h empty lt in
        let (vs, last) =
          claim_trace-AllSafe origin key value expiry fits clock t h.valid inside free done w in
        let safe = claimed-IsSafe origin key value expiry fits t free w done in
        (
          AllHold-snoc (IsSafe key origin) claim _ vs (
              rw last (record {
                valid = header-IsValid _ safe.valid;
                apart = fetch_add_used-IsApart safe.apart;
              })),
          last_of-snoc a claim _ ∙ ap fetch_add_used last,
        )

    -- An update in place.
    update-Traced :
        {a : Arena} (p : ℕ)
        → IsValid a
        → p < slot_count
        → Occupied (a.slots p)
        → read_key (a.slots p) ≡ key
        → IsApart key origin a
        → AllHold (IsSafe key origin) (map (slot_mut a p) (update_stages (a.slots p) value expiry))
          × (last_of a (map (slot_mut a p) (update_stages (a.slots p) value expiry))
              ≡ slot_mut a p (record (write_value value (a.slots p)) { expires_at_ms = expiry }))
    unfolding update_stages write_value read_key
    update-Traced {a} p v inside o mine apart =
        let w = write_value-IsSized value (v.sized p inside) in
        let f = v.filled p inside o in
        let between = λ (len : ℕ) (e : ℕ) (fits : len ≤ max_val_len).
          let x : Slot = record (a.slots p) {
            val_buf = (write_value value (a.slots p)).val_buf;
            val_len = len;
            expires_at_ms = e;
          } in
          let safe : IsSafe key origin (slot_mut a p x) = record {
            valid = IsBetween-IsValid {t = p} {x = x} v (record {
              state_eq = refl;
              room = record { key_room = w.key_room; val_room = w.val_room };
              filled = λ _. record { key_fits = f.key_fits; val_fits = fits; hashed = f.hashed };
              key_kept = λ _. refl;
            });
            apart = slot_mut-IsApart p x apart (λ _. mine) (λ _. ap siphash mine);
          } in
          safe in
        (
          (between _ _ f.val_fits, (between _ _ (omega arith), (between _ _ (omega arith), tt))),
          refl,
        )

    -- An entry that expired has the hash of the key.
    bury-IsApart :
        {a : Arena} (v : IsValid a) (i : ℕ)
        → not ((a.slots (probe (primary_index key) i)).fingerprint == siphash key) ≡ false
        → Occupied (a.slots (probe (primary_index key) i))
        → IsApart key origin a
        → (let p = probe (primary_index key) i in
            IsApart key origin (slot_mut a p (bury (a.slots p))))
    bury-IsApart {a} v i same o w =
        let p = probe (primary_index key) i in
        let dead = bury-state (a.slots p) o in
        let hashed = (v.filled p (probe-lt (primary_index key) i) o).hashed in
        slot_mut-IsApart p (bury (a.slots p)) w (λ o'. absurd (omega arith)) (λ _. ground arith)

    pub set_loop-Traced :
        (left i : ℕ) (first : Option ℕ) (a : Arena)
        → i + left ≡ slot_count
        → IsApart key origin a
        → Searched key value expiry fits a i first
        → Traced a (trace a first left i) (loop a first left i)
    unfolding set_loop set_trace_loop slot
    set_loop-Traced zero i first a e w h =
        let last : i ≡ slot_count = omega arith in set_end-Traced first w (rw last at h)
    set_loop-Traced (suc left) i first a e w h =
        let idx = probe (primary_index key) i in
        let s = a.slots idx in
        let next = Searched-next key value expiry fits h in
        branches (Traced a) (s.state == state_empty)
          (λ t. at_empty first w h (omega arith) (ground arith))
          λ full.
            branches (Traced a) (s.state == state_tombstone)
              (λ t. set_loop-Traced left (suc i) (note_first first idx) a (omega arith) w (
                Searched-note key value expiry fits first
                  (next
                    (record { not_empty = λ z. ground arith; other = λ o. absurd (ground arith) }))
                  (λ o. ground arith)))
              λ live.
                branches (Traced a) (s.state == state_occupied)
                  (λ o.
                    branches (Traced a) (not (s.fingerprint == siphash key))
                      (λ other. set_loop-Traced left (suc i) first a (omega arith) w (
                        next (record {
                          not_empty = λ z. ground arith;
                          other = other_fingerprint key value expiry fits h.valid i other;
                        })))
                      λ same.
                        branches (Traced a) (lazy_evict_if_expired (clock (suc i)) s).1
                          (λ dead.
                            let o' = occupied_of s o in
                            let buried_apart = bury-IsApart h.valid i same o' w in
                            rw (lazy_evict-true (clock (suc i)) s dead) (
                              let (vs, last) =
                                set_loop-Traced left (suc i) (note_first first idx)
                                  (slot_mut a idx (bury s)) (omega arith) buried_apart
                                  (Searched-buried key value expiry fits first (omega arith) h
                                    o') in
                              (
                                (
                                  record {
                                    valid = bury-IsValid h.valid (here a (primary_index key) i o');
                                    apart = buried_apart;
                                  },
                                  vs,
                                ),
                                last,
                              )))
                          λ alive.
                            branches (Traced a)
                              (not (
                                bytes_eq (read_key (lazy_evict_if_expired (clock (suc i)) s).0)
                                  key))
                              (λ other. set_loop-Traced left (suc i) first a (omega arith) w (
                                next (record {
                                  not_empty = λ z. ground arith;
                                  other =
                                      other_key key value expiry fits s key
                                        (rw (lazy_evict-false (clock (suc i)) s alive) at other);
                                })))
                              (λ mine. rw (lazy_evict-false (clock (suc i)) s alive) (
                                update-Traced idx h.valid (probe-lt (primary_index key) i)
                                  (occupied_of s o)
                                  (same_key s key
                                    (rw (lazy_evict-false (clock (suc i)) s alive) at mine))
                                  w)))
                  (λ odd. set_loop-Traced left (suc i) first a (omega arith) w (
                    next (record {
                      not_empty = λ z. ground arith;
                      other = λ o. absurd (ground arith);
                    })))
