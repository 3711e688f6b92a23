-- ===== src/Hashmap/Race/Single.antt =====
-- src/hashmap.rs: a thread that deletes a key with no other in between does what `del` does.
use memlane.Arena.{Arena, slot_count, slot, slot_mut}
use memlane.Hashmap.Race.{
  Phase, looking, comparing, swapping, counting, returned, after_load, after_compare, after_swap,
  Threads, slot_of, RaceStep, load_state, give_up, compare_key, swap_state, count_down, RaceReach,
  race_start, race_step,
}
use memlane.Hashmap.{DelResult, deleted, primary_index, fetch_sub_used, del_loop, del}
use memlane.Prelude.{
  branches, ℕ, zero, suc, ◌+◌, ◌≡◌, refl, sym, ap, ◌∙◌, true, not, Bytes, bytes_eq, ◌==◌,
  if◌then◌else◌, update, update_self, subst, arith,
}
use memlane.Sip.{siphash}
use memlane.Slot.{state_empty, state_occupied, state_tombstone, read_key, compare_exchange}

module _ (keys : ℕ → Bytes) (k : ℕ) where
  -- Steps lead to where thread `k` has returned the answer of `r`, on its arena.
  pub record Runs (s : Threads) (r : Arena × DelResult) : Type 0 where
    pub last : Threads
    pub reach : RaceReach keys s last
    pub arena : last.arena ≡ r.0
    pub phase : last.phases k ≡ returned r.1

  reach_trans : {s t u : Threads} → RaceReach keys s t → RaceReach keys t u → RaceReach keys s u
  reach_trans r race_start = r
  reach_trans r (race_step q st) = race_step (reach_trans r q) st

  Runs-from : {s t : Threads} {r : Arena × DelResult} → RaceReach keys s t → Runs t r → Runs s r
  Runs-from q h = record {
    last = h.last;
    reach = reach_trans q h.reach;
    arena = h.arena;
    phase = h.phase;
  }

  abbrev loop : Arena → ℕ → ℕ → Arena × DelResult
  loop = del_loop (keys k) (siphash (keys k)) (primary_index (keys k))

  abbrev goes : Threads → Phase → Threads
  goes s ph = record s { phases = update s.phases k ph }

  reaches :
      {s : Threads} (ph : Phase) {r : Arena × DelResult}
      → RaceStep keys s (goes s ph)
      → Runs (goes s ph) r
      → Runs s r
  reaches ph st h = Runs-from (race_step race_start st) h

  -- An occupied slot with the key: the exchange succeeds.
  takes :
      (i : ℕ) (s : Threads) (next : Arena × DelResult)
      → s.phases k ≡ swapping i
      → (s.arena.slots (slot_of keys k i)).state == state_occupied ≡ true
      → (let p = slot_of keys k i in
          let c = compare_exchange state_occupied state_tombstone (s.arena.slots p) in
          Runs s (if c.1 then (fetch_sub_used (slot_mut s.arena p c.0), deleted) else next))
  unfolding compare_exchange after_swap slot
  takes i s next e occupied =
      let p = slot_of keys k i in
      let x = s.arena.slots p in
      let done : compare_exchange state_occupied state_tombstone x
          ≡ (record x { state = state_tombstone }, true) =
        rw occupied refl in
      let b = slot_mut s.arena p (record x { state = state_tombstone }) in
      let won : Threads = record { arena = b; phases = update s.phases k counting } in
      let swap : RaceStep keys s won =
        subst
          (λ c. RaceStep keys s (record {
            arena = slot_mut s.arena p c.0;
            phases = update s.phases k (after_swap i c.1);
          }))
          done (swap_state k i e) in
      subst (λ c. Runs s (if c.1 then (fetch_sub_used (slot_mut s.arena p c.0), deleted) else next))
        (sym done)
        (record {
          last = record {
            arena = fetch_sub_used b;
            phases = update won.phases k (returned deleted);
          };
          reach =
              race_step (race_step race_start swap)
                (count_down k (update_self s.phases k counting));
          arena = refl;
          phase = update_self won.phases k (returned deleted);
        })

  single :
      (left i : ℕ) (s : Threads)
      → s.phases k ≡ looking i
      → i + left ≡ slot_count
      → Runs s (loop s.arena left i)
  unfolding del_loop after_load after_compare slot
  single zero i s e n = record {
    last = goes s (returned DelResult.not_found);
    reach = race_step race_start (give_up k (e ∙ ap looking (omega arith)));
    arena = refl;
    phase = update_self s.phases k (returned DelResult.not_found);
  }
  single (suc left) i s e n =
      let x = s.arena.slots (slot_of keys k i) in
      let seen = goes s (comparing i) in
      let next = loop s.arena left (suc i) in
      let onward : Runs (goes s (looking (suc i))) next =
        single left (suc i) (goes s (looking (suc i))) (update_self s.phases k (looking (suc i)))
          (omega arith) in
      let from_seen : Runs (goes seen (looking (suc i))) next =
        single left (suc i) (goes seen (looking (suc i)))
          (update_self seen.phases k (looking (suc i))) (omega arith) in
      let Loaded : Phase → Arena × DelResult → Type 0 = λ ph r. Runs (goes s ph) r in
      let Compared : Phase → Arena × DelResult → Type 0 = λ ph r. Runs (goes seen ph) r in
      reaches (after_load i x) (load_state k i e (omega arith)) (
        branches Loaded (x.state == state_empty)
          (λ _. record {
            last = goes s (returned DelResult.not_found);
            reach = race_start;
            arena = refl;
            phase = update_self s.phases k (returned DelResult.not_found);
          })
          λ _.
            branches Loaded (x.state == state_tombstone) (λ _. onward)
              λ _.
                branches Loaded (x.state == state_occupied)
                  (λ occupied.
                    reaches (after_compare (keys k) i x)
                      (compare_key k i (update_self s.phases k (comparing i)))
                      (branches Compared (not (x.fingerprint == siphash (keys k))) (λ _. from_seen)
                        λ _.
                          branches Compared (not (bytes_eq (read_key x) (keys k))) (λ _. from_seen)
                            λ _.
                              takes i (goes seen (swapping i)) next
                                (update_self seen.phases k (swapping i)) occupied))
                  (λ _. onward))

-- From threads of which `k` starts, there are steps to where it has returned what `del` answers, on
-- the arena that `del` leaves.
pub single_del :
    (keys : ℕ → Bytes) (k : ℕ) (s : Threads)
    → s.phases k ≡ looking 0
    → Runs keys k s (del s.arena (keys k))
unfolding del primary_index
single_del keys k s e = single keys k slot_count 0 s e refl
