-- ===== src/Hashmap/Race/Winner.antt =====
-- src/hashmap.rs: of several threads that delete a key at once, at most one has deleted it.
use memlane.Arena.{Arena, slot_count, slot, slot_mut}
use memlane.Hashmap.Invariant.{Occupied, IsValid}
use memlane.Hashmap.Probe.{probe-lt}
use memlane.Hashmap.Race.Phases.{
  HasWon, Shrinks, at_each, Shrinks-slot_mut, after_load-Loses, after_compare-Aims, swap_cases,
  read_key-bury, bury-Occupied,
}
use memlane.Hashmap.Race.{
  Phase, looking, swapping, counting, returned, after_swap, Threads, slot_of, RaceStep, load_state,
  give_up, compare_key, swap_state, count_down, evict, RaceReach, race_start, race_step,
}
use memlane.Hashmap.{deleted, primary_index, fetch_sub_used}
use memlane.Prelude.{
  ℕ, suc, ◌<◌, ◌≡◌, ◌≢◌, refl, sym, ap, ◌∙◌, ◌⊎◌, inl, inr, Bool, true, false, Bytes, update,
  update_self, arith, subst,
}
use memlane.Slot.{Slot, state_occupied, state_tombstone, read_key, compare_exchange}
use memlane.Ttl.{bury}

module _ (keys : ℕ → Bytes) (first : Arena) where
  -- The entry of the thread's key, which the first arena had, is gone.
  abbrev Gone : Arena → ℕ → Type 0
  Gone a k =
      (p : ℕ) × (p < slot_count)
      × Occupied (first.slots p)
      × (read_key (first.slots p) ≡ keys k)
      × (Occupied (a.slots p) → ⊥)

  record RaceInvariant (s : Threads) : Type 0 where
    shrinks : Shrinks first s.arena
    aimed :
        (k i : ℕ) → s.phases k ≡ swapping i → read_key (s.arena.slots (slot_of keys k i)) ≡ keys k
    gone : (k : ℕ) → HasWon (s.phases k) → Gone s.arena k
    alone : (j k : ℕ) → HasWon (s.phases j) → HasWon (s.phases k) → keys j ≡ keys k → j ≡ k

  -- A thread that has not won, or had won before, goes on.
  moved :
      (s : Threads) (k : ℕ) (ph : Phase)
      → RaceInvariant s
      → (HasWon ph → HasWon (s.phases k))
      → ((i : ℕ) → ph ≡ swapping i → read_key (s.arena.slots (slot_of keys k i)) ≡ keys k)
      → RaceInvariant (record s { phases = update s.phases k ph })
  moved s k ph inv before aim =
      let won : (j : ℕ) → HasWon (update s.phases k ph j) → HasWon (s.phases j) =
        at_each (λ j x. HasWon x → HasWon (s.phases j)) s.phases k ph before (λ j n w. w) in
      record {
        shrinks = inv.shrinks;
        aimed =
            at_each
              (λ j x.
                (i : ℕ) → x ≡ swapping i → read_key (s.arena.slots (slot_of keys j i)) ≡ keys j)
              s.phases k ph aim (λ j n. inv.aimed j);
        gone = λ j w. inv.gone j (won j w);
        alone = λ i j w x e. inv.alone i j (won i w) (won j x) e;
      }

  -- Another thread took an entry out.
  shrunk :
      (s : Threads) (b : Arena)
      → Shrinks s.arena b
      → RaceInvariant s
      → RaceInvariant (record s { arena = b })
  shrunk s b sh inv = record {
    shrinks = record {
      kept = λ p. sh.kept p ∙ inv.shrinks.kept p;
      was = λ p o. inv.shrinks.was p (sh.was p o);
    };
    aimed = λ k i e. sh.kept (slot_of keys k i) ∙ inv.aimed k i e;
    gone = λ k w. let (p, hp, o, e, free) = inv.gone k w in (p, hp, o, e, λ o'. free (sh.was p o'));
    alone = inv.alone;
  }

  -- A thread takes the entry of its key out.
  wins :
      (s : Threads) (k i : ℕ) (b : Arena)
      → IsValid first
      → RaceInvariant s
      → s.phases k ≡ swapping i
      → Occupied (s.arena.slots (slot_of keys k i))
      → Shrinks s.arena b
      → (Occupied (b.slots (slot_of keys k i)) → ⊥)
      → RaceInvariant (record { arena = b; phases = update s.phases k counting })
  wins s k i b v inv e o sh free =
      let p = slot_of keys k i in
      let hp = probe-lt (primary_index (keys k)) i in
      let inv' = shrunk s b sh inv in
      let had = inv.shrinks.was p o in
      let mine : read_key (first.slots p) ≡ keys k = sym (inv.shrinks.kept p) ∙ inv.aimed k i e in
      -- nobody else has won that key
      let first_one : (j : ℕ) → HasWon (s.phases j) → keys j ≡ keys k → ⊥ = λ j w same.
        let (q, hq, oq, eq, gone) = inv.gone j w in
        let there : q ≡ p = v.unique q p hq hp oq had (eq ∙ same ∙ sym mine) in
        gone (subst (λ r. Occupied (s.arena.slots r)) (sym there) o) in
      record {
        shrinks = inv'.shrinks;
        aimed =
            at_each
              (λ j x. (l : ℕ) → x ≡ swapping l → read_key (b.slots (slot_of keys j l)) ≡ keys j)
              s.phases k counting (λ l c. absurd cc) (λ j n. inv'.aimed j);
        gone =
            at_each (λ j x. HasWon x → Gone b j) s.phases k counting (λ w. (p, hp, had, mine, free))
              (λ j n. inv'.gone j);
        alone =
            at_each
              (λ j x.
                (l : ℕ)
                → HasWon x
                → HasWon (update s.phases k counting l)
                → keys j ≡ keys l
                → j ≡ l)
              s.phases k counting
              (at_each (λ l y. HasWon counting → HasWon y → keys k ≡ keys l → k ≡ l) s.phases k
                counting (λ w x same. refl) (λ l n w x same. absurd (first_one l x (sym same))))
              (λ j n.
                at_each (λ l y. HasWon (s.phases j) → HasWon y → keys j ≡ keys l → j ≡ l) s.phases k
                  counting (λ w x same. absurd (first_one j w same)) (λ l m. inv.alone j l));
      }

  swapped :
      (s : Threads) (k i : ℕ) (r : Slot × Bool)
      → IsValid first
      → RaceInvariant s
      → s.phases k ≡ swapping i
      → (let x = s.arena.slots (slot_of keys k i) in
          (Occupied x × (r ≡ (record x { state = state_tombstone }, true))) ⊎ (r ≡ (x, false)))
      → RaceInvariant (record {
        arena = slot_mut s.arena (slot_of keys k i) r.0;
        phases = update s.phases k (after_swap i r.1);
      })
  unfolding after_swap read_key slot_mut
  swapped s k i r v inv e (inl (o, done)) =
      let p = slot_of keys k i in
      let x : Slot = record (s.arena.slots p) { state = state_tombstone } in
      subst
        (λ q. RaceInvariant (record {
          arena = slot_mut s.arena p q.0;
          phases = update s.phases k (after_swap i q.1);
        }))
        (sym done)
        (wins s k i (slot_mut s.arena p x) v inv e o
          (Shrinks-slot_mut s.arena p x refl (λ o'. absurd (omega arith)))
          (λ o'. let now = ap (λ y. y.state) (update_self s.arena.slots p x) in omega arith))
  swapped s k i r v inv e (inr failed) =
      let p = slot_of keys k i in
      let x = s.arena.slots p in
      subst
        (λ q. RaceInvariant (record {
          arena = slot_mut s.arena p q.0;
          phases = update s.phases k (after_swap i q.1);
        }))
        (sym failed)
        (shrunk (record s { phases = update s.phases k (looking (suc i)) }) (slot_mut s.arena p x)
          (Shrinks-slot_mut s.arena p x refl (λ o. o))
          (moved s k (looking (suc i)) inv (λ w. absurd w) (λ j e'. absurd cc)))

  RaceStep-invariant :
      IsValid first → {s t : Threads} → RaceStep keys s t → RaceInvariant s → RaceInvariant t
  unfolding fetch_sub_used slot
  RaceStep-invariant v {s} (load_state k i e lt) inv =
      let (loses, aims) = after_load-Loses i (slot s.arena (slot_of keys k i)) in
      moved s k _ inv (λ w. absurd (loses w)) (λ j e'. absurd (aims j e'))
  RaceStep-invariant v {s} (give_up k e) inv = moved s k _ inv (λ w. absurd w) (λ j e'. absurd cc)
  RaceStep-invariant v {s} (compare_key k i e) inv =
      let (loses, aims) = after_compare-Aims (keys k) i (slot s.arena (slot_of keys k i)) in
      moved s k _ inv (λ w. absurd (loses w))
        (λ j e'.
          let (same, key) = aims j e' in
          subst (λ l. read_key (s.arena.slots (slot_of keys k l)) ≡ keys k) same key)
  RaceStep-invariant v {s} (swap_state k i e) inv =
      swapped s k i
        (compare_exchange state_occupied state_tombstone (s.arena.slots (slot_of keys k i))) v inv e
        (swap_cases (s.arena.slots (slot_of keys k i)))
  RaceStep-invariant v {s} (count_down k e) inv =
      shrunk (record s { phases = update s.phases k (returned deleted) }) (fetch_sub_used s.arena)
        (record { kept = λ p. refl; was = λ p o. o })
        (moved s k (returned deleted) inv (λ w. rw e tt) (λ j e'. absurd cc))
  RaceStep-invariant v {s} (evict p) inv =
      shrunk s _
        (Shrinks-slot_mut s.arena p (bury (s.arena.slots p)) (read_key-bury (s.arena.slots p))
          (bury-Occupied (s.arena.slots p)))
        inv

  RaceReach-invariant :
      IsValid first → {s t : Threads} → RaceInvariant s → RaceReach keys s t → RaceInvariant t
  RaceReach-invariant v inv race_start = inv
  RaceReach-invariant v inv (race_step r st) = RaceStep-invariant v st (RaceReach-invariant v inv r)

-- Any number of threads delete keys of a valid arena at once, while others evict expired entries: whatever the
-- order of their accesses, when one has returned that it deleted its key, no other thread with that key has.
pub RaceReach-deleted :
    (keys : ℕ → Bytes) (first : Arena) (t : Threads) (j k : ℕ)
    → IsValid first
    → RaceReach keys (record { arena = first; phases = λ _. looking 0 }) t
    → t.phases j ≡ returned deleted
    → keys j ≡ keys k
    → j ≢ k
    → t.phases k ≢ returned deleted
RaceReach-deleted keys first t j k v r e same apart f =
    let start : RaceInvariant keys first (record { arena = first; phases = λ _. looking 0 }) =
      record {
        shrinks = record { kept = λ p. refl; was = λ p o. o };
        aimed = λ l i aim. absurd cc;
        gone = λ l w. absurd w;
        alone = λ l m w x e'. absurd w;
      } in
    let inv = RaceReach-invariant keys first v start r in
    apart (inv.alone j k (rw e tt) (rw f tt) same)
