-- ===== src/Hashmap/Race.antt =====
-- src/hashmap.rs: `del` by several threads at once. Each step is one access to the shared arena, or one
-- comparison by a thread of what it loaded; other threads may evict expired entries (`get`, `exists`), and none
-- writes a key. What an access sees is what the last one before it left.
pub mod Phases
pub mod Winner
pub mod Single
use memlane.Arena.{Arena, slot_count, slot, slot_mut}
use memlane.Hashmap.{DelResult, deleted, primary_index, probe, fetch_sub_used}
use memlane.Prelude.{
  ℕ, suc, ◌<◌, ◌≡◌, Bool, true, false, not, Bytes, bytes_eq, ◌==◌, if◌then◌else◌, update,
}
use memlane.Sip.{siphash}
use memlane.Slot.{Slot, state_empty, state_occupied, state_tombstone, read_key, compare_exchange}
use memlane.Ttl.{bury}

-- Where a thread stands, with its loop variable `i`: it is to load the state of its slot, has seen it
-- occupied, has found its key in it, has deleted it and is to count that, or has returned.
pub data Phase : Type 0 where
  looking : (i : ℕ) → Phase
  comparing : (i : ℕ) → Phase
  swapping : (i : ℕ) → Phase
  counting : Phase
  returned : DelResult → Phase

unfoldable pub after_load : ℕ → Slot → Phase
after_load i s =
    if s.state == state_empty
    then returned DelResult.not_found
    else if s.state == state_tombstone
    then looking (suc i)
    else if s.state == state_occupied
    then comparing i
    else looking (suc i)

unfoldable pub after_compare : Bytes → ℕ → Slot → Phase
after_compare key i s =
    if not (s.fingerprint == siphash key)
    then looking (suc i)
    else if not (bytes_eq (read_key s) key)
    then looking (suc i)
    else swapping i

unfoldable pub after_swap : ℕ → Bool → Phase
after_swap i swapped = if swapped then counting else looking (suc i)

pub record Threads : Type 0 where
  pub arena : Arena
  pub phases : ℕ → Phase

-- `keys k` is the key that thread `k` deletes.
module _ (keys : ℕ → Bytes) where
  -- The slot of thread `k` at `i`.
  abbrev pub slot_of : ℕ → ℕ → ℕ
  slot_of k i = probe (primary_index (keys k)) i

  pub data RaceStep (s : Threads) : Threads → Type 0 where
    load_state :
        (k i : ℕ)
        → s.phases k ≡ looking i
        → i < slot_count
        → RaceStep s
            (record s { phases = update s.phases k (after_load i (slot s.arena (slot_of k i))) })
    give_up :
        (k : ℕ)
        → s.phases k ≡ looking slot_count
        → RaceStep s (record s { phases = update s.phases k (returned DelResult.not_found) })
    compare_key :
        (k i : ℕ)
        → s.phases k ≡ comparing i
        → RaceStep s (record s {
          phases = update s.phases k (after_compare (keys k) i (slot s.arena (slot_of k i)));
        })
    swap_state :
        (k i : ℕ)
        → s.phases k ≡ swapping i
        → RaceStep s (record {
          arena =
              slot_mut s.arena
                (slot_of k i)
                (compare_exchange state_occupied state_tombstone (slot s.arena (slot_of k i))).0;
          phases = update s.phases k (
              after_swap i
                (compare_exchange state_occupied state_tombstone (slot s.arena (slot_of k i))).1);
        })
    count_down :
        (k : ℕ)
        → s.phases k ≡ counting
        → RaceStep s (record {
          arena = fetch_sub_used s.arena;
          phases = update s.phases k (returned deleted);
        })
    -- another thread finds the entry of a slot expired
    evict : (p : ℕ) → RaceStep s (record s { arena = slot_mut s.arena p (bury (slot s.arena p)) })

  pub data RaceReach (s : Threads) : Threads → Type 0 where
    race_start : RaceReach s s
    race_step : {t u : Threads} → RaceReach s t → RaceStep t u → RaceReach s u
