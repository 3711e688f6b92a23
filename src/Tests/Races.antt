-- ===== src/Tests/Races.antt =====
-- Tests of concurrent deletions.
use memlane.Arena.{slot, slot_mut}
use memlane.Hashmap.Race.Winner.{RaceReach-deleted}
use memlane.Hashmap.Race.{
  looking, returned, after_load, after_compare, after_swap, Threads, RaceReach, race_start,
  race_step, load_state, compare_key, swap_state, count_down, evict,
}
use memlane.Hashmap.{
  deleted, set, set_loop, set_end, probe, primary_index, claim_slot, fetch_add_used, fetch_sub_used,
}
use memlane.Prelude.{ℕ, ◌≡◌, ◌≢◌, refl, Bytes, bytes_eq, arith}
use memlane.Sip.{siphash}
use memlane.Slot.{read_key, write_key, write_value, compare_exchange}
use memlane.Tests.Samples.{one, one-Ends, mq}
use memlane.Ttl.{bury}

-- All threads delete the same key.
abbrev all_mq : ℕ → Bytes
all_mq _ = mq

abbrev at_start : Threads
at_start = record { arena = one; phases = λ _. looking 0 }

-- Two threads find the key, before either of them takes it.
race : (t : Threads) × RaceReach all_mq at_start t
unfolding after_load after_compare after_swap slot slot_mut set set_loop probe primary_index
    claim_slot siphash set_end fetch_add_used fetch_sub_used read_key write_key write_value
    compare_exchange bury bytes_eq
race = (
  _,
  race_step
      (race_step
        (race_step
          (race_step
            (race_step
              (race_step
                (race_step (race_step race_start (load_state 0 0 refl (omega arith)))
                  (load_state 1 0 refl (omega arith)))
                (evict 9))
              (compare_key 0 0 refl))
            (compare_key 1 0 refl))
          (swap_state 1 0 refl))
        (swap_state 0 0 refl))
      (count_down 1 refl),
)

race_ended : race.0.phases 1 ≡ returned deleted
unfolding race after_load after_compare after_swap slot slot_mut set set_loop probe primary_index
    claim_slot siphash set_end fetch_add_used fetch_sub_used read_key write_key write_value
    compare_exchange bury bytes_eq
race_ended = refl

RaceReach-deleted_example : race.0.phases 0 ≢ returned deleted
RaceReach-deleted_example =
    RaceReach-deleted all_mq one race.0 1 0 one-Ends.valid race.1 race_ended refl
      (λ e. absurd (omega (arith, e)))
