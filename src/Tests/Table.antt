-- ===== src/Tests/Table.antt =====
-- Tests of the table and its theorems, on arenas that hold a key.
use memlane.Arena.Layout.{IsPlaced, slot_ptr-IsPlaced}
use memlane.Arena.{Arena, create_arena, open_arena, slot_count}
use memlane.Hashmap.Del.{del-Ends}
use memlane.Hashmap.Flush.{no_entries, flush_all-no_entries, create_arena-open_arena}
use memlane.Hashmap.Get.{get-Ends}
use memlane.Hashmap.Invariant.{IsValid, AbstractMap, assign, Models}
use memlane.Hashmap.Probe.{probe_covers}
use memlane.Hashmap.Refine.{Ends}
use memlane.Hashmap.Safe.{run-IsValid}
use memlane.Hashmap.Run.{Holds, run-Steps}
use memlane.Hashmap.Set.{set-SetOutcome}
use memlane.Hashmap.SetEnds.{SetOutcome}
use memlane.Hashmap.Spec.{read_entry, keep_entry, del_entry}
use memlane.Hashmap.Steps.{Op, op_get, op_exists, op_set, op_del, op_flush, run, Steps}
use memlane.Hashmap.{probe, get, set, del, flush_all, used_count}
use memlane.Prelude.{ℕ, ◌<◌, ◌≡◌, refl, inl, inr, some, none, codes, List, [], ◌∷◌, arith, ok, true}
use memlane.Tests.Samples.{
  midnight, noon, mq, nt, one, one_entry, one-Ends, Sample, Sample-Separates, one-Holds, one_alone,
}
use memlane.Ttl.{ttl_to_expiry}

get-Ends_example :
    (i : ℕ) × Ends
      (get midnight one mq)
      (assign one_entry mq (keep_entry (midnight i) (one_entry mq)))
      (read_entry (midnight i) (one_entry mq))
get-Ends_example = get-Ends midnight mq one-Ends.valid (one_alone mq (inl refl)) one-Ends.models

set-SetOutcome_example :
    SetOutcome one one_entry nt
      (codes "8", ttl_to_expiry (midnight 0) 0)
      midnight
      (set midnight one nt (codes "8") 0)
set-SetOutcome_example =
    set-SetOutcome midnight nt (codes "8") 0 (omega arith) (omega arith) one-Ends.valid
      (one_alone nt (inr refl)) one-Ends.models

del-Ends_example : Ends (del one mq) (assign one_entry mq none) (del_entry (one_entry mq))
del-Ends_example = del-Ends mq one-Ends.valid one-Ends.models

flush_all-no_entries_example :
    IsValid (flush_all one) × Models (flush_all one) no_entries × (used_count (flush_all one) ≡ 0)
flush_all-no_entries_example = flush_all-no_entries one-Ends.valid

create_arena-open_arena_example :
    (a : Arena) × (create_arena
        (record { shm_open = ok tt; ftruncate = true; mmap = some one; hex = λ _. [] })
      ≡ ok a)
    × IsValid a
    × Models a no_entries
    × (used_count a ≡ 0)
    × (open_arena (record { shm_open = ok tt; ftruncate = true; mmap = some a; hex = λ _. [] })
        ≡ ok a)
create_arena-open_arena_example = create_arena-open_arena one one-Ends.valid.sized (λ _. [])

abbrev visit : List Op
visit =
    op_set noon nt (codes "8") 3
    ∷ op_get midnight mq
    ∷ op_set midnight mq (codes "9") 0
    ∷ op_del nt
    ∷ op_exists midnight nt
    ∷ op_flush
    ∷ []

run-Steps_example :
    (m' : AbstractMap) × Steps one_entry visit (run one visit).1 m'
    × Holds Sample (run one visit).0 m'
run-Steps_example =
    run-Steps Sample-Separates visit one one_entry
      (
        (inr refl, omega arith, omega arith),
        (inl refl, ((inl refl, omega arith, omega arith), (inr refl, (inr refl, (tt, tt))))),
      )
      one-Holds

run-IsValid_example : IsValid (run one visit).0
run-IsValid_example =
    run-IsValid visit one (omega arith, (tt, (omega arith, (tt, (tt, (tt, tt)))))) one-Ends.valid

probe_covers_example :
    (i : ℕ) × (i < slot_count)
    × (probe 65530 i ≡ 7)
    × ((j : ℕ) → j < slot_count → probe 65530 j ≡ 7 → j ≡ i)
probe_covers_example = probe_covers 65530 7 (omega arith) (omega arith)

-- The second slot of a region behind two pages.
slot_ptr-IsPlaced_example : IsPlaced 8192 1
slot_ptr-IsPlaced_example = slot_ptr-IsPlaced 8192 1 (omega arith) (omega arith)
