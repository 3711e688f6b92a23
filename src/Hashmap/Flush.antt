-- ===== src/Hashmap/Flush.antt =====
-- An arena whose slots were all reset: `flush_all` of src/hashmap.rs, and `create_arena` of
-- src/shm.rs, which makes the arena that the table starts from.
use memlane.Arena.{
  Arena, arena_magic, slot_count, slot, slot_mut, init_slots, init_region, create_arena, open_arena,
}
use memlane.Hashmap.Invariant.{IsValid, AbstractMap, Models}
use memlane.Hashmap.Write.{slot_mut_self, slot_mut-ne}
use memlane.Hashmap.{flush_loop, flush_all, used_count}
use memlane.Prelude.{
  ℕ, zero, suc, ◌+◌, ◌<◌, ◌≤◌, ◌≡◌, refl, ap, ◌∙◌, ◌⊎◌, inl, inr, arith, none, some, true, ok,
  Bytes, update,
}
use memlane.Slot.Buffers.{IsSized}
use memlane.Slot.{Slot, init}

flush_loop-before : (left i p : ℕ) (a : Arena) → p < i → (flush_loop a left i).slots p ≡ a.slots p
unfolding flush_loop slot
flush_loop-before zero i p a lt = refl
flush_loop-before (suc left) i p a lt =
    flush_loop-before left (suc i) p (slot_mut a i (init (slot a i))) (omega arith)
    ∙ slot_mut-ne a i (init (slot a i)) p (omega arith)

here_or_later : (i p : ℕ) → i ≤ p → (p ≡ i) ⊎ (suc i ≤ p)
here_or_later i p h = omega arith

-- The loop resets each slot once.
flush_loop-slots :
    (left i p : ℕ) (a : Arena)
    → i ≤ p
    → p < i + left
    → (flush_loop a left i).slots p ≡ init (a.slots p)
unfolding flush_loop slot
flush_loop-slots zero i p a lo hi = absurd (omega arith)
flush_loop-slots (suc left) i p a lo hi =
    let s = init (a.slots i) in
    elim (here_or_later i p lo) [
      | inl e ↦
          flush_loop-before left (suc i) p (slot_mut a i s) (omega arith)
          ∙ rw e (slot_mut_self a i s)
      | inr later ↦
          flush_loop-slots left (suc i) p (slot_mut a i s) later (omega arith)
          ∙ ap init (slot_mut-ne a i s p (omega arith))
    ]

abbrev pub no_entries : AbstractMap
no_entries key = none

init-IsSized : {s : Slot} → IsSized s → IsSized (init s)
unfolding init
init-IsSized h = record { key_room = h.key_room; val_room = h.val_room }

-- With every slot reset, nothing is stored.
module _ (a b : Arena) (reset : (p : ℕ) → p < slot_count → b.slots p ≡ init (a.slots p)) where
  reset-state : (p : ℕ) → p < slot_count → (b.slots p).state ≡ 0
  unfolding init
  reset-state p hp = ap (λ s. s.state) (reset p hp)

  reset-IsValid : ((p : ℕ) → p < slot_count → IsSized (a.slots p)) → IsValid b
  reset-IsValid sized = record {
    sized = λ p hp. rw (reset p hp) (init-IsSized (sized p hp));
    known = λ p hp. let e = reset-state p hp in omega arith;
    filled = λ p hp o. let e = reset-state p hp in absurd (omega arith);
    reached = λ p hp o. let e = reset-state p hp in absurd (omega arith);
    unique = λ p q hp hq o. let e = reset-state p hp in absurd (omega arith);
  }

  reset-Models : Models b no_entries
  reset-Models = record {
    sound = λ p hp o. let e = reset-state p hp in absurd (omega arith);
    complete = λ key e has. absurd cc;
  }

pub flush_all-slots :
    (a : Arena) (p : ℕ) → p < slot_count → (flush_all a).slots p ≡ init (a.slots p)
unfolding flush_all
flush_all-slots a p hp = flush_loop-slots slot_count 0 p a (omega arith) (omega arith)

-- FLUSH of a valid arena leaves a valid one that holds nothing and counts nothing.
pub flush_all-no_entries :
    {a : Arena}
    → IsValid a
    → IsValid (flush_all a) × Models (flush_all a) no_entries × (used_count (flush_all a) ≡ 0)
unfolding flush_all used_count
flush_all-no_entries {a} v = (
  reset-IsValid a (flush_all a) (flush_all-slots a) v.sized,
  reset-Models a (flush_all a) (flush_all-slots a),
  refl,
)

-- The two loops do the same.
init_slots_flush : (left i : ℕ) (a : Arena) → init_slots a left i ≡ flush_loop a left i
unfolding init_slots flush_loop slot slot_mut
init_slots_flush zero i a = refl
init_slots_flush (suc left) i a =
    init_slots_flush left (suc i) (record a { slots = update a.slots i (init (a.slots i)) })

init_region-slots :
    (a : Arena) (p : ℕ) → p < slot_count → (init_region a).slots p ≡ init (a.slots p)
unfolding init_region
init_region-slots a p hp =
    let b : Arena = record a {
      header = record { magic = arena_magic; version = 1; slot_count = slot_count; used_count = 0 };
    } in
    ap (λ c. c.slots p) (init_slots_flush slot_count 0 b)
    ∙ flush_loop-slots slot_count 0 p b (omega arith) (omega arith)

init_slots-header : (left i : ℕ) (a : Arena) → (init_slots a left i).header ≡ a.header
unfolding init_slots
init_slots-header zero i a = refl
init_slots-header (suc left) i a =
    init_slots-header left (suc i) (record a { slots = update a.slots i (init (a.slots i)) })

init_region-header :
    (a : Arena)
    → (init_region a).header
      ≡ (record { magic = arena_magic; version = 1; slot_count = slot_count; used_count = 0 })
unfolding init_region
init_region-header a = init_slots-header slot_count 0 _

pub init_region-IsValid :
    (region : Arena)
    → ((p : ℕ) → p < slot_count → IsSized (region.slots p))
    → IsValid (init_region region)
init_region-IsValid region sized =
    reset-IsValid region (init_region region) (init_region-slots region) sized

-- Whatever the shared region held, as long as its buffers have their sizes: when every system call
-- succeeds, `create_arena` makes a valid arena that holds nothing and counts nothing, and
-- `open_arena` accepts the region that it leaves.
pub create_arena-open_arena :
    (region : Arena)
    → ((p : ℕ) → p < slot_count → IsSized (region.slots p))
    → (hex : ℕ → Bytes)
    → (a : Arena) × (create_arena
          (record { shm_open = ok tt; ftruncate = true; mmap = some region; hex = hex })
        ≡ ok a)
      × IsValid a
      × Models a no_entries
      × (used_count a ≡ 0)
      × (open_arena (record { shm_open = ok tt; ftruncate = true; mmap = some a; hex = hex })
          ≡ ok a)
unfolding create_arena open_arena used_count
create_arena-open_arena region sized hex =
    let header = init_region-header region in
    (
      init_region region,
      refl,
      init_region-IsValid region sized,
      reset-Models region (init_region region) (init_region-slots region),
      ap (λ h. h.used_count) header,
      rw header refl,
    )
