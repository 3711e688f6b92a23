-- ===== src/Arena.antt =====
-- src/shm.rs: the mapped region, its header and its slots. The system calls are outside the program:
-- whether they succeed and what the mapped region holds are arguments.
pub mod Layout
use memlane.Prelude.{
  ℕ, zero, suc, [], ◌∷◌, Bool, not, Option, none, some, ◌==◌, ◌++◌, if◌then◌else◌, Bytes, codes,
  update, Result, ok, err,
}
use memlane.Slot.{Slot, init}

abbrev pub slot_count : ℕ
slot_count = 65536

pub record ArenaHeader : Type 0 where
  pub magic : ℕ
  pub version : ℕ
  pub slot_count : ℕ
  pub used_count : ℕ

-- The region, with the raw slot array as a memory from indices to slots.
pub record Arena : Type 0 where
  pub header : ArenaHeader
  pub slots : ℕ → Slot

unfoldable pub slot : Arena → ℕ → Slot
slot a i = a.slots i

-- A write through `slot_mut(i)`.
unfoldable pub slot_mut : Arena → ℕ → Slot → Arena
slot_mut a i s = record a { slots = update a.slots i s }

abbrev pub arena_magic : ℕ
arena_magic = 0x4D454D4C414E4500

abbrev pub arena_version : ℕ
arena_version = 1

-- The loop of `create_arena` over the slots, `left` of them from index i on.
unfoldable pub init_slots : Arena → ℕ → ℕ → Arena
unfolding init
init_slots a zero i = a
init_slots a (suc left) i =
    init_slots (record a { slots = update a.slots i (init (a.slots i)) }) left (suc i)

-- What the system calls of `create_arena` and `open_arena` answer.
pub record Os : Type 0 where
  -- a descriptor, or the text of `errno`
  pub shm_open : Result Bytes (Unit {0})
  pub ftruncate : Bool
  -- the region, if `mmap` maps it
  pub mmap : Option Arena
  -- the text of `{:#x}`
  pub hex : ℕ → Bytes

-- The header stores and the loop of `create_arena`.
unfoldable pub init_region : Arena → Arena
init_region region =
    init_slots
      (record region {
        header = record {
          magic = arena_magic;
          version = arena_version;
          slot_count = slot_count;
          used_count = 0;
        };
      })
      slot_count 0

unfoldable pub create_arena : Os → Result Bytes Arena
unfolding init_region
create_arena os = elim os.shm_open [
  | err errno ↦ err (codes "shm_open failed: errno=" ++ errno)
  | ok _ ↦
      if not os.ftruncate
      then err (codes "ftruncate failed")
      else elim os.mmap [ none ↦ err (codes "mmap failed") | some region ↦ ok (init_region region) ]
]

-- The dash of the first message is three bytes.
unfoldable pub open_arena : Os → Result Bytes Arena
open_arena os = elim os.shm_open [
  | err errno ↦ err (
      codes "shm_open (open) failed "
      ++ ((0xe2 ∷ 0x80 ∷ 0x94 ∷ []) ++ codes " has create_arena() been called?"))
  | ok _ ↦ elim os.mmap [
    | none ↦ err (codes "mmap failed on open")
    | some region ↦
        if not (region.header.magic == arena_magic)
        then err (codes "Invalid arena magic: " ++ os.hex region.header.magic)
        else ok region
  ]
]
