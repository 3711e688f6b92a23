-- ===== src/Arena/Layout.antt =====
-- src/slot.rs and src/shm.rs: where the bytes of the region lie. The structs are `repr(C)`: the fields stand in order,
-- each at the next multiple of its alignment.
use memlane.Arena.{slot_count}
use memlane.Prelude.{
  ℕ, ◌+◌, ◌*◌, ◌-◌, ◌%◌, ◌≤◌, ◌<◌, ◌≡◌, List, [], ◌∷◌, ◌==◌, if◌then◌else◌, leb, arith,
}
use memlane.Slot.{max_key_len, max_val_len}

-- A field by its size and its alignment.
pub record Field : Type 0 where
  pub size : ℕ
  pub align : ℕ

abbrev pub atomic : ℕ → Field
atomic n = record { size = n; align = n }

abbrev pub bytes : ℕ → Field
bytes n = record { size = n; align = 1 }

abbrev pub page_size : ℕ
page_size = 4096

-- `Slot`.
abbrev pub slot_fields : List Field
slot_fields =
    atomic 1
    ∷ bytes 7
    ∷ atomic 8
    ∷ atomic 8
    ∷ atomic 8
    ∷ atomic 8
    ∷ bytes max_key_len
    ∷ bytes max_val_len
    ∷ bytes 32
    ∷ []

-- `ArenaHeader`.
abbrev pub header_fields : List Field
header_fields = atomic 8 ∷ atomic 4 ∷ atomic 4 ∷ atomic 8 ∷ bytes (page_size - 24) ∷ []

abbrev pub round_up : ℕ → ℕ → ℕ
round_up n align = if n % align == 0 then n else n + (align - n % align)

-- The end of the last field, if the one before the first ends at `at`.
abbrev pub end_of : ℕ → List Field → ℕ
end_of at [] = at
end_of at (f ∷ fs) = end_of (round_up at f.align + f.size) fs

abbrev pub align_of : List Field → ℕ
align_of [] = 1
align_of (f ∷ fs) = if leb f.align (align_of fs) then align_of fs else f.align

abbrev pub size_of : List Field → ℕ
size_of fs = round_up (end_of 0 fs) (align_of fs)

abbrev pub slot_size : ℕ
slot_size = size_of slot_fields

unfoldable pub arena_size : ℕ
arena_size = page_size + slot_count * slot_size

-- The address of slot `index` in a region mapped at `ptr`.
unfoldable pub slot_ptr : ℕ → ℕ → ℕ
slot_ptr ptr index = ptr + page_size + index * slot_size

-- The fields of a struct at `base` stand one behind the other, each where its alignment wants it, and end within `size`.
abbrev pub IsLaid : ℕ → ℕ → ℕ → List Field → Type 0
IsLaid base at size [] = at ≤ size
IsLaid base at size (f ∷ fs) =
    (at ≤ round_up at f.align)
    × ((base + round_up at f.align) % f.align ≡ 0)
    × IsLaid base (round_up at f.align + f.size) size fs

-- Where slot `index` lies.
pub record IsPlaced (ptr index : ℕ) : Type 0 where
  pub behind_header : ptr + size_of header_fields ≤ slot_ptr ptr index
  pub inside : slot_ptr ptr index + slot_size ≤ ptr + arena_size
  pub apart : (j : ℕ) → j < index → slot_ptr ptr j + slot_size ≤ slot_ptr ptr index
  pub laid : IsLaid (slot_ptr ptr index) 0 slot_size slot_fields
  pub in_line : slot_ptr ptr index % 64 ≡ 8 * (index % 8)

-- In a region that is mapped at a page, of the size that `create_arena` asks for, each slot with an index below
-- SLOT_COUNT lies inside the region, behind the header, and behind every slot of a smaller index; its fields do not
-- overlap, and each atomic one is aligned. A slot starts in a cache line of 64 bytes only if
-- its index is a multiple of 8.
pub slot_ptr-IsPlaced :
    (ptr index : ℕ) → ptr % page_size ≡ 0 → index < slot_count → IsPlaced ptr index
unfolding slot_ptr arena_size
slot_ptr-IsPlaced ptr index at_page lt = record {
  behind_header = omega arith;
  inside = omega arith;
  apart = λ j less. omega arith;
  laid = ground arith;
  in_line = omega arith;
}
