-- ===== src/Slot.antt =====
-- src/slot.rs: one slot of the arena, as a record of its fields. The atomics hold `u8` and `u64`
-- numbers; the two buffers are byte lists of fixed length; the padding is left out. A `&mut self`
-- method returns the new slot.
pub mod Buffers
use memlane.Prelude.{
  ℕ, ◌+◌, ◌-◌, ◌≡◌, refl, Bool, true, false, List, [], ◌∷◌, ◌++◌, min, ◌==◌, if◌then◌else◌, Bytes,
  length, take, drop,
}

abbrev pub max_key_len : ℕ
max_key_len = 128

abbrev pub max_val_len : ℕ
max_val_len = 1024

abbrev pub state_empty : ℕ
state_empty = 0

abbrev pub state_occupied : ℕ
state_occupied = 1

abbrev pub state_tombstone : ℕ
state_tombstone = 2

pub record Slot : Type 0 where
  pub state : ℕ
  pub fingerprint : ℕ
  pub expires_at_ms : ℕ
  pub key_len : ℕ
  pub val_len : ℕ
  pub key_buf : Bytes
  pub val_buf : Bytes

unfoldable pub init : Slot → Slot
init s = record s {
  state = state_empty;
  fingerprint = 0;
  expires_at_ms = 0;
  key_len = 0;
  val_len = 0;
}

unfoldable pub is_empty : Slot → Bool
is_empty s = s.state == state_empty

unfoldable pub is_occupied : Slot → Bool
is_occupied s = s.state == state_occupied

unfoldable pub is_tombstone : Slot → Bool
is_tombstone s = s.state == state_tombstone

unfoldable pub read_key : Slot → Bytes
read_key s = take (min s.key_len max_key_len) s.key_buf

unfoldable pub read_value : Slot → Bytes
read_value s = take (min s.val_len max_val_len) s.val_buf

-- `buf[..len].copy_from_slice(&src[..len])`
abbrev copy_into : ℕ → Bytes → Bytes → Bytes
copy_into len src buf = take len src ++ drop len buf

unfoldable pub write_key : Bytes → Slot → Slot
write_key key s =
    let len = min (length key) max_key_len in
    record s { key_buf = copy_into len key s.key_buf; key_len = len }

unfoldable pub write_value : Bytes → Slot → Slot
write_value val s =
    let len = min (length val) max_val_len in
    record s { val_buf = copy_into len val s.val_buf; val_len = len }

-- `state.compare_exchange(expected, new)`: the slot after it, and whether it succeeded.
unfoldable pub compare_exchange : ℕ → ℕ → Slot → Slot × Bool
compare_exchange expected new s =
    if s.state == expected then (record s { state = new }, true) else (s, false)
