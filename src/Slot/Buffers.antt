-- ===== src/Slot/Buffers.antt =====
-- What the key and value buffers of src/slot.rs hold after a write.
use memlane.Prelude.{
  ℕ, zero, suc, ap, ◌≤◌, ◌≡◌, ◌∙◌, [], ◌∷◌, ◌++◌, min, arith, Bytes, length, take, drop,
  length-append, length-take, length-drop, take-append,
}
use memlane.Slot.{Slot, max_key_len, max_val_len, read_key, read_value, write_key, write_value}

-- The two buffers have the sizes of their arrays.
pub record IsSized (s : Slot) : Type 0 where
  pub key_room : length s.key_buf ≡ max_key_len
  pub val_room : length s.val_buf ≡ max_val_len

length-copy :
    (n : ℕ) (src buf : Bytes)
    → n ≤ length src
    → n ≤ length buf
    → length (take n src ++ drop n buf) ≡ length buf
length-copy n src buf h k =
    omega (arith, length-append (take n src) (drop n buf), length-take n src, length-drop n buf)

take-copy :
    (n : ℕ) (src buf : Bytes) → n ≤ length src → take n (take n src ++ drop n buf) ≡ take n src
take-copy n src buf h = take-append n (take n src) (drop n buf) (omega (arith, length-take n src))

take-min : (n : ℕ) (src : Bytes) → take (min (length src) n) src ≡ take n src
take-min zero src = let e : min (length src) 0 ≡ 0 = omega arith in rw e
take-min (suc n) [] = let e : min 0 (suc n) ≡ 0 = omega arith in rw e
take-min (suc n) (x ∷ src) =
    let e : min (suc (length src)) (suc n) ≡ suc (min (length src) n) = omega arith in
    rw e (ap (λ t. x ∷ t) (take-min n src))

-- Reading back what was written at the front of a buffer with room for `room` bytes.
read-copy :
    (room : ℕ) (src buf : Bytes)
    → let n = min (length src) room in take (min n room) (take n src ++ drop n buf) ≡ take room src
read-copy room src buf =
    let e : min (min (length src) room) room ≡ min (length src) room = omega arith in
    rw e (take-copy (min (length src) room) src buf (omega arith) ∙ take-min room src)

-- A key is read back as its first 128 bytes: longer keys are cut silently.
pub read_key-write_key :
    (key : Bytes) (s : Slot) → read_key (write_key key s) ≡ take max_key_len key
unfolding read_key write_key
read_key-write_key key s = read-copy max_key_len key s.key_buf

pub read_value-write_value :
    (val : Bytes) (s : Slot) → read_value (write_value val s) ≡ take max_val_len val
unfolding read_value write_value
read_value-write_value val s = read-copy max_val_len val s.val_buf

pub write_key-IsSized : (key : Bytes) {s : Slot} → IsSized s → IsSized (write_key key s)
unfolding write_key
write_key-IsSized key {s} h = record {
  key_room =
      length-copy (min (length key) max_key_len) key s.key_buf (omega arith) (omega arith)
      ∙ h.key_room;
  val_room = h.val_room;
}

pub write_value-IsSized : (val : Bytes) {s : Slot} → IsSized s → IsSized (write_value val s)
unfolding write_value
write_value-IsSized val {s} h = record {
  key_room = h.key_room;
  val_room =
      length-copy (min (length val) max_val_len) val s.val_buf (omega arith) (omega arith)
      ∙ h.val_room;
}
