-- ===== src/Hashmap/Invariant.antt =====
-- What holds of an arena between the operations of src/hashmap.rs, and the abstract map that it
-- stands for.
use memlane.Arena.{Arena, slot_count}
use memlane.Hashmap.{primary_index, probe}
use memlane.Prelude.{ℕ, ◌<◌, ◌≤◌, ◌≡◌, ◌≢◌, Option, some, Bytes, bytes_eq, if◌then◌else◌}
use memlane.Sip.{siphash}
use memlane.Slot.Buffers.{IsSized}
use memlane.Slot.{
  Slot, max_key_len, max_val_len, state_empty, state_occupied, state_tombstone, read_key,
  read_value,
}

abbrev pub Occupied : Slot → Type 0
Occupied s = s.state ≡ state_occupied

-- The lengths are those of the buffers' contents, and the fingerprint is the hash of the key.
pub record IsFilled (s : Slot) : Type 0 where
  pub key_fits : s.key_len ≤ max_key_len
  pub val_fits : s.val_len ≤ max_val_len
  pub hashed : s.fingerprint ≡ siphash (read_key s)

-- No slot before slot `p` in the probe sequence of `key` is empty.
abbrev pub IsReached : Arena → Bytes → ℕ → Type 0
IsReached a key p =
    (i j : ℕ)
    → i < slot_count
    → j < i
    → probe (primary_index key) i ≡ p
    → (a.slots (probe (primary_index key) j)).state ≢ state_empty

pub record IsValid (a : Arena) : Type 0 where
  pub sized : (p : ℕ) → p < slot_count → IsSized (a.slots p)
  pub known : (p : ℕ) → p < slot_count → (a.slots p).state ≤ state_tombstone
  pub filled : (p : ℕ) → p < slot_count → Occupied (a.slots p) → IsFilled (a.slots p)
  pub reached :
      (p : ℕ) → p < slot_count → Occupied (a.slots p) → IsReached a (read_key (a.slots p)) p
  pub unique :
      (p q : ℕ)
      → p < slot_count
      → q < slot_count
      → Occupied (a.slots p)
      → Occupied (a.slots q)
      → read_key (a.slots p) ≡ read_key (a.slots q)
      → p ≡ q

-- Slot `p` holds `key`.
pub record Stores (a : Arena) (key : Bytes) (p : ℕ) : Type 0 where
  pub inside : p < slot_count
  pub occupied : Occupied (a.slots p)
  pub key_eq : read_key (a.slots p) ≡ key

-- No other key in the arena has the fingerprint of `key`.
abbrev pub NoCollision : Arena → Bytes → Type 0
NoCollision a key =
    (p : ℕ)
    → p < slot_count
    → Occupied (a.slots p)
    → (a.slots p).fingerprint ≡ siphash key
    → read_key (a.slots p) ≡ key

-- An entry is a value with its expiry time.
abbrev pub Entry : Type 0
Entry = Bytes × ℕ

abbrev pub AbstractMap : Type 0
AbstractMap = Bytes → Option Entry

abbrev pub assign : AbstractMap → Bytes → Option Entry → AbstractMap
assign m key e q = if bytes_eq q key then e else m q

abbrev pub entry : Slot → Entry
entry s = (read_value s, s.expires_at_ms)

-- The arena holds the entries of `m` and no others.
pub record Models (a : Arena) (m : AbstractMap) : Type 0 where
  pub sound :
      (p : ℕ)
      → p < slot_count
      → Occupied (a.slots p)
      → m (read_key (a.slots p)) ≡ some (entry (a.slots p))
  pub complete : (key : Bytes) (e : Entry) → m key ≡ some e → (p : ℕ) × Stores a key p
