-- ===== src/Sip.antt =====
-- The SipHash-1-3 of src/hashmap.rs, with its four words of state. Numbers are 64-bit words.
use Prim.Native.Nat.{bit_and, bit_or, bit_xor}
use memlane.Prelude.{ℕ, suc, ◌+◌, ◌*◌, [], ◌∷◌, Bytes, length}
use memlane.Word.{wrapping_add, rotate_left, shift_left}

pub record Sip : Type 0 where
  pub v0 : ℕ
  pub v1 : ℕ
  pub v2 : ℕ
  pub v3 : ℕ

-- The fourteen assignments of `sip_round`, in order.
unfoldable pub sip_round : Sip → Sip
unfolding wrapping_add rotate_left
sip_round s =
    let a0 = wrapping_add s.v0 s.v1 in
    let a1 = rotate_left s.v1 13 in
    let b1 = bit_xor a1 a0 in
    let b0 = rotate_left a0 32 in
    let a2 = wrapping_add s.v2 s.v3 in
    let a3 = rotate_left s.v3 16 in
    let b3 = bit_xor a3 a2 in
    let c0 = wrapping_add b0 b3 in
    let c3 = rotate_left b3 21 in
    let d3 = bit_xor c3 c0 in
    let c2 = wrapping_add a2 b1 in
    let c1 = rotate_left b1 17 in
    let d1 = bit_xor c1 c2 in
    let d2 = rotate_left c2 32 in record { v0 = c0; v1 = d1; v2 = d2; v3 = d3 }

-- The keys, and the words that they are combined with.
start : Sip
start =
    let k0 : ℕ = 0x736f6d6570736575 in
    let k1 : ℕ = 0x646f72616e646f6d in
    record {
      v0 = bit_xor k0 0x736f6d6570736575;
      v1 = bit_xor k1 0x646f72616e646f6d;
      v2 = bit_xor k0 0x6c7967656e657261;
      v3 = bit_xor k1 0x7465646279746573;
    }

-- `v3 ^= m`, one round, `v0 ^= m`.
unfoldable pub compress : ℕ → Sip → Sip
unfolding sip_round
compress m s =
    let r = sip_round (record s { v3 = bit_xor s.v3 m }) in record r { v0 = bit_xor r.v0 m }

-- `u64::from_le_bytes`.
unfoldable pub from_le_bytes : Bytes → ℕ
from_le_bytes [] = 0
from_le_bytes (b ∷ bs) = b + 256 * from_le_bytes bs

-- `last |= (byte as u64) << (i * 8)` over the remainder.
unfoldable pub pack_remainder : ℕ → ℕ → Bytes → ℕ
unfolding shift_left
pack_remainder last i [] = last
pack_remainder last i (b ∷ bs) = pack_remainder (bit_or last (shift_left b (i * 8))) (suc i) bs

-- The loop over `chunks_exact(8)`: the state after it, and the remainder.
unfoldable pub absorb : Sip → Bytes → Sip × Bytes
unfolding compress from_le_bytes
absorb s (b0 ∷ b1 ∷ b2 ∷ b3 ∷ b4 ∷ b5 ∷ b6 ∷ b7 ∷ rest) =
    absorb (compress (from_le_bytes (b0 ∷ b1 ∷ b2 ∷ b3 ∷ b4 ∷ b5 ∷ b6 ∷ b7 ∷ [])) s) rest
absorb s rest = (s, rest)

-- `v2 ^= 0xff`, three rounds, and the four words combined.
unfoldable pub finish : Sip → ℕ
unfolding sip_round
finish s =
    let r = sip_round (sip_round (sip_round (record s { v2 = bit_xor s.v2 0xff }))) in
    bit_xor (bit_xor (bit_xor r.v0 r.v1) r.v2) r.v3

unfoldable pub siphash : Bytes → ℕ
unfolding start absorb pack_remainder compress finish shift_left
siphash bytes =
    let (s, remainder) = absorb start bytes in
    let last = pack_remainder (shift_left (bit_and (length bytes) 0xff) 56) 0 remainder in
    finish (compress last s)
