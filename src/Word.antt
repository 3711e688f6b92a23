-- ===== src/Word.antt =====
-- 64-bit machine words: `wrapping_add`, `rotate_left`, the shift and the index mask of hashmap.rs.
use Prim.Native.Nat.{bit_and, bit_or, digits, bit_and-bitwise}
use memlane.Prelude.{
  ℕ, zero, suc, ◌+◌, ◌-◌, ◌*◌, ◌/◌, ◌%◌, ◌^◌, ◌≤◌, min, ◌≡◌, refl, sym, ◌∙◌, arith,
}

abbrev pub u64_mod : ℕ
u64_mod = 2 ^ 64

unfoldable pub wrapping_add : ℕ → ℕ → ℕ
wrapping_add a b = (a + b) % u64_mod

-- `x << k`, with the bits above the word lost.
unfoldable pub shift_left : ℕ → ℕ → ℕ
shift_left x k = x * 2 ^ k % u64_mod

unfoldable pub rotate_left : ℕ → ℕ → ℕ
unfolding shift_left
rotate_left x k = bit_or (shift_left x k) (x / 2 ^ (64 - k))

-- A mask of k ones, and the lowest k binary digits of a number.
abbrev ones : ℕ → ℕ
ones zero = 0
ones (suc k) = ones k * 2 + 1

abbrev low_bits : ℕ → ℕ → ℕ
low_bits zero a = 0
low_bits (suc k) a = low_bits k (a / 2) * 2 + a % 2

low_bits-zero : (k : ℕ) → low_bits k 0 ≡ 0
low_bits-zero zero = refl
low_bits-zero (suc k) = omega (arith, low_bits-zero k)

digits-ones : (fuel k a : ℕ) → a ≤ fuel → digits (λ b. zero) min fuel a (ones k) ≡ low_bits k a
digits-ones zero k zero h = sym (low_bits-zero k)
digits-ones zero k (suc a) h = absurd (omega arith)
digits-ones (suc fuel) k zero h = sym (low_bits-zero k)
digits-ones (suc fuel) zero (suc a) h = omega (arith, digits-ones fuel 0 (suc a / 2) (omega arith))
digits-ones (suc fuel) (suc k) (suc a) h =
    let half : (ones k * 2 + 1) / 2 ≡ ones k = omega arith in
    let odd : (ones k * 2 + 1) % 2 ≡ 1 = omega arith in
    rw (half, odd) (omega (arith, digits-ones fuel k (suc a / 2) (omega arith)))

bit_and-ones : (k a : ℕ) → bit_and a (ones k) ≡ low_bits k a
bit_and-ones k a = bit_and-bitwise a (ones k) ∙ digits-ones a k a (omega arith)

-- Four digits at a time.
low_bits-four :
    (k a : ℕ) → low_bits (suc (suc (suc (suc k)))) a ≡ low_bits k (a / 2 / 2 / 2 / 2) * 16 + a % 16
low_bits-four k a = omega arith

low_bits-sixteen : (a : ℕ) → low_bits 16 a ≡ a % 65536
low_bits-sixteen a =
    let b = a / 2 / 2 / 2 / 2 in
    let c = b / 2 / 2 / 2 / 2 in
    let d = c / 2 / 2 / 2 / 2 in
    omega (arith, low_bits-four 12 a, low_bits-four 8 b, low_bits-four 4 c, low_bits-four 0 d)

-- `x & (SLOT_COUNT - 1)` is the remainder modulo `SLOT_COUNT`.
pub bit_and_65535 : (a : ℕ) → bit_and a 65535 ≡ a % 65536
bit_and_65535 a = bit_and-ones 16 a ∙ low_bits-sixteen a
