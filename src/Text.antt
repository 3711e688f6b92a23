-- ===== src/Text.antt =====
-- The parts of Rust's `str` that the sources use, on strings as their UTF-8 bytes: `from_utf8`,
-- `to_string` and `parse` of integers. What the sources use of Unicode case tables and of lossy
-- decoding is an argument, `TextOps`.
pub mod Decimal
pub mod Numeral
pub mod Utf8
use memlane.Prelude.{
  ℕ, zero, suc, ◌+◌, ◌-◌, ◌*◌, ◌/◌, ◌%◌, ◌^◌, ◌≡◌, refl, Bool, true, false, ◌&&◌, ◌||◌, Option,
  none, some, [], ◌∷◌, ◌++◌, ltb, leb, ◌==◌, if◌then◌else◌, Bytes, codes, ℤ, pos, negsuc, arith,
}

-- The digits of `n` before `out`, with a unit of fuel for each.
unfoldable pub digits : ℕ → ℕ → Bytes → Bytes
digits zero n out = out
digits (suc f) n out =
    let rest = digits f (n / 10) ((b'0' + n % 10) ∷ out) in
    if ltb n 10 then (b'0' + n % 10) ∷ out else rest

-- `n.to_string()` of an unsigned number.
unfoldable pub to_string : ℕ → Bytes
unfolding digits
to_string n = digits (suc n) n []

-- `n.to_string()` of an `i64`.
unfoldable pub int_to_string : ℤ → Bytes
unfolding to_string
int_to_string (pos n) = to_string n
int_to_string (negsuc n) = b'-' ∷ to_string (suc n)

-- The value of decimal digits behind `n`, unless one of them is no digit or the value passes `limit`.
unfoldable pub scan_digits : ℕ → Bytes → ℕ → Option ℕ
scan_digits limit [] n = some n
scan_digits limit (c ∷ s) n =
    let value = n * 10 + (c - b'0') in
    let rest = scan_digits limit s value in
    if ltb c b'0' || ltb b'9' c then none else if ltb limit value then none else rest

abbrev pub max_u64 : ℕ
max_u64 = 2 ^ 64 - 1

abbrev pub max_i64 : ℕ
max_i64 = 2 ^ 63 - 1

-- One digit or more.
unfoldable pub scan_some : ℕ → Bytes → Option ℕ
unfolding scan_digits
scan_some limit [] = none
scan_some limit (c ∷ s) = scan_digits limit (c ∷ s) 0

-- `s.parse::<u64>()`: a leading `+` is passed over.
unfoldable pub parse_u64 : Bytes → Option ℕ
unfolding scan_some
parse_u64 [] = none
parse_u64 (c ∷ s) = if c == b'+' then scan_some max_u64 s else scan_some max_u64 (c ∷ s)

-- -n
abbrev negated : ℕ → ℤ
negated zero = pos 0
negated (suc n) = negsuc n

abbrev pub map_option {ℓ κ} : {A : Type ℓ} {B : Type κ} → (A → B) → Option A → Option B
map_option f none = none
map_option f (some a) = some (f a)

-- `s.parse::<i64>()`: a leading sign is read, and -2^63 fits.
unfoldable pub parse_i64 : Bytes → Option ℤ
unfolding scan_some
parse_i64 [] = none
parse_i64 (c ∷ s) =
    if c == b'-'
    then map_option negated (scan_some (2 ^ 63) s)
    else map_option pos (if c == b'+' then scan_some max_i64 s else scan_some max_i64 (c ∷ s))

-- How many bytes a first byte announces, and the range of the next one; `none` for a byte that
-- starts no character.
unfoldable pub first_byte : ℕ → Option (ℕ × ℕ × ℕ)
first_byte b =
    if ltb b 0x80
    then some (0, 0x80, 0xbf)
    else if ltb b 0xc2
    then none
    else if ltb b 0xe0
    then some (1, 0x80, 0xbf)
    else if b == 0xe0
    then some (2, 0xa0, 0xbf)
    else if b == 0xed
    then some (2, 0x80, 0x9f)
    else if ltb b 0xf0
    then some (2, 0x80, 0xbf)
    else if b == 0xf0
    then some (3, 0x90, 0xbf)
    else if ltb b 0xf4
    then some (3, 0x80, 0xbf)
    else if b == 0xf4
    then some (3, 0x80, 0x8f)
    else none

-- Whether bytes are UTF-8, with `need` bytes of a character still to come.
unfoldable pub utf8_from : (need lo hi : ℕ) → Bytes → Bool
unfolding first_byte
utf8_from need lo hi [] = need == 0
utf8_from zero lo hi (b ∷ s) = elim (first_byte b) [
  | none ↦ false
  | some t ↦ utf8_from t.0 t.1 t.2 s
]
utf8_from (suc need) lo hi (b ∷ s) =
    let rest = utf8_from need 0x80 0xbf s in if leb lo b && leb b hi then rest else false

unfoldable pub is_utf8 : Bytes → Bool
unfolding utf8_from
is_utf8 s = utf8_from 0 0x80 0xbf s

-- `String::from_utf8`
unfoldable pub from_utf8 : Bytes → Option Bytes
unfolding is_utf8
from_utf8 s = if is_utf8 s then some s else none
