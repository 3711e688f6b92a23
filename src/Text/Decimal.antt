-- ===== src/Text/Decimal.antt =====
-- Printing an integer and reading it back.
use memlane.Prelude.{
  ℕ, zero, suc, ◌+◌, ◌/◌, ◌%◌, ◌^◌, ◌<◌, ◌≤◌, ◌≡◌, ◌≢◌, refl, ◌∙◌, ap, some, Bytes, [], ◌∷◌, arith,
  ℤ, pos, negsuc,
}
use memlane.Text.Utf8.{IsAscii}
use memlane.Text.{
  digits, to_string, int_to_string, scan_digits, scan_some, parse_u64, parse_i64, max_u64, max_i64,
  map_option, negated,
}

-- Reading digits that print `n` comes to `n`, and goes on with what follows them.
scan-digits :
    (limit f n : ℕ) (out : Bytes)
    → n < f
    → n ≤ limit
    → scan_digits limit (digits f n out) 0 ≡ scan_digits limit out n
unfolding digits scan_digits
scan-digits limit zero n out h fits = absurd (omega arith)
scan-digits limit (suc f) n out h fits =
    ground (arith, scan-digits limit f (n / 10) ((b'0' + n % 10) ∷ out))

abbrev IsDigit : ℕ → Type 0
IsDigit c = (b'0' ≤ c) × (c ≤ b'9')

abbrev pub Digits : Bytes → Type 0
Digits [] = Unit
Digits (c ∷ s) = IsDigit c × Digits s

digits-Digits : (f n : ℕ) (out : Bytes) → Digits out → Digits (digits f n out)
unfolding digits
digits-Digits zero n out h = h
digits-Digits (suc f) n out h = ground (arith, digits-Digits f (n / 10) ((b'0' + n % 10) ∷ out))

digits-ne-nil : (f n : ℕ) (out : Bytes) → out ≢ [] → digits f n out ≢ []
unfolding digits
digits-ne-nil zero n out h = h
digits-ne-nil (suc f) n out h = ground (arith, digits-ne-nil f (n / 10) ((b'0' + n % 10) ∷ out))

pub to_string-Digits : (n : ℕ) → Digits (to_string n)
unfolding to_string
to_string-Digits n = digits-Digits (suc n) n [] tt

pub to_string-ne-nil : (n : ℕ) → to_string n ≢ []
unfolding to_string digits
to_string-ne-nil n = ground (arith, digits-ne-nil n (n / 10) ((b'0' + n % 10) ∷ []))

scan_some_lem : (limit : ℕ) (s : Bytes) → s ≢ [] → scan_some limit s ≡ scan_digits limit s 0
unfolding scan_some
scan_some_lem limit [] h = absurd (h refl)
scan_some_lem limit (c ∷ s) h = refl

scan-to_string : (limit n : ℕ) → n ≤ limit → scan_digits limit (to_string n) 0 ≡ some n
unfolding to_string scan_digits
scan-to_string limit n fits = scan-digits limit (suc n) n [] (omega arith) fits

parse_i64_minus : (s : Bytes) → parse_i64 (b'-' ∷ s) ≡ map_option negated (scan_some (2 ^ 63) s)
unfolding parse_i64
parse_i64_minus s = refl

pub scan_some-to_string : (limit n : ℕ) → n ≤ limit → scan_some limit (to_string n) ≡ some n
scan_some-to_string limit n fits =
    scan_some_lem limit (to_string n) (to_string-ne-nil n) ∙ scan-to_string limit n fits

parse_u64-Digits : (s : Bytes) → Digits s → parse_u64 s ≡ scan_some max_u64 s
unfolding parse_u64 scan_some
parse_u64-Digits [] h = refl
parse_u64-Digits (c ∷ s) h = ground arith

parse_i64-Digits : (s : Bytes) → Digits s → parse_i64 s ≡ map_option pos (scan_some max_i64 s)
unfolding parse_i64 scan_some
parse_i64-Digits [] h = refl
parse_i64-Digits (c ∷ s) h = ground arith

-- Every `u64` is read back from its print.
pub parse_u64-to_string : (n : ℕ) → n ≤ max_u64 → parse_u64 (to_string n) ≡ some n
parse_u64-to_string n fits =
    parse_u64-Digits (to_string n) (to_string-Digits n) ∙ scan_some-to_string max_u64 n fits

-- The range of an `i64`.
abbrev pub IsI64 : ℤ → Type 0
IsI64 (pos n) = n ≤ max_i64
IsI64 (negsuc n) = n ≤ max_i64

-- Every `i64` is read back from its print.
pub parse_i64-int_to_string : (i : ℤ) → IsI64 i → parse_i64 (int_to_string i) ≡ some i
unfolding int_to_string
parse_i64-int_to_string (pos n) fits =
    parse_i64-Digits (to_string n) (to_string-Digits n)
    ∙ ap (map_option pos) (scan_some-to_string max_i64 n fits)
parse_i64-int_to_string (negsuc n) fits =
    parse_i64_minus (to_string (suc n))
    ∙ ap (map_option negated) (scan_some-to_string (2 ^ 63) (suc n) (omega arith))

IsAscii-of_Digits : (s : Bytes) → Digits s → IsAscii s
IsAscii-of_Digits [] h = tt
IsAscii-of_Digits (c ∷ s) h = (omega arith, IsAscii-of_Digits s h.1)

pub to_string-IsAscii : (n : ℕ) → IsAscii (to_string n)
to_string-IsAscii n = IsAscii-of_Digits (to_string n) (to_string-Digits n)

pub int_to_string-IsAscii : (i : ℤ) → IsAscii (int_to_string i)
unfolding int_to_string
int_to_string-IsAscii (pos n) = to_string-IsAscii n
int_to_string-IsAscii (negsuc n) = (omega arith, to_string-IsAscii (suc n))
