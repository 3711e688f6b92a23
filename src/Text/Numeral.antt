-- ===== src/Text/Numeral.antt =====
-- What `str::parse::<u64>` accepts, and what it returns, with no scanner.
use memlane.Prelude.{
  ℕ, ◌+◌, ◌-◌, ◌*◌, ◌≤◌, ◌≡◌, ◌≢◌, refl, inl, inr, Option, none, some, Option-cases, Bool-cases,
  false, ◌==◌, Bytes, [], ◌∷◌, arith,
}
use memlane.Text.Decimal.{Digits}
use memlane.Text.Utf8.{IsAscii, from_utf8_of_ascii}
use memlane.Text.{scan_digits, scan_some, parse_u64, from_utf8, max_u64}

-- The number that digits spell behind `n`.
abbrev pub spelled : ℕ → Bytes → ℕ
spelled n [] = n
spelled n (c ∷ s) = spelled (n * 10 + (c - b'0')) s

-- A text of one or more digits, perhaps behind a plus sign, and its number.
pub data IsNumeral : Bytes → ℕ → Type 0 where
  plain : {s : Bytes} → s ≢ [] → Digits s → IsNumeral s (spelled 0 s)
  signed : {s : Bytes} → s ≢ [] → Digits s → IsNumeral (b'+' ∷ s) (spelled 0 s)

-- The number of a text, if it is a numeral of 64 bits, and else 0.
pub data ReadsAs (s : Bytes) : ℕ → Type 0 where
  reads : {n : ℕ} → IsNumeral s n → n ≤ max_u64 → ReadsAs s n
  unreadable : ((n : ℕ) → n ≤ max_u64 → ¬ IsNumeral s n) → ReadsAs s 0

le-spelled : (s : Bytes) (n : ℕ) → n ≤ spelled n s
le-spelled [] n = omega arith
le-spelled (c ∷ s) n = omega (arith, le-spelled s (n * 10 + (c - b'0')))

scan_sound :
    (limit : ℕ) (s : Bytes) (n r : ℕ)
    → n ≤ limit
    → scan_digits limit s n ≡ some r
    → Digits s × (r ≡ spelled n s) × (r ≤ limit)
unfolding scan_digits
scan_sound limit [] n r fits h = ground arith
scan_sound limit (c ∷ s) n r fits h = ground (arith, scan_sound limit s (n * 10 + (c - b'0')) r)

scan_complete :
    (limit : ℕ) (s : Bytes) (n : ℕ)
    → Digits s
    → spelled n s ≤ limit
    → scan_digits limit s n ≡ some (spelled n s)
unfolding scan_digits
scan_complete limit [] n h fits = refl
scan_complete limit (c ∷ s) n (hc, hs) fits =
    let m = n * 10 + (c - b'0') in ground (arith, scan_complete limit s m hs fits, le-spelled s m)

scan_some_sound :
    (limit : ℕ) (s : Bytes) (r : ℕ)
    → scan_some limit s ≡ some r
    → (s ≢ []) × Digits s × (r ≡ spelled 0 s) × (r ≤ limit)
unfolding scan_some
scan_some_sound limit [] r h = absurd cc
scan_some_sound limit (c ∷ s) r h =
    let (ds, eq, fits) = scan_sound limit (c ∷ s) 0 r (omega arith) h in
    (λ e. absurd cc, ds, eq, fits)

scan_some_complete :
    (limit : ℕ) (s : Bytes)
    → s ≢ []
    → Digits s
    → spelled 0 s ≤ limit
    → scan_some limit s ≡ some (spelled 0 s)
unfolding scan_some
scan_some_complete limit [] ne ds fits = absurd (ne refl)
scan_some_complete limit (c ∷ s) ne ds fits = scan_complete limit (c ∷ s) 0 ds fits

parse_u64_sound : (s : Bytes) (r : ℕ) → parse_u64 s ≡ some r → IsNumeral s r × (r ≤ max_u64)
unfolding parse_u64
parse_u64_sound [] r h = absurd cc
parse_u64_sound (c ∷ s) r h = elim (Bool-cases (c == b'+')) [
  | inl e ↦
      let (ne, ds, eq, fits) = scan_some_sound max_u64 s r (rw e at h) in
      let at_plus : c ≡ b'+' = ground arith in (rw (at_plus, eq) (signed ne ds), fits)
  | inr e ↦
      let (ne, ds, eq, fits) = scan_some_sound max_u64 (c ∷ s) r (rw e at h) in
      (rw eq (plain ne ds), fits)
]

parse_u64_plain :
    (s : Bytes) → s ≢ [] → Digits s → spelled 0 s ≤ max_u64 → parse_u64 s ≡ some (spelled 0 s)
unfolding parse_u64
parse_u64_plain [] ne ds fits = absurd (ne refl)
parse_u64_plain (c ∷ s) ne (hc, hs) fits =
    let digit : (c == b'+') ≡ false = ground arith in
    rw digit (scan_some_complete max_u64 (c ∷ s) ne (hc, hs) fits)

parse_u64_complete : (s : Bytes) (r : ℕ) → IsNumeral s r → r ≤ max_u64 → parse_u64 s ≡ some r
unfolding parse_u64
parse_u64_complete s r (plain ne ds) fits = parse_u64_plain s ne ds fits
parse_u64_complete s r (signed {s = t} ne ds) fits = scan_some_complete max_u64 t ne ds fits

abbrev pub or_zero : Option ℕ → ℕ
or_zero none = 0
or_zero (some n) = n

-- `s.parse().unwrap_or(0)`
pub parse_u64-ReadsAs : (s : Bytes) → ReadsAs s (or_zero (parse_u64 s))
parse_u64-ReadsAs s = elim (Option-cases (parse_u64 s)) [
  | inl e ↦
      rw e (unreadable (λ n fits num. let read = parse_u64_complete s n num fits in absurd cc))
  | inr (n, e) ↦ let (num, fits) = parse_u64_sound s n e in rw e (reads num fits)
]

Digits-IsAscii : (s : Bytes) → Digits s → IsAscii s
Digits-IsAscii [] ds = tt
Digits-IsAscii (c ∷ s) (hc, hs) = (omega arith, Digits-IsAscii s hs)

-- A numeral is UTF-8.
pub from_utf8_numeral : (s : Bytes) (n : ℕ) → IsNumeral s n → from_utf8 s ≡ some s
from_utf8_numeral s n (plain ne ds) = from_utf8_of_ascii s (Digits-IsAscii s ds)
from_utf8_numeral s n (signed {s = t} ne ds) =
    from_utf8_of_ascii (b'+' ∷ t) (omega arith, Digits-IsAscii t ds)
