-- ===== src/Client/Number.antt =====
-- The number that `incr` and `decr` of src/client.rs read.
use memlane.Client.Calls.{Counts, missing, present}
use memlane.Client.{current}
use memlane.Text.Numeral.{unreadable, or_zero, parse_u64-ReadsAs, from_utf8_numeral}
use memlane.Prelude.{
  ℕ, ◌≤◌, ◌≡◌, refl, ap, ◌∙◌, inl, inr, Option, none, some, Option-cases, Bool-cases, Bytes,
}
use memlane.Text.Decimal.{parse_u64-to_string, to_string-IsAscii}
use memlane.Text.Utf8.{from_utf8_of_ascii}
use memlane.Text.{max_u64, to_string, from_utf8, is_utf8, parse_u64, scan_some, scan_digits}

-- A number of 64 bits, as `incr` and `decr` write it, is the number that they read back.
pub current-to_string : (n : ℕ) → n ≤ max_u64 → current (some (to_string n)) ≡ n
unfolding current
current-to_string n fits =
    rw (from_utf8_of_ascii (to_string n) (to_string-IsAscii n), parse_u64-to_string n fits) refl

from_utf8_same : (s t : Bytes) → from_utf8 s ≡ some t → t ≡ s
unfolding from_utf8
from_utf8_same s t h = elim (Bool-cases (is_utf8 s)) [
  | inl e ↦ let here : some s ≡ some t = rw e at h in cc
  | inr e ↦ let here : none ≡ some t = rw e at h in absurd cc
]

current_utf8 : (s : Bytes) → from_utf8 s ≡ some s → current (some s) ≡ or_zero (parse_u64 s)
unfolding current
current_utf8 s e = rw e (same (parse_u64 s))
  where
    same : (r : Option ℕ) → memlane.Client.unwrap_or r 0 ≡ or_zero r
    same none = refl
    same (some n) = refl

current_not_utf8 : (s : Bytes) → from_utf8 s ≡ none → current (some s) ≡ 0
unfolding current parse_u64 scan_some scan_digits
current_not_utf8 s e = rw e refl

-- What `incr` and `decr` take for the number that they read.
pub current-Counts : (v : Option Bytes) → Counts v (current v)
unfolding current
current-Counts none = missing
current-Counts (some s) = elim (Option-cases (from_utf8 s)) [
  | inl e ↦
      rw (current_not_utf8 s e)
        (present (unreadable (λ n fits num. let text = from_utf8_numeral s n num in absurd cc)))
  | inr (t, e) ↦
      let same = from_utf8_same s t e in
      rw (current_utf8 s (e ∙ ap some same)) (present (parse_u64-ReadsAs s))
]
