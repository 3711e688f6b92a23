-- ===== src/Resp/Line.antt =====
-- Lines of src/server/resp.rs: what `find_crlf` and `parse_line` make of a line that was written.
use memlane.Prelude.{
  ℕ, suc, ◌+◌, ◌-◌, ◌≡◌, ◌≢◌, refl, none, some, Bytes, [], ◌∷◌, ◌++◌, length, take, take-append,
  arith, true, ℤ, pos, negsuc,
}
use memlane.Resp.{find_crlf, line_at, utf8_line, int_or, parse_line, parse_int_line, value}
use memlane.Text.Decimal.{
  Digits, IsI64, to_string-Digits, int_to_string-IsAscii, parse_i64-int_to_string,
}
use memlane.Text.Utf8.{is_utf8_of_ascii}
use memlane.Text.{is_utf8, from_utf8, to_string, int_to_string}

-- A string that can stand on a line.
pub record IsLine (s : Bytes) : Type 0 where
  pub one_line : find_crlf s ≡ none
  pub utf8 : is_utf8 s ≡ true

pub find_crlf-append :
    (s rest : Bytes) → find_crlf s ≡ none → find_crlf (s ++ (13 ∷ 10 ∷ rest)) ≡ some (length s)
unfolding find_crlf
find_crlf-append [] rest h = refl
find_crlf-append (x ∷ []) rest h = ground arith
find_crlf-append (x ∷ y ∷ s) rest h = ground (arith, find_crlf-append (y ∷ s) rest)

find_crlf-cons : (t : ℕ) (s : Bytes) → t ≢ 13 → find_crlf s ≡ none → find_crlf (t ∷ s) ≡ none
unfolding find_crlf
find_crlf-cons t [] n h = refl
find_crlf-cons t (x ∷ s) n h = ground arith

-- A written line is read back, whatever follows it.
pub parse_line_lem :
    (t : ℕ) (s rest : Bytes)
    → t ≢ 13
    → IsLine s
    → parse_line (t ∷ (s ++ (13 ∷ 10 ∷ rest))) ≡ value s (length s + 3)
unfolding parse_line line_at utf8_line from_utf8
parse_line_lem t s rest n h =
    let at = find_crlf-append (t ∷ s) rest (find_crlf-cons t s n h.one_line) in
    let cut : take (suc (length s) - 1) (s ++ (13 ∷ 10 ∷ rest)) ≡ s =
      take-append (suc (length s) - 1) s (13 ∷ 10 ∷ rest) (omega arith) in
    let size : suc (length s) + 2 ≡ length s + 3 = omega arith in rw (at, cut, h.utf8, size)

find_crlf-Digits : (s : Bytes) → Digits s → find_crlf s ≡ none
unfolding find_crlf
find_crlf-Digits [] h = refl
find_crlf-Digits (x ∷ []) h = refl
find_crlf-Digits (x ∷ y ∷ s) h = ground (arith, find_crlf-Digits (y ∷ s) h.1)

int_to_string-IsLine : (i : ℤ) → IsLine (int_to_string i)
unfolding int_to_string
int_to_string-IsLine i = record {
  one_line = one i;
  utf8 = is_utf8_of_ascii (int_to_string i) (int_to_string-IsAscii i);
}
  where
    one : (i : ℤ) → find_crlf (int_to_string i) ≡ none
    one (pos n) = find_crlf-Digits (to_string n) (to_string-Digits n)
    one (negsuc n) =
        find_crlf-cons b'-' (to_string (suc n)) (λ e. omega arith)
          (find_crlf-Digits (to_string (suc n)) (to_string-Digits (suc n)))

-- So is a written integer.
pub parse_int_line_lem :
    (what : Bytes) (t : ℕ) (i : ℤ) (rest : Bytes)
    → t ≢ 13
    → IsI64 i
    → parse_int_line what (t ∷ (int_to_string i ++ (13 ∷ 10 ∷ rest)))
      ≡ value i (length (int_to_string i) + 3)
unfolding parse_int_line int_or
parse_int_line_lem what t i rest n h = rw (
  parse_line_lem t (int_to_string i) rest n (int_to_string-IsLine i),
  parse_i64-int_to_string i h,
)
