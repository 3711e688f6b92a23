-- ===== src/Resp/RoundTrip.antt =====
-- What src/server/resp.rs encodes, it parses back.
use native.Mathlib.Nat.{add-zero}
use memlane.Prelude.{
  ℕ, zero, suc, ◌+◌, ◌-◌, ◌*◌, ◌≤◌, ◌<◌, ◌≡◌, ◌≢◌, refl, sym, ◌∙◌, ap, Bytes, Bool, true, false,
  ◌==◌, ◌∷◌, ◌++◌, append_assoc, length, length-append, take-append, drop-append, arith, codes, ℤ,
  pos, negsuc,
}
use memlane.Resp.Line.{IsLine, parse_line_lem, parse_int_line_lem}
use memlane.Resp.{
  RespValue, RespValues, simple_string, error, integer, bulk_string, nil, array, no_items, item,
  value, parse_simple_string, parse_error, parse_integer, parse_bulk_string, bulk_body,
  parse_int_line, parse_with, parse_items, parse_array, array_body, parse, encode, encode_items,
  count_items,
}
use memlane.Text.Decimal.{IsI64}
use memlane.Text.{digits, max_i64, to_string, int_to_string}

module _ (can_reserve : ℕ → Bool) where
  -- What can be sent: strings that stand on a line, integers of 64 bits, and lengths for which there
  -- is memory.
  abbrev mutual
    pub CanEncode : RespValue → Type 0
    CanEncode (simple_string s) = IsLine s
    CanEncode (error e) = IsLine e
    CanEncode (integer n) = IsI64 n
    CanEncode (bulk_string bytes) = length bytes ≤ max_i64
    CanEncode nil = Unit
    CanEncode (array items) =
        (count_items items ≤ max_i64)
        × (can_reserve (count_items items) ≡ true)
        × CanEncodeItems items

    pub CanEncodeItems : RespValues → Type 0
    CanEncodeItems no_items = Unit
    CanEncodeItems (item v vs) = CanEncode v × CanEncodeItems vs

bulk_body_lem :
    (head bytes rest : Bytes)
    → bulk_body (head ++ (bytes ++ (13 ∷ 10 ∷ rest))) (pos (length bytes)) (length head)
      ≡ value (bulk_string bytes) (length head + length bytes + 2)
unfolding bulk_body
bulk_body_lem head bytes rest = ground (
  arith,
  length-append head (bytes ++ (13 ∷ 10 ∷ rest)),
  length-append bytes (13 ∷ 10 ∷ rest),
  drop-append (length head) head (bytes ++ (13 ∷ 10 ∷ rest)) refl,
  take-append (length bytes) bytes (13 ∷ 10 ∷ rest) refl,
)

-- The header of a bulk string or of an array.
abbrev header : ℕ → ℕ → Bytes
header t n = t ∷ (to_string n ++ codes "\r\n")

length-header : (t n : ℕ) → length (header t n) ≡ length (to_string n) + 3
length-header t n = omega (arith, length-append (to_string n) (codes "\r\n"))

parse_header :
    (what : Bytes) (t n : ℕ) (rest : Bytes)
    → t ≢ 13
    → n ≤ max_i64
    → parse_int_line what (header t n ++ rest) ≡ value (pos n) (length (header t n))
unfolding int_to_string
parse_header what t n rest ne fits =
    rw (append_assoc (to_string n) (codes "\r\n") rest, length-header t n)
      (parse_int_line_lem what t (pos n) rest ne fits)

parse_bulk_string_lem :
    (bytes rest : Bytes)
    → length bytes ≤ max_i64
    → parse_bulk_string (header b'$' (length bytes) ++ (bytes ++ (13 ∷ 10 ∷ rest)))
      ≡ value (bulk_string bytes) (length (header b'$' (length bytes)) + length bytes + 2)
unfolding parse_bulk_string
parse_bulk_string_lem bytes rest fits =
    rw (parse_header _ b'$' (length bytes) (bytes ++ (13 ∷ 10 ∷ rest)) (λ e. omega arith) fits)
      (bulk_body_lem (header b'$' (length bytes)) bytes rest)

-- The parts of a written bulk string or array, bracketed as they are read.
bulk_shape :
    (ds bytes rest : Bytes)
    → (ds ++ (13 ∷ 10 ∷ (bytes ++ codes "\r\n"))) ++ rest
      ≡ (ds ++ codes "\r\n") ++ (bytes ++ (13 ∷ 10 ∷ rest))
bulk_shape ds bytes rest = simp append_assoc

array_shape :
    (ds items rest : Bytes)
    → (ds ++ (13 ∷ 10 ∷ items)) ++ rest ≡ (ds ++ codes "\r\n") ++ (items ++ rest)
array_shape ds items rest = simp append_assoc

length_bulk :
    (ds bytes : Bytes)
    → suc (length (ds ++ (13 ∷ 10 ∷ (bytes ++ codes "\r\n"))))
      ≡ suc (length (ds ++ codes "\r\n")) + length bytes + 2
length_bulk ds bytes = omega (
  arith,
  length-append ds (13 ∷ 10 ∷ (bytes ++ codes "\r\n")),
  length-append bytes (codes "\r\n"),
  length-append ds (codes "\r\n"),
)

length_array :
    (ds items : Bytes)
    → suc (length (ds ++ (13 ∷ 10 ∷ items))) ≡ suc (length (ds ++ codes "\r\n")) + length items
length_array ds items =
    omega (arith, length-append ds (13 ∷ 10 ∷ items), length-append ds (codes "\r\n"))

pub length-encode_pos : (v : RespValue) → 0 < length (encode v)
unfolding encode
length-encode_pos nil = omega arith
length-encode_pos _ = omega arith

module _ (can_reserve : ℕ → Bool) where
  parse_array_lem :
      (f n end : ℕ) (vs : RespValues) (rest : Bytes)
      → n ≤ max_i64
      → can_reserve n ≡ true
      → parse_items can_reserve f n (length (header b'*' n)) rest ≡ value vs end
      → parse_array can_reserve (suc f) (header b'*' n ++ rest) ≡ value (array vs) end
  unfolding parse_array array_body
  parse_array_lem f n end vs rest fits room items =
      let at = header b'*' n in
      rw (
        parse_header _ b'*' n rest (λ e. omega arith) fits,
        room,
        drop-append (length at) at rest refl,
        items,
      )

  parse_simple_lem :
      (s rest : Bytes)
      → IsLine s
      → parse_simple_string (b'+' ∷ (s ++ (13 ∷ 10 ∷ rest)))
        ≡ value (simple_string s) (length s + 3)
  unfolding parse_simple_string
  parse_simple_lem s rest h = rw (parse_line_lem b'+' s rest (λ e. omega arith) h)

  parse_error_lem :
      (s rest : Bytes)
      → IsLine s
      → parse_error (b'-' ∷ (s ++ (13 ∷ 10 ∷ rest))) ≡ value (error s) (length s + 3)
  unfolding parse_error
  parse_error_lem s rest h = rw (parse_line_lem b'-' s rest (λ e. omega arith) h)

  parse_integer_lem :
      (n : ℤ) (rest : Bytes)
      → IsI64 n
      → parse_integer (b':' ∷ (int_to_string n ++ (13 ∷ 10 ∷ rest)))
        ≡ value (integer n) (length (int_to_string n) + 3)
  unfolding parse_integer
  parse_integer_lem n rest h = rw (parse_int_line_lem _ b':' n rest (λ e. omega arith) h)

  parse_nil_lem : (rest : Bytes) → parse_bulk_string (codes "$-1\r\n" ++ rest) ≡ value nil 5
  unfolding parse_bulk_string bulk_body int_to_string to_string digits
  parse_nil_lem rest =
      rw (parse_int_line_lem _ b'$' (negsuc 0) rest (λ e. omega arith) (omega arith))

  length_line : (s : Bytes) → suc (length (s ++ codes "\r\n")) ≡ length s + 3
  length_line s = omega (arith, length-append s (codes "\r\n"))

  mutual
    unfolding parse_with parse_items encode count_items

    parse_with-encode_from :
        (v : RespValue) (f : ℕ) (rest : Bytes)
        → CanEncode can_reserve v
        → 3 * length (encode v) < f
        → parse_with can_reserve f (encode v ++ rest) ≡ value v (length (encode v))
    parse_with-encode_from v zero rest h lt = absurd (omega arith)
    parse_with-encode_from (simple_string s) (suc f) rest h lt =
        rw (append_assoc s (codes "\r\n") rest, length_line s) (parse_simple_lem s rest h)
    parse_with-encode_from (error s) (suc f) rest h lt =
        rw (append_assoc s (codes "\r\n") rest, length_line s) (parse_error_lem s rest h)
    parse_with-encode_from (integer n) (suc f) rest h lt =
        rw (append_assoc (int_to_string n) (codes "\r\n") rest, length_line (int_to_string n))
          (parse_integer_lem n rest h)
    parse_with-encode_from (bulk_string bytes) (suc f) rest h lt =
        let ds = to_string (length bytes) in
        rw (bulk_shape ds bytes rest, length_bulk ds bytes) (parse_bulk_string_lem bytes rest h)
    parse_with-encode_from nil (suc f) rest h lt = parse_nil_lem rest
    parse_with-encode_from (array vs) (suc zero) rest h lt =
        absurd (omega (arith, length_array (to_string (count_items vs)) (encode_items vs)))
    parse_with-encode_from (array vs) (suc (suc f)) rest (fits, room, h) lt =
        let n = count_items vs in
        let size = length_array (to_string n) (encode_items vs) in
        ap (λ b. parse_array can_reserve (suc f) (b'*' ∷ b))
          (array_shape (to_string n) (encode_items vs) rest)
        ∙ parse_array_lem f n (length (header b'*' n) + length (encode_items vs)) vs
            (encode_items vs ++ rest) fits room
            (parse_items-encode_from vs f (length (header b'*' n)) rest h (omega (arith, size)))
        ∙ ap (value (array vs)) (sym size)

    parse_items-encode_from :
        (vs : RespValues) (f offset : ℕ) (rest : Bytes)
        → CanEncodeItems can_reserve vs
        → 3 * length (encode_items vs) + 1 < f
        → parse_items can_reserve f (count_items vs) offset (encode_items vs ++ rest)
          ≡ value vs (offset + length (encode_items vs))
    parse_items-encode_from vs zero offset rest h lt = absurd (omega arith)
    parse_items-encode_from no_items (suc f) offset rest h lt = rw add-zero
    parse_items-encode_from (item v vs) (suc f) offset rest h lt =
        let e = encode v in
        let es = encode_items vs in
        let size = length-append e es in
        let left : (suc (count_items vs) == 0) ≡ false = ground arith in
        let one : suc (count_items vs) - 1 ≡ count_items vs = omega arith in
        let sum : offset + length e + length es ≡ offset + length (e ++ es) = omega (arith, size) in
        rw (
          append_assoc e es rest,
          parse_with-encode_from v f (es ++ rest) h.0 (omega (arith, size)),
          one,
          drop-append (length e) e (es ++ rest) refl,
          parse_items-encode_from vs f (offset + length e) rest h.1
              (omega (arith, size, length-encode_pos v)),
          sum,
          left,
        )

  -- With fuel above three times its length an encoded value is read off the front of any buffer, and
  -- its bytes are the ones that are taken.
  pub parse_with-encode :
      (v : RespValue) (f : ℕ) (rest : Bytes)
      → CanEncode can_reserve v
      → 3 * length (encode v) < f
      → parse_with can_reserve f (encode v ++ rest) ≡ value v (length (encode v))
  parse_with-encode = parse_with-encode_from

  -- `parse` reads an encoded value off the front of any buffer, and takes its bytes: for a value
  -- whose strings stand on a line, whose integers have 64 bits, and whose lengths are below 2^63
  -- and have memory reserved.
  pub parse-encode :
      (v : RespValue) (rest : Bytes)
      → CanEncode can_reserve v
      → parse can_reserve (encode v ++ rest) ≡ value v (length (encode v))
  unfolding parse
  parse-encode v rest h =
      parse_with-encode v (3 * length (encode v ++ rest) + 3) rest h
        (omega (arith, length-append (encode v) rest))
