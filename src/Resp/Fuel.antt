-- ===== src/Resp/Fuel.antt =====
-- The parser of src/server/resp.rs ends on every buffer, and takes no more bytes than there are.
use memlane.Prelude.{
  ℕ, zero, suc, ◌+◌, ◌-◌, ◌*◌, ◌≤◌, ◌<◌, ◌≡◌, ◌≢◌, refl, Option, none, some, Bytes, Bool, true,
  false, [], ◌∷◌, length, length-drop, take, drop, arith, ℤ, pos, negsuc, Option-cases, inl, inr,
  ◌==◌, if◌then◌else◌, ltb,
}
use memlane.Resp.{
  RespValues, Parsed, value, more, protocol, crash, and_then, find_crlf, utf8_line, line_at, int_or,
  array_body, parse_line, parse_int_line, parse_simple_string, parse_error, parse_integer,
  parse_bulk_string, bulk_body, unknown_type, parse_with, parse_items, parse_array, parse,
}
use memlane.Text.{from_utf8, parse_i64}

-- The parser had fuel enough, and a value took between `lo` and `hi` bytes.
pub data Takes {A : Type 0} (lo hi : ℕ) : Parsed A → Type 0 where
  took : {a : A} {n : ℕ} → lo ≤ n → n ≤ hi → Takes lo hi (value a n)
  wants : Takes lo hi more
  refused : {m : Bytes} → Takes lo hi (protocol m)
  crashed : Takes lo hi crash

Takes-and_then :
    {A B : Type 0} {lo hi lo' hi' : ℕ} {r : Parsed A} {f : A → ℕ → Parsed B}
    → Takes lo hi r
    → ((a : A) (n : ℕ) → lo ≤ n → n ≤ hi → Takes lo' hi' (f a n))
    → Takes lo' hi' (and_then r f)
Takes-and_then (took {a} {n} h h') k = k a n h h'
Takes-and_then wants k = wants
Takes-and_then refused k = refused
Takes-and_then crashed k = crashed

Takes-if :
    {A : Type 0} {lo hi : ℕ} (b : Bool) {x y : Parsed A}
    → (b ≡ true → Takes lo hi x)
    → (b ≡ false → Takes lo hi y)
    → Takes lo hi (if b then x else y)
Takes-if true hx hy = hx refl
Takes-if false hx hy = hy refl

pub find_crlf-le : (buf : Bytes) (i : ℕ) → find_crlf buf ≡ some i → i + 2 ≤ length buf
unfolding find_crlf
find_crlf-le [] i h = cc
find_crlf-le (x ∷ []) i h = cc
find_crlf-le (x ∷ y ∷ buf) i h = ground (arith, find_crlf-le (y ∷ buf) (i - 1))

find_crlf-pos : (t : ℕ) (buf : Bytes) → t ≢ 13 → find_crlf (t ∷ buf) ≢ some 0
unfolding find_crlf
find_crlf-pos t [] n h = cc
find_crlf-pos t (x ∷ buf) n h = ground arith

utf8_line-Takes :
    {lo hi : ℕ} (o : Option Bytes) (k : ℕ) → lo ≤ k → k ≤ hi → Takes lo hi (utf8_line o k)
unfolding utf8_line
utf8_line-Takes none k h h' = refused
utf8_line-Takes (some line) k h h' = took h h'

not_ltb : (a b : ℕ) → ltb a b ≡ false → b ≤ a
not_ltb a b h = ground arith

-- The first byte is one of the five, none of which is `\r`.
pub other : (b t : ℕ) → (b == t) ≡ true → t ≢ 13 → b ≢ 13
other b t e n = ground arith

parse_line-Takes :
    (t : ℕ) (buf : Bytes) → t ≢ 13 → Takes 3 (suc (length buf)) (parse_line (t ∷ buf))
unfolding parse_line line_at
parse_line-Takes t buf n = elim (Option-cases (find_crlf (t ∷ buf))) [
  | inl e ↦ rw e wants
  | inr (i, e) ↦
      let le = find_crlf-le (t ∷ buf) i e in
      let i-pos : i ≢ 0 = λ z. find_crlf-pos t buf n (rw z at e) in
      rw e (utf8_line-Takes (from_utf8 (take (i - 1) buf)) (i + 2) (omega arith) le)
]

int_or-Takes :
    {lo hi : ℕ} (m : Bytes) (o : Option ℤ) (k : ℕ) → lo ≤ k → k ≤ hi → Takes lo hi (int_or m o k)
unfolding int_or
int_or-Takes m none k h h' = refused
int_or-Takes m (some n) k h h' = took h h'

pub parse_int_line-Takes :
    (what : Bytes) (t : ℕ) (buf : Bytes)
    → t ≢ 13
    → Takes 3 (suc (length buf)) (parse_int_line what (t ∷ buf))
unfolding parse_int_line
parse_int_line-Takes what t buf n =
    Takes-and_then (parse_line-Takes t buf n)
      λ line k lo hi. int_or-Takes _ (parse_i64 line) k lo hi

bulk_body-Takes :
    (buf : Bytes) (n : ℤ) (header_len : ℕ)
    → 3 ≤ header_len
    → header_len ≤ length buf
    → Takes 3 (length buf) (bulk_body buf n header_len)
unfolding bulk_body
bulk_body-Takes buf (negsuc n) header_len lo hi = took lo hi
bulk_body-Takes buf (pos len) header_len lo hi =
    Takes-if (ltb (length buf) (header_len + len + 2)) (λ _. wants)
      (λ enough. took (omega arith) (not_ltb _ _ enough))

module _ (can_reserve : ℕ → Bool) where
  array_body-Takes :
      {hi : ℕ} (items : ℕ → ℕ → Parsed RespValues) (n : ℤ) (offset : ℕ)
      → 3 ≤ offset
      → offset ≤ hi
      → ((count : ℕ) → Takes offset hi (items count offset))
      → Takes 3 hi (array_body can_reserve items n offset)
  unfolding array_body
  array_body-Takes items (negsuc _) offset lo hi h = took lo hi
  array_body-Takes items (pos count) offset lo hi h =
      Takes-if (can_reserve count)
        (λ _. Takes-and_then (h count) λ vs end lo' hi'. took (omega arith) hi') (λ _. crashed)

  mutual
    unfolding parse_with parse_items parse_array parse_simple_string parse_error parse_integer
        parse_bulk_string unknown_type

    pub parse_with-Takes :
        (f : ℕ) (buf : Bytes)
        → 3 * length buf < f
        → Takes 3 (length buf) (parse_with can_reserve f buf)
    parse_with-Takes zero buf lt = absurd (omega arith)
    parse_with-Takes (suc f) [] lt = wants
    parse_with-Takes (suc f) (b ∷ buf) lt =
        Takes-if (b == b'+')
          (λ e.
            Takes-and_then (parse_line-Takes b buf (other b b'+' e (omega arith)))
              λ line k lo hi. took lo hi)
          λ _.
            Takes-if (b == b'-')
              (λ e.
                Takes-and_then (parse_line-Takes b buf (other b b'-' e (omega arith)))
                  λ line k lo hi. took lo hi)
              λ _.
                Takes-if (b == b':')
                  (λ e.
                    Takes-and_then (parse_int_line-Takes _ b buf (other b b':' e (omega arith)))
                      λ n k lo hi. took lo hi)
                  λ _.
                    Takes-if (b == b'$')
                      (λ e.
                        Takes-and_then (parse_int_line-Takes _ b buf (other b b'$' e (omega arith)))
                          (bulk_body-Takes (b ∷ buf)))
                      λ _.
                        Takes-if (b == b'*')
                          (λ e.
                            parse_array-Takes f b buf (other b b'*' e (omega arith)) (omega arith))
                          λ _. refused

    parse_items-Takes :
        (f left offset : ℕ) (rest : Bytes)
        → 3 * length rest + 1 < f
        → Takes offset (offset + length rest) (parse_items can_reserve f left offset rest)
    parse_items-Takes zero left offset rest lt = absurd (omega arith)
    parse_items-Takes (suc f) left offset rest lt =
        Takes-if (left == 0) (λ _. took (omega arith) (omega arith))
          λ _. Takes-and_then (parse_with-Takes f rest (omega arith)) λ v k lo hi.
            let size = length-drop k rest in
            Takes-and_then
              (parse_items-Takes f (left - 1) (offset + k) (drop k rest) (omega (arith, size)))
              λ vs end lo' hi'. took (omega arith) (omega (arith, size))

    parse_array-Takes :
        (f b : ℕ) (buf : Bytes)
        → b ≢ 13
        → 3 * suc (length buf) < suc f
        → Takes 3 (suc (length buf)) (parse_array can_reserve f (b ∷ buf))
    parse_array-Takes zero b buf n lt = absurd (omega arith)
    parse_array-Takes (suc f) b buf n lt =
        Takes-and_then (parse_int_line-Takes _ b buf n) λ len offset lo hi.
          let size = length-drop offset (b ∷ buf) in
          let whole : offset + length (drop offset (b ∷ buf)) ≡ suc (length buf) =
            omega (arith, size) in
          array_body-Takes _ len offset lo hi λ count.
            rw whole at
              (parse_items-Takes f count offset (drop offset (b ∷ buf)) (omega (arith, size)))

  -- On every buffer `parse` has fuel enough; a value took at least 3 bytes, and no more than there are.
  pub parse-Takes : (buf : Bytes) → Takes 3 (length buf) (parse can_reserve buf)
  unfolding parse
  parse-Takes buf = parse_with-Takes (3 * length buf + 3) buf (omega arith)
