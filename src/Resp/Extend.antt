-- ===== src/Resp/Extend.antt =====
-- What more bytes change in the result of the parser of src/server/resp.rs: only a `more`.
use memlane.Prelude.{
  ℕ, zero, suc, ◌+◌, ◌-◌, ◌*◌, ◌≤◌, ◌<◌, ◌≡◌, ◌≢◌, refl, sym, ◌∙◌, ap, some, Bytes, Bool, true,
  false, [], ◌∷◌, ◌++◌, length, length-append, length-drop, length-take, take, drop, take-append_le,
  drop-append_le, take-append-drop, arith, ℤ, pos, negsuc, Option-cases, Bool-cases, ◌⊎◌, inl, inr,
  ◌==◌, if◌then◌else◌, ltb,
}
use memlane.Resp.Fuel.{
  Takes, took, wants, refused, crashed, parse_with-Takes, parse_int_line-Takes, parse-Takes,
  find_crlf-le, other,
}
use memlane.Resp.{
  RespValue, RespValues, Parsed, value, more, protocol, crash, out_of_fuel, and_then, find_crlf,
  line_at, parse_line, parse_int_line, parse_simple_string, parse_error, parse_integer,
  parse_bulk_string, bulk_body, unknown_type, array_body, parse_with, parse_items, parse_array,
  parse,
}

-- The second result is the first, unless that asked for more.
data Extends {A : Type 0} (r r' : Parsed A) : Type 0 where
  kept : r' ≡ r → Extends r r'
  waits : r ≡ more → Extends r r'

Extends-and_then :
    {A B : Type 0} (r r' : Parsed A) (f f' : A → ℕ → Parsed B)
    → Extends r r'
    → ((a : A) (n : ℕ) → r ≡ value a n → Extends (f a n) (f' a n))
    → Extends (and_then r f) (and_then r' f')
Extends-and_then (value a n) r' f f' (kept e) h = rw e (h a n refl)
Extends-and_then (value a n) r' f f' (waits e) h = absurd cc
Extends-and_then more r' f f' x h = waits refl
Extends-and_then (protocol m) r' f f' (kept e) h = rw e (kept refl)
Extends-and_then (protocol m) r' f f' (waits e) h = absurd cc
Extends-and_then crash r' f f' (kept e) h = rw e (kept refl)
Extends-and_then crash r' f f' (waits e) h = absurd cc
Extends-and_then out_of_fuel r' f f' (kept e) h = rw e (kept refl)
Extends-and_then out_of_fuel r' f f' (waits e) h = absurd cc

Extends-if :
    {A : Type 0} (b : Bool) (x x' y y' : Parsed A)
    → (b ≡ true → Extends x x')
    → (b ≡ false → Extends y y')
    → Extends (if b then x else y) (if b then x' else y')
Extends-if true x x' y y' hx hy = hx refl
Extends-if false x x' y y' hx hy = hy refl

Takes-value :
    {A : Type 0} {lo hi : ℕ} (r : Parsed A) (a : A) (n : ℕ)
    → Takes lo hi r
    → r ≡ value a n
    → (lo ≤ n) × (n ≤ hi)
Takes-value r a n (took h h') e = ground arith
Takes-value r a n wants e = absurd cc
Takes-value r a n refused e = absurd cc
Takes-value r a n crashed e = absurd cc

find_crlf-append :
    (buf rest : Bytes) (i : ℕ) → find_crlf buf ≡ some i → find_crlf (buf ++ rest) ≡ some i
unfolding find_crlf
find_crlf-append [] rest i e = absurd cc
find_crlf-append (x ∷ []) rest i e = absurd cc
find_crlf-append (x ∷ y ∷ buf) rest i e = ground (arith, find_crlf-append (y ∷ buf) rest (i - 1))

parse_line-Extends :
    (b : ℕ) (buf rest : Bytes) → Extends (parse_line (b ∷ buf)) (parse_line (b ∷ buf ++ rest))
unfolding parse_line line_at
parse_line-Extends b buf rest = elim (Option-cases (find_crlf (b ∷ buf))) [
  | inl e ↦ rw e (waits refl)
  | inr (i, e) ↦
      let le = find_crlf-le (b ∷ buf) i e in
      rw (e, find_crlf-append (b ∷ buf) rest i e, take-append_le (i - 1) buf rest (omega arith))
        (kept refl)
]

parse_int_line-Extends :
    (what : Bytes) (b : ℕ) (buf rest : Bytes)
    → Extends (parse_int_line what (b ∷ buf)) (parse_int_line what (b ∷ buf ++ rest))
unfolding parse_int_line
parse_int_line-Extends what b buf rest =
    Extends-and_then _ _ _ _ (parse_line-Extends b buf rest) λ line n e. kept refl

bulk_body-Extends :
    (buf rest : Bytes) (n : ℤ) (header_len : ℕ)
    → header_len ≤ length buf
    → Extends (bulk_body buf n header_len) (bulk_body (buf ++ rest) n header_len)
unfolding bulk_body
bulk_body-Extends buf rest (negsuc n) header_len hi = kept refl
bulk_body-Extends buf rest (pos len) header_len hi =
    elim (Bool-cases (ltb (length buf) (header_len + len + 2))) [
      | inl short ↦ rw short (waits refl)
      | inr enough ↦
          let size = length-append buf rest in
          let enough' : ltb (length (buf ++ rest)) (header_len + len + 2) ≡ false =
            ground (arith, length-append buf rest) in
          let room : header_len + len + 2 ≤ length buf = ground arith in
          rw
            (
              enough,
              enough',
              drop-append_le header_len buf rest hi,
              take-append_le len (drop header_len buf) rest
                  (omega (arith, length-drop header_len buf)),
            )
            (kept refl)
    ]

module _ (can_reserve : ℕ → Bool) where
  array_body-Extends :
      (items items' : ℕ → ℕ → Parsed RespValues) (n : ℤ) (offset : ℕ)
      → ((count : ℕ) → Extends (items count offset) (items' count offset))
      → Extends (array_body can_reserve items n offset) (array_body can_reserve items' n offset)
  unfolding array_body
  array_body-Extends items items' (negsuc n) offset h = kept refl
  array_body-Extends items items' (pos count) offset h =
      Extends-if (can_reserve count) _ _ _ _
        (λ _. Extends-and_then _ _ _ _ (h count) λ vs end e. kept refl) (λ _. kept refl)

  mutual
    unfolding parse_with parse_items parse_array parse_simple_string parse_error parse_integer
        parse_bulk_string unknown_type

    parse_with-Extends :
        (f g : ℕ) (buf rest : Bytes)
        → 3 * length buf < f
        → f ≤ g
        → Extends (parse_with can_reserve f buf) (parse_with can_reserve g (buf ++ rest))
    parse_with-Extends zero g buf rest lt le = absurd (omega arith)
    parse_with-Extends (suc f) zero buf rest lt le = absurd (omega arith)
    parse_with-Extends (suc f) (suc g) [] rest lt le = waits refl
    parse_with-Extends (suc f) (suc g) (b ∷ buf) rest lt le =
        Extends-if (b == b'+') _ _ _ _
          (λ _. Extends-and_then _ _ _ _ (parse_line-Extends b buf rest) λ line n e. kept refl)
          λ _.
            Extends-if (b == b'-') _ _ _ _
              (λ _. Extends-and_then _ _ _ _ (parse_line-Extends b buf rest) λ line n e. kept refl)
              λ _.
                Extends-if (b == b':') _ _ _ _
                  (λ _.
                    Extends-and_then _ _ _ _ (parse_int_line-Extends _ b buf rest)
                      λ n k e. kept refl)
                  λ _.
                    Extends-if (b == b'$') _ _ _ _
                      (λ t. Extends-and_then _ _ _ _ (parse_int_line-Extends _ b buf rest) λ n k e.
                        bulk_body-Extends (b ∷ buf) rest n k
                          (Takes-value _ n k
                            (parse_int_line-Takes _ b buf (other b b'$' t (omega arith))) e).1)
                      λ _.
                        Extends-if (b == b'*') _ _ _ _
                          (λ t.
                            parse_array-Extends f g b buf rest (other b b'*' t (omega arith))
                              (omega arith) (omega arith))
                          λ _. kept refl

    parse_items-Extends :
        (f g left offset : ℕ) (buf rest : Bytes)
        → 3 * length buf + 1 < f
        → f ≤ g
        → Extends
            (parse_items can_reserve f left offset buf)
            (parse_items can_reserve g left offset (buf ++ rest))
    parse_items-Extends zero g left offset buf rest lt le = absurd (omega arith)
    parse_items-Extends (suc f) zero left offset buf rest lt le = absurd (omega arith)
    parse_items-Extends (suc f) (suc g) left offset buf rest lt le =
        Extends-if (left == 0) _ _ _ _ (λ _. kept refl)
          λ _.
            Extends-and_then _ _ _ _ (parse_with-Extends f g buf rest (omega arith) (omega arith))
              λ v n e.
                let (lo, hi) =
                  Takes-value _ v n (parse_with-Takes can_reserve f buf (omega arith)) e in
                let size = length-drop n buf in
                rw (drop-append_le n buf rest hi) (
                  Extends-and_then _ _ _ _
                    (parse_items-Extends f g (left - 1) (offset + n) (drop n buf) rest
                      (omega (arith, size)) (omega arith))
                    λ vs end e'. kept refl)

    parse_array-Extends :
        (f g b : ℕ) (buf rest : Bytes)
        → b ≢ 13
        → 3 * suc (length buf) < suc f
        → f ≤ g
        → Extends
            (parse_array can_reserve f (b ∷ buf))
            (parse_array can_reserve g (b ∷ buf ++ rest))
    parse_array-Extends zero g b buf rest n lt le = absurd (omega arith)
    parse_array-Extends (suc f) zero b buf rest n lt le = absurd (omega arith)
    parse_array-Extends (suc f) (suc g) b buf rest n lt le =
        Extends-and_then _ _ _ _ (parse_int_line-Extends _ b buf rest) λ len offset e.
          let (lo, hi) = Takes-value _ len offset (parse_int_line-Takes _ b buf n) e in
          let size = length-drop offset (b ∷ buf) in
          array_body-Extends _ _ len offset λ count. rw (drop-append_le offset (b ∷ buf) rest hi) (
            parse_items-Extends f g count offset (drop offset (b ∷ buf)) rest (omega (arith, size))
              (omega arith))

  -- On any buffer: if `parse` does not ask for more bytes, then bytes behind the buffer leave its result
  -- as it is, be it a value, a protocol error or a crash.
  pub parse-append :
      (buf rest : Bytes)
      → (parse can_reserve buf ≡ more) ⊎ (parse can_reserve (buf ++ rest) ≡ parse can_reserve buf)
  unfolding parse
  parse-append buf rest =
      elim (parse_with-Extends (3 * length buf + 3) (3 * length (buf ++ rest) + 3) buf rest
        (omega arith) (omega (arith, length-append buf rest))) [ kept e ↦ inr e | waits e ↦ inl e ]

  pub parse_value-append :
      (buf rest : Bytes) (v : RespValue) (n : ℕ)
      → parse can_reserve buf ≡ value v n
      → parse can_reserve (buf ++ rest) ≡ value v n
  parse_value-append buf rest v n e = elim (parse-append buf rest) [
    | inl e' ↦ absurd cc
    | inr e' ↦ e' ∙ e
  ]

  pub value-le :
      (buf : Bytes) (v : RespValue) (n : ℕ)
      → parse can_reserve buf ≡ value v n
      → (3 ≤ n) × (n ≤ length buf)
  value-le buf v n e = Takes-value _ v n (parse-Takes can_reserve buf) e

  cut_short :
      (buf : Bytes) (v : RespValue) (n k : ℕ) (r : Parsed RespValue)
      → parse can_reserve (take k buf) ≡ r
      → Takes 3 (length (take k buf)) r
      → parse can_reserve buf ≡ value v n
      → r ≡ more ⊎ (parse can_reserve buf ≡ r)
      → k < n
      → r ≡ more
  cut_short buf v n k r e t whole (inl m) lt = m
  cut_short buf v n k r e (took lo hi) whole (inr same) lt =
      absurd (ground (arith, length-take k buf))
  cut_short buf v n k r e wants whole (inr same) lt = refl
  cut_short buf v n k r e refused whole (inr same) lt = absurd cc
  cut_short buf v n k r e crashed whole (inr same) lt = absurd cc

  -- Of a value that `parse` reads off some buffer, encoded by this program or not, any proper prefix
  -- makes it ask for more bytes.
  pub parse-take :
      (buf : Bytes) (v : RespValue) (n k : ℕ)
      → parse can_reserve buf ≡ value v n
      → k < n
      → parse can_reserve (take k buf) ≡ more
  parse-take buf v n k e lt =
      cut_short buf v n k (parse can_reserve (take k buf)) refl
        (parse-Takes can_reserve (take k buf)) e
        (elim (parse-append (take k buf) (drop k buf)) [
          | inl m ↦ inl m
          | inr same ↦ inr (ap (parse can_reserve) (sym (take-append-drop k buf)) ∙ same)
        ])
        lt
