-- ===== src/Resp/Stream.antt =====
-- `parse_all` of src/server/resp.rs on the encodings of several values, one behind the other.
use native.Mathlib.Nat.{add-zero}
use memlane.Prelude.{
  ℕ, zero, suc, ◌+◌, ◌<◌, ◌≤◌, ◌≡◌, refl, ap, ◌∙◌, Bool, List, [], ◌∷◌, ◌++◌, Bytes, length,
  length-append, append_assoc, drop, drop-append, arith,
}
use memlane.Resp.RoundTrip.{CanEncode, parse-encode, length-encode_pos}
use memlane.Resp.{RespValue, value, more, and_then, parse, encode, parse_all, parse_all_loop}

abbrev pub encode_all : List RespValue → Bytes
encode_all [] = []
encode_all (v ∷ vs) = encode v ++ encode_all vs

abbrev pub CanEncodeAll : (ℕ → Bool) → List RespValue → Type 0
CanEncodeAll can_reserve [] = Unit {0}
CanEncodeAll can_reserve (v ∷ vs) = CanEncode can_reserve v × CanEncodeAll can_reserve vs

pub length-encode_all : (vs : List RespValue) → length vs ≤ length (encode_all vs)
length-encode_all [] = omega arith
length-encode_all (v ∷ vs) =
    omega
      (arith, length-encode_all vs, length-encode_pos v, length-append (encode v) (encode_all vs))

module _ (can_reserve : ℕ → Bool) where
  parse_all_loop-value :
      (f offset : ℕ) (v : RespValue) (n : ℕ) (buf : Bytes)
      → parse can_reserve buf ≡ value v n
      → parse_all_loop can_reserve (suc f) offset buf
        ≡ and_then
            (parse_all_loop can_reserve f (offset + n) (drop n buf))
            λ vs end. value (v ∷ vs) end
  unfolding parse_all_loop
  parse_all_loop-value f offset v n buf e = rw (e, parse_all_loop) refl

  parse_all_loop-encode_all :
      (vs : List RespValue) (f offset : ℕ) (rest : Bytes)
      → CanEncodeAll can_reserve vs
      → parse can_reserve rest ≡ more
      → length vs < f
      → parse_all_loop can_reserve f offset (encode_all vs ++ rest)
        ≡ value vs (offset + length (encode_all vs))
  unfolding parse_all_loop
  parse_all_loop-encode_all vs zero offset rest can e lt = absurd (omega arith)
  parse_all_loop-encode_all [] (suc f) offset rest can e lt = rw (e, parse_all_loop, add-zero) refl
  parse_all_loop-encode_all (v ∷ vs) (suc f) offset rest (can, cans) e lt =
      let tail = encode_all vs ++ rest in
      let n = length (encode v) in
      let sum : offset + n + length (encode_all vs) ≡ offset + length (encode v ++ encode_all vs) =
        omega (arith, length-append (encode v) (encode_all vs)) in
      ap (parse_all_loop can_reserve (suc f) offset) (append_assoc (encode v) (encode_all vs) rest)
      ∙ parse_all_loop-value f offset v n (encode v ++ tail) (parse-encode can_reserve v tail can)
      ∙ ap
          (λ buf.
            and_then (parse_all_loop can_reserve f (offset + n) buf) λ us end. value (v ∷ us) end)
          (drop-append n (encode v) tail refl)
      ∙ ap (λ r. and_then r λ us end. value (v ∷ us) end)
          (parse_all_loop-encode_all vs f (offset + n) rest cans e (omega arith))
      ∙ ap (value (v ∷ vs)) sum

  -- Of the encodings of some values, each such that `parse` reads it back, and an incomplete rest,
  -- `parse_all` takes just the values, in order, and their bytes.
  pub parse_all-encode_all :
      (vs : List RespValue) (rest : Bytes)
      → CanEncodeAll can_reserve vs
      → parse can_reserve rest ≡ more
      → parse_all can_reserve (encode_all vs ++ rest) ≡ value vs (length (encode_all vs))
  unfolding parse_all
  parse_all-encode_all vs rest can e =
      let zero_on : 0 + length (encode_all vs) ≡ length (encode_all vs) = omega arith in
      parse_all_loop-encode_all vs (suc (length (encode_all vs ++ rest))) 0 rest can e
        (omega (arith, length-encode_all vs, length-append (encode_all vs) rest))
      ∙ ap (value vs) zero_on
