-- ===== src/Server/Replies.antt =====
-- The replies and options of src/server/mod.rs, and the requests of src/server/resp.rs, are what Server.Calls says of them.
use memlane.Client.{MemLaneError, arena_init, arena_full, key_too_long, value_too_long}
use memlane.Hashmap.SafeRead.{both}
use memlane.Prelude.{
  ℕ, ◌+◌, ◌-◌, ◌/◌, ◌%◌, subst, ◌^◌, ◌≡◌, refl, sym, ◌⊎◌, inl, inr, Bool-cases, Option, none, some,
  List, [], ◌∷◌, Bytes, bytes_eq, bytes_eq→eq, eq→bytes_eq, codes, length, ltb, Result, ok, err,
  arith,
}
use memlane.Resp.Command.{
  TextOps, Command, err_reply, extract_args, extract_name, with_args, extract_command,
}
use memlane.Resp.{
  RespValue, RespValues, simple_string, error, integer, bulk_string, nil, array, no_items, item,
}
use memlane.Server.Calls.{
  complaint, Shows, shows_value, shows_nil, ShowsAll, all_shown, one_shown, ShowsSigned, shows_low,
  shows_high, Pairs, no_pairs, a_pair, Strings, no_strings, a_string, Request, request, Options,
  no_options, last_alone, in_seconds, in_milliseconds, passed_over,
}
use memlane.Server.{
  error_text, as_i64, bulk_or_nil, bulks, pairs_of, seconds_arg, set_options, unwrap_or_zero,
}
use memlane.Text.Numeral.{ReadsAs, parse_u64-ReadsAs, or_zero}
use memlane.Text.{from_utf8, is_utf8, parse_u64}
use memlane.Word.{wrapping_add, u64_mod}

pub err_reply-error_text : (e : MemLaneError) → err_reply (error_text e) ≡ error (complaint e)
unfolding error_text
err_reply-error_text (arena_init e) = refl
err_reply-error_text (arena_full n) = refl
err_reply-error_text (key_too_long n) = refl
err_reply-error_text (value_too_long n) = refl

pub bulk_or_nil-Shows : (v : Option Bytes) → Shows v (bulk_or_nil v)
bulk_or_nil-Shows none = shows_nil
bulk_or_nil-Shows (some v) = shows_value

pub bulks-ShowsAll : (vs : List (Option Bytes)) → ShowsAll vs (bulks vs)
bulks-ShowsAll [] = all_shown
bulks-ShowsAll (v ∷ vs) = one_shown (bulk_or_nil-Shows v) (bulks-ShowsAll vs)

pub as_i64-ShowsSigned : (n : ℕ) → ShowsSigned n (integer (as_i64 n))
unfolding as_i64
as_i64-ShowsSigned n = elim (Bool-cases (ltb n (2 ^ 63))) [
  | inl low ↦ rw low (shows_low (ground arith))
  | inr high ↦
      let same : u64_mod - n - 1 ≡ 2 ^ 64 - 1 - n = omega arith in
      rw (high, same) (shows_high (ground arith))
]

pub pairs_of-Pairs : (args : List Bytes) → length args % 2 ≡ 0 → Pairs args (pairs_of args)
unfolding pairs_of
pairs_of-Pairs [] even = no_pairs
pairs_of-Pairs (key ∷ []) even = absurd (omega arith)
pairs_of-Pairs (key ∷ val ∷ args) even = a_pair (pairs_of-Pairs args (omega arith))

Result-cases :
    {A : Type 0} (r : Result Bytes A) → ((x : A) × (r ≡ ok x)) ⊎ ((m : Bytes) × (r ≡ err m))
Result-cases (ok x) = inl (x, refl)
Result-cases (err m) = inr (m, refl)

Strings-extract_args :
    (vs : RespValues) (args : List Bytes) → Strings vs args → extract_args vs ≡ ok args
unfolding extract_args
Strings-extract_args vs args no_strings = refl
Strings-extract_args vs args (a_string {vs = ws} {args = bs} rest) =
    rw (Strings-extract_args ws bs rest) refl

extract_args-Strings :
    (vs : RespValues) (args : List Bytes) → extract_args vs ≡ ok args → Strings vs args
unfolding extract_args
extract_args-Strings no_items args e = let same : [] ≡ args = cc in rw (sym same) no_strings
extract_args-Strings (item (bulk_string b) vs) args e = elim (Result-cases (extract_args vs)) [
  | inl (bs, q) ↦
      let here : ok (b ∷ bs) ≡ ok args = rw q at e in
      let same : b ∷ bs ≡ args = cc in rw (sym same) (a_string (extract_args-Strings vs bs q))
  | inr (m, q) ↦ let here : err m ≡ ok args = rw q at e in absurd cc
]
extract_args-Strings (item (simple_string b) vs) args e = absurd cc
extract_args-Strings (item (error b) vs) args e = absurd cc
extract_args-Strings (item (integer n) vs) args e = absurd cc
extract_args-Strings (item nil vs) args e = absurd cc
extract_args-Strings (item (array ws) vs) args e = absurd cc

module _ (text : TextOps) where
  pub seconds_arg-ReadsAs :
      (arg : Bytes) → ReadsAs (text.from_utf8_lossy arg) (seconds_arg text arg)
  unfolding seconds_arg
  seconds_arg-ReadsAs arg =
      let s = text.from_utf8_lossy arg in
      subst (ReadsAs s) (same (parse_u64 s)) (parse_u64-ReadsAs s)
    where
      same : (r : Option ℕ) → or_zero r ≡ unwrap_or_zero r
      same none = refl
      same (some n) = refl

  pub set_options-Options :
      (ttl : ℕ) (options : List Bytes) → Options text ttl options (set_options text ttl options)
  unfolding set_options wrapping_add
  set_options-Options ttl [] = no_options
  set_options-Options ttl (opt ∷ []) = last_alone
  set_options-Options ttl (opt ∷ arg ∷ rest) =
      let name = text.to_uppercase (text.from_utf8_lossy opt) in
      let n = seconds_arg text arg in
      both (Options text ttl (opt ∷ arg ∷ rest)) (bytes_eq name (codes "EX"))
        (λ ex.
          in_seconds (bytes_eq→eq name (codes "EX") ex) (seconds_arg-ReadsAs arg)
            (set_options-Options n rest))
        λ not_ex.
          both (Options text ttl (opt ∷ arg ∷ rest)) (bytes_eq name (codes "PX"))
            (λ px.
              in_milliseconds (bytes_eq→eq name (codes "PX") px) (seconds_arg-ReadsAs arg)
                (set_options-Options ((n + 999) % 2 ^ 64 / 1000) rest))
            λ not_px.
              passed_over (λ e. let t = eq→bytes_eq name (codes "EX") e in cc)
                (λ e. let t = eq→bytes_eq name (codes "PX") e in cc)
                (set_options-Options ttl (arg ∷ rest))

  -- A request is taken for what it is.
  Request-extract_command :
      (v : RespValue) (name : Bytes) (args : List Bytes)
      → Request text v name args
      → extract_command text v ≡ ok (record { name = name; args = args })
  unfolding extract_command extract_name with_args from_utf8
  Request-extract_command v name args (request {name = n} {vs = vs} {args = bs} utf8 strings) =
      rw (utf8, with_args, Strings-extract_args vs bs strings) refl

  with_args-Request :
      (n : Bytes) (vs : RespValues) (cmd : Command)
      → with_args text vs (extract_name text (bulk_string n)) ≡ ok cmd
      → Request text (array (item (bulk_string n) vs)) cmd.name cmd.args
  unfolding extract_name with_args from_utf8
  with_args-Request n vs cmd e = elim (Bool-cases (is_utf8 n)) [
    | inl utf8 ↦
        let named : with_args text vs (ok (text.to_uppercase n)) ≡ ok cmd =
          rw (utf8, with_args) at e in
        elim (Result-cases (extract_args vs)) [
          | inl (args, q) ↦
              let here : ok (record { name = text.to_uppercase n; args = args }) ≡ ok cmd =
                rw (q, with_args) at named in
              let same : record { name = text.to_uppercase n; args = args } ≡ cmd = cc in
              rw (sym same) (request utf8 (extract_args-Strings vs args q))
          | inr (m, q) ↦ let here : err m ≡ ok cmd = rw (q, with_args) at named in absurd cc
        ]
    | inr bad ↦
        let here : err (codes "Non-UTF8 command name") ≡ ok cmd = rw (bad, with_args) at e in
        absurd cc
  ]

  unnamed :
      (vs : RespValues) (r : Result Bytes Bytes) (cmd : Command)
      → r ≡ err (codes "Command name must be a bulk string")
      → with_args text vs r ≡ ok cmd
      → ⊥
  unfolding with_args
  unnamed vs (ok n) cmd bad e = absurd cc
  unnamed vs (err m) cmd bad e = absurd cc

  pub extract_command-Request :
      (v : RespValue) (cmd : Command)
      → extract_command text v ≡ ok cmd
      → Request text v cmd.name cmd.args
  unfolding extract_command extract_name
  extract_command-Request (array (item (bulk_string n) vs)) cmd e = with_args-Request n vs cmd e
  extract_command-Request (array (item (simple_string b) vs)) cmd e =
      absurd (unnamed vs _ cmd refl e)
  extract_command-Request (array (item (error b) vs)) cmd e = absurd (unnamed vs _ cmd refl e)
  extract_command-Request (array (item (integer b) vs)) cmd e = absurd (unnamed vs _ cmd refl e)
  extract_command-Request (array (item nil vs)) cmd e = absurd (unnamed vs _ cmd refl e)
  extract_command-Request (array (item (array b) vs)) cmd e = absurd (unnamed vs _ cmd refl e)
  extract_command-Request (array no_items) cmd e = absurd cc
  extract_command-Request (simple_string b) cmd e = absurd cc
  extract_command-Request (error b) cmd e = absurd cc
  extract_command-Request (integer n) cmd e = absurd cc
  extract_command-Request (bulk_string b) cmd e = absurd cc
  extract_command-Request nil cmd e = absurd cc

  pub extract_command-err :
      (v : RespValue) (m : Bytes)
      → extract_command text v ≡ err m
      → (name : Bytes) (args : List Bytes) → ¬ Request text v name args
  extract_command-err v m e name args r =
      let took = Request-extract_command v name args r in absurd cc
