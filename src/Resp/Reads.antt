-- ===== src/Resp/Reads.antt =====
-- Which values a buffer of src/server/resp.rs holds, and `parse_all` in these terms.
use memlane.Prelude.{
  ℕ, zero, suc, ◌+◌, ◌-◌, ◌≤◌, ◌≡◌, refl, sym, Bool, List, [], ◌∷◌, Bytes, length, drop, drop-drop,
  arith,
}
use memlane.Resp.{
  RespValue, Parsed, value, more, protocol, crash, out_of_fuel, and_then, parse, parse_all,
  parse_all_loop,
}

module _ (can_reserve : ℕ → Bool) where
  -- The buffer holds the values `vs`, one behind the other, and then `rest`, which is incomplete.
  pub data Reads : Bytes → List RespValue → Bytes → Type 0 where
    reads_done : {buf rest : Bytes} → parse can_reserve buf ≡ more → rest ≡ buf → Reads buf [] rest
    reads_next :
        {buf rest : Bytes} {v : RespValue} {vs : List RespValue} (n : ℕ)
        → parse can_reserve buf ≡ value v n
        → Reads (drop n buf) vs rest
        → Reads buf (v ∷ vs) rest

  -- The end of the loop's result lies behind where it started, and cuts off the rest.
  abbrev Ended : Bytes → ℕ → List RespValue → ℕ → Type 0
  Ended buf offset vs end = (offset ≤ end) × Reads buf vs (drop (end - offset) buf)

  Ended-round :
      (buf : Bytes) (offset n end : ℕ) (v : RespValue) (vs : List RespValue)
      (r : Parsed (List RespValue))
      → parse can_reserve buf ≡ value v n
      → ((us : List RespValue) (e : ℕ) → r ≡ value us e → Ended (drop n buf) (offset + n) us e)
      → and_then r (λ us e. value (v ∷ us) e) ≡ value vs end
      → Ended buf offset vs end
  Ended-round buf offset n end v vs (value us e) p rec same =
      let (le, reads) = rec us e refl in
      let cut : n + (e - (offset + n)) ≡ e - offset = omega arith in
      let reads' : Reads (drop n buf) us (drop (e - offset) buf) =
        rw (drop-drop n (e - (offset + n)) buf, cut) at reads in
      let whole : Ended buf offset (v ∷ us) e = (omega arith, reads_next n p reads') in
      let same_values : v ∷ us ≡ vs = cc in
      let same_end : e ≡ end = cc in rw (sym same_values, sym same_end) whole
  Ended-round buf offset n end v vs more p rec same = absurd cc
  Ended-round buf offset n end v vs (protocol m) p rec same = absurd cc
  Ended-round buf offset n end v vs crash p rec same = absurd cc
  Ended-round buf offset n end v vs out_of_fuel p rec same = absurd cc

  more_round :
      (buf : Bytes) (offset end : ℕ) (vs : List RespValue)
      → parse can_reserve buf ≡ more
      → ◌≡◌ {A = Parsed (List RespValue)} (value [] offset) (value vs end)
      → Ended buf offset vs end
  more_round buf offset end vs p same =
      let no_values : [] ≡ vs = cc in
      let same_end : offset ≡ end = cc in
      let nothing : offset - offset ≡ 0 = omega arith in
      rw (sym no_values, sym same_end, nothing) (omega arith, reads_done p refl)

  loop_round :
      (f offset : ℕ) (buf : Bytes) (vs : List RespValue) (end : ℕ) (r : Parsed RespValue)
      → parse can_reserve buf ≡ r
      → ((n : ℕ) (us : List RespValue) (e : ℕ)
          → parse_all_loop can_reserve f (offset + n) (drop n buf) ≡ value us e
          → Ended (drop n buf) (offset + n) us e)
      → parse_all_loop can_reserve (suc f) offset buf ≡ value vs end
      → Ended buf offset vs end
  unfolding parse_all_loop
  loop_round f offset buf vs end (value v n) e rec same =
      Ended-round buf offset n end v vs (parse_all_loop can_reserve f (offset + n) (drop n buf)) e
        (rec n) (rw (e, parse_all_loop) at same)
  loop_round f offset buf vs end more e rec same =
      more_round buf offset end vs e (rw (e, parse_all_loop) at same)
  loop_round f offset buf vs end (protocol m) e rec same =
      let same' = rw (e, parse_all_loop) at same in absurd cc
  loop_round f offset buf vs end crash e rec same =
      let same' = rw (e, parse_all_loop) at same in absurd cc
  loop_round f offset buf vs end out_of_fuel e rec same =
      let same' = rw (e, parse_all_loop) at same in absurd cc

  parse_all_loop-Reads :
      (f offset : ℕ) (buf : Bytes) (vs : List RespValue) (end : ℕ)
      → parse_all_loop can_reserve f offset buf ≡ value vs end
      → Ended buf offset vs end
  unfolding parse_all_loop
  parse_all_loop-Reads zero offset buf vs end same = absurd cc
  parse_all_loop-Reads (suc f) offset buf vs end same =
      loop_round f offset buf vs end (parse can_reserve buf) refl
        (λ n us e rec. parse_all_loop-Reads f (offset + n) (drop n buf) us e rec) same

  -- When `parse_all` succeeds, the buffer holds just the values that it returns, one behind the other,
  -- and behind the bytes that it reports an incomplete rest.
  pub parse_all-Reads :
      (buf : Bytes) (vs : List RespValue) (end : ℕ)
      → parse_all can_reserve buf ≡ value vs end
      → Reads buf vs (drop end buf)
  unfolding parse_all
  parse_all-Reads buf vs end same =
      let from_zero : end - 0 ≡ end = omega arith in
      let (le, reads) = parse_all_loop-Reads (suc (length buf)) 0 buf vs end same in
      rw from_zero at reads
