-- ===== src/Tests/Windows.antt =====
-- Tests of the metrics.
use memlane.Metrics.Order.{SaysSame, record_all, drain-SaysSame}
use memlane.Metrics.Percentiles.{drain_percentiles}
use memlane.Metrics.Sorting.{Among, as_is, keep_first, exchange, and_again}
use memlane.Metrics.Window.{Accounts, taken, aggregate-Accounts}
use memlane.Metrics.{
  Floats, MetricEvent, Aggregator, Input, event, closed, tick, drain, percentile, percent,
  sort_unstable, insert_sorted, get_or_zero, aggregate,
}
use memlane.Prelude.{ℕ, zero, suc, ◌+◌, ◌*◌, ◌/◌, ◌<◌, ◌≤◌, ◌≡◌, refl, codes, List, [], ◌∷◌, arith}
use native.Mathlib.Nat.{mul-le-mul_right, le-div_iff_mul-le, mul-div-le, mul_comm}

pub div_mono : (x y n : ℕ) → x ≤ y → x / n ≤ y / n
div_mono x y zero le = omega arith
div_mono x y (suc n) le =
    let whole = mul-div-le x (suc n) in
    let swap : x / suc n * suc n ≡ suc n * (x / suc n) = mul_comm (x / suc n) (suc n) in
    (le-div_iff_mul-le {k = suc n} {x = x / suc n} {y = y} (omega arith)).1 (omega arith)

-- Thousandths.
abbrev pub thousandths : Floats
thousandths = record {
  F = ℕ;
  Le = λ x y. x ≤ y;
  of_int = λ n. n * 1000;
  nearly_all = 99900;
  div = λ x y. x * 1000 / y;
  mul = λ x y. x * y / 1000;
  round = λ x. (x + 500) / 1000 * 1000;
  to_usize = λ x. x / 1000;
  of_int_mono = λ a b le. omega arith;
  nearly_all_above = omega arith;
  div_mono = λ x y n le. div_mono (x * 1000) (y * 1000) (n * 1000) (omega arith);
  mul_mono =
      λ x y n le. div_mono (x * (n * 1000)) (y * (n * 1000)) 1000 (mul-le-mul_right (n * 1000) le);
  round_mono = λ x y le. omega arith;
  to_usize_mono = λ x y le. omega arith;
}

abbrev pub noted : ℕ → MetricEvent
noted n = record { op = codes "GET"; latency_us = n }

abbrev pub stored : ℕ → MetricEvent
stored n = record { op = codes "SET"; latency_us = n }

abbrev pub busy : Aggregator
busy = record { latencies = 9 ∷ 2 ∷ 5 ∷ []; breakdown = (codes "GET", 3) ∷ []; window_start = 0 }

drain_percentiles_example :
    let s = (drain thousandths 7 busy 10 65536).0 in
    (s.p50_us ≤ s.p99_us)
    × (s.p99_us ≤ s.p999_us)
    × (0 < 3
        → Among s.p50_us (9 ∷ 2 ∷ 5 ∷ [])
          × Among s.p99_us (9 ∷ 2 ∷ 5 ∷ [])
          × Among s.p999_us (9 ∷ 2 ∷ 5 ∷ []))
drain_percentiles_example = drain_percentiles thousandths 7 busy 10 65536

abbrev minute : List (Input thousandths)
minute =
    event (stored 4)
    ∷ tick 1 10 65536
    ∷ event (noted 3)
    ∷ event (stored 8)
    ∷ tick 2 11 65536
    ∷ event (noted 1)
    ∷ closed
    ∷ event (noted 6)
    ∷ []

aggregate-Accounts_example :
    Accounts thousandths busy (taken minute) (aggregate thousandths busy minute)
aggregate-Accounts_example = aggregate-Accounts thousandths busy minute refl (omega arith)

drain-SaysSame_example :
    SaysSame {fl = thousandths}
      (drain thousandths 7 (record_all busy (stored 4 ∷ noted 3 ∷ noted 8 ∷ [])) 10 65536).0
      (drain thousandths 7 (record_all busy (noted 3 ∷ noted 8 ∷ stored 4 ∷ [])) 10 65536).0
drain-SaysSame_example =
    drain-SaysSame thousandths 7 10 65536 busy (stored 4 ∷ noted 3 ∷ noted 8 ∷ [])
      (noted 3 ∷ noted 8 ∷ stored 4 ∷ []) (omega arith)
      (and_again (exchange as_is) (keep_first (exchange as_is)))

-- The median of three latencies.
median_test : (drain thousandths 7 busy 10 65536).0.p50_us ≡ 5
unfolding drain percentile percent sort_unstable insert_sorted get_or_zero
median_test = refl
