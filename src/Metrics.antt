-- ===== src/Metrics.antt =====
-- src/server/ws_bridge.rs: the aggregator of metric events and the task that forwards its snapshots to a
-- dashboard. Channels, timers, sockets and JSON are the environment: the events that a task takes are a
-- list in the order in which `select!` hands them over. Floats are an interface with the laws of
-- IEEE 754 that the order of the percentiles rests on.
pub mod Sorting
pub mod Percentiles
pub mod Window
pub mod Order
pub mod Dashboard
use memlane.Prelude.{
  ℕ, zero, suc, ◌+◌, ◌-◌, ◌≤◌, ◌==◌, Bool, true, false, Option, none, some, List, [], ◌∷◌, ◌++◌,
  leb, ltb, min, if◌then◌else◌, bytes_eq, Bytes, length,
}
use memlane.Word.{wrapping_add}

-- `f64`, its operations that the code uses, and that they are monotone where the other operand is a
-- number that is not negative.
pub record Floats : Type 1 where
  pub F : Type 0
  pub Le : F → F → Type 0
  pub of_int : ℕ → F
  -- the literal 99.9
  pub nearly_all : F
  pub div : F → F → F
  pub mul : F → F → F
  pub round : F → F
  pub to_usize : F → ℕ
  pub of_int_mono : (a b : ℕ) → a ≤ b → Le (of_int a) (of_int b)
  pub nearly_all_above : Le (of_int 99) nearly_all
  pub div_mono : (x y : F) (n : ℕ) → Le x y → Le (div x (of_int n)) (div y (of_int n))
  pub mul_mono : (x y : F) (n : ℕ) → Le x y → Le (mul x (of_int n)) (mul y (of_int n))
  pub round_mono : (x y : F) → Le x y → Le (round x) (round y)
  pub to_usize_mono : (x y : F) → Le x y → to_usize x ≤ to_usize y

pub record MetricEvent : Type 0 where
  pub op : Bytes
  pub latency_us : ℕ

-- The breakdown is a hash map, here a list of its entries.
pub record Aggregator : Type 0 where
  pub latencies : List ℕ
  pub breakdown : List (Bytes × ℕ)
  pub window_start : ℕ

-- `now` is what `Instant::now` reads.
unfoldable pub new : ℕ → Aggregator
new now = record { latencies = []; breakdown = []; window_start = now }

-- `*breakdown.entry(op).or_insert(0) += 1`
unfoldable pub bump : Bytes → List (Bytes × ℕ) → List (Bytes × ℕ)
bump op [] = (op, wrapping_add 0 1) ∷ []
bump op ((name, n) ∷ entries) =
    if bytes_eq name op then (name, wrapping_add n 1) ∷ entries else (name, n) ∷ bump op entries

-- `self.latencies.push` is at the end.
unfoldable pub record_event : Aggregator → MetricEvent → Aggregator
unfolding bump
record_event a event = record a {
  latencies = a.latencies ++ event.latency_us ∷ [];
  breakdown = bump event.op a.breakdown;
}

-- `sort_unstable`: the library's sort, which has one result on numbers.
unfoldable pub insert_sorted : ℕ → List ℕ → List ℕ
insert_sorted x [] = x ∷ []
insert_sorted x (y ∷ ys) = if leb x y then x ∷ y ∷ ys else y ∷ insert_sorted x ys

unfoldable pub sort_unstable : List ℕ → List ℕ
unfolding insert_sorted
sort_unstable [] = []
sort_unstable (x ∷ xs) = insert_sorted x (sort_unstable xs)

-- `sorted[i]`, read in range only.
unfoldable pub get_or_zero : List ℕ → ℕ → ℕ
get_or_zero [] i = 0
get_or_zero (x ∷ xs) zero = x
get_or_zero (x ∷ xs) (suc i) = get_or_zero xs i

module _ (fl : Floats) where
  open fl use {F, of_int, nearly_all, div, mul, round, to_usize}

  -- `pct`: 999 stands for 99.9.
  unfoldable pub percent : ℕ → F
  percent n = if n == 999 then nearly_all else of_int n

  unfoldable pub percentile : List ℕ → ℕ → ℕ
  unfolding percent get_or_zero
  percentile [] n = 0
  percentile (x ∷ xs) n =
      let last = length (x ∷ xs) - 1 in
      let idx = to_usize (round (mul (div (percent n) (of_int 100)) (of_int last))) in
      get_or_zero (x ∷ xs) (min idx last)

  pub record MetricsSnapshot : Type 0 where
    pub ops_per_sec : ℕ
    pub p50_us : ℕ
    pub p99_us : ℕ
    pub p999_us : ℕ
    pub used_slots : ℕ
    pub total_slots : ℕ
    pub fill_pct : F
    pub breakdown : List (Bytes × ℕ)

  unfoldable pub fill_pct_of : ℕ → ℕ → F
  fill_pct_of used_slots total_slots =
      if ltb 0 total_slots
      then mul (div (of_int used_slots) (of_int total_slots)) (of_int 100)
      else of_int 0

  -- The snapshot, and the aggregator for the next window.
  unfoldable pub drain : ℕ → Aggregator → ℕ → ℕ → MetricsSnapshot × Aggregator
  unfolding percentile sort_unstable fill_pct_of
  drain now a used_slots total_slots =
      let sorted = sort_unstable a.latencies in
      (
        record {
          ops_per_sec = length a.latencies;
          p50_us = percentile sorted 50;
          p99_us = percentile sorted 99;
          p999_us = percentile sorted 999;
          used_slots = used_slots;
          total_slots = total_slots;
          fill_pct = fill_pct_of used_slots total_slots;
          breakdown = a.breakdown;
        },
        record { latencies = []; breakdown = []; window_start = now },
      )

  -- What the aggregator task takes: an event of the channel, its end, or a tick of the interval, with the
  -- clock and the answer of `slots_fn`.
  pub data Input : Type 0 where
    event : MetricEvent → Input
    closed : Input
    tick : (now used_slots total_slots : ℕ) → Input

  -- The loop of the aggregator task: the snapshots that it broadcasts, and the aggregator at the end.
  unfoldable pub aggregate : Aggregator → List Input → List MetricsSnapshot × Aggregator
  aggregate a [] = ([], a)
  aggregate a (event e ∷ inputs) = aggregate (record_event a e) inputs
  aggregate a (closed ∷ inputs) = ([], a)
  aggregate a (tick now used_slots total_slots ∷ inputs) =
      let (snapshot, b) = drain now a used_slots total_slots in
      let (snapshots, c) = aggregate b inputs in (snapshot ∷ snapshots, c)
