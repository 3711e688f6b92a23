-- ===== src/Metrics/Percentiles.antt =====
-- The percentiles of src/server/ws_bridge.rs.
use memlane.Metrics.Sorting.{
  IsAscending, Among, sort_unstable-IsAscending, length-sort_unstable, Among-sort_unstable,
  get_or_zero_mono, get_or_zero-Among,
}
use memlane.Metrics.{Floats, Aggregator, percent, percentile, sort_unstable, drain}
use memlane.Prelude.{ℕ, ◌-◌, ◌≤◌, ◌<◌, ◌≡◌, refl, ap, List, [], ◌∷◌, length, arith}

module _ (fl : Floats) where
  open fl use {
    Le, of_int, div, mul, round, to_usize, of_int_mono, nearly_all_above, div_mono, mul_mono,
    round_mono, to_usize_mono,
  }

  percentile_mono :
      (l : List ℕ) (m n : ℕ)
      → IsAscending l
      → Le (percent fl m) (percent fl n)
      → percentile fl l m ≤ percentile fl l n
  unfolding percentile
  percentile_mono [] m n h le = omega arith
  percentile_mono (x ∷ l) m n h le =
      let last = length (x ∷ l) - 1 in
      let scaled =
        to_usize_mono _ _
          (round_mono _ _ (mul_mono _ _ last (div_mono (percent fl m) (percent fl n) 100 le))) in
      get_or_zero_mono (x ∷ l) _ _ h (omega arith) (omega arith)

  percentile-Among : (x : ℕ) (l : List ℕ) (n : ℕ) → Among (percentile fl (x ∷ l) n) (x ∷ l)
  unfolding percentile
  percentile-Among x l n = get_or_zero-Among (x ∷ l) _ (omega arith)

  sample : (l : List ℕ) (n : ℕ) → 0 < length l → Among (percentile fl (sort_unstable l) n) l
  sample l n some_left = at_least (sort_unstable l) refl
    where
      at_least : (s : List ℕ) → sort_unstable l ≡ s → Among (percentile fl (sort_unstable l) n) l
      at_least [] e = absurd (omega (arith, length-sort_unstable l, ap length e))
      at_least (x ∷ s) e = Among-sort_unstable _ l (rw e (percentile-Among x s n))

  -- The percentiles of a snapshot do not fall from the median to the 99th to the 99.9th, and each of them
  -- is a latency of the window, unless that is empty.
  pub drain_percentiles :
      (now : ℕ) (a : Aggregator) (used_slots total_slots : ℕ)
      → (let s = (drain fl now a used_slots total_slots).0 in
          (s.p50_us ≤ s.p99_us)
          × (s.p99_us ≤ s.p999_us)
          × (0 < length a.latencies
              → Among s.p50_us a.latencies
                × Among s.p99_us a.latencies
                × Among s.p999_us a.latencies))
  unfolding drain percent
  drain_percentiles now a used_slots total_slots =
      let l = a.latencies in
      let h = sort_unstable-IsAscending l in
      (
        percentile_mono (sort_unstable l) 50 99 h (of_int_mono 50 99 (omega arith)),
        percentile_mono (sort_unstable l) 99 999 h nearly_all_above,
        λ some_left. (sample l 50 some_left, sample l 99 some_left, sample l 999 some_left),
      )
