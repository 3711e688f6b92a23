-- ===== src/Metrics/Order.antt =====
-- src/server/ws_bridge.rs: a window forgets the order of its events.
use mathlib.Core.List.{map}
use memlane.Metrics.Sorting.{
  Reordered, as_is, keep_first, exchange, and_again, length-sort_unstable, sort_unstable-Reordered,
}
use memlane.Metrics.Window.{total, count_of, count_events, total-bump, count_of-bump}
use memlane.Metrics.{
  Floats, MetricEvent, Aggregator, MetricsSnapshot, record_event, sort_unstable, percentile, drain,
}
use memlane.Prelude.{
  ℕ, suc, ◌+◌, ◌<◌, ◌≡◌, refl, sym, ap, ◌∙◌, subst, inl, inr, Bool-cases, List, [], ◌∷◌, ◌++◌,
  bytes_eq, Bytes, length, append_assoc, append-nil, arith,
}
use memlane.Word.{u64_mod}

-- The aggregator after a window's events.
abbrev pub record_all : Aggregator → List MetricEvent → Aggregator
record_all a [] = a
record_all a (e ∷ events) = record_all (record_event a e) events

record_all-latencies :
    (a : Aggregator) (events : List MetricEvent)
    → (record_all a events).latencies ≡ a.latencies ++ map (λ e. e.latency_us) events
unfolding record_event
record_all-latencies a [] = sym (append-nil a.latencies)
record_all-latencies a (e ∷ events) =
    record_all-latencies (record_event a e) events
    ∙ append_assoc a.latencies (e.latency_us ∷ []) (map (λ e'. e'.latency_us) events)

Reordered-length : {l r : List MetricEvent} → Reordered l r → length l ≡ length r
Reordered-length as_is = refl
Reordered-length (keep_first p) = ap suc (Reordered-length p)
Reordered-length (exchange p) = ap (λ n. suc (suc n)) (Reordered-length p)
Reordered-length (and_again p q) = Reordered-length p ∙ Reordered-length q

Reordered-map :
    {l r : List MetricEvent}
    → Reordered l r
    → Reordered (map (λ e. e.latency_us) l) (map (λ e. e.latency_us) r)
Reordered-map as_is = as_is
Reordered-map (keep_first p) = keep_first (Reordered-map p)
Reordered-map (exchange p) = exchange (Reordered-map p)
Reordered-map (and_again p q) = and_again (Reordered-map p) (Reordered-map q)

Reordered-append : (k : List ℕ) {l r : List ℕ} → Reordered l r → Reordered (k ++ l) (k ++ r)
Reordered-append [] p = p
Reordered-append (x ∷ k) p = keep_first (Reordered-append k p)

Reordered-count_events :
    (op : Bytes) {l r : List MetricEvent} → Reordered l r → count_events op l ≡ count_events op r
Reordered-count_events op as_is = refl
Reordered-count_events op (keep_first p) = ground (arith, Reordered-count_events op p)
Reordered-count_events op (exchange p) = ground (arith, Reordered-count_events op p)
Reordered-count_events op (and_again p q) =
    Reordered-count_events op p ∙ Reordered-count_events op q

record_all-count_of :
    (q : Bytes) (a : Aggregator) (events : List MetricEvent)
    → total a.breakdown + length events < u64_mod
    → count_of q (record_all a events).breakdown ≡ count_of q a.breakdown + count_events q events
unfolding record_event
record_all-count_of q a [] h = omega arith
record_all-count_of q a (e ∷ events) h =
    let bumped = total-bump e.op a.breakdown (omega arith) in
    let rest = record_all-count_of q (record_event a e) events (omega arith) in
    let counted = count_of-bump e.op q a.breakdown (omega arith) in
    elim (Bool-cases (bytes_eq e.op q)) [ inl f ↦ ground arith | inr f ↦ ground arith ]

-- Two snapshots that say the same, the order of the commands in the breakdown aside.
pub record SaysSame {fl : Floats} (s r : MetricsSnapshot fl) : Type 0 where
  pub ops : s.ops_per_sec ≡ r.ops_per_sec
  pub p50 : s.p50_us ≡ r.p50_us
  pub p99 : s.p99_us ≡ r.p99_us
  pub p999 : s.p999_us ≡ r.p999_us
  pub slots :
      (s.used_slots ≡ r.used_slots) × (s.total_slots ≡ r.total_slots) × (s.fill_pct ≡ r.fill_pct)
  pub counts : (op : Bytes) → count_of op s.breakdown ≡ count_of op r.breakdown

-- The snapshot of a window does not depend on the order in which its events arrived, with fewer than
-- 2^64 events counted.
pub drain-SaysSame :
    (fl : Floats) (now used_slots total_slots : ℕ) (a : Aggregator) (l r : List MetricEvent)
    → total a.breakdown + length l < u64_mod
    → Reordered l r
    → SaysSame
        (drain fl now (record_all a l) used_slots total_slots).0
        (drain fl now (record_all a r) used_slots total_slots).0
unfolding drain
drain-SaysSame fl now used_slots total_slots a l r h p =
    let moved : Reordered (a.latencies ++ map (λ e. e.latency_us) l)
        (a.latencies ++ map (λ e. e.latency_us) r) =
      Reordered-append a.latencies (Reordered-map p) in
    let of_l = record_all-latencies a l in
    let of_r = record_all-latencies a r in
    let same_sorted : sort_unstable (record_all a l).latencies
        ≡ sort_unstable (record_all a r).latencies =
      ap sort_unstable of_l ∙ sort_unstable-Reordered moved ∙ ap sort_unstable (sym of_r) in
    record {
      ops =
          sym (length-sort_unstable (record_all a l).latencies)
          ∙ ap length same_sorted
          ∙ length-sort_unstable (record_all a r).latencies;
      p50 = ap (λ s. percentile fl s 50) same_sorted;
      p99 = ap (λ s. percentile fl s 99) same_sorted;
      p999 = ap (λ s. percentile fl s 999) same_sorted;
      slots = (refl, refl, refl);
      counts = λ op.
          record_all-count_of op a l h
          ∙ ap (λ n. count_of op a.breakdown + n) (Reordered-count_events op p)
          ∙ sym (
              record_all-count_of op a r
                (subst (λ n. total a.breakdown + n < u64_mod) (Reordered-length p) h));
    }
