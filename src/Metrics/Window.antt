-- ===== src/Metrics/Window.antt =====
-- The windows of src/server/ws_bridge.rs: what the aggregator counts.
use memlane.Metrics.{
  Floats, MetricEvent, Aggregator, MetricsSnapshot, Input, event, closed, tick, bump, record_event,
  drain, aggregate,
}
use memlane.Prelude.{
  ℕ, suc, ◌+◌, ◌≤◌, ◌<◌, ◌≡◌, refl, sym, ◌∙◌, inl, inr, true, false, Bool-cases, List, [], ◌∷◌,
  if◌then◌else◌, bytes_eq, bytes_eq→eq, eq→bytes_eq, bytes_eq_refl, Bytes, length, length-append,
  arith,
}
use memlane.Word.{u64_mod, wrapping_add}

abbrev pub total : List (Bytes × ℕ) → ℕ
total [] = 0
total ((name, n) ∷ entries) = n + total entries

-- The count of a command.
abbrev pub count_of : Bytes → List (Bytes × ℕ) → ℕ
count_of op [] = 0
count_of op ((name, n) ∷ entries) = if bytes_eq name op then n else count_of op entries

count_of-le : (op : Bytes) (entries : List (Bytes × ℕ)) → count_of op entries ≤ total entries
count_of-le op [] = omega arith
count_of-le op ((name, n) ∷ entries) = ground (arith, count_of-le op entries)

pub total-bump :
    (op : Bytes) (entries : List (Bytes × ℕ))
    → suc (total entries) < u64_mod
    → total (bump op entries) ≡ suc (total entries)
unfolding bump wrapping_add
total-bump op [] h = omega arith
total-bump op ((name, n) ∷ entries) h = elim (Bool-cases (bytes_eq name op)) [
  | inl e ↦ rw e (omega arith)
  | inr e ↦ rw e (omega (arith, total-bump op entries (omega arith)))
]

apart :
    (name op q : Bytes) → bytes_eq name op ≡ false → bytes_eq name q ≡ true → bytes_eq op q ≡ false
apart name op q e f = elim (Bool-cases (bytes_eq op q)) [
  | inl g ↦
      absurd
        (let same = eq→bytes_eq name op (bytes_eq→eq name q f ∙ sym (bytes_eq→eq op q g)) in cc)
  | inr g ↦ g
]

pub count_of-bump :
    (op q : Bytes) (entries : List (Bytes × ℕ))
    → suc (total entries) < u64_mod
    → count_of q (bump op entries)
      ≡ (if bytes_eq op q then suc (count_of q entries) else count_of q entries)
unfolding bump wrapping_add
count_of-bump op q [] h = ground arith
count_of-bump op q ((name, n) ∷ entries) h = elim (Bool-cases (bytes_eq name op)) [
  | inl e ↦ rw (bytes_eq→eq name op e, bytes_eq_refl op) (ground arith)
  | inr e ↦ elim (Bool-cases (bytes_eq name q)) [
    | inl f ↦ rw (e, f, apart name op q e f) refl
    | inr f ↦ rw (e, f) (count_of-bump op q entries (omega arith))
  ]
]

-- The events that the task takes before the channel is closed.
abbrev pub taken : {fl : Floats} → List (Input fl) → List MetricEvent
taken [] = []
taken (event e ∷ inputs) = e ∷ taken inputs
taken (closed ∷ inputs) = []
taken (tick now used_slots total_slots ∷ inputs) = taken inputs

-- How many of the events are of a command.
abbrev pub count_events : Bytes → List MetricEvent → ℕ
count_events op [] = 0
count_events op (e ∷ events) =
    if bytes_eq e.op op then suc (count_events op events) else count_events op events

module _ (fl : Floats) where
  abbrev pub sum_ops : List (MetricsSnapshot fl) → ℕ
  sum_ops [] = 0
  sum_ops (s ∷ snapshots) = s.ops_per_sec + sum_ops snapshots

  abbrev pub sum_counts : Bytes → List (MetricsSnapshot fl) → ℕ
  sum_counts op [] = 0
  sum_counts op (s ∷ snapshots) = count_of op s.breakdown + sum_counts op snapshots

  -- The counts of every snapshot add up to its number of operations.
  abbrev pub AddUp : List (MetricsSnapshot fl) → Type 0
  AddUp [] = Unit {0}
  AddUp (s ∷ snapshots) = (total s.breakdown ≡ s.ops_per_sec) × AddUp snapshots

  -- Every event from a state of the aggregator to the end is in one of the windows, under its command.
  pub record Accounts (a : Aggregator) (events : List MetricEvent)
      (r : List (MetricsSnapshot fl) × Aggregator) : Type 0 where
    pub add_up : AddUp r.0
    pub left_add_up : total r.1.breakdown ≡ length r.1.latencies
    pub ops : sum_ops r.0 + length r.1.latencies ≡ length a.latencies + length events
    pub counts :
        (op : Bytes)
        → sum_counts op r.0 + count_of op r.1.breakdown
          ≡ count_of op a.breakdown + count_events op events

  recorded :
      (a : Aggregator) (e : MetricEvent) (events : List MetricEvent)
      (r : List (MetricsSnapshot fl) × Aggregator)
      → total a.breakdown ≡ length a.latencies
      → suc (length a.latencies) < u64_mod
      → Accounts (record_event a e) events r
      → Accounts a (e ∷ events) r
  unfolding record_event
  recorded a e events r t h acc =
      let longer = length-append a.latencies (e.latency_us ∷ []) in
      record {
        add_up = acc.add_up;
        left_add_up = acc.left_add_up;
        ops = omega (arith, acc.ops, longer);
        counts = λ op. counted op (count_of-bump e.op op a.breakdown (omega arith)) (acc.counts op);
      }
    where
      counted :
          (op : Bytes)
          → count_of op (bump e.op a.breakdown)
            ≡ (if bytes_eq e.op op then suc (count_of op a.breakdown) else count_of op a.breakdown)
          → sum_counts op r.0 + count_of op r.1.breakdown
            ≡ count_of op (record_event a e).breakdown + count_events op events
          → sum_counts op r.0 + count_of op r.1.breakdown
            ≡ count_of op a.breakdown + count_events op (e ∷ events)
      counted op bumped acc = elim (Bool-cases (bytes_eq e.op op)) [
        | inl f ↦ ground arith
        | inr f ↦ ground arith
      ]

  -- The task of the aggregator loses no event and counts none twice. From an aggregator whose counts add up,
  -- with fewer than 2^64 samples and inputs in all: in each snapshot the counts of the commands add up to
  -- its number of operations; those numbers, with the window that is still open, make the number of the
  -- events before the end of the channel; and the same holds for the counts of every single command.
  pub aggregate-Accounts :
      (a : Aggregator) (inputs : List (Input fl))
      → total a.breakdown ≡ length a.latencies
      → length a.latencies + length inputs < u64_mod
      → Accounts a (taken inputs) (aggregate fl a inputs)
  unfolding aggregate drain record_event
  aggregate-Accounts a [] t h = record {
    add_up = tt;
    left_add_up = t;
    ops = omega arith;
    counts = λ op. omega arith;
  }
  aggregate-Accounts a (event e ∷ inputs) t h =
      let longer = length-append a.latencies (e.latency_us ∷ []) in
      let added = total-bump e.op a.breakdown (omega arith) in
      recorded a e (taken inputs) (aggregate fl (record_event a e) inputs) t (omega arith)
        (aggregate-Accounts (record_event a e) inputs (omega arith) (omega arith))
  aggregate-Accounts a (closed ∷ inputs) t h = record {
    add_up = tt;
    left_add_up = t;
    ops = omega arith;
    counts = λ op. omega arith;
  }
  aggregate-Accounts a (tick now used_slots total_slots ∷ inputs) t h =
      let next : Aggregator = record { latencies = []; breakdown = []; window_start = now } in
      let rest = aggregate-Accounts next inputs refl (omega arith) in
      record {
        add_up = (t, rest.add_up);
        left_add_up = rest.left_add_up;
        ops = omega (arith, rest.ops);
        counts = λ op. omega (arith, rest.counts op);
      }
