-- ===== src/Server/Telemetry.antt =====
-- src/server/mod.rs and src/server/ws_bridge.rs: the metric events on their way from the connections, through the
-- channel of `metrics_channel`, to the aggregator. The channel is Tokio's: an interface with what is documented of it.
use memlane.Metrics.Window.{total, count_of, count_events, taken, sum_counts, aggregate-Accounts}
use memlane.Metrics.{Floats, MetricEvent, Aggregator, Input, event, tick, aggregate}
use memlane.Prelude.{
  ℕ, zero, suc, ◌+◌, ◌≤◌, ◌<◌, ◌≡◌, refl, ap, ◌∙◌, Bool, Option, none, some, Option-cases, ◌⊎◌, inl,
  inr, List, [], ◌∷◌, ◌++◌, Bytes, length, length-append, length-drop, drop, arith,
}
use memlane.Resp.Command.{TextOps}
use memlane.Resp.Extend.{value-le}
use memlane.Resp.Reads.{Reads, reads_done, reads_next}
use memlane.Resp.{RespValue, value, more, protocol, crash, out_of_fuel, parse}
use memlane.Server.{command_name}
use memlane.Word.{u64_mod}

-- `mpsc::channel(capacity)`: a queue of events. `try_send` fails when it is full, and `recv` takes the oldest.
pub record Channel (capacity : ℕ) : Type 1 where
  pub C : Type 0
  pub contents : C → List MetricEvent
  pub try_send : C → MetricEvent → Option C
  pub recv : C → Option (MetricEvent × C)
  pub sent : (c d : C) (e : MetricEvent) → try_send c e ≡ some d → contents d ≡ contents c ++ e ∷ []
  pub full : (c : C) (e : MetricEvent) → try_send c e ≡ none → capacity ≤ length (contents c)
  pub received : (c d : C) (e : MetricEvent) → recv c ≡ some (e, d) → contents c ≡ e ∷ contents d

-- `metrics_channel`
abbrev pub metrics_capacity : ℕ
metrics_capacity = 1000000

-- The event of a command that took so long.
unfoldable pub event_of : TextOps → RespValue → ℕ → MetricEvent
event_of text v latency_us = record { op = command_name text v; latency_us = latency_us }

module _ (text : TextOps) (can_reserve : ℕ → Bool) where
  -- The events that the inner loop of `handle_client` sends, in the rounds of `serve_loop`. `latency n` is how long
  -- the n-th command takes.
  unfoldable pub loop_events : ℕ → (ℕ → ℕ) → Bytes → List MetricEvent
  loop_events zero latency pending = []
  loop_events (suc f) latency pending = elim (parse can_reserve pending) [
    | value v consumed ↦
        event_of text v (latency 0) ∷ loop_events f (λ n. latency (suc n)) (drop consumed pending)
    | more ↦ []
    | protocol m ↦ []
    | crash ↦ []
    | out_of_fuel ↦ []
  ]

  abbrev pub events_of : (ℕ → ℕ) → List RespValue → List MetricEvent
  events_of latency [] = []
  events_of latency (v ∷ vs) = event_of text v (latency 0) ∷ events_of (λ n. latency (suc n)) vs

  -- One event for each command of a buffer, in their order.
  pub loop_events-Reads :
      {buf rest : Bytes} {vs : List RespValue} (reads : Reads can_reserve buf vs rest) (f : ℕ)
      (latency : ℕ → ℕ)
      → length buf < f
      → loop_events f latency buf ≡ events_of latency vs
  unfolding loop_events
  loop_events-Reads (reads_done p same) zero latency lt = absurd (omega arith)
  loop_events-Reads (reads_done p same) (suc f) latency lt = rw (p, loop_events) refl
  loop_events-Reads (reads_next n p reads) zero latency lt = absurd (omega arith)
  loop_events-Reads {buf} (reads_next {v = v} n p reads) (suc f) latency lt =
      let (lo, hi) = value-le can_reserve buf v n p in
      rw (p, loop_events)
        (ap (λ l. event_of text v (latency 0) ∷ l)
          (loop_events-Reads reads f (λ k. latency (suc k)) (omega (arith, length-drop n buf))))

count_events-append :
    (op : Bytes) (l r : List MetricEvent)
    → count_events op (l ++ r) ≡ count_events op l + count_events op r
count_events-append op [] r = omega arith
count_events-append op (e ∷ l) r = ground (arith, count_events-append op l r)

module _ {capacity : ℕ} (ch : Channel capacity) (fl : Floats) where
  open ch use {C, contents, try_send, recv, sent, full, received}

  -- What happens next: a connection sends the event of a command, the aggregator's `select!` takes the next event of the
  -- channel, or its interval ticks.
  pub data Beat : Type 0 where
    sends : MetricEvent → Beat
    takes : Beat
    ticks : (now used_slots total_slots : ℕ) → Beat

  -- What the aggregator was handed, the channel at the end, and the events that found it full.
  pub record Carried : Type 0 where
    pub inputs : List (Input fl)
    pub channel : C
    pub lost : List MetricEvent

  -- `let _ = metrics_tx.try_send(..)`: an event that finds no room is lost.
  unfoldable pub carry : C → List Beat → Carried
  carry c [] = record { inputs = []; channel = c; lost = [] }
  carry c (sends e ∷ beats) = elim (try_send c e) [
    | some d ↦ carry d beats
    | none ↦ let r = carry c beats in record r { lost = e ∷ r.lost }
  ]
  carry c (takes ∷ beats) = elim (recv c) [
    | some (e, d) ↦ let r = carry d beats in record r { inputs = event e ∷ r.inputs }
    | none ↦ carry c beats
  ]
  carry c (ticks now used_slots total_slots ∷ beats) =
      let r = carry c beats in record r { inputs = tick now used_slots total_slots ∷ r.inputs }

  -- The events that the connections send.
  abbrev pub sends_of : List Beat → List MetricEvent
  sends_of [] = []
  sends_of (sends e ∷ beats) = e ∷ sends_of beats
  sends_of (takes ∷ beats) = sends_of beats
  sends_of (ticks now used_slots total_slots ∷ beats) = sends_of beats

  -- No event is made up, none vanishes but into `lost`, and none is lost where there is room for all.
  record Carries (c : C) (beats : List Beat) (r : Carried) : Type 0 where
    counts :
        (op : Bytes)
        → count_events op (taken r.inputs)
            + count_events op (contents r.channel)
            + count_events op r.lost
          ≡ count_events op (contents c) + count_events op (sends_of beats)
    inputs_fit : length r.inputs ≤ length beats
    whole : (r.lost ≡ []) ⊎ (capacity < length (contents c) + length (sends_of beats))

  Carries-send :
      (c d : C) (e : MetricEvent) (beats : List Beat) (r : Carried)
      → try_send c e ≡ some d
      → Carries d beats r
      → Carries c (sends e ∷ beats) r
  Carries-send c d e beats r h k =
      let behind = sent c d e h in
      record {
        counts = λ op.
            let same = ap (count_events op) behind ∙ count_events-append op (contents c) (e ∷ []) in
            let rest = k.counts op in ground arith;
        inputs_fit = omega (arith, k.inputs_fit);
        whole = elim k.whole [
          | inl none_lost ↦ inl none_lost
          | inr more_sent ↦
              inr (omega (arith, ap length behind, length-append (contents c) (e ∷ [])))
        ];
      }

  Carries-lose :
      (c : C) (e : MetricEvent) (beats : List Beat) (r : Carried)
      → try_send c e ≡ none
      → Carries c beats r
      → Carries c (sends e ∷ beats) (record r { lost = e ∷ r.lost })
  Carries-lose c e beats r h k = record {
    counts = λ op. let rest = k.counts op in ground arith;
    inputs_fit = omega (arith, k.inputs_fit);
    whole = inr (omega (arith, full c e h));
  }

  Carries-take :
      (c d : C) (e : MetricEvent) (beats : List Beat) (r : Carried)
      → recv c ≡ some (e, d)
      → Carries d beats r
      → Carries c (takes ∷ beats) (record r { inputs = event e ∷ r.inputs })
  Carries-take c d e beats r h k =
      let first = received c d e h in
      record {
        counts =
            λ op. let same = ap (count_events op) first in let rest = k.counts op in ground arith;
        inputs_fit = omega (arith, k.inputs_fit);
        whole = elim k.whole [
          | inl none_lost ↦ inl none_lost
          | inr more_sent ↦ inr (omega (arith, ap length first))
        ];
      }

  carry-Carries : (c : C) (beats : List Beat) → Carries c beats (carry c beats)
  unfolding carry
  carry-Carries c [] = record {
    counts = λ op. omega arith;
    inputs_fit = omega arith;
    whole = inl refl;
  }
  carry-Carries c (sends e ∷ beats) = elim (Option-cases (try_send c e)) [
    | inl h ↦ rw (h, carry) (Carries-lose c e beats (carry c beats) h (carry-Carries c beats))
    | inr (d, h) ↦
        rw (h, carry) (Carries-send c d e beats (carry d beats) h (carry-Carries d beats))
  ]
  carry-Carries c (takes ∷ beats) = elim (Option-cases (recv c)) [
    | inl h ↦ rw (h, carry) (idle (carry-Carries c beats))
    | inr ((e, d), h) ↦
        rw (h, carry) (Carries-take c d e beats (carry d beats) h (carry-Carries d beats))
  ]
    where
      idle : {r : Carried} → Carries c beats r → Carries c (takes ∷ beats) r
      idle k = record {
        counts = k.counts;
        inputs_fit = omega (arith, k.inputs_fit);
        whole = k.whole;
      }
  carry-Carries c (ticks now used_slots total_slots ∷ beats) =
      let k = carry-Carries c beats in
      record { counts = k.counts; inputs_fit = omega (arith, k.inputs_fit); whole = k.whole }

  -- From the connections to the dashboard, whatever order sends, takes and ticks come in, from an aggregator
  -- whose counts add up and with fewer than 2^64 samples and beats: of every command the counts in the
  -- snapshots, with those of the window that is open, of the events still in the channel and of those that found
  -- it full, make just the events that were counted and queued before and those that were sent; and none
  -- found it full unless more were queued and sent than it has room for.
  pub aggregate-carry :
      (op : Bytes) (a : Aggregator) (c : C) (beats : List Beat)
      → total a.breakdown ≡ length a.latencies
      → length a.latencies + length beats < u64_mod
      → (let r = carry c beats in
          let (snapshots, b) = aggregate fl a r.inputs in
          (sum_counts fl op snapshots
              + count_of op b.breakdown
              + count_events op (contents r.channel)
              + count_events op r.lost
            ≡ count_of op a.breakdown
              + count_events op (contents c)
              + count_events op (sends_of beats))
          × ((r.lost ≡ []) ⊎ (capacity < length (contents c) + length (sends_of beats))))
  aggregate-carry op a c beats t fits =
      let k = carry-Carries c beats in
      let r = carry c beats in
      let h = aggregate-Accounts fl a r.inputs t (omega (arith, k.inputs_fit)) in
      (omega (arith, k.counts op, h.counts op), k.whole)
