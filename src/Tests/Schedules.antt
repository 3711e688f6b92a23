-- ===== src/Tests/Schedules.antt =====
-- Tests of the server over time: a fair schedule, and metric events on their way.
use memlane.Metrics.Window.{count_of, count_events, sum_counts}
use memlane.Metrics.{MetricEvent, aggregate}
use memlane.Prelude.{
  pos, ℕ, zero, suc, ◌<◌, ◌≤◌, ◌≡◌, ◌+◌, refl, sym, ap, ◌∙◌, ◌⊎◌, inl, Option, none, some, List, [],
  ◌∷◌, ◌++◌, length, ltb, if◌then◌else◌, codes, drop, update, true, arith,
}
use memlane.Resp.{integer, RespValue, parse, encode}
use memlane.Server.Connection.{serve_chunk}
use memlane.Server.Pipeline.{dispatch_all}
use memlane.Server.Reading.{Ending, Reading, ended_with, serve_chunk-Reading}
use memlane.Server.Sessions.Fairness.{Move, stay, act, Schedule, IsServed, IsFair, IsFair-IsServed}
use memlane.Server.Sessions.{Task, Sessions, command}
use memlane.Server.Telemetry.{Channel, Beat, sends, takes, ticks, carry, sends_of, aggregate-carry}
use memlane.Tests.Methods.{ascii, each_noon, ask, cut}
use memlane.Tests.Samples.{mq}
use memlane.Tests.Streams.{ask_mq, ask_mq-value, asked_once, nothing-more}
use memlane.Tests.Windows.{thousandths, noted, stored, busy}
use memlane.Tests.Wire.{small}

-- The reply to the command.
abbrev answered : Task
answered = record { pending = drop 22 ask_mq; written = [] ++ encode (integer (pos 8)) }

abbrev after : Sessions
after = record { tasks = update asked_once.tasks 0 (some answered); running = true }

abbrev at_moment : ℕ → Sessions
at_moment zero = asked_once
at_moment (suc n) = after

-- The command of the only connection is served at once, and then nothing happens.
abbrev served_once : Schedule small
served_once = record { states = at_moment; moves = moves }
  where
    moves : (n : ℕ) → Move small (at_moment n) (at_moment (suc n))
    moves zero = act (
        command 0 (record { pending = ask_mq; written = [] }) (ask (codes "INCR") mq)
          (integer (pos 8)) 22 refl refl ask_mq-value)
    moves (suc n) = stay refl

served_once-IsFair : IsFair small 0 served_once
served_once-IsFair zero r = (0, omega arith, inl refl)
served_once-IsFair (suc n) r =
    let same : answered ≡ r.task = let here = r.open_task in cc in
    absurd (r.has_work (ap (λ (t : Task). parse small t.pending) (sym same) ∙ nothing-more))

IsFair-IsServed_example : (m : ℕ) × (0 ≤ m) × IsServed small 0 (at_moment m)
IsFair-IsServed_example = IsFair-IsServed small 0 served_once served_once-IsFair 0

-- A channel of two events.
try_push : List MetricEvent → MetricEvent → Option (List MetricEvent)
try_push c e = if ltb (length c) 2 then some (c ++ e ∷ []) else none

pop : List MetricEvent → Option (MetricEvent × List MetricEvent)
pop [] = none
pop (e ∷ c) = some (e, c)

try_push-sent : (c d : List MetricEvent) (e : MetricEvent) → try_push c e ≡ some d → d ≡ c ++ e ∷ []
unfolding try_push
try_push-sent c d e h = ground arith

try_push-full : (c : List MetricEvent) (e : MetricEvent) → try_push c e ≡ none → 2 ≤ length c
unfolding try_push
try_push-full c e h = ground arith

pop-received : (c d : List MetricEvent) (e : MetricEvent) → pop c ≡ some (e, d) → c ≡ e ∷ d
unfolding pop
pop-received [] d e h = absurd cc
pop-received (x ∷ c) d e h = ground arith

abbrev narrow : Channel 2
narrow = record {
  C = List MetricEvent;
  contents = λ c. c;
  try_send = try_push;
  recv = pop;
  sent = try_push-sent;
  full = try_push-full;
  received = pop-received;
}

-- The second `GET` finds the channel full.
abbrev beats : List (Beat narrow thousandths)
beats =
    takes
    ∷ sends (stored 4)
    ∷ sends (noted 3)
    ∷ sends (noted 8)
    ∷ takes
    ∷ ticks 7 10 65536
    ∷ takes
    ∷ []

aggregate-carry_example :
    let r = carry narrow thousandths [] beats in
    let (snapshots, b) = aggregate thousandths busy r.inputs in
    (sum_counts thousandths (codes "GET") snapshots
        + count_of (codes "GET") b.breakdown
        + count_events (codes "GET") r.channel
        + count_events (codes "GET") r.lost
      ≡ count_of (codes "GET") busy.breakdown
        + count_events (codes "GET") []
        + count_events (codes "GET") (sends_of narrow thousandths beats))
    × ((r.lost ≡ []) ⊎ (2 < 0 + length (sends_of narrow thousandths beats)))
aggregate-carry_example =
    aggregate-carry narrow thousandths (codes "GET") busy [] beats refl (omega arith)

-- A read that ends a command, and brings one that is malformed.
serve_chunk-Reading_example :
    (vs : List RespValue) × (e : Ending) × Reading ascii small (cut.pending ++ codes "q\r\n?") vs e
    × (serve_chunk ascii small (λ _. each_noon) cut (codes "q\r\n?")
        ≡ ended_with ascii small
            (dispatch_all ascii (λ _. each_noon) cut.arena vs).0
            (cut.written ++ (dispatch_all ascii (λ _. each_noon) cut.arena vs).1)
            e)
serve_chunk-Reading_example = serve_chunk-Reading ascii small (λ _. each_noon) cut (codes "q\r\n?")
