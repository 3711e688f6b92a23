-- ===== src/Server/Sessions/Fairness.antt =====
-- src/server/mod.rs: no connection is left with a command that could be served, when the runtime is fair.
use memlane.Prelude.{
  ℕ, zero, suc, ◌+◌, ◌-◌, ◌<◌, ◌≤◌, ◌≡◌, ◌≢◌, refl, sym, ap, ◌∙◌, subst, ◌⊎◌, inl, inr, Bool, true,
  false, Bool-cases, none, some, Option-cases, [], ◌++◌, Bytes, length, length-drop, drop, arith,
  update, update_self, update-ne,
}
use memlane.Resp.Command.{err_reply}
use memlane.Server.Connection.{protocol_text}
use memlane.Resp.Fuel.{Takes, took, parse-Takes}
use memlane.Resp.{RespValue, Parsed, value, more, protocol, crash, out_of_fuel, parse, encode}
use memlane.Server.Loop.{parse_nil}
use memlane.Server.Sessions.{
  Task, Sessions, SessionStep, set_task, accept, receive, command, refuse, abort, leave,
}

same? : (p t : ℕ) → (p ≡ t) ⊎ (p ≢ t)
same? p t = ground arith

module _ (can_reserve : ℕ → Bool) where
  -- The connection whose task a step is of.
  abbrev pub actor : {s t : Sessions} → SessionStep can_reserve s t → ℕ
  actor (accept i on e) = i
  actor (receive i t chunk on e p some_read fits) = i
  actor (command i t v r n on e p) = i
  actor (refuse i t m on e p) = i
  actor (abort i t on e p) = i
  actor (leave i on) = i

  -- What happens between two moments: nothing, or a step.
  pub data Move (s : Sessions) (t : Sessions) : Type 0 where
    stay : t ≡ s → Move s t
    act : SessionStep can_reserve s t → Move s t

  abbrev pub IsMoveOf : ℕ → {s t : Sessions} → Move s t → Type 0
  IsMoveOf i (stay e) = ⊥
  IsMoveOf i (act st) = actor st ≡ i

  -- The states of the server, from moment to moment.
  pub record Schedule : Type 0 where
    pub states : ℕ → Sessions
    pub moves : (n : ℕ) → Move (states n) (states (suc n))

  module _ (i : ℕ) where
    -- The task of the connection is open, on a running server, and not waiting for bytes.
    pub record IsReady (s : Sessions) : Type 0 where
      pub task : Task
      pub running : s.running ≡ true
      pub open_task : s.tasks i ≡ some task
      pub has_work : parse can_reserve task.pending ≢ more

    -- The task waits for bytes, or is gone, or the server is.
    pub data IsServed (s : Sessions) : Type 0 where
      waiting : (t : Task) → s.tasks i ≡ some t → parse can_reserve t.pending ≡ more → IsServed s
      gone : s.tasks i ≡ none → IsServed s
      ended : s.running ≡ false → IsServed s

    -- The runtime does not pass over a task that is ready for ever, unless the server ends.
    abbrev pub IsFair : Schedule → Type 0
    IsFair sch =
        (n : ℕ)
        → IsReady (sch.states n)
        → (m : ℕ) × (n ≤ m) × (IsMoveOf i (sch.moves m) ⊎ ((sch.states m).running ≡ false))

    -- Either the task is served, or some of its bytes are gone.
    abbrev Progress : Task → Sessions → Type 0
    Progress t u =
        IsServed u ⊎ ((t' : Task) × (u.tasks i ≡ some t') × (length t'.pending < length t.pending))

    own_command :
        (s : Sessions) (t : Task) (n : ℕ) (v : RespValue) (w : Bytes)
        → parse can_reserve t.pending ≡ value v n
        → Progress t (set_task s i (some (record { pending = drop n t.pending; written = w })))
    own_command s t n v w p = inr (
      record { pending = drop n t.pending; written = w },
      update_self s.tasks i _,
      shorter (parse can_reserve t.pending) p (parse-Takes can_reserve t.pending),
    )
      where
        shorter :
            (r : Parsed RespValue)
            → r ≡ value v n
            → Takes 3 (length t.pending) r
            → length (drop n t.pending) < length t.pending
        shorter (value v' n') e (took lo hi) =
            let same : n' ≡ n = cc in omega (arith, length-drop n t.pending)
        shorter more e k = absurd cc
        shorter (protocol m) e k = absurd cc
        shorter crash e k = absurd cc
        shorter out_of_fuel e k = absurd cc

    same_task :
        {s : Sessions} (r : IsReady s) (j : ℕ) (t : Task) → j ≡ i → s.tasks j ≡ some t → t ≡ r.task
    same_task {s} r j t mine e =
        let here : s.tasks i ≡ some t = subst (λ l. s.tasks l ≡ some t) mine e in
        let there = r.open_task in cc

    own_step :
        {s u : Sessions} (r : IsReady s) (st : SessionStep can_reserve s u)
        → actor st ≡ i
        → Progress r.task u
    own_step {s} r (accept j on e) mine =
        let none_here : s.tasks i ≡ none = subst (λ l. s.tasks l ≡ none) mine e in
        let here = r.open_task in absurd cc
    own_step {s} r (receive j t chunk on e p some_read fits) mine =
        absurd
          (r.has_work (subst (λ x. parse can_reserve x.pending ≡ more) (same_task r j t mine e) p))
    own_step {s} r (command j t v reply n on e p) mine =
        let u = λ (l : ℕ).
          set_task s l
            (some (record { pending = drop n t.pending; written = t.written ++ encode reply })) in
        subst (λ l. Progress r.task (u l)) (sym mine)
          (subst (λ x. Progress x (u i)) (same_task r j t mine e)
            (own_command s t n v (t.written ++ encode reply) p))
    own_step {s} r (refuse j t m on e p) mine =
        let answered : Task = record {
          pending = [];
          written = t.written ++ encode (err_reply (protocol_text m));
        } in
        inl (
          waiting answered
            (ap (λ l. update s.tasks j (some answered) l) (sym mine)
              ∙ update_self s.tasks j (some answered))
            (parse_nil can_reserve))
    own_step r (abort j t on e p) mine = inl (ended refl)
    own_step {s} r (leave j on) mine =
        inl (gone (ap (λ l. update s.tasks j none l) (sym mine) ∙ update_self s.tasks j none))

    other_step :
        {s u : Sessions} (r : IsReady s) (st : SessionStep can_reserve s u)
        → actor st ≢ i
        → IsServed u ⊎ ((u.running ≡ true) × (u.tasks i ≡ some r.task))
    other_step {s} r (accept j on e) n =
        inr (on, update-ne s.tasks j i _ (λ e'. n (sym e')) ∙ r.open_task)
    other_step {s} r (receive j t chunk on e p some_read fits) n =
        inr (on, update-ne s.tasks j i _ (λ e'. n (sym e')) ∙ r.open_task)
    other_step {s} r (command j t v reply k on e p) n =
        inr (on, update-ne s.tasks j i _ (λ e'. n (sym e')) ∙ r.open_task)
    other_step {s} r (refuse j t m on e p) n =
        inr (on, update-ne s.tasks j i _ (λ e'. n (sym e')) ∙ r.open_task)
    other_step r (abort j t on e p) n = inl (ended refl)
    other_step {s} r (leave j on) n =
        inr (on, update-ne s.tasks j i _ (λ e'. n (sym e')) ∙ r.open_task)

    Move-cases :
        {s u : Sessions} (r : IsReady s) (mv : Move s u)
        → Progress r.task u ⊎ ((IsMoveOf i mv → ⊥) × (u.running ≡ true) × (u.tasks i ≡ some r.task))
    Move-cases r (stay e) = inr (λ mine. mine, rw e r.running, rw e r.open_task)
    Move-cases r (act st) = elim (same? (actor st) i) [
      | inl mine ↦ inl (own_step r st mine)
      | inr other ↦ elim (other_step r st other) [
        | inl served ↦ inl (inl served)
        | inr (on, e) ↦ inr (other, on, e)
      ]
    ]

    abbrev Event : Schedule → ℕ → Type 0
    Event sch m = IsMoveOf i (sch.moves m) ⊎ ((sch.states m).running ≡ false)

    -- From a state where the task is ready up to a moment of its own, or to the end of the server.
    waits :
        (sch : Schedule) (k n : ℕ) (r : IsReady (sch.states n))
        → Event sch (n + k)
        → (m : ℕ) × (n ≤ m) × Progress r.task (sch.states m)
    waits sch zero n r event = elim (Move-cases r (sch.moves n)) [
      | inl done ↦ (suc n, omega arith, done)
      | inr (passed, on, e) ↦
          let now : n + 0 ≡ n = omega arith in
          elim (subst (Event sch) now event) [
            | inl mine ↦ absurd (passed mine)
            | inr off ↦ absurd (let up = r.running in cc)
          ]
    ]
    waits sch (suc k) n r event = elim (Move-cases r (sch.moves n)) [
      | inl done ↦ (suc n, omega arith, done)
      | inr (passed, on, e) ↦
          let one_on : n + suc k ≡ suc n + k = omega arith in
          let (m, le, later) =
            waits sch k (suc n)
              (record { task = r.task; running = on; open_task = e; has_work = r.has_work })
              (subst (Event sch) one_on event) in
          (m, omega arith, later)
    ]

    more_or_not : (r : Parsed RespValue) → (r ≡ more) ⊎ (r ≢ more)
    more_or_not more = inl refl
    more_or_not (value v n) = inr (λ e. absurd cc)
    more_or_not (protocol m) = inr (λ e. absurd cc)
    more_or_not crash = inr (λ e. absurd cc)
    more_or_not out_of_fuel = inr (λ e. absurd cc)

    IsReady-or_IsServed : (s : Sessions) → IsReady s ⊎ IsServed s
    IsReady-or_IsServed s = elim (Bool-cases s.running) [
      | inr off ↦ inr (ended off)
      | inl on ↦ elim (Option-cases (s.tasks i)) [
        | inl e ↦ inr (gone e)
        | inr (t, e) ↦ elim (more_or_not (parse can_reserve t.pending)) [
          | inl p ↦ inr (waiting t e p)
          | inr p ↦ inl (record { task = t; running = on; open_task = e; has_work = p })
        ]
      ]
    ]

    eventually :
        (sch : Schedule)
        → IsFair sch
        → (fuel n : ℕ) (r : IsReady (sch.states n)) → length r.task.pending < fuel
        → (m : ℕ) × (n ≤ m) × IsServed (sch.states m)
    eventually sch fair zero n r lt = absurd (omega arith)
    eventually sch fair (suc fuel) n r lt =
        let (m₀, le₀, event) = fair n r in
        let from_n : m₀ ≡ n + (m₀ - n) = omega arith in
        let (m, le, done) = waits sch (m₀ - n) n r (subst (Event sch) from_n event) in
        elim done [
          | inl served ↦ (m, le, served)
          | inr (t, e, shorter) ↦ elim (IsReady-or_IsServed (sch.states m)) [
            | inr served ↦ (m, le, served)
            | inl again ↦
                let same : again.task ≡ t = let here = again.open_task in cc in
                let less : length again.task.pending < fuel =
                  let eq = ap (λ (x : Task). length x.pending) same in omega arith in
                let (m', le', served) = eventually sch fair fuel m again less in
                (m', omega arith, served)
          ]
        ]

    -- On every schedule of the server's tasks that does not pass over a ready task for ever, and whatever the replies
    -- of the dispatcher are: at whatever moment,
    -- there is a later one at which connection `i` has no bytes left that the parser could take, neither a
    -- command nor an error, or is closed, or the server has ended.
    pub IsFair-IsServed :
        (sch : Schedule) → IsFair sch → (n : ℕ) → (m : ℕ) × (n ≤ m) × IsServed (sch.states m)
    IsFair-IsServed sch fair n = elim (IsReady-or_IsServed (sch.states n)) [
      | inr served ↦ (n, omega arith, served)
      | inl r ↦ eventually sch fair (suc (length r.task.pending)) n r (omega arith)
    ]
