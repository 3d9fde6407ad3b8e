-- ===== src/Session/Termination.antt =====
-- tr069_session_main ends (tr069_session.c): a round uses up an answer of the server or, in the
-- execute status, works on the task queue, and an answer brings at most fifteen tasks.
use tr.Base.{
  ℕ, zero, suc, ◌+◌, ◌*◌, ◌<◌, ◌≤◌, ◌≡◌, ◌⊎◌, inl, inr, refl, sym, ap, ◌∙◌, arith, Option, some,
  List, [], ◌∷◌, length, ltb, ◌++◌, ℤ, pos, is_num, Bool-cases, List-cases,
}
use mathlib.Core.Path.{subst}
use tr.Platform.{Platform, Bytes}
use tr.Ring.Fifo.{IsValid, to_list}
use tr.Control.{
  Control, Event, InformParameter, Task, is_valid_task, put_task, pick_task, set_event,
}
use tr.Control.Queues.{tasks, put_task_lem, pick_task_lem, pick_result}
use tr.Rpc.{clear, Run, Soap, SessionStatus, Method}
use tr.Rpc.Kept.{Keeps, ReadsNull}
use tr.Rpc.Null.{BadAnswer, deal_recv-null}
use tr.Session.{
  Round, Outcome, Device, inform_round, request_round, response_round, execute_round, execute_task,
  execute_picked, round_in, diagnosed, round, rounds,
}
use tr.Session.Progress.{
  extra, extra-bound, IsLive, weight, load, measure, Progress, inform_round-Progress,
  request_round-Progress, response_round-Progress,
}
use tr.Session.{finish_exit, session_main}

load-append : (ts us : List Task) → load (ts ++ us) ≡ load ts + load us
load-append [] us = omega arith
load-append (t ∷ ts) us = omega (arith, load-append ts us)

put_session-load :
    (c : Control)
    → IsValid c.task_queue
    → load (tasks (put_task c Task.session).1) ≤ load (tasks c) + 1
unfolding is_valid_task
put_session-load c v =
    let e = ap (λ p. load p.1) (put_task_lem c Task.session v).0 in
    elim (Bool-cases (ltb (length (tasks c)) 15)) [
      | inl room ↦ omega (arith, rw room at e, load-append (tasks c) (Task.session ∷ []))
      | inr full ↦ omega (arith, rw full at e)
    ]

module _ (P : Platform) (L : Soap) (serve : Method → L.Doc → Run → Option (ℤ × Run))
    (keeps : Keeps L serve) (D : Device) where
  set_event-tasks :
      (c : Control) (i v : ℤ) (key : Option Bytes)
      → (set_event P c i v key).1.task_queue ≡ c.task_queue
  unfolding set_event
  set_event-tasks c i v key = ground arith

  -- What executing a task leaves, with room for one task more after a diagnosis.
  record Executed (r r' : Run) (n : ℕ) : Type 0 where
    same_status : r'.status ≡ r.status
    same_replies : r'.replies ≡ r.replies
    ring : IsValid r'.control.task_queue
    lighter : load (tasks r'.control) + 1 ≤ load (tasks r.control) + n

  diagnosed-Executed :
      (ret : ℤ) (r : Run)
      → IsValid r.control.task_queue
      → Executed r (diagnosed P L serve D ret r) 2
  unfolding diagnosed
  diagnosed-Executed ret r v = elim (Bool-cases (is_num ret 0)) [
    | inr failed ↦
        rw failed
          (record { same_status = refl; same_replies = refl; ring = v; lighter = omega arith })
    | inl ok ↦
        let c = (set_event P r.control (pos P.event_diagnostics_complete) (pos 1) Option.none).1 in
        let same =
          set_event-tasks r.control (pos P.event_diagnostics_complete) (pos 1) Option.none in
        let v' = subst IsValid (sym same) v in
        rw ok (record {
          same_status = refl;
          same_replies = refl;
          ring = (put_task_lem c Task.session v').2;
          lighter = omega (arith, put_session-load c v', ap (λ q. load (to_list q)) same);
        })
  ]

  execute_task-Executed :
      (t : Task) (r : Run)
      → IsValid r.control.task_queue
      → Executed r (execute_task P L serve D t r) (weight t)
  unfolding execute_task
  execute_task-Executed Task.ping r v =
      let d =
        diagnosed-Executed (D.ping r) (record r { executed = r.executed ++ (Task.ping ∷ []) }) v in
      record {
        same_status = d.same_status;
        same_replies = d.same_replies;
        ring = d.ring;
        lighter = d.lighter;
      }
  execute_task-Executed Task.tracert r v =
      let d =
        diagnosed-Executed (D.tracert r) (record r { executed = r.executed ++ (Task.tracert ∷ []) })
          v in
      record {
        same_status = d.same_status;
        same_replies = d.same_replies;
        ring = d.ring;
        lighter = d.lighter;
      }
  execute_task-Executed _ r v = record {
    same_status = refl;
    same_replies = refl;
    ring = v;
    lighter = omega arith;
  }

  pick_load :
      (c : Control)
      → IsValid c.task_queue
      → let (t, c') = pick_task c in
        IsValid c'.task_queue × ((t ≡ Task.none) ⊎ (load (tasks c') + weight t ≡ load (tasks c)))
  pick_load c v =
      let (e, _, v') = pick_task_lem c v in
      (
        v',
        elim (List-cases (tasks c)) [
          | inl none_left ↦ inl (ap (λ p. p.0) (e ∙ ap (pick_result Task.none) none_left))
          | inr (x, xs, some_left) ↦
              let e' = e ∙ ap (pick_result Task.none) some_left in
              inr (omega (arith, ap (λ p. load p.1) e', ap (λ p. weight p.0) e', ap load some_left))
        ],
      )

  -- What follows the pick, with the measure before it.
  picked-Progress :
      (m : ℕ) (t : Task) (r : Run)
      → IsValid r.control.task_queue
      → r.status ≡ SessionStatus.execute
      → ((t ≡ Task.none) × (64 * length r.replies < m))
        ⊎ (64 * length r.replies + (load (tasks r.control) + weight t + 1) ≤ m)
      → Progress (ReadsNull P L serve) m (execute_picked P L serve D t r)
  unfolding execute_picked
  picked-Progress m Task.none r v e h = (
    record { alive = λ a. ground arith; ring = v },
    elim h [ inl (_, l) ↦ omega arith | inr l ↦ omega arith ],
  )
  picked-Progress m t r v e (inl (empty, _)) = absurd (ground arith)
  picked-Progress m t r v e (inr l) =
      let d = execute_task-Executed t r v in
      (
        record { alive = λ a. ground (arith, d.same_status, e); ring = d.ring },
        omega (
          arith,
          d.lighter,
          ap length d.same_replies,
          extra-bound (execute_task P L serve D t r).status
              (load (tasks (execute_task P L serve D t r).control)),
        ),
      )

  execute_round-Progress :
      (r : Run)
      → IsLive r
      → r.status ≡ SessionStatus.execute
      → Progress (ReadsNull P L serve) (measure r) (execute_round P L serve D r)
  unfolding execute_round
  execute_round-Progress r w e =
      let (v, waiting) = pick_load r.control w.ring in
      picked-Progress (measure r) (pick_task r.control).0
        (record r { control = (pick_task r.control).1 }) v e
        (elim waiting [
          | inl none_left ↦
              inl (none_left, omega (arith, ap (λ s. extra s (load (tasks r.control))) e))
          | inr lighter ↦ inr (omega (arith, lighter, ap (λ s. extra s (load (tasks r.control))) e))
        ])

  round-Progress :
      (r : Run) (event : Event) (rows : List InformParameter)
      → IsLive r
      → Progress (ReadsNull P L serve) (measure r) (round P L serve D r event rows)
  unfolding round round_in
  round-Progress r event rows w = go r.status refl
    where
      talks :
          (x : Round)
          → Progress (ReadsNull P L serve) (64 * length r.replies) x
          → Progress (ReadsNull P L serve) (measure r) x
      talks (Round.finish r1) p = tt
      talks (Round.fault r1) p = p
      talks (Round.next r1) p = (p.0, omega (arith, p.1))

      go :
          (s : SessionStatus)
          → r.status ≡ s
          → Progress (ReadsNull P L serve) (measure r) (round P L serve D r event rows)
      go SessionStatus.stop e = absurd (w.alive e)
      go SessionStatus.inform e =
          let q : round P L serve D r event rows ≡ inform_round P L serve D r event rows =
            ap (λ s. round_in P L serve D s r event rows) e in
          subst (Progress (ReadsNull P L serve) (measure r)) (sym q)
            (talks _ (inform_round-Progress P L serve keeps D r event rows w))
      go SessionStatus.request e =
          let q : round P L serve D r event rows ≡ request_round P L serve D r =
            ap (λ s. round_in P L serve D s r event rows) e in
          subst (Progress (ReadsNull P L serve) (measure r)) (sym q)
            (talks _ (request_round-Progress P L serve keeps D r w))
      go SessionStatus.response e =
          let q : round P L serve D r event rows ≡ response_round P L serve D r =
            ap (λ s. round_in P L serve D s r event rows) e in
          subst (Progress (ReadsNull P L serve) (measure r)) (sym q)
            (talks _ (response_round-Progress P L serve keeps D r w))
      go SessionStatus.execute e =
          let q : round P L serve D r event rows ≡ execute_round P L serve D r =
            ap (λ s. round_in P L serve D s r event rows) e in
          subst (Progress (ReadsNull P L serve) (measure r)) (sym q) (execute_round-Progress r w e)

  -- The end of a session: in the stop status, or at an answer on which the code reads through NULL.
  abbrev pub HasEnded : Outcome → Type 0
  HasEnded (Outcome.stopped r) = r.status ≡ SessionStatus.stop
  HasEnded (Outcome.faulted r) = BadAnswer P L serve r

  finish_exit-stop : (r : Run) → (finish_exit r).status ≡ SessionStatus.stop
  unfolding finish_exit
  finish_exit-stop r = ground arith

  -- With more rounds than the measure the loop ends.
  rounds_lem :
      (fuel : ℕ) (r : Run) (event : Event) (rows : List InformParameter)
      → IsLive r
      → measure r < fuel
      → (o : Outcome) × (rounds P L serve D fuel r event rows ≡ some o) × HasEnded o
  unfolding rounds
  rounds_lem zero r event rows w h = absurd (omega arith)
  rounds_lem (suc fuel) r event rows w h =
      go (round P L serve D r event rows) refl (round-Progress r event rows w)
        (λ r1 w1 h1. rounds_lem fuel r1 event rows w1 h1)
    where
      go :
          (x : Round)
          → round P L serve D r event rows ≡ x
          → Progress (ReadsNull P L serve) (measure r) x
          → ((r1 : Run)
              → IsLive r1
              → measure r1 < fuel
              → (o : Outcome) × (rounds P L serve D fuel r1 event rows ≡ some o) × HasEnded o)
          → (o : Outcome) × (rounds P L serve D (suc fuel) r event rows ≡ some o) × HasEnded o
      go (Round.finish r1) e p ih =
          (Outcome.stopped (finish_exit r1), rw (e, rounds) refl, finish_exit-stop r1)
      go (Round.fault r1) e p ih =
          (Outcome.faulted r1, rw (e, rounds) refl, deal_recv-null P L serve r1 p)
      go (Round.next r1) e p ih =
          let (o, q, end) = ih r1 p.0 (omega (arith, p.1)) in (o, rw (e, rounds) q, end)

  pub session_main_lem :
      (r : Run) (event : Event) (rows : List InformParameter) (fuel : ℕ)
      → IsValid r.control.task_queue
      → 64 * length r.replies < fuel
      → (o : Outcome) × (session_main P L serve D fuel r event rows ≡ some o) × HasEnded o
  unfolding session_main clear
  session_main_lem r event rows fuel v h =
      rounds_lem fuel (record (clear r) { status = SessionStatus.inform; set_param_flag = 0 }) event
        rows (record { alive = λ a. ground arith; ring = v }) (omega arith)
