-- ===== src/Session/Order.antt =====
-- The messages of a session in their order (tr069_session.c).
use mathlib.Core.Path.{subst}
use tr.Base.{
  ℕ, zero, suc, ◌≡◌, inl, inr, refl, sym, ap, ◌∙◌, arith, Option, some, List, [], ◌∷◌, ◌++◌, ℤ,
  is_num, Bool-cases,
}
use tr.Platform.{Platform}
use tr.Control.{Control, Event, InformParameter, Task}
use tr.Control
use tr.Rpc.{
  clear, Run, Soap, SessionStatus, Message, Method, build_inform, build_empty,
  build_transfer_complete, deal_recv,
}
use tr.Rpc.Names.{RpcType}
use tr.Rpc.Kept.{Keeps, KeptIf, deal_recv-Kept}
use tr.Session.{
  Round, Outcome, dealt, answered, Device, inform_round, request_round, response_round,
  execute_round, execute_task, execute_picked, diagnosed, round, round_in, rounds, informed,
  requested, finish_exit, session_main,
}
use tr.Session.Trace.{
  Trace, Begins, Has, sent_by, Opens, OpensRound, Result, or_finish-send-Has, informed-Has,
  requested-Has, answered-Has, Opens-weak, or_finish-send-Opens,
}

module _ (P : Platform) (L : Soap) (serve : Method → L.Doc → Run → Option (ℤ × Run))
    (keeps : Keeps L serve) (D : Device) where
  dealt-Has :
      (old : Trace) (r : Run) (rest : ℤ → Run → Round)
      → Begins old r.sent
      → ((ret : ℤ) (r1 : Run) → Begins old r1.sent → Has old (rest ret r1))
      → Has old (dealt r (deal_recv P L serve r) rest)
  dealt-Has old r rest (more, e) k = go (deal_recv P L serve r) (deal_recv-Kept P L serve keeps r)
    where
      go : (o : Option (ℤ × Run)) → KeptIf r o → Has old (dealt r o rest)
      go Option.none q = (more, e)
      go (some (ret, r1)) q = k ret r1 (more, q.same_sent ∙ e)

  inform_round-Has :
      (old : Trace) (r : Run) (event : Event) (rows : List InformParameter)
      → Begins old r.sent
      → Has old (inform_round P L serve D r event rows)
  unfolding inform_round build_inform
  inform_round-Has old r event rows b =
      elim (Bool-cases (is_num (Control.is_event_empty P event) 0)) [
        | inr none ↦ rw none b
        | inl some_event ↦ rw some_event (
            or_finish-send-Has old _
              (λ r2. dealt r2 (deal_recv P L serve r2) λ ret r3. informed P (ret, r3)) b
              (λ r2 b2. dealt-Has old r2 (λ ret r3. informed P (ret, r3)) b2 (informed-Has P old)))
      ]

  request_round-Has :
      (old : Trace) (r : Run) → Begins old r.sent → Has old (request_round P L serve D r)
  unfolding request_round build_empty build_transfer_complete
  request_round-Has old r b =
      let request = (Control.pick_request r.control).0 in
      elim (Bool-cases (is_num request P.rpc_acs_transfer_complete)) [
        | inl complete ↦
            rw complete (or_finish-send-Has old _ (requested request) b (requested-Has old request))
        | inr other ↦
            rw other (or_finish-send-Has old _ (requested request) b (requested-Has old request))
      ]

  executed-sent : (t : Task) (r : Run) → (execute_task P L serve D t r).sent ≡ r.sent
  unfolding execute_task diagnosed
  executed-sent t r = ground arith

  execute_picked-Has :
      (old : Trace) (t : Task) (r : Run)
      → Begins old r.sent
      → Has old (execute_picked P L serve D t r)
  unfolding execute_picked
  execute_picked-Has old Task.none r b = b
  execute_picked-Has old t r (more, e) = (more, executed-sent t r ∙ e)

  round_in-Has :
      (old : Trace) (s : SessionStatus) (r : Run) (event : Event) (rows : List InformParameter)
      → Begins old r.sent
      → Has old (round_in P L serve D s r event rows)
  unfolding round_in response_round execute_round
  round_in-Has old SessionStatus.inform r event rows b = inform_round-Has old r event rows b
  round_in-Has old SessionStatus.request r event rows b = request_round-Has old r b
  round_in-Has old SessionStatus.response r event rows b =
      dealt-Has old r answered b (answered-Has old)
  round_in-Has old SessionStatus.execute r event rows b =
      execute_picked-Has old (Control.pick_task r.control).0 _ b
  round_in-Has old SessionStatus.stop r event rows b = b

  round-Has :
      (old : Trace) (r : Run) (event : Event) (rows : List InformParameter)
      → Begins old r.sent
      → Has old (round P L serve D r event rows)
  unfolding round
  round-Has old r event rows b = round_in-Has old r.status r event rows b

  round_first :
      (r : Run) (event : Event) (rows : List InformParameter)
      → r.status ≡ SessionStatus.inform
      → round P L serve D r event rows ≡ inform_round P L serve D r event rows
  unfolding round round_in
  round_first r event rows e = ap (λ s. round_in P L serve D s r event rows) e

  finish_exit-sent : (r : Run) → (finish_exit r).sent ≡ r.sent
  unfolding finish_exit
  finish_exit-sent r = ground arith

  rounds-Result :
      (old : Trace) (fuel : ℕ) (r : Run) (event : Event) (rows : List InformParameter)
      → Begins old r.sent
      → Result (Begins old) (rounds P L serve D fuel r event rows)
  unfolding rounds
  rounds-Result old zero r event rows b = tt
  rounds-Result old (suc fuel) r event rows b =
      go (round P L serve D r event rows) refl (round-Has old r event rows b)
        (λ r1 b1. rounds-Result old fuel r1 event rows b1)
    where
      go :
          (x : Round)
          → round P L serve D r event rows ≡ x
          → Has old x
          → ((r1 : Run)
              → Begins old r1.sent
              → Result (Begins old) (rounds P L serve D fuel r1 event rows))
          → Result (Begins old) (rounds P L serve D (suc fuel) r event rows)
      go (Round.finish r1) e (more, b1) ih = rw (e, rounds) (more, finish_exit-sent r1 ∙ b1)
      go (Round.fault r1) e b1 ih = rw (e, rounds) b1
      go (Round.next r1) e b1 ih = rw (e, rounds) (ih r1 b1)

  -- The first round of a session.
  first-Opens :
      (r : Run) (event : Event) (rows : List InformParameter)
      → OpensRound r.sent event rows (inform_round P L serve D r event rows)
  unfolding inform_round build_inform
  first-Opens r event rows = elim (Bool-cases (is_num (Control.is_event_empty P event) 0)) [
    | inr none ↦ rw none (inl refl)
    | inl some_event ↦ rw some_event (
        or_finish-send-Opens r.sent
          (record r { req_to_acs = RpcType.acs_inform; xml_buffer = Message.inform_of event rows })
          event rows (λ r2. dealt r2 (deal_recv P L serve r2) λ ret r3. informed P (ret, r3)) refl
          refl refl
          (λ new r2 b. dealt-Has new r2 (λ ret r3. informed P (ret, r3)) b (informed-Has P new)))
  ]

  main-Result :
      (fuel : ℕ) (r : Run) (event : Event) (rows : List InformParameter)
      → r.status ≡ SessionStatus.inform
      → Result (Opens event rows r.sent) (rounds P L serve D fuel r event rows)
  unfolding rounds
  main-Result zero r event rows s = tt
  main-Result (suc fuel) r event rows s = go (round P L serve D r event rows) refl (
      subst (OpensRound r.sent event rows) (sym (round_first r event rows s))
        (first-Opens r event rows))
    where
      weaken :
          (o : Option Outcome)
          → Result (Begins (r.sent ++ ((RpcType.acs_inform, Message.inform_of event rows) ∷ []))) o
          → Result (Opens event rows r.sent) o
      weaken Option.none b = tt
      weaken (some o) b = Opens-weak event rows r.sent (sent_by o) b

      go :
          (x : Round)
          → round P L serve D r event rows ≡ x
          → OpensRound r.sent event rows x
          → Result (Opens event rows r.sent) (rounds P L serve D (suc fuel) r event rows)
      go (Round.finish r1) e o =
          rw (e, rounds) (subst (Opens event rows r.sent) (sym (finish_exit-sent r1)) o)
      go (Round.fault r1) e o = rw (e, rounds) o
      go (Round.next r1) e b =
          rw (e, rounds)
            (weaken (rounds P L serve D fuel r1 event rows) (
              rounds-Result (r.sent ++ ((RpcType.acs_inform, Message.inform_of event rows) ∷ []))
                fuel r1 event rows b))

  -- A session, however it ends, sends nothing, or first the inform of its event and its parameters,
  -- if the methods of the server send nothing themselves.
  pub session_main-Opens :
      (r : Run) (o : Outcome) (event : Event) (rows : List InformParameter) (fuel : ℕ)
      → session_main P L serve D fuel r event rows ≡ some o
      → Opens event rows r.sent (sent_by o)
  unfolding session_main clear
  session_main-Opens r o event rows fuel e = subst (Result (Opens event rows r.sent)) e (
      main-Result fuel (record (clear r) { status = SessionStatus.inform; set_param_flag = 0 })
        event rows refl)
