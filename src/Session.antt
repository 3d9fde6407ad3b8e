-- ===== src/Session.antt =====
-- tr069_sample/libtr069/tr069/tr069_session.c: one session with the server, a loop over the status.
-- No handle is NULL, and cookies are left out. Rebooting and the other orders to the device, which
-- are shell commands and calls of the vendor's library, are entries of `executed`; so are the URL of
-- a transfer and the first-boot entry that a factory reset writes to the status dictionary.
pub mod Order
pub mod Progress
pub mod Termination
pub mod Trace
use tr.Base.{
  ℕ, zero, suc, ◌+◌, Option, some, List, [], ◌∷◌, ◌++◌, ◌==◌, if◌then◌else◌, ℤ, pos, negsuc,
  minus_one, is_num,
}
use tr.Platform.{Platform}
use tr.Control.{Control, Event, InformParameter, Task}
use tr.Control
use tr.Rpc.{
  Run, Soap, SessionStatus, Method, build_inform, build_empty, build_transfer_complete, send,
  deal_recv,
}
use tr.Rpc

-- A round of the loop ends in the next round or at FINISH_EXIT, or where the code reads through NULL
-- while it deals with the answer of this run.
pub data Round : Type 0 where
  next finish fault : Run → Round

-- How a session ends: as its code does, or at such an answer.
pub data Outcome : Type 0 where
  stopped faulted : Run → Outcome

unfoldable pub session_clear : Run → ℤ × Run
session_clear r = (pos 0, record r { status = SessionStatus.stop; hold_request = 0 })

-- `if (ret != 0) goto FINISH_EXIT;`
abbrev pub or_finish : ℤ × Run → (Run → Round) → Round
or_finish (ret, r) rest = if is_num ret 0 then rest r else Round.finish r

-- What follows a call of tr069_rpc_deal_recv for the run `r`, if it returns.
abbrev pub dealt : Run → Option (ℤ × Run) → (ℤ → Run → Round) → Round
dealt r Option.none rest = Round.fault r
dealt r (some (ret, r1)) rest = rest ret r1

abbrev pub with_status : SessionStatus → Run → Run
with_status s r = record r { status = s }

-- The tests on what tr069_rpc_deal_recv returned in the inform status
pub informed : Platform → ℤ × Run → Round
informed P (ret, r) =
    if is_num ret 0
    then Round.next (with_status SessionStatus.request r)
    else if is_num ret P.fault_acs_retry_request
    then Round.next r
    else Round.finish r

-- `if (-1 == request)` after the send in the request status
pub requested : ℤ → Run → Round
requested (pos n) r = Round.next r
requested (negsuc zero) r = Round.next (with_status SessionStatus.response r)
requested (negsuc (suc n)) r = Round.next r

-- The tests on what tr069_rpc_deal_recv returned in the response status
pub answered : ℤ → Run → Round
answered (pos zero) r = or_finish (send r) λ r2. Round.next (with_status SessionStatus.execute r2)
answered (negsuc zero) r = Round.finish r
answered (pos (suc n)) r = or_finish (send r) Round.next
answered (negsuc (suc n)) r = or_finish (send r) Round.next

-- FINISH_EXIT
unfoldable pub finish_exit : Run → Run
finish_exit r =
    let r1 = with_status SessionStatus.stop r in
    if r.set_param_flag == 1 then record r1 { saves = r.saves + 1 } else r1

-- What tr069_control_ping and tr069_control_tracert return.
pub record Device : Type 0 where
  pub ping : Run → ℤ
  pub tracert : Run → ℤ

module _ (P : Platform) (L : Soap) (serve : Method → L.Doc → Run → Option (ℤ × Run))
    (D : Device) where
  unfoldable pub inform_round : Run → Event → List InformParameter → Round
  unfolding informed
  inform_round r event inform_parameters =
      or_finish (build_inform P r event inform_parameters) λ r1.
        or_finish (send r1) λ r2. dealt r2 (deal_recv P L serve r2) λ ret r3. informed P (ret, r3)

  -- The empty message goes out for any request but a transfer complete; it ends the requests only
  -- where none was waiting.
  unfoldable pub request_round : Run → Round
  unfolding requested
  request_round r =
      let (request, c) = Control.pick_request r.control in
      let r1 = record r { control = c } in
      or_finish
        (if is_num request P.rpc_acs_transfer_complete
          then build_transfer_complete r1
          else build_empty r1)
        λ r2. or_finish (send r2) (requested request)

  unfoldable pub response_round : Run → Round
  unfolding answered
  response_round r = dealt r (deal_recv P L serve r) answered

  -- "should trigger diagnostics complete event"
  diagnosed : ℤ → Run → Run
  diagnosed ret r =
      if is_num ret 0
      then (let c =
            (Control.set_event P r.control (pos P.event_diagnostics_complete) (pos 1)
              Option.none).1 in
          record r { control = (Control.put_task c Task.session).1 })
      else r

  execute_task : Task → Run → Run
  unfolding diagnosed
  execute_task Task.reboot r = record r { executed = r.executed ++ (Task.reboot ∷ []) }
  execute_task Task.factory_reset r = record r {
    executed = r.executed ++ (Task.factory_reset ∷ []);
  }
  execute_task Task.download r = record r { executed = r.executed ++ (Task.download ∷ []) }
  execute_task Task.upload r = record r { executed = r.executed ++ (Task.upload ∷ []) }
  execute_task Task.ping r =
      let r1 = record r { executed = r.executed ++ (Task.ping ∷ []) } in diagnosed (D.ping r) r1
  execute_task Task.tracert r =
      let r1 = record r { executed = r.executed ++ (Task.tracert ∷ []) } in
      diagnosed (D.tracert r) r1
  execute_task Task.speed_test r = record r { executed = r.executed ++ (Task.speed_test ∷ []) }
  execute_task _ r = r

  -- Back to the requests where no task waits.
  execute_picked : Task → Run → Round
  unfolding execute_task
  execute_picked Task.none r =
      Round.next (record r { hold_request = 0; status = SessionStatus.request })
  execute_picked t r = Round.next (execute_task t r)

  unfoldable pub execute_round : Run → Round
  unfolding execute_picked
  execute_round r =
      let (current_task, c) = Control.pick_task r.control in
      let r1 = record r { control = c } in execute_picked current_task r1

  -- The switch of the loop
  round_in : SessionStatus → Run → Event → List InformParameter → Round
  round_in SessionStatus.inform r event inform_parameters = inform_round r event inform_parameters
  round_in SessionStatus.request r event inform_parameters = request_round r
  round_in SessionStatus.response r event inform_parameters = response_round r
  round_in SessionStatus.execute r event inform_parameters = execute_round r
  round_in SessionStatus.stop r event inform_parameters = Round.next r

  unfoldable pub round : Run → Event → List InformParameter → Round
  unfolding round_in
  round r event inform_parameters = round_in r.status r event inform_parameters

  -- At most `fuel` rounds; `none` if they are not enough.
  unfoldable pub rounds : ℕ → Run → Event → List InformParameter → Option Outcome
  rounds zero r event inform_parameters = Option.none
  rounds (suc fuel) r event inform_parameters = elim (round r event inform_parameters) [
    | Round.finish r1 ↦ some (Outcome.stopped (finish_exit r1))
    | Round.fault r1 ↦ some (Outcome.faulted r1)
    | Round.next r1 ↦ rounds fuel r1 event inform_parameters
  ]

  unfoldable pub session_main : ℕ → Run → Event → List InformParameter → Option Outcome
  session_main fuel r event inform_parameters =
      let r1 = Rpc.clear r in
      rounds fuel (record r1 { status = SessionStatus.inform; set_param_flag = 0 }) event
        inform_parameters
