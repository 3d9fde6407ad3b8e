-- ===== src/TaskLoop.antt =====
-- tr069_control_picktask_proc (tr069_sample/libtr069/tr069/tr069_control.c), the timer's call that
-- works on the task queue: one task a call, and the end of the loop. What a task orders from the
-- device, which is shell commands and calls of the vendor's library, the cookies and the file of the
-- dictionary are left out. No handle is NULL; an outcome of `none` is one of the parts used.
pub mod Quit
pub mod Calls
use tr.Base.{
  ℕ, zero, suc, ◌+◌, ◌-◌, ◌*◌, Option, some, List, [], ◌∷◌, length, ltb, ◌==◌, if◌then◌else◌, ℤ,
  pos, negsuc, minus_one, is_num,
}
use tr.Platform.{Platform}
use tr.Ini.{Ini, Key}
use tr.Control.{Control, Task}
use tr.Control
use tr.Rpc.{Run, Soap, Method}
use tr.Session.{Device, Outcome, session_main, session_clear}
use tr.Service.{Mgr, World}
use tr.Service
use tr.Env.{dump_environment}

-- The manager's world, and the session with its connection. The session works on the control manager
-- of the world: the one in `run` is what the last session left.
pub record Loop (I : Ini) : Type 0 where
  pub world : World I
  pub run : Run

abbrev pub with_control : Mgr → Control → Mgr
with_control m c = record m { control = c }

-- Enough rounds for the answers to come (Session/Termination).
abbrev pub fuel_for : Run → ℕ
fuel_for r = 64 * length r.replies + 1

module _ (P : Platform) (I : Ini) (L : Soap) (serve : Method → L.Doc → Run → Option (ℤ × Run))
    (D : Device) where
  abbrev pub put_mgr : Loop I → Mgr → Loop I
  put_mgr l m = let w = l.world in record l { world = record w { g_tr069 = some m } }

  -- The session itself, for a manager whose event is taken and cleared.
  run_session : Loop I → Mgr → Control → Option (ℤ × Loop I)
  run_session l m c =
      let event = Control.get_event m.control in
      let rows = Control.get_inform_parameters c in
      let c1 = (Control.clear_inform_parameters c).1 in
      let r1 = (session_clear l.run).1 in
      let c2 = record c1 { status = Control.Status.task } in
      let r2 = record r1 { control = c2 } in
      elim (session_main P L serve D (fuel_for r2) r2 event rows) [
        | Option.none ↦ Option.none
        | some (Outcome.faulted r3) ↦ Option.none
        | some (Outcome.stopped r3) ↦
            let c3 = r3.control in
            let l1 = put_mgr l (with_control m (record c3 { status = Control.Status.idle })) in
            some (pos 0, record l1 { run = r3 })
      ]

  -- case TR069_TASK_SESSION
  session_task : Loop I → Mgr → Option (ℤ × Loop I)
  unfolding run_session
  session_task l m =
      if m.call_flag == 0
      then some (pos 0, put_mgr l m)
      else (let calls = m.call_flag - 1 in
          let m1 = record m { call_flag = calls } in
          let l1 = put_mgr l m1 in
          let w1 = l1.world in
          let l2 = record l1 { world = record w1 { dump_call_flag = calls } } in
          if ltb 0 calls
          then some (pos 0, l2)
          else (let c = (Control.clear_event P m1.control).1 in
              if is_num (Control.is_event_empty P (Control.get_event m1.control)) 0
              then run_session l2 m1 c
              else some (pos 0, put_mgr l2 (with_control m1 c))))

  abbrev idle : Loop I → Mgr → Control → Option (ℤ × Loop I)
  idle l m c = some (pos 0, put_mgr l (with_control m (record c { status = Control.Status.idle })))

  -- What follows tr069_service_set_event; the manager is read again from the world.
  diagnosed_in : Loop I → Option Mgr → Option (ℤ × Loop I)
  diagnosed_in l Option.none = Option.none
  diagnosed_in l (some m) = idle l m (Control.put_task m.control Task.session).1

  diagnosed : Loop I → Option (ℤ × World I) → Option (ℤ × Loop I)
  unfolding diagnosed_in
  diagnosed l Option.none = Option.none
  diagnosed l (some (r, w)) = diagnosed_in (record l { world = w }) w.g_tr069

  -- "should trigger diagnostics complete event"
  diagnosis : Loop I → Mgr → ℤ → Option (ℤ × Loop I)
  unfolding diagnosed
  diagnosis l m ret =
      let c = m.control in
      let l1 = put_mgr l (with_control m (record c { status = Control.Status.task })) in
      if is_num ret 0
      then diagnosed l1
          (Service.set_event P I l1.world (pos P.event_diagnostics_complete) (pos 1) (some []))
      else idle l1 m m.control

  -- FINISH_EXIT
  finish_exit : Loop I → Mgr → Option (ℤ × Loop I)
  finish_exit l m =
      let c = m.control in
      let c1 = record c { status = Control.Status.dump; current_task = Task.none } in
      let w = l.world in
      elim (dump_environment P I c1 w.ini) [
        | Option.none ↦ Option.none
        | some (c2, d) ↦
            let m1 = with_control m (record c2 { status = Control.Status.quit }) in
            some (minus_one, record l { world = record w { g_tr069 = some m1; ini = d } })
      ]

  -- The switch on the task that was picked. A factory reset stores the first boot in the dictionary.
  perform : Task → Loop I → Mgr → Option (ℤ × Loop I)
  unfolding session_task diagnosis finish_exit
  perform Task.session l m = session_task l m
  perform Task.reboot l m =
      idle l m (Control.set_event P m.control (pos P.event_m_reboot) (pos 1) Option.none).1
  perform Task.factory_reset l m =
      let w = l.world in
      let d = (I.set w.ini Key.first_boot (b'1' ∷ [])).1 in
      idle (record l { world = record w { ini = d } }) m m.control
  perform Task.download l m = idle l m m.control
  perform Task.upload l m = idle l m m.control
  perform Task.ping l m = diagnosis l m (D.ping l.run)
  perform Task.tracert l m = diagnosis l m (D.tracert l.run)
  perform Task.speed_test l m = idle l m m.control
  perform _ l m =
      let c = m.control in if c.finish_flag == 1 then finish_exit l m else some (pos 0, put_mgr l m)

  -- `control_handle->current_task = tr069_control_pick_task(control_handle);` and the switch
  picked : Loop I → Mgr → Task × Control → Option (ℤ × Loop I)
  picked l m (t, c) = perform t l (with_control m (record c { current_task = t }))

  pub picktask_proc : Loop I → Option (ℤ × Loop I)
  unfolding picked
  picktask_proc l =
      let w = l.world in
      elim w.g_tr069 [
        | Option.none ↦ Option.none
        | some m ↦ picked l m (Control.pick_task m.control)
      ]
