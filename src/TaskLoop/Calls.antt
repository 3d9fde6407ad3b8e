-- ===== src/TaskLoop/Calls.antt =====
-- A session runs for the last of the calls that wait (tr069_control.c).
use tr.Base.{
  ◌≡◌, ◌≢◌, refl, sym, inl, inr, true, arith, Option, some, ltb, ◌-◌, ◌==◌, ℤ, is_num, Bool-cases,
  Option-cases,
}
use mathlib.Core.Path.{subst}
use tr.Platform.{Platform}
use tr.Ini.{Ini}
use tr.Control.{Control, Task, pick_task}
use tr.Control
use tr.Rpc.{Run, Soap, Method}
use tr.Session.{Device}
use tr.Service.{Mgr, World}
use tr.Env.{dump_environment}
use tr.TaskLoop.{
  Loop, with_control, perform, picked, session_task, diagnosed_in, diagnosed, diagnosis,
  picktask_proc, finish_exit, put_mgr,
}

module _ (P : Platform) (I : Ini) (L : Soap) (serve : Method → L.Doc → Run → Option (ℤ × Run))
    (D : Device) where
  abbrev SameRun : Run → Option (ℤ × Loop I) → Type 0
  SameRun r Option.none = Unit {0}
  SameRun r (some (ret, l)) = l.run ≡ r

  finish_exit-SameRun : (l : Loop I) (m : Mgr) → SameRun l.run (finish_exit P I L serve D l m)
  unfolding finish_exit
  finish_exit-SameRun l m =
      elim (Option-cases (
        dump_environment P I
          (let c = m.control in record c { status = Control.Status.dump; current_task = Task.none })
          l.world.ini)) [ inl e ↦ rw (e, finish_exit) tt | inr (x, e) ↦ rw (e, finish_exit) refl ]

  session_task-SameRun :
      (l : Loop I) (m : Mgr) → m.call_flag ≢ 1 → SameRun l.run (session_task P I L serve D l m)
  unfolding session_task
  session_task-SameRun l m h = elim (Bool-cases (m.call_flag == 0)) [
    | inl idle ↦ rw idle refl
    | inr busy ↦ let more : ltb 0 (m.call_flag - 1) ≡ true = ground arith in rw (busy, more) refl
  ]

  diagnosed_in-SameRun :
      (l : Loop I) (o : Option Mgr) → SameRun l.run (diagnosed_in P I L serve D l o)
  unfolding diagnosed_in
  diagnosed_in-SameRun l Option.none = tt
  diagnosed_in-SameRun l (some m) = refl

  diagnosed-SameRun :
      (l : Loop I) (o : Option (ℤ × World I)) → SameRun l.run (diagnosed P I L serve D l o)
  unfolding diagnosed
  diagnosed-SameRun l Option.none = tt
  diagnosed-SameRun l (some (r, w)) = diagnosed_in-SameRun (record l { world = w }) w.g_tr069

  diagnosis-SameRun :
      (l : Loop I) (m : Mgr) (ret : ℤ) → SameRun l.run (diagnosis P I L serve D l m ret)
  unfolding diagnosis
  diagnosis-SameRun l m ret = elim (Bool-cases (is_num ret 0)) [
    | inl done ↦
        let c = m.control in
        rw done (
          diagnosed-SameRun
            (put_mgr P I L serve D l (with_control m (record c { status = Control.Status.task })))
            _)
    | inr failed ↦ rw failed refl
  ]

  perform-SameRun :
      (t : Task) (l : Loop I) (m : Mgr)
      → m.call_flag ≢ 1
      → SameRun l.run (perform P I L serve D t l m)
  unfolding perform
  perform-SameRun Task.session l m h = session_task-SameRun l m h
  perform-SameRun Task.reboot l m h = refl
  perform-SameRun Task.factory_reset l m h = refl
  perform-SameRun Task.download l m h = refl
  perform-SameRun Task.upload l m h = refl
  perform-SameRun Task.ping l m h = diagnosis-SameRun l m (D.ping l.run)
  perform-SameRun Task.tracert l m h = diagnosis-SameRun l m (D.tracert l.run)
  perform-SameRun Task.speed_test l m h = refl
  perform-SameRun _ l m h = elim (Bool-cases (m.control.finish_flag == 1)) [
    | inl stop ↦ rw stop (finish_exit-SameRun l m)
    | inr go ↦ rw go refl
  ]

  picktask_proc-SameRun :
      (l : Loop I) (m : Mgr)
      → l.world.g_tr069 ≡ some m
      → m.call_flag ≢ 1
      → SameRun l.run (picktask_proc P I L serve D l)
  unfolding picktask_proc picked
  picktask_proc-SameRun l m g h =
      let q : picktask_proc P I L serve D l ≡ picked P I L serve D l m (pick_task m.control) =
        simp (picktask_proc, g) refl in
      subst (SameRun l.run) (sym q) (
        perform-SameRun (pick_task m.control).0 l
          (with_control m (
            let c = (pick_task m.control).1 in record c { current_task = (pick_task m.control).0 }))
          h)

  -- Unless exactly one call waits, a call of the task loop leaves the session and its connection
  -- alone, whatever task it picks: nothing is sent.
  pub picktask_proc-run :
      (l l' : Loop I) (m : Mgr) (r : ℤ)
      → l.world.g_tr069 ≡ some m
      → m.call_flag ≢ 1
      → picktask_proc P I L serve D l ≡ some (r, l')
      → l'.run ≡ l.run
  picktask_proc-run l l' m r g h e = subst (SameRun l.run) e (picktask_proc-SameRun l m g h)
