-- ===== src/TaskLoop/Quit.antt =====
-- The end of the task loop (tr069_control.c): what waits then is there again after the next start.
use tr.Base.{◌≡◌, refl, ap, ◌∙◌, Option, some, [], ℤ, pos, minus_one, ◌==◌, if◌then◌else◌}
use tr.Platform.{Platform, IsSane}
use tr.Ini.{Ini, Remembers}
use tr.Ring.Fifo.{IsValid, pick-empty}
use tr.Control.{Control, Task, pick_task}
use tr.Control
use tr.Control.Init.{init}
use tr.Control.Queues.{tasks}
use tr.Rpc.{Run, Soap, Method}
use tr.Session.{Device}
use tr.Service.{Mgr}
use tr.Env.{load_environment}
use tr.Env.Dump.{CanDump, IsCleared}
use tr.Env.Restore.{SameState, load-dump_environment}
use tr.TaskLoop.{Loop, with_control, perform, picked, put_mgr, picktask_proc, finish_exit}

pick_task-empty : (c : Control) → IsValid c.task_queue → tasks c ≡ [] → pick_task c ≡ (Task.none, c)
unfolding pick_task
pick_task-empty c v e = rw (pick-empty c.task_queue v e, pick_task)

module _ (P : Platform) (s : IsSane P) (I : Ini) (mem : Remembers I) (L : Soap)
    (serve : Method → L.Doc → Run → Option (ℤ × Run)) (D : Device) where
  finish_exit_lem :
      (l : Loop I) (m : Mgr)
      → CanDump P I m.control
      → IsCleared P I l.world.ini
      → (l' : Loop I) × (m' : Mgr) × (finish_exit P I L serve D l m ≡ some (minus_one, l'))
        × (l'.world.g_tr069 ≡ some m')
        × (m'.control.status ≡ Control.Status.quit)
        × SameState m.control (load_environment P I (init P) l'.world.ini).0
  unfolding finish_exit
  finish_exit_lem l m w z =
      let c = m.control in
      let (c', d', e, same) =
        load-dump_environment P s I mem
          (record c { status = Control.Status.dump; current_task = Task.none }) l.world.ini
          (record {
            event_ok = w.event_ok;
            requests_ok = w.requests_ok;
            few_requests = w.few_requests;
            transfers = w.transfers;
            rows = w.rows;
            few_rows = w.few_rows;
            key_fits = w.key_fits;
            stime_fits = w.stime_fits;
            ctime_fits = w.ctime_fits;
            result_fits = w.result_fits;
          })
          z in
      let world = l.world in
      let m1 = with_control m (record c' { status = Control.Status.quit }) in
      (
        record l { world = record world { g_tr069 = some m1; ini = d' } },
        m1,
        rw (e, finish_exit) refl,
        refl,
        refl,
        record {
          same_flags = same.same_flags;
          same_number = same.same_number;
          same_key = same.same_key;
          same_requests = same.same_requests;
          same_rows = same.same_rows;
          same_stime = same.same_stime;
          same_ctime = same.same_ctime;
          same_result = same.same_result;
        },
      )

  at_work :
      (l : Loop I) (m : Mgr)
      → l.world.g_tr069 ≡ some m
      → picktask_proc P I L serve D l ≡ picked P I L serve D l m (pick_task m.control)
  unfolding picktask_proc
  at_work l m g = simp (picktask_proc, g) refl

  stopping :
      (l : Loop I) (m : Mgr)
      → m.control.finish_flag ≡ 1
      → perform P I L serve D Task.none l m ≡ finish_exit P I L serve D l m
  unfolding perform
  stopping l m f =
      ap
        (λ x.
          if x == 1 then finish_exit P I L serve D l m else some (pos 0, put_mgr P I L serve D l m))
        f

  -- On a sane platform, with a dictionary that keeps what it is given and an orderly task queue:
  -- With no task left and the stop asked for, the loop ends with -1 in the quit status, and a load of
  -- the dictionary it leaves makes its events, requests, inform parameters and transfer data again
  -- in a fresh manager. The manager is one that can be dumped, and the dictionary held no event,
  -- request or inform parameter.
  pub picktask_proc-quit :
      (l : Loop I) (m : Mgr)
      → l.world.g_tr069 ≡ some m
      → IsValid m.control.task_queue
      → tasks m.control ≡ []
      → m.control.finish_flag ≡ 1
      → CanDump P I m.control
      → IsCleared P I l.world.ini
      → (l' : Loop I) × (m' : Mgr) × (picktask_proc P I L serve D l ≡ some (minus_one, l'))
        × (l'.world.g_tr069 ≡ some m')
        × (m'.control.status ≡ Control.Status.quit)
        × SameState m.control (load_environment P I (init P) l'.world.ini).0
  unfolding picked
  picktask_proc-quit l m g v e f w z =
      let m2 = with_control m (let c = m.control in record c { current_task = Task.none }) in
      let (l', m', q, g', st, same) =
        finish_exit_lem l m2
          (record {
            event_ok = w.event_ok;
            requests_ok = w.requests_ok;
            few_requests = w.few_requests;
            transfers = w.transfers;
            rows = w.rows;
            few_rows = w.few_rows;
            key_fits = w.key_fits;
            stime_fits = w.stime_fits;
            ctime_fits = w.ctime_fits;
            result_fits = w.result_fits;
          })
          z in
      (
        l',
        m',
        at_work l m g
            ∙ ap (picked P I L serve D l m) (pick_task-empty m.control v e)
            ∙ stopping l m2 f
            ∙ q,
        g',
        st,
        record {
          same_flags = same.same_flags;
          same_number = same.same_number;
          same_key = same.same_key;
          same_requests = same.same_requests;
          same_rows = same.same_rows;
          same_stime = same.same_stime;
          same_ctime = same.same_ctime;
          same_result = same.same_result;
        },
      )
