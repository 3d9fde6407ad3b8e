-- ===== src/Tests/TaskLoop.antt =====
-- The properties of the task loop, applied.
use tr.Base.{◌≡◌, refl, arith, Option, some, [], ℤ, pos, minus_one}
use tr.Control.{Control, Task}
use tr.Control
use tr.Control.Init.{init}
use tr.Ring.Fifo.{IsValid}
use tr.Platform.{Bytes}
use tr.Rpc.{Run, Soap, Method, Message, SessionStatus}
use tr.Rpc.Names.{RpcType}
use tr.Session.{Device}
use tr.Service.{Mgr, MgrStatus}
use tr.Env.{load_environment}
use tr.Env.Dump.{CanDump}
use tr.Env.Restore.{SameState}
use tr.TaskLoop.{Loop, picktask_proc}
use tr.TaskLoop.Quit.{picktask_proc-quit}
use tr.TaskLoop.Calls.{picktask_proc-run}
use tr.Tests.Stb.{stb, stb-IsSane, dict, dict-Remembers, no_entry}
use tr.Tests.Busy.{busy, busy-CanDump, no_entry-IsCleared}

abbrev soap : Soap
soap = record {
  Doc = Bytes;
  Node = Bytes;
  buffer_new = λ text. some text;
  get_method = λ doc. some doc;
  get_child = λ node. Option.none;
  get_next = λ node. Option.none;
  get_content = λ node. Option.none;
  name = λ node. node;
}

abbrev serve : Method → Bytes → Run → Option (ℤ × Run)
serve m doc r = some (pos 0, r)

abbrev device : Device
device = record { ping = λ r. pos 0; tracert = λ r. pos 0 }

-- Asked to stop, with no task left.
abbrev stopping : Control
stopping = record busy {
  task_queue = record { queue = λ i. Task.ping; head = 3; tail = 3 };
  finish_flag = 1;
}

stopping-IsValid : IsValid stopping.task_queue
stopping-IsValid = record { head_in = omega arith; tail_in = omega arith }

stopping-CanDump : CanDump stb dict stopping
stopping-CanDump = record {
  event_ok = busy-CanDump.event_ok;
  requests_ok = busy-CanDump.requests_ok;
  few_requests = busy-CanDump.few_requests;
  transfers = busy-CanDump.transfers;
  rows = busy-CanDump.rows;
  few_rows = busy-CanDump.few_rows;
  key_fits = busy-CanDump.key_fits;
  stime_fits = busy-CanDump.stime_fits;
  ctime_fits = busy-CanDump.ctime_fits;
  result_fits = busy-CanDump.result_fits;
}

abbrev mgr : Mgr
mgr = record { control = stopping; status = MgrStatus.working; call_flag = 0 }

abbrev loop : Loop dict
loop = record {
  world = record {
    g_tr069 = some mgr;
    ini = no_entry;
    dump_call_flag = 0;
    dump_tr069_status = MgrStatus.working;
  };
  run = record {
    status = SessionStatus.stop;
    hold_request = 0;
    set_param_flag = 0;
    control = busy;
    req_to_acs = RpcType.number;
    xml_buffer = Message.blank;
    recv_data = [];
    replies = [];
    sent = [];
    executed = [];
    saves = 0;
  };
}

picktask_proc-quit_example :
    (l' : Loop dict) × (m' : Mgr) × (picktask_proc stb dict soap serve device loop
      ≡ some (minus_one, l'))
    × (l'.world.g_tr069 ≡ some m')
    × (m'.control.status ≡ Control.Status.quit)
    × SameState stopping (load_environment stb dict (init stb) l'.world.ini).0
picktask_proc-quit_example =
    picktask_proc-quit stb stb-IsSane dict dict-Remembers soap serve device loop mgr refl
      stopping-IsValid refl refl stopping-CanDump no_entry-IsCleared

picktask_proc-run_example : (l' : Loop dict) × (l'.run ≡ loop.run)
picktask_proc-run_example =
    let (l', m', e, _, _, _) =
      picktask_proc-quit stb stb-IsSane dict dict-Remembers soap serve device loop mgr refl
        stopping-IsValid refl refl stopping-CanDump no_entry-IsCleared in
    (
      l',
      picktask_proc-run stb dict soap serve device loop l' mgr minus_one refl
          (λ h. ground (arith, h)) e,
    )
