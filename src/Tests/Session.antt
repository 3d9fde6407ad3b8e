-- ===== src/Tests/Session.antt =====
-- The properties of a session, applied: the server accepts the inform, then orders a reboot.
use tr.Base.{refl, arith, ◌++◌, Option, some, [], ◌∷◌, ℤ, pos}
use tr.Platform.{Bytes}
use tr.Control.{Task, put_task}
use tr.Control.Queues.{put_task_lem}
use tr.Rpc.{Run, Soap, SessionStatus, Message, Method}
use tr.Rpc.Names.{RpcType, response_text, max_envelopes, one}
use tr.Rpc.Kept.{Keeps}
use tr.Session.{Device, Outcome}
use tr.Session.Termination.{session_main_lem}
use tr.Session.Order.{session_main-Opens}
use tr.Session.Trace.{Opens, sent_by}
use tr.Tests.Stb.{stb}
use tr.Tests.Busy.{busy, two_events, two_tasks-IsValid}

-- A document is its method's name, and its first argument is MaxEnvelopes with 1.
abbrev soap : Soap
soap = record {
  Doc = Bytes;
  Node = Bytes;
  buffer_new = λ text. some text;
  get_method = λ doc. some doc;
  get_child = λ node. some max_envelopes;
  get_next = λ node. Option.none;
  get_content = λ node. some one;
  name = λ node. node;
}

-- Every method asks for a reboot.
abbrev serve : Method → Bytes → Run → Option (ℤ × Run)
serve m doc r = some (pos 0, record r { control = (put_task r.control Task.reboot).1 })

serve-Keeps : Keeps soap serve
serve-Keeps m doc r = record {
  same_status = refl;
  same_replies = refl;
  same_sent = refl;
  ring = λ v. (put_task_lem r.control Task.reboot v).2;
}

abbrev device : Device
device = record { ping = λ r. pos 0; tracert = λ r. pos 0 }

abbrev reboot_text : Bytes
reboot_text = b'R' ∷ b'e' ∷ b'b' ∷ b'o' ∷ b'o' ∷ b't' ∷ []

abbrev inform_response_text : Bytes
inform_response_text = (b'I' ∷ b'n' ∷ b'f' ∷ b'o' ∷ b'r' ∷ b'm' ∷ []) ++ response_text

abbrev call : Run
call = record {
  status = SessionStatus.stop;
  hold_request = 0;
  set_param_flag = 0;
  control = busy;
  req_to_acs = RpcType.number;
  xml_buffer = Message.blank;
  recv_data = [];
  replies = inform_response_text ∷ [] ∷ reboot_text ∷ [] ∷ [];
  sent = [];
  executed = [];
  saves = 0;
}

session_main-Opens_example : (o : Outcome) × Opens two_events busy.inform_parameters [] (sent_by o)
session_main-Opens_example =
    let (o, e, _) =
      session_main_lem stb soap serve serve-Keeps device call two_events busy.inform_parameters 257
        two_tasks-IsValid (omega arith) in
    (
      o,
      session_main-Opens stb soap serve serve-Keeps device call o two_events busy.inform_parameters
          257 e,
    )
