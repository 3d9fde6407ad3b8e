-- ===== src/Control/Init.antt =====
-- tr069_control_init (tr069_control.c). Here malloc succeeds and the handle is not NULL.
use tr.Base.{[], replicate, pos}
use tr.Platform.{Platform}
use tr.Ring
use tr.Control.{Control, clear_event, clear_task, clear_request, clear_inform_parameters}
use tr.Control

-- The manager as memset leaves it.
abbrev zeroed : Platform → Control
zeroed P = record {
  task_queue = Ring.cleared Control.Task.session;
  request_queue = Ring.cleared (pos 0);
  event = record { event_flag = replicate P.event_number 0; command_key = []; number = 0 };
  inform_parameters = [];
  status = Control.Status.stop;
  current_task = Control.Task.session;
  transfer_stime = [];
  transfer_ctime = [];
  transfer_result = pos 0;
  download_argument = record {
    file_type = [];
    url = [];
    username = [];
    password = [];
    file_size = pos 0;
    target_file_name = [];
    delay_seconds = pos 0;
    success_url = [];
    failure_url = [];
  };
  upload_argument = record {
    file_type = [];
    url = [];
    username = [];
    password = [];
    delay_seconds = pos 0;
  };
  finish_flag = 0;
}

unfoldable pub init : Platform → Control
init P =
    let c = record (zeroed P) {
      status = Control.Status.stop;
      current_task = Control.Task.none;
      finish_flag = 0;
    } in
    let c1 = (clear_event P c).1 in
    let c2 = (clear_task c1).1 in let c3 = (clear_request c2).1 in (clear_inform_parameters c3).1
