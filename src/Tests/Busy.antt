-- ===== src/Tests/Busy.antt =====
-- A control manager with two events, two tasks that go round the end of their array, a request, two
-- inform parameters and a stored transfer.
use tr.Base.{
  ℕ, ◌≡◌, get_or, refl, zero, suc, arith, [], ◌∷◌, ◌==◌, if◌then◌else◌, replicate, ℤ, pos, negsuc,
}
use tr.Ring.{Ring}
use tr.Ring.Fifo.{IsValid}
use tr.Control.{Control, Task, Event, InformParameter, Status}
use tr.Control.Events.{IsEvent}
use tr.Env.Dump.{CanDump, IsCleared}
use tr.Env.Informs.{IsRow}
use tr.Tests.Stb.{stb, dict, no_entry}

abbrev pub two_tasks : Ring Task
two_tasks = record { queue = λ i. if i == 15 then Task.reboot else Task.ping; head = 15; tail = 1 }

abbrev pub one_request : Ring ℤ
one_request = record { queue = λ i. pos 3; head = 4; tail = 5 }

abbrev pub two_events : Event
two_events = record {
  event_flag = 1 ∷ 0 ∷ 0 ∷ 1 ∷ replicate 16 0;
  command_key = b'k' ∷ b'e' ∷ b'y' ∷ [];
  number = 2;
}

abbrev ip_row : InformParameter
ip_row = record { parameter = b'I' ∷ b'P' ∷ []; code = b'!' ∷ [] }

abbrev url_row : InformParameter
url_row = record { parameter = b'U' ∷ b'R' ∷ b'L' ∷ []; code = b'"' ∷ [] }

abbrev pub busy : Control
busy = record {
  task_queue = two_tasks;
  request_queue = one_request;
  event = two_events;
  inform_parameters = ip_row ∷ url_row ∷ [];
  status = Status.dump;
  current_task = Task.none;
  transfer_stime = b'1' ∷ [];
  transfer_ctime = b'2' ∷ [];
  transfer_result = negsuc 8;
  download_argument = record {
    file_type = [];
    url = [];
    username = [];
    password = [];
    file_size = pos 0;
    target_file_name = [];
    delay_seconds = pos 0;
    success_url = [];
    failure_url = [];
  };
  upload_argument = record {
    file_type = [];
    url = [];
    username = [];
    password = [];
    delay_seconds = pos 0;
  };
  finish_flag = 0;
}

pub two_tasks-IsValid : IsValid two_tasks
two_tasks-IsValid = record { head_in = omega arith; tail_in = omega arith }

pub one_request-IsValid : IsValid one_request
one_request-IsValid = record { head_in = omega arith; tail_in = omega arith }

pub two_events-IsEvent : IsEvent 20 two_events
two_events-IsEvent = record { sized = refl; bits = ground arith; counted = refl }

ip_row-IsRow : IsRow stb ip_row
ip_row-IsRow = record {
  char = b'!';
  name = b'I' ∷ b'P' ∷ [];
  code_char = refl;
  printable = omega arith;
  in_table = omega arith;
  named = refl;
  parameter_name = refl;
}

url_row-IsRow : IsRow stb url_row
url_row-IsRow = record {
  char = b'"';
  name = b'U' ∷ b'R' ∷ b'L' ∷ [];
  code_char = refl;
  printable = omega arith;
  in_table = omega arith;
  named = refl;
  parameter_name = refl;
}

pub busy-CanDump : CanDump stb dict busy
busy-CanDump = record {
  event_ok = two_events-IsEvent;
  requests_ok = one_request-IsValid;
  few_requests = omega arith;
  transfers = (refl, tt);
  rows = (ip_row-IsRow, (url_row-IsRow, tt));
  few_rows = omega arith;
  key_fits = omega arith;
  stime_fits = omega arith;
  ctime_fits = omega arith;
  result_fits = omega arith;
}

-- No default flag is raised.
pub default-none : (k : ℕ) → ¬ (get_or stb.default_event_flag k 0 ≡ b'1')
default-none k = at 20 k
  where
    at : (n k : ℕ) → ¬ (get_or (replicate {A = ℕ} n b'0') k 0 ≡ b'1')
    at zero k h = ground arith
    at (suc n) zero h = ground arith
    at (suc n) (suc k) h = at n k h

pub no_entry-IsCleared : IsCleared stb dict no_entry
no_entry-IsCleared = record { no_events = default-none; no_requests = refl; no_informs = refl }
