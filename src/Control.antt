-- ===== src/Control.antt =====
-- tr069_sample/libtr069/tr069/tr069_control.h and the state functions of tr069_control.c: events,
-- the two queues and the inform parameters. A function that changes `*control_handle` returns the
-- new one beside its return code. A handle is never NULL here; where it can be, see Service.
-- `strncpy` into an array whose last byte is still 0 keeps what fits (CStr).
pub mod Events
pub mod Init
pub mod Kept
pub mod Invariant
pub mod Queues
use tr.Base.{
  ℕ, zero, suc, ◌+◌, ◌-◌, ◌%◌, Bool, true, false, ◌&&◌, ◌||◌, Option, some, List, [], ◌∷◌, ◌++◌,
  length, take, get_or, set, replicate, ltb, leb, ◌==◌, if◌then◌else◌, ℤ, pos, negsuc, minus_one,
  index_below, between, is_num,
}
use tr.Platform.{Platform, Bytes}
use tr.Ring
use tr.Ring.{Ring}

-- tr069_control_status
pub data Status : Type 0 where
  stop idle task dump quit : Status

-- tr069_task_type
pub data Task : Type 0 where
  none session reboot factory_reset download upload ping tracert speed_test number : Task

-- tr069_event
pub record Event : Type 0 where
  pub event_flag : List ℕ
  pub command_key : Bytes
  pub number : ℕ

-- A row of tr069_inform_parameters. Its `number` is the length of the list of rows in use.
pub record InformParameter : Type 0 where
  pub parameter : Bytes
  pub code : Bytes

pub record DownloadArgument : Type 0 where
  pub file_type : Bytes
  pub url : Bytes
  pub username : Bytes
  pub password : Bytes
  pub file_size : ℤ
  pub target_file_name : Bytes
  pub delay_seconds : ℤ
  pub success_url : Bytes
  pub failure_url : Bytes

pub record UploadArgument : Type 0 where
  pub file_type : Bytes
  pub url : Bytes
  pub username : Bytes
  pub password : Bytes
  pub delay_seconds : ℤ

-- tr069_control_mgr, without its semaphores, which the code no longer uses
pub record Control : Type 0 where
  pub task_queue : Ring Task
  pub request_queue : Ring ℤ
  pub event : Event
  pub inform_parameters : List InformParameter
  pub status : Status
  pub current_task : Task
  pub transfer_stime : Bytes
  pub transfer_ctime : Bytes
  pub transfer_result : ℤ
  pub download_argument : DownloadArgument
  pub upload_argument : UploadArgument
  pub finish_flag : ℕ

-- The values of the task enumerators, TR069_TASK_NONE = -1 first.
abbrev pub task_code : Task → ℤ
task_code none = negsuc 0
task_code session = pos 0
task_code reboot = pos 1
task_code factory_reset = pos 2
task_code download = pos 3
task_code upload = pos 4
task_code ping = pos 5
task_code tracert = pos 6
task_code speed_test = pos 7
task_code number = pos 8

-- `strncpy` into a text array of `n + 1` bytes, of which the last is 0.
abbrev pub copy_text : ℕ → Bytes → Bytes
copy_text n s = take n s

-- `if (command_key != NULL) strncpy(command_key, ...)`: `none` is NULL.
abbrev pub copy_key : Option Bytes → Bytes → Bytes
copy_key Option.none old = old
copy_key (some key) old = copy_text 31 key

-- The body of tr069_control_set_event behind its guards, for a value 0 or 1.
unfoldable pub mark : Event → ℕ → ℕ → Option Bytes → Event
mark e i v key =
    let up = (if get_or e.event_flag i 0 == 0 && v == 1 then (e.number + 1) % 256 else e.number) in
    let down = (if get_or e.event_flag i 0 == 1 && v == 0 then (up + 255) % 256 else up) in
    record {
      event_flag = set e.event_flag i v;
      command_key = copy_key key e.command_key;
      number = down;
    }

-- `for (; rounds left; i++) if (1 == event_flag[i]) num++;`
pub count_from : List ℕ → ℕ → ℕ → ℕ → ℕ
count_from flags i zero num = num
count_from flags i (suc n) num =
    count_from flags (i + 1) n (if get_or flags i 0 == 1 then num + 1 else num)

-- `for (; rounds left; i++) if (1 == event_flag[i]) return 0;` and then `return 1;`
pub none_from : List ℕ → ℕ → ℕ → ℤ
none_from flags i zero = pos 1
none_from flags i (suc n) = if get_or flags i 0 == 1 then pos 0 else none_from flags (i + 1) n

module _ (P : Platform) where
  unfoldable pub set_event : Control → ℤ → ℤ → Option Bytes → ℤ × Control
  set_event c event_index event_value command_key = elim (index_below P.event_number event_index) [
    | Option.none ↦ (minus_one, c)
    | some i ↦
        if is_num event_value 0
        then (pos 0, record c { event = mark c.event i 0 command_key })
        else if is_num event_value 1
        then (pos 0, record c { event = mark c.event i 1 command_key })
        else (minus_one, c)
  ]

  unfoldable pub clear_event : Control → ℤ × Control
  clear_event c =
      let e = c.event in
      (pos 0, record c { event = record e { event_flag = replicate P.event_number 0; number = 0 } })

  unfoldable pub get_event_number : Event → ℕ
  get_event_number e =
      count_from e.event_flag P.event_bootstrap (P.event_number - P.event_bootstrap) 0

  -- Only the primary events, those before TR069_EVENT_M_SCHEDULEINFORM, count.
  unfoldable pub is_event_empty : Event → ℤ
  is_event_empty e =
      none_from e.event_flag P.event_bootstrap (P.event_m_scheduleinform - P.event_bootstrap)

  unfoldable pub put_request : Control → ℤ → ℤ × Control
  put_request c request =
      if between P.rpc_acs_inform P.rpc_acs_transfer_complete request
      then elim (Ring.put c.request_queue request) [
        | Option.none ↦ (minus_one, c)
        | some q ↦ (pos 0, record c { request_queue = q })
      ]
      else (minus_one, c)

  -- `code = param_code[0] - '!'`; the empty text starts with its NUL.
  unfoldable pub put_inform_parameter : Control → Bytes → ℤ × Control
  put_inform_parameter c [] = (minus_one, c)
  put_inform_parameter c (first ∷ rest) =
      if ltb first b'!' || leb P.param_num (first - b'!')
      then (minus_one, c)
      else elim (P.parameter_name (first - b'!')) [
        | Option.none ↦ (minus_one, c)
        | some name ↦
            if leb P.max_inform_param_num (length c.inform_parameters) then (minus_one, c) else (
              pos 0,
              record c {
                inform_parameters =
                    c.inform_parameters
                    ++ (record {
                      parameter = copy_text (P.max_param_name_len - 1) name;
                      code = copy_text (P.max_param_code_len - 1) (first ∷ rest);
                    }
                        ∷ []);
              },
            )
      ]

unfoldable pub get_event : Control → Event
get_event c = c.event

-- The guard compares the codes: `task <= TR069_TASK_NONE || task >= TR069_TASK_NUMBER`.
unfoldable pub is_valid_task : Task → Bool
is_valid_task t = elim (index_below 8 (task_code t)) [ Option.none ↦ false | some i ↦ true ]

unfoldable pub put_task : Control → Task → ℤ × Control
unfolding is_valid_task
put_task c t =
    if is_valid_task t
    then elim (Ring.put c.task_queue t) [
      | Option.none ↦ (minus_one, c)
      | some q ↦ (pos 0, record c { task_queue = q })
    ]
    else (minus_one, c)

-- TR069_TASK_NONE for an empty queue
unfoldable pub pick_task : Control → Task × Control
pick_task c = elim (Ring.pick c.task_queue) [
  | Option.none ↦ (none, c)
  | some (t, q) ↦ (t, record c { task_queue = q })
]

-- -1 for an empty queue
unfoldable pub pick_request : Control → ℤ × Control
pick_request c = elim (Ring.pick c.request_queue) [
  | Option.none ↦ (minus_one, c)
  | some (r, q) ↦ (r, record c { request_queue = q })
]

-- memset writes TR069_TASK_SESSION, which is 0, to every slot.
unfoldable pub clear_task : Control → ℤ × Control
clear_task c = (pos 0, record c { task_queue = Ring.cleared session })

unfoldable pub clear_request : Control → ℤ × Control
clear_request c = (pos 0, record c { request_queue = Ring.cleared (pos 0) })

unfoldable pub get_inform_parameters : Control → List InformParameter
get_inform_parameters c = c.inform_parameters

unfoldable pub clear_inform_parameters : Control → ℤ × Control
clear_inform_parameters c = (pos 0, record c { inform_parameters = [] })
