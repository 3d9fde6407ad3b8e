-- ===== src/Service.antt =====
-- tr069_sample/libtr069/tr069/tr069_service.c: what the dispatcher, the timers and the other parts
-- call. A call works on the running manager, or on the status dictionary while none is at work.
-- `f_assert` and the log are left out, and so is the wait for `g_tr069`: a call sees the value that
-- the wait ends with. An outcome of `none` reads past the end of an array, or through NULL.
pub mod Events
pub mod Flags
use mathlib.Core.Option
use tr.Base.{
  ℕ, zero, suc, ◌+◌, ◌-◌, ◌&&◌, Option, some, List, [], ◌∷◌, ◌++◌, length, set, replicate, ltb, leb,
  ◌==◌, if◌then◌else◌, ℤ, pos, negsuc, minus_one, index_below, between, is_num,
}
use tr.Platform.{Platform, Bytes}
use tr.CStr.{strncpy, c_str}
use tr.Ini.{Ini, Key}
use tr.Control.{Control, Task, copy_text}
use tr.Control

-- The values of `tr069_mgr.status`; `unknown` is any other.
pub data MgrStatus : Type 0 where
  before_work load_env working after_work unknown : MgrStatus

-- tr069_mgr, as far as the services use it
pub record Mgr : Type 0 where
  pub control : Control
  pub status : MgrStatus
  pub call_flag : ℕ

-- Where a call puts what it is given: -1 for nowhere, 0 for the dictionary, 1 for memory.
unfoldable pub target_of : MgrStatus → Control.Status → ℤ
target_of before_work s = pos 0
target_of load_env s = pos 0
target_of after_work s = pos 0
target_of working Control.Status.idle = pos 1
target_of working Control.Status.task = pos 1
target_of working Control.Status.dump = pos 0
target_of working Control.Status.stop = pos 0
target_of working Control.Status.quit = pos 0
target_of unknown s = minus_one

unfoldable pub target_to_set : Mgr → ℤ
unfolding target_of
target_to_set m = target_of m.status m.control.status

-- `g_tr069`, `tr069_status_ini` and the copies in `cpe_dump`
pub record World (I : Ini) : Type 0 where
  pub g_tr069 : Option Mgr
  pub ini : I.Dict
  pub dump_call_flag : ℕ
  pub dump_tr069_status : MgrStatus

module _ (P : Platform) (I : Ini) where
  abbrev with_mgr : World I → Mgr → World I
  with_mgr w m = record w { g_tr069 = some m }

  unfoldable pub start_on : World I → Mgr → MgrStatus → World I
  start_on w m working =
      with_mgr w (record m { control = (Control.put_task m.control Task.session).1 })
  start_on w m _ = w

  unfoldable pub start : World I → ℤ × World I
  unfolding start_on
  start w = elim w.g_tr069 [
    | Option.none ↦ (minus_one, w)
    | some m ↦ (pos 0, start_on w m m.status)
  ]

  -- The end of the dispatcher's loop, the last call, is not part of the state.
  stop_on : World I → Mgr → MgrStatus → World I
  stop_on w m before_work = record w {
    g_tr069 = some (record m { call_flag = 0; status = after_work });
    dump_call_flag = 0;
    dump_tr069_status = after_work;
  }
  stop_on w m working = record w {
    g_tr069 = some (record m { call_flag = 0; control = record (m.control) { finish_flag = 1 } });
    dump_call_flag = 0;
  }
  stop_on w m _ = record w { g_tr069 = some (record m { call_flag = 0 }); dump_call_flag = 0 }

  pub stop : World I → ℤ × World I
  unfolding stop_on
  stop w = elim w.g_tr069 [ Option.none ↦ (minus_one, w) | some m ↦ (pos 0, stop_on w m m.status) ]

  -- The command key of an event that goes to the dictionary.
  config_key : I.Dict → Option Bytes → ℤ × I.Dict
  config_key d Option.none = (minus_one, d)
  config_key d (some []) = (pos 0, d)
  config_key d (some (c ∷ key)) =
      if ltb (length (c ∷ key)) 32 then I.set d Key.cmd_key (c ∷ key) else (minus_one, d)

  -- `char event_buff[TR069_EVENT_NUMBER]` as it is when it goes back to the dictionary.
  pub event_buff : I.Dict → ℕ → ℕ → List ℕ
  event_buff d i v =
      set
        (strncpy (replicate P.event_number 0) (I.getstring d Key.event_flag P.default_event_flag)
          (P.event_number - 1))
        i (if v == 1 then b'1' else b'0')

  -- case 0 of tr069_service_set_event
  config_event : I.Dict → ℕ → ℕ → Option Bytes → Option (ℤ × I.Dict)
  unfolding config_key
  config_event d i v key = elim (c_str (event_buff d i v)) [
    | Option.none ↦ Option.none
    | some text ↦
        let (r, d') = I.set d Key.event_flag text in
        some (if is_num r 0 then config_key d' key else (r, d'))
  ]

  -- case 1, which reads `*command_key` first
  memory_event : Mgr → ℕ → ℕ → Option Bytes → Option (ℤ × Mgr)
  memory_event m i v Option.none = Option.none
  memory_event m i v (some []) =
      let (r, c) = Control.set_event P m.control (pos i) (pos v) Option.none in
      some (r, record m { control = c })
  memory_event m i v (some (k ∷ key)) =
      let (r, c) = Control.set_event P m.control (pos i) (pos v) (some (k ∷ key)) in
      some (r, record m { control = c })

  -- A primary event that was set counts as one more call.
  count_call : World I → ℕ → ℤ × Mgr → ℤ × World I
  count_call w i (r, m) =
      let m' =
        (if ltb i P.event_m_scheduleinform then record m { call_flag = m.call_flag + 1 } else m) in
      if is_num r 0
      then (r, record w { g_tr069 = some m'; dump_call_flag = m'.call_flag })
      else (r, with_mgr w m)

  set_event_on : World I → Mgr → ℕ → ℕ → Option Bytes → ℤ → Option (ℤ × World I)
  set_event_on w m i v key (pos zero) =
      Option.map (λ p. count_call (record w { ini = p.1 }) i (p.0, m)) (config_event w.ini i v key)
  set_event_on w m i v key (pos (suc n)) = Option.map (count_call w i) (memory_event m i v key)
  set_event_on w m i v key (negsuc n) = some (count_call w i (minus_one, m))

  -- An index and a value that passed the guards.
  set_event_at : World I → ℕ → ℕ → Option Bytes → Option (ℤ × World I)
  unfolding set_event_on
  set_event_at w i v key = elim w.g_tr069 [
    | Option.none ↦ some (minus_one, w)
    | some m ↦
        if leb 16 m.call_flag
        then some (minus_one, w)
        else set_event_on w m i v key (target_to_set m)
  ]

  pub set_event : World I → ℤ → ℤ → Option Bytes → Option (ℤ × World I)
  unfolding set_event_at
  set_event w event_index event_value key = elim (index_below P.event_number event_index) [
    | Option.none ↦ some (minus_one, w)
    | some i ↦
        if is_num event_value 0
        then set_event_at w i 0 key
        else if is_num event_value 1
        then set_event_at w i 1 key
        else some (minus_one, w)
  ]

  -- `char request_buff[16]`: a request goes to the dictionary as one character.
  config_request : I.Dict → ℤ → ℤ × I.Dict
  config_request d request =
      let request_buff = copy_text 15 (I.getstring d Key.req_queue []) in
      if ltb (length request_buff + 1) 16 && is_num request P.rpc_acs_transfer_complete
      then I.set d Key.req_queue (request_buff ++ (b'2' ∷ []))
      else (minus_one, d)

  put_request_on : World I → Mgr → ℤ → ℤ → ℤ × World I
  put_request_on w m request (pos zero) =
      let (r, d) = config_request w.ini request in (r, record w { ini = d })
  put_request_on w m request (pos (suc n)) =
      let (r, c) = Control.put_request P m.control request in
      (r, with_mgr w (record m { control = c }))
  put_request_on w m request (negsuc n) = (minus_one, w)

  pub put_request : World I → ℤ → ℤ × World I
  unfolding put_request_on config_request
  put_request w request =
      if between P.rpc_acs_inform P.rpc_acs_transfer_complete request
      then elim w.g_tr069 [
        | Option.none ↦ (minus_one, w)
        | some m ↦ put_request_on w m request (target_to_set m)
      ]
      else (minus_one, w)

  -- `char string_buff[TR069_MAX_PARAM_VALUE_LEN]`: the codes go to the dictionary one after another.
  pub config_inform : I.Dict → Bytes → ℤ × I.Dict
  config_inform d code =
      let string_buff =
        copy_text (P.max_param_value_len - 1) (I.getstring d Key.inform_params []) in
      if ltb (length string_buff + length code + 1) P.max_param_value_len && ltb 0 (length code)
      then I.set d Key.inform_params (string_buff ++ code)
      else (minus_one, d)

  unfoldable pub put_inform_on : World I → Mgr → Bytes → ℤ → ℤ × World I
  put_inform_on w m code (pos zero) =
      let (r, d) = config_inform w.ini code in (r, record w { ini = d })
  put_inform_on w m code (pos (suc n)) =
      let (r, c) = Control.put_inform_parameter P m.control code in
      (r, with_mgr w (record m { control = c }))
  put_inform_on w m code (negsuc n) = (minus_one, w)

  unfoldable pub put_inform_parameter : World I → Option Bytes → ℤ × World I
  unfolding put_inform_on config_inform
  put_inform_parameter w Option.none = (minus_one, w)
  put_inform_parameter w (some code) = elim w.g_tr069 [
    | Option.none ↦ (minus_one, w)
    | some m ↦ put_inform_on w m code (target_to_set m)
  ]

  -- A text of up to 31 bytes goes to the dictionary; the rest runs unless that fails.
  config_time : I.Dict → Key → Option Bytes → (I.Dict → ℤ × I.Dict) → ℤ × I.Dict
  config_time d k Option.none rest = rest d
  config_time d k (some time) rest =
      if ltb (length time) 32
      then (let (r, d') = I.set d k time in if is_num r 0 then rest d' else (r, d'))
      else rest d

  config_transfer : I.Dict → Option Bytes → Option Bytes → ℤ → ℤ × I.Dict
  unfolding config_time
  config_transfer d start_time complete_time result = config_time d Key.trans_time start_time λ d1.
      config_time d1 Key.trans_complete_time complete_time
        λ d2. I.set d2 Key.trans_ret (P.sprintf_d result)

  -- `if (time != NULL) strncpy(...)`
  abbrev copy_time : Option Bytes → Bytes → Bytes
  copy_time Option.none old = old
  copy_time (some time) old = copy_text 31 time

  set_transfer_on : World I → Mgr → Option Bytes → Option Bytes → ℤ → ℤ → ℤ × World I
  unfolding config_transfer
  set_transfer_on w m start_time complete_time result (pos zero) =
      let (r, d) = config_transfer w.ini start_time complete_time result in
      (r, record w { ini = d })
  set_transfer_on w m start_time complete_time result (pos (suc n)) =
      let c = m.control in
      (
        pos 0,
        with_mgr w (record m {
          control = record c {
            transfer_stime = copy_time start_time c.transfer_stime;
            transfer_ctime = copy_time complete_time c.transfer_ctime;
            transfer_result = result;
          };
        }),
      )
  set_transfer_on w m start_time complete_time result (negsuc n) = (minus_one, w)

  pub set_transfer_complete : World I → Option Bytes → Option Bytes → ℤ → ℤ × World I
  unfolding set_transfer_on
  set_transfer_complete w start_time complete_time result = elim w.g_tr069 [
    | Option.none ↦ (minus_one, w)
    | some m ↦ set_transfer_on w m start_time complete_time result (target_to_set m)
  ]
