-- ===== src/Env.antt =====
-- tr069_sample/libtr069/tr069/tr069.c, tr069_load_environment and tr069_dump_environment: the
-- control state goes to the status dictionary when the task loop ends, and comes back at the next
-- start. `string_buff` has TR069_MAX_PARAM_VALUE_LEN bytes; an outcome of `none` writes or reads
-- past its end. Writing the dictionary to its file (tr069_save_status) is not modelled. No return
-- code of iniparser_set changes what these functions do.
pub mod Flags
pub mod Requests
pub mod Informs
pub mod Dump
pub mod Restore
use tr.Base.{
  ℕ, zero, suc, ◌+◌, ◌-◌, Option, some, List, [], ◌∷◌, ◌++◌, length, take, get_or, set, replicate,
  ltb, ◌==◌, if◌then◌else◌, ℤ, pos, is_num,
}
use tr.Platform.{Platform, Bytes}
use tr.CStr.{strncpy, c_str}
use tr.Ini.{Ini, Key}
use tr.Control.{Control, InformParameter, copy_text}
use tr.Control

-- The codes of all rows, one after another.
abbrev pub codes_text : List InformParameter → Bytes
codes_text [] = []
codes_text (r ∷ rows) = r.code ++ codes_text rows

-- One round of the loop over the flags in tr069_dump_environment.
abbrev dump_flag : List ℕ → List ℕ → ℕ → List ℕ
dump_flag flags buf i =
    if get_or flags i 0 == 1
    then set buf i b'1'
    else if get_or buf i 0 == b'1'
    then buf
    else set buf i b'0'

pub dump_flags : List ℕ → List ℕ → ℕ → ℕ → List ℕ
dump_flags flags buf i zero = buf
dump_flags flags buf i (suc n) = dump_flags flags (dump_flag flags buf i) (i + 1) n

module _ (P : Platform) (I : Ini) where
  -- `strncpy(string_buff, iniparser_getstring(...), sizeof(string_buff) - 1)`, as a string
  abbrev pub load_text : I.Dict → Key → Bytes → Bytes
  load_text d k def = copy_text (P.max_param_value_len - 1) (I.getstring d k def)

  pub load_requests : Control → Bytes → Control
  load_requests c [] = c
  load_requests c (x ∷ xs) =
      load_requests
        (if x == b'2' then (Control.put_request P c (pos P.rpc_acs_transfer_complete)).1 else c) xs

  -- Beyond the string the buffer is 0.
  pub load_events : Control → Bytes → ℕ → ℕ → Control
  load_events c s i zero = c
  load_events c s i (suc n) =
      load_events
        (Control.set_event P c (pos i) (pos (if get_or s i 0 == b'1' then 1 else 0)) Option.none).1
        s (i + 1) n

  pub load_informs : Control → Bytes → Control
  load_informs c [] = c
  load_informs c (x ∷ xs) = load_informs (Control.put_inform_parameter P c (x ∷ [])).1 xs

  -- "should clear environment in config"
  pub clear_config : I.Dict → I.Dict
  clear_config d =
      let d1 = (I.set d Key.req_queue []).1 in
      let d2 = (I.set d1 Key.event_flag P.default_event_flag).1 in
      let d3 = (I.set d2 Key.cmd_key []).1 in
      let d4 = (I.set d3 Key.inform_params []).1 in
      let d5 = (I.set d4 Key.trans_time []).1 in
      let d6 = (I.set d5 Key.trans_complete_time []).1 in (I.set d6 Key.trans_ret (b'0' ∷ [])).1

  -- The texts and the number that are copied as they are.
  load_transfer : Control → I.Dict → Control
  load_transfer c d = record c {
    transfer_stime = copy_text 31 (load_text d Key.trans_time []);
    transfer_ctime = copy_text 31 (load_text d Key.trans_complete_time []);
    transfer_result = P.atoi (load_text d Key.trans_ret (b'0' ∷ []));
  }

  load_key : Control → I.Dict → Control
  load_key c d =
      let e = c.event in
      record c { event = record e { command_key = copy_text 31 (load_text d Key.cmd_key []) } }

  pub load_environment : Control → I.Dict → Control × I.Dict
  load_environment c d =
      let c1 = load_requests c (load_text d Key.req_queue []) in
      let c2 =
        load_events c1 (load_text d Key.event_flag P.default_event_flag) P.event_bootstrap
          (P.event_number - P.event_bootstrap) in
      let c3 = load_key c2 d in
      let c4 = load_informs c3 (load_text d Key.inform_params []) in
      (load_transfer c4 d, clear_config d)

  -- The buffer with the flags, ended by a NUL.
  pub flags_buff : Control → I.Dict → List ℕ
  flags_buff c d =
      set
        (dump_flags c.event.event_flag
          (strncpy (replicate P.max_param_value_len 0)
            (I.getstring d Key.event_flag P.default_event_flag) (P.max_param_value_len - 1))
          P.event_bootstrap (P.event_number - P.event_bootstrap))
        P.event_number 0

  -- `while ((i + 1) < TR069_MAX_REQUEST_NUM)`, with the rounds left. A request that is no transfer
  -- complete is picked, and ends the loop.
  pub dump_requests : Control → Bytes → ℕ → Control × Bytes
  dump_requests c s zero = (c, s)
  dump_requests c s (suc n) =
      let (request, c') = Control.pick_request c in
      if is_num request P.rpc_acs_transfer_complete
      then dump_requests c' (s ++ (b'2' ∷ [])) n
      else (c', s)

  -- The rest of the dump, which only writes.
  dump_transfer : Control → I.Dict → I.Dict
  dump_transfer c d =
      let d1 = (I.set d Key.cmd_key c.event.command_key).1 in
      let d2 = (I.set d1 Key.trans_time c.transfer_stime).1 in
      let d3 = (I.set d2 Key.trans_complete_time c.transfer_ctime).1 in
      (I.set d3 Key.trans_ret (P.sprintf_d c.transfer_result)).1

  dump_informs : Control → I.Dict → Option I.Dict
  dump_informs c d =
      let text = load_text d Key.inform_params [] ++ codes_text c.inform_parameters in
      if ltb (length text) P.max_param_value_len
      then some (I.set d Key.inform_params text).1
      else Option.none

  -- What follows the flags: the request queue, on top of the text `s`, the inform parameters and
  -- the rest.
  pub dump_after : Control → I.Dict → Bytes → Option (Control × I.Dict)
  unfolding dump_informs dump_transfer
  dump_after c d s =
      let (c', text) = dump_requests c s (15 - length s) in
      let d' = (I.set d Key.req_queue (take 16 text)).1 in
      elim (dump_informs c' d') [
        | Option.none ↦ Option.none
        | some d'' ↦ some (c', dump_transfer c' d'')
      ]

  pub dump_environment : Control → I.Dict → Option (Control × I.Dict)
  unfolding dump_after
  dump_environment c d = elim (c_str (flags_buff c d)) [
    | Option.none ↦ Option.none
    | some text ↦
        let d' = (I.set d Key.event_flag text).1 in dump_after c d' (load_text d' Key.req_queue [])
  ]
