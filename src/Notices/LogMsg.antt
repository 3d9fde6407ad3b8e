-- ===== src/Notices/LogMsg.antt =====
-- The log of the media player (tr069_timer.c): tr069_start_logmsg, and tr069_logmsg, which its timer
-- calls every ten seconds until it returns -1. What the player measured is an argument.
use tr.Base.{
  ℕ, ◌+◌, ◌-◌, Bool, true, false, Option, none, some, List, [], ◌∷◌, ltb, if◌then◌else◌, ℤ, pos,
  negsuc, minus_one, is_num,
}
use mathlib.Core.Option
use tr.Platform.{Platform, Bytes}
use tr.Ini.{Ini}
use tr.Interface.{Indexes, Host, Store, set_config}
use tr.Service.{World, set_event, start}
use tr.Codes.{Pcode}
use tr.Notices.{Vendor, put_code}

abbrev rtsp_text : Bytes
rtsp_text =
    b'D' ∷ b'E' ∷ b'S' ∷ b'C' ∷ b'R' ∷ b'I' ∷ b'B' ∷ b'E' ∷ b' ' ∷ b'R' ∷ b'T' ∷ b'S' ∷ b'P' ∷ b' '
    ∷ b'1' ∷ b'.' ∷ b'0' ∷ []

abbrev http_text : Bytes
http_text = b'G' ∷ b'E' ∷ b'T' ∷ b' ' ∷ b'H' ∷ b'T' ∷ b'T' ∷ b'P' ∷ b' ' ∷ b'1' ∷ b'.' ∷ b'0' ∷ []

abbrev igmp_text : Bytes
igmp_text = b'J' ∷ b'O' ∷ b'I' ∷ b'N' ∷ b'C' ∷ b'H' ∷ b'A' ∷ b'N' ∷ []

abbrev buffer_text : Bytes
buffer_text = b'2' ∷ b'0' ∷ b'9' ∷ b'7' ∷ b'1' ∷ b'5' ∷ b'2' ∷ []

abbrev null_text : Bytes
null_text = b'N' ∷ b'U' ∷ b'L' ∷ b'L' ∷ []

-- The indexes TR069_PARAM_LogMsg* of the parameters that get values.
pub record LogIndexes : Type 0 where
  pub rtsp_info : ℕ
  pub http_info : ℕ
  pub igmp_info : ℕ
  pub pkg_total_one_sec : ℕ
  pub byte_total_one_sec : ℕ
  pub pkg_lost_rate : ℕ
  pub avarage_rate : ℕ
  pub buffer : ℕ
  pub error : ℕ
  pub vendor_ext : ℕ

-- What the player measured, as sprintf prints it: `mr / 188`, `mr` and `mlr`.
pub record Measured : Type 0 where
  pub packets : Bytes
  pub bytes : Bytes
  pub lost : Bytes

-- A parameter, its new text and its code.
abbrev pub LogItem : Type 0
LogItem = ℕ × Bytes × Pcode

abbrev pub log_items : LogIndexes → Measured → List LogItem
log_items X q =
    (X.rtsp_info, rtsp_text, Pcode.log_msg_rtsp_info)
    ∷ (X.http_info, http_text, Pcode.log_msg_http_info)
    ∷ (X.igmp_info, igmp_text, Pcode.log_msg_igmp_info)
    ∷ (X.pkg_total_one_sec, q.packets, Pcode.log_msg_pkg_total_one_sec)
    ∷ (X.byte_total_one_sec, q.bytes, Pcode.log_msg_byte_total_one_sec)
    ∷ (X.pkg_lost_rate, q.lost, Pcode.log_msg_pkg_lost_rate)
    ∷ (X.avarage_rate, q.bytes, Pcode.log_msg_avarage_rate)
    ∷ (X.buffer, buffer_text, Pcode.log_msg_buffer)
    ∷ (X.error, null_text, Pcode.log_msg_error)
    ∷ (X.vendor_ext, null_text, Pcode.log_msg_vendor_ext)
    ∷ []

-- `logmsg_duration_i -= 10`
unfoldable pub ten_less : ℤ → ℤ
ten_less (pos n) = if ltb n 10 then negsuc (9 - n) else pos (n - 10)
ten_less (negsuc n) = negsuc (n + 10)

-- `logmsg_duration_i` at the start, what the configuration has (`none` where it cannot be read) and
-- TR069_LOGMSG_LIMIT at most.
unfoldable pub duration_of : (limit : ℕ) → Option ℤ → ℤ
duration_of limit none = pos limit
duration_of limit (some (negsuc n)) = negsuc n
duration_of limit (some (pos n)) = if ltb limit n then pos limit else pos n

module _ (P : Platform) (I : Ini) (V : Vendor) (N : Indexes) (H : Host) (X : LogIndexes) where
  -- The parts that the log works on: `has_timer` is `tr069_logmsg_timer != 0`, and `disabled` is
  -- whether F_CFG_LogMsgEnable was set to "false".
  pub record Log : Type 0 where
    pub world : World I
    pub store : Store H
    pub duration : ℤ
    pub has_timer : Bool
    pub disabled : Bool

  -- tr069_set_config and tr069_service_put_inform_parameter, for one item after another.
  unfoldable pub put_items : List LogItem → Log → Log
  put_items [] g = g
  put_items (i ∷ is) g = put_items is (record g {
    store = (set_config P N H g.store i.0 i.1).1;
    world = put_code P I V g.world (V.text i.2);
  })

  abbrev pub put_logs : Measured → Log → Log
  put_logs q g =
      let w =
        put_code P I V (put_code P I V g.world (V.text Pcode.stbid))
          (V.text Pcode.ip_address_real) in
      let g' = put_items (log_items X q) (record g { world = w }) in
      record g' { world = (start P I g'.world).1 }

  -- What follows the two events, of which only the second one's return code is read.
  abbrev pub logged : Measured → Log → ℤ × World I → Log
  logged q g (ret, w) =
      if is_num ret 0 then put_logs q (record g { world = w }) else (record g { world = w })

  unfoldable pub log_events : World I → Option (ℤ × World I)
  log_events w = elim (set_event P I w (pos V.event_scheduled) (pos 1) (some [])) [
    | none ↦ none
    | some (ret, w') ↦ set_event P I w' (pos V.event_log_periodic) (pos 1) (some [])
  ]

  -- The report, with the duration counted down; `none` is a player that has no memory to share.
  unfoldable pub log_report : Option Measured → Log → Option (ℤ × Log)
  log_report none g = some (minus_one, g)
  log_report (some q) g = Option.map (λ t. (pos 0, logged q g t)) (log_events g.world)

  abbrev pub log_left : ℤ → Option Measured → Log → Option (ℤ × Log)
  log_left (negsuc n) q g = some (minus_one, record g { has_timer = false; disabled = true })
  log_left (pos n) q g = log_report q (record g { duration = ten_less (pos n) })

  -- tr069_logmsg, with what F_CFG_LogMsgEnable says; -1 ends the timer.
  unfoldable pub logmsg : (enabled : Bool) → Option Measured → Log → Option (ℤ × Log)
  logmsg false q g = some (minus_one, record g { has_timer = false })
  logmsg true q g = log_left g.duration q g

  -- tr069_start_logmsg; the order to the player to upload messages or files is left out.
  unfoldable pub start_logmsg : (is_msg enabled : Bool) (limit : ℕ) → Option ℤ → Log → ℤ × Log
  start_logmsg true true limit duration g =
      (pos 0, record g { duration = duration_of limit duration; has_timer = true })
  start_logmsg true false limit duration g = (minus_one, record g { has_timer = false })
  start_logmsg false enabled limit duration g = (pos 0, record g { has_timer = false })

  -- Whether the timer is still there after some calls, and what they leave.
  pub data LogRun : Type 0 where
    going : Log → LogRun
    ended : Log → LogRun
    faulted : LogRun

  -- The calls of the timer, as long as it is there.
  unfoldable pub run_logmsg : List (Bool × Option Measured) → Log → LogRun
  run_logmsg [] g = going g
  run_logmsg (t ∷ ts) g = elim (logmsg t.0 t.1 g) [
    | none ↦ faulted
    | some (pos n, g') ↦ run_logmsg ts g'
    | some (negsuc n, g') ↦ ended g'
  ]
