-- ===== src/Notices.antt =====
-- The notices that ask for a session of their own accord: changed values and alarms
-- (tr069_interface.c), the periodic inform (tr069_timer.c) and the start (tr069_control.c). What the
-- configuration and the timers of the vendor answer is an argument; `none` is a fault of memory.
pub mod Rows
pub mod Raised
pub mod Flagged
pub mod Change
pub mod Boot
pub mod LogMsg
pub mod Stopped
use tr.Base.{
  ℕ, zero, suc, ◌+◌, ◌≡◌, Bool, true, false, ◌&&◌, not, Option, none, some, List, [], ◌∷◌, ◌++◌,
  take, length, get_or, ltb, leb, ◌==◌, if◌then◌else◌, ℤ, pos, negsuc, minus_one, is_num,
}
use mathlib.Core.Option
use tr.Platform.{Platform, Bytes}
use tr.Ini.{Ini, Key}
use tr.Control.{Control}
use tr.Control
use tr.Service.{Mgr, World, set_event, put_inform_parameter, start}
use tr.Timer.{Armed, start_heartbeat, next_heartbeat}
use tr.Codes.{Entry, Pcode, format_param_code, heartbeat_codes, boot_codes, alarm_codes}

-- What the vendor's headers name: the texts of the codes, the events, and the entries F_CFG_* of the
-- configuration by their number.
pub record Vendor : Type 0 where
  pub text : Pcode → Bytes
  pub event_value_change : ℕ
  pub event_periodic : ℕ
  pub event_alarm : ℕ
  pub event_scheduled : ℕ
  pub event_log_periodic : ℕ
  pub cfg_num : ℕ
  pub cfg_stbid : ℕ
  pub entry : ℕ → Option Entry
  -- F_IPTV_URL_SIZE
  pub url_size : ℕ

-- "http://%s:8080/tr069.cgi"
abbrev pub request_url : Bytes → Bytes
request_url ip =
    (b'h' ∷ b't' ∷ b't' ∷ b'p' ∷ b':' ∷ b'/' ∷ b'/' ∷ [])
    ++ (ip
        ++ (b':' ∷ b'8' ∷ b'0' ∷ b'8' ∷ b'0' ∷ b'/' ∷ b't' ∷ b'r' ∷ b'0' ∷ b'6' ∷ b'9' ∷ b'.' ∷ b'c'
            ∷ b'g' ∷ b'i' ∷ []))

-- The wait for an address, of which each of the `rounds` tries has an answer.
unfoldable pub first_address : (rounds i : ℕ) → (ℕ → Option Bytes) → Option Bytes
first_address zero i answers = none
first_address (suc n) i answers =
    let rest = first_address n (i + 1) answers in
    elim (answers i) [ none ↦ rest | some ip ↦ some ip ]

module _ (P : Platform) (I : Ini) (V : Vendor) where
  -- tr069_service_put_inform_parameter of a code, its result ignored.
  abbrev pub put_code : World I → Bytes → World I
  put_code w code = (put_inform_parameter P I w (some code)).1

  unfoldable pub put_codes : World I → List Pcode → World I
  put_codes w [] = w
  put_codes w (c ∷ cs) = put_codes (put_code w (V.text c)) cs

  -- What follows tr069_service_set_event in a report.
  abbrev pub reported : List Pcode → ℤ × World I → World I
  reported codes (ret, w) = if is_num ret 0 then (start P I (put_codes w codes)).1 else w

  -- An event without a command key, its codes, and the start of a session.
  unfoldable pub report : ℕ → List Pcode → World I → Option (World I)
  report event codes w = Option.map (reported codes) (set_event P I w (pos event) (pos 1) (some []))

  -- tr069_alarm_report, which returns FV_OK.
  unfoldable pub alarm_report : World I → Option (World I)
  alarm_report w = report V.event_alarm alarm_codes w

  -- tr069_heartbeat: the return code, and the timer that is set then, if any.
  unfoldable pub heartbeat :
      (limit : ℕ) (enabled is_first : Bool)
      → Option ℤ
      → World I
      → Option (World I × ℤ × Option Armed)
  heartbeat limit false is_first interval w = some (w, minus_one, none)
  heartbeat limit true is_first interval w = elim (report V.event_periodic heartbeat_codes w) [
    | none ↦ none
    | some w' ↦ Option.map (λ t. (w', t.0, t.1)) (next_heartbeat limit true is_first interval)
  ]

  -- The world, `not_null` and `stb_flag` in the loop of tr069_value_change.
  pub record Scan : Type 0 where
    pub world : World I
    pub not_null : Bool
    pub stb_flag : Bool

  -- A flag that is up, for the entry with this number.
  unfoldable pub change_at : ℕ → Scan → Scan
  change_at i s =
      let stb = (if i == V.cfg_stbid then false else s.stb_flag) in
      elim (V.entry i) [
        | none ↦ record s { stb_flag = stb }
        | some e ↦ record {
          world = put_code s.world (take 254 (V.text (format_param_code e)));
          not_null = true;
          stb_flag = stb;
        }
      ]

  unfoldable pub change_from : (rounds i : ℕ) → Bytes → Scan → Scan
  change_from zero i key s = s
  change_from (suc n) i key s =
      change_from n (i + 1) key (if get_or key i 0 == b'1' then change_at i s else s)

  -- What follows the event; a start that is asked for has the address with it.
  abbrev pub finish_event : Bool → ℤ × World I → World I
  finish_event stb (ret, w) =
      let w1 = (if stb then put_code w (V.text Pcode.stbid) else w) in
      if is_num ret 0 then (start P I (put_code w1 (V.text Pcode.ip_address_real))).1 else w1

  unfoldable pub finish_change : Scan → Option (World I)
  finish_change s =
      if s.not_null
      then Option.map (finish_event s.stb_flag)
          (set_event P I s.world (pos V.event_value_change) (pos 1) (some []))
      else some s.world

  -- tr069_value_change, of a text with a flag for each entry of the configuration.
  unfoldable pub value_change : Bytes → World I → Option (World I)
  value_change key w =
      if ltb (length key + 1) V.cfg_num
      then none
      else finish_change
          (change_from V.cfg_num 0 key (record { world = w; not_null = false; stb_flag = true }))

  -- tr069_value_change_notify, which returns FV_OK; `is_cu` is `g_tr069_stand == TR069_STAND_CU`.
  unfoldable pub value_change_notify : (is_cu : Bool) → Bytes → World I → Option (World I)
  value_change_notify true key w = value_change key w
  value_change_notify false key w = some w

  -- `'1' == *first_boot_flag`
  abbrev pub is_first_boot : I.Dict → Bool
  is_first_boot d = get_or (I.getstring d Key.first_boot []) 0 0 == b'1'

  -- tr069_service_set_status of TR069_STATUS_FIRSTBOOT, in the dictionary.
  abbrev pub boot_seen : ℤ × World I → ℤ × World I
  boot_seen (ret, w) = (ret, record w { ini = (I.set w.ini Key.first_boot (b'0' ∷ [])).1 })

  -- The event of the start, with its return code.
  unfoldable pub boot_event : World I → Option (ℤ × World I)
  boot_event w =
      if is_first_boot w.ini
      then Option.map boot_seen (set_event P I w (pos P.event_bootstrap) (pos 1) (some []))
      else set_event P I w (pos P.event_boot) (pos 1) (some [])

  -- The world, what F_CFG_ConnectionRequestURL gets, if anything, and the return code.
  pub record Booted : Type 0 where
    pub world : World I
    pub url : Option Bytes
    pub ret : ℤ

  abbrev pub booted_at : Bytes → World I → Booted
  booted_at ip w = record { world = w; url = some (request_url ip); ret = pos 0 }

  unfoldable pub boot_with : (is_cu : Bool) → World I → Option Bytes → Option Booted
  boot_with is_cu w none = some (record { world = w; url = none; ret = minus_one })
  boot_with is_cu w (some ip) =
      if leb V.url_size (length (request_url ip))
      then none
      else Option.map (λ r. booted_at ip (reported (boot_codes is_cu) r)) (boot_event w)

  -- tr069_control_check_first_boot: ten tries for an address within two seconds.
  unfoldable pub check_first_boot :
      (is_cu : Bool) (answers : ℕ → Option Bytes) → World I → Option Booted
  check_first_boot is_cu answers w = boot_with is_cu w (first_address 10 0 answers)

  -- The flag TR069_EVENT_M_REBOOT of the manager.
  abbrev pub reboot_flag : Option Mgr → ℕ
  reboot_flag none = 0
  reboot_flag (some m) =
      let event = Control.get_event m.control in get_or event.event_flag P.event_m_reboot 0

  -- What the start leaves, the timer of the heartbeat, whether tr069_clear_cookie was called, and
  -- the return code.
  pub record Started : Type 0 where
    pub booted : Booted
    pub heartbeat : Option Armed
    pub clears_cookie : Bool
    pub ret : ℤ

  -- tr069_control_main_task of the manager `m`; `has_timer` is whether f_timer_add succeeds.
  unfoldable pub main_task :
      (is_cu : Bool) (answers : ℕ → Option Bytes) (limit now : ℕ) (enabled : Bool)
      → (interval ref : Option ℤ) → (has_timer : Bool) → World I
      → Mgr
      → Option Started
  main_task is_cu answers limit now enabled interval ref has_timer w m =
      let c = m.control in
      let m1 = record m { control = record c { status = Control.Status.idle } } in
      elim (check_first_boot is_cu answers (record w { g_tr069 = some m1 })) [
        | none ↦ none
        | some b ↦ elim (start_heartbeat limit now enabled interval ref) [
          | none ↦ none
          | some (ret, armed) ↦ some (record {
            booted = b;
            heartbeat = armed;
            clears_cookie = (let w' = b.world in reboot_flag w'.g_tr069 == 0);
            ret = if has_timer then pos 0 else minus_one;
          })
        ]
      ]
