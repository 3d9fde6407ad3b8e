-- ===== src/Tests/Notices.antt =====
-- The properties of the notices at a manager at work.
use tr.Base.{
  ℕ, ◌≡◌, refl, Bool, true, false, Option, none, some, List, [], ◌∷◌, ◌++◌, arith, length, ◌==◌,
  if◌then◌else◌, pos, replicate,
}
use tr.Platform.{Bytes}
use tr.Ini.{Key}
use tr.Service.{World}
use tr.Codes.{Entry, Pcode, boot_codes}
use tr.Notices.{Vendor, Booted, value_change, check_first_boot, is_first_boot, request_url}
use tr.Notices.Rows.{AreProper}
use tr.Notices.Raised.{noticed}
use tr.Notices.Flagged.{flagged, changed_codes, further, AreShort, is_some_code}
use tr.Notices.Change.{value_change_lem}
use tr.Notices.Boot.{check_first_boot_lem, start_event, seen}
use tr.Notices.LogMsg.{LogIndexes, Log, Measured, run_logmsg, start_logmsg}
use tr.Notices.Stopped.{is_going, logmsg_lem}
use tr.Tests.Cfg.{indexes, host, store}
use tr.Tests.Stb.{stb, stb-IsSane, dict, dict-Remembers}
use tr.Tests.Service.{at_work, world, target-memory}

-- Every code names the second parameter; the first entry of the configuration is the identification.
abbrev vendor : Vendor
vendor = record {
  text = λ c. b'"' ∷ [];
  event_value_change = 4;
  event_periodic = 2;
  event_alarm = 13;
  event_scheduled = 3;
  event_log_periodic = 14;
  cfg_num = 3;
  cfg_stbid = 0;
  entry = λ i. if i == 1 then some Entry.user_id else none;
  url_size = 256;
}

proper : AreProper stb dict vendor
proper c = (omega arith, omega arith, b'U' ∷ b'R' ∷ b'L' ∷ [], refl)

short : AreShort vendor stb dict
short c = omega arith

-- The flags of the second and the third entry are up.
abbrev flags : Bytes
flags = b'0' ∷ b'1' ∷ b'1' ∷ []

abbrev all_codes : List Pcode
all_codes = changed_codes vendor flags ++ further vendor flags

few : length all_codes ≡ 3
unfolding flagged
few = refl

value_change_lem_example :
    value_change stb dict vendor flags world
    ≡ some (
        if is_some_code (changed_codes vendor flags)
        then noticed stb dict vendor world at_work 4 all_codes
        else world)
value_change_lem_example =
    value_change_lem stb dict vendor stb-IsSane proper short flags world at_work (omega arith)
      (omega arith)
      (record {
        is_mgr = refl;
        working = refl;
        target = target-memory;
        few_calls = omega arith;
        in_range = omega arith;
        room = omega (arith, few);
      })

-- The address comes with the second try, and the dictionary has the flag of the first boot.
abbrev answers : ℕ → Option Bytes
answers j = if j == 0 then none else some (b'1' ∷ [])

abbrev fresh : World dict
fresh = record world { ini = (dict.set (let w = world in w.ini) Key.first_boot (b'1' ∷ [])).1 }

check_first_boot_lem_example :
    (b : Booted stb dict vendor) × (check_first_boot stb dict vendor false answers fresh ≡ some b)
    × (b.ret ≡ pos 0)
    × (b.url ≡ some (request_url (b'1' ∷ [])))
    × (b.world
        ≡ noticed stb dict vendor
            (seen stb dict vendor fresh)
            at_work
            (start_event stb dict vendor fresh)
            (boot_codes false))
    × (is_first_boot stb dict vendor (let w = b.world in w.ini) ≡ false)
check_first_boot_lem_example =
    check_first_boot_lem stb dict vendor false answers fresh at_work 1 (b'1' ∷ []) stb-IsSane
      dict-Remembers proper
      (record {
        is_mgr = refl;
        working = refl;
        target = target-memory;
        few_calls = omega arith;
        in_range = omega arith;
        room = omega arith;
      })
      (omega arith) (λ j h. ground (arith, h)) refl (omega arith)

abbrev log_indexes : LogIndexes
log_indexes = record {
  rtsp_info = 1;
  http_info = 2;
  igmp_info = 3;
  pkg_total_one_sec = 4;
  byte_total_one_sec = 5;
  pkg_lost_rate = 6;
  avarage_rate = 7;
  buffer = 8;
  error = 9;
  vendor_ext = 10;
}

abbrev log : Log stb dict vendor indexes host log_indexes
log = record { world = world; store = store; duration = pos 0; has_timer = false; disabled = false }

-- Eight calls with nothing to hinder them, for a limit of a minute.
abbrev calls : List (Bool × Option Measured)
calls =
    replicate 8 (true, some (record { packets = b'1' ∷ []; bytes = b'2' ∷ []; lost = b'0' ∷ [] }))

logmsg_lem_example :
    is_going stb dict vendor indexes host log_indexes (
      run_logmsg stb dict vendor indexes host log_indexes calls
        (start_logmsg stb dict vendor indexes host log_indexes true true 60 (some (pos 90)) log).1)
    ≡ false
logmsg_lem_example =
    logmsg_lem stb dict vendor indexes host log_indexes 60 7 (some (pos 90)) log calls (omega arith)
      (omega arith)
