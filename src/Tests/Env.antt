-- ===== src/Tests/Env.antt =====
-- The properties of the dump and the load, applied.
use tr.Base.{ℕ, ◌≡◌, ◌<◌, some, get_or, length}
use tr.Platform.{Bytes}
use tr.CStr.{c_str}
use tr.Control.{Control}
use tr.Control.Init.{init}
use tr.Env.{flags_buff, dump_environment, load_environment}
use tr.Env.Flags.{dumped_flags, merged, stored}
use tr.Env.Restore.{SameState, load-dump_environment}
use tr.Tests.Stb.{stb, stb-IsSane, dict, dict-Remembers, no_entry}
use tr.Tests.Busy.{busy, busy-CanDump, no_entry-IsCleared}

load-dump_environment_example :
    (c' : Control) × (d' : dict.Dict) × (dump_environment stb dict busy no_entry ≡ some (c', d'))
    × SameState busy (load_environment stb dict (init stb) d').0
load-dump_environment_example =
    load-dump_environment stb stb-IsSane dict dict-Remembers busy no_entry busy-CanDump
      no_entry-IsCleared

dumped_flags_example :
    (text : Bytes) × (c_str (flags_buff stb dict busy no_entry) ≡ some text)
    × (length text ≡ 20)
    × ((k : ℕ)
        → k < 20
        → get_or text k 0
          ≡ merged (get_or busy.event.event_flag k 0) (get_or (stored stb dict no_entry) k 0))
dumped_flags_example = dumped_flags stb stb-IsSane dict busy no_entry
