-- ===== src/Tests/Service.antt =====
-- The properties of the service calls, applied.
use tr.Base.{ℕ, ◌<◌, ◌≡◌, refl, arith, some, [], ◌∷◌, ℤ, pos, get_or, zero, suc, replicate}
use tr.Control.{Status}
use tr.Service.{Mgr, MgrStatus, World, set_event, target_to_set, target_of}
use tr.Service.Events.{set_event-CallsBounded, set_event-memory, CallsBounded, after_set}
use tr.Service.Flags.{set_event-Stored, Stored, KeyStored, flag_text, NoNulBelow}
use tr.Tests.Stb.{stb, stb-IsSane, dict, dict-Remembers, no_entry}
use tr.Tests.Busy.{busy}

abbrev pub at_work : Mgr
at_work = record {
  control = record busy { status = Status.idle };
  status = MgrStatus.working;
  call_flag = 15;
}

abbrev pub world : World dict
world = record {
  g_tr069 = some at_work;
  ini = no_entry;
  dump_call_flag = 15;
  dump_tr069_status = MgrStatus.working;
}

pub target-memory : target_to_set at_work ≡ pos 1
unfolding target_to_set target_of
target-memory = refl

default-NoNul : NoNulBelow 19 (flag_text stb dict no_entry)
default-NoNul k h = zeros 20 k (omega arith)
  where
    zeros : (n k : ℕ) → k < n → 0 < get_or (replicate {A = ℕ} n b'0') k 0
    zeros zero k h = absurd (omega arith)
    zeros (suc n) zero h = omega arith
    zeros (suc n) (suc k) h = zeros n k (omega arith)

-- The manager has stopped working.
abbrev stopped : Mgr
stopped = record {
  control = record busy { status = Status.quit };
  status = MgrStatus.after_work;
  call_flag = 2;
}

abbrev stopped_world : World dict
stopped_world = record {
  g_tr069 = some stopped;
  ini = no_entry;
  dump_call_flag = 2;
  dump_tr069_status = MgrStatus.after_work;
}

target-dictionary : target_to_set stopped ≡ pos 0
unfolding target_to_set target_of
target-dictionary = refl

set_event-Stored_example :
    (r : ℤ) × (w' : World dict) × (set_event stb dict stopped_world
        (pos 3)
        (pos 1)
        (some (b'k' ∷ []))
      ≡ some (r, w'))
    × Stored stb dict no_entry w'.ini 3 1
    × KeyStored stb dict no_entry w'.ini (some (b'k' ∷ [])) r
set_event-Stored_example =
    set_event-Stored stb dict dict-Remembers stopped_world stopped 3 1 (some (b'k' ∷ [])) refl
      target-dictionary (omega arith) (omega arith) (omega arith) default-NoNul

set_event-CallsBounded_example :
    CallsBounded (after_set stb dict world at_work 2 1 (some (b'k' ∷ []))).g_tr069
set_event-CallsBounded_example =
    set_event-CallsBounded stb dict world (after_set stb dict world at_work 2 1 (some (b'k' ∷ [])))
      (pos 2) (pos 1) (pos 0) (some (b'k' ∷ [])) (omega arith)
      (set_event-memory stb dict world at_work 2 1 (b'k' ∷ []) stb-IsSane refl target-memory
        (omega arith) (omega arith) (omega arith))
