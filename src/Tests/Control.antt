-- ===== src/Tests/Control.antt =====
-- The properties of the control manager, applied.
use tr.Base.{true, ◌≡◌, refl, arith, List, [], ◌∷◌, Option, some, pos, negsuc, get_or}
use tr.Ring.Fifo.{IsValid}
use tr.Ring.Run.{Call, run, run_list, run_refines}
use tr.Control.{Task, set_event, is_valid_task, put_task}
use tr.Control.Init.{init}
use tr.Control.Events.{set_event_lem}
use tr.Control.Queues.{tasks, put_result, put_task_lem}
use tr.Control.Kept.{IsControl}
use tr.Control.Invariant.{steps-IsControl, steps}
use tr.Control.Invariant
use tr.Tests.Stb.{stb, stb-IsSane}
use tr.Tests.Busy.{two_tasks, busy, two_tasks-IsValid}

abbrev uses : List (Call Task)
uses = Call.picks ∷ Call.puts Task.upload ∷ Call.picks ∷ Call.picks ∷ Call.picks ∷ []

run_refines_example : run two_tasks uses ≡ run_list (Task.reboot ∷ Task.ping ∷ []) uses
run_refines_example = run_refines two_tasks uses two_tasks-IsValid

put_task_example :
    let (r, c') = put_task busy Task.download in
    ((r, tasks c') ≡ put_result true (Task.reboot ∷ Task.ping ∷ []) Task.download)
    × (c' ≡ record busy { task_queue = c'.task_queue })
    × IsValid c'.task_queue
unfolding is_valid_task
put_task_example = put_task_lem busy Task.download two_tasks-IsValid

set_event_example :
    let (r, c') = set_event stb busy (pos 3) (pos 0) (some (b'n' ∷ [])) in
    (r ≡ pos 0)
    × (get_or c'.event.event_flag 3 0 ≡ 0)
    × (c'.event.command_key ≡ b'n' ∷ [])
    × (c' ≡ record busy { event = c'.event })
set_event_example =
    set_event_lem stb stb-IsSane busy 3 0 3 (some (b'n' ∷ [])) refl (omega arith) (omega arith)

abbrev story : List Invariant.Call
story =
    Invariant.Call.sets_event (pos 0) (pos 1) (some (b'k' ∷ []))
    ∷ Invariant.Call.sets_event (negsuc 0) (pos 1) Option.none
    ∷ Invariant.Call.puts_task Task.none
    ∷ Invariant.Call.puts_task Task.session
    ∷ Invariant.Call.puts_request (pos 9)
    ∷ Invariant.Call.puts_inform (b'!' ∷ [])
    ∷ Invariant.Call.picks_task
    ∷ []

steps-IsControl_example : IsControl stb (steps stb (init stb) story)
steps-IsControl_example = steps-IsControl stb stb-IsSane story
