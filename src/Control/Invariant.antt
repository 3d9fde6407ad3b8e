-- ===== src/Control/Invariant.antt =====
-- What the operations of tr069_control.c keep, in any order of calls.
use tr.Base.{Option, List, [], ◌∷◌, ℤ}
use tr.Platform.{Platform, Bytes, IsSane}
use tr.Control.{
  Control, Task, set_event, clear_event, put_task, pick_task, clear_task, put_request, pick_request,
  clear_request, put_inform_parameter, clear_inform_parameters,
}
use tr.Control.Init.{init}
use tr.Control.Kept.{
  IsControl, init-IsControl, put_task-IsControl, pick_task-IsControl, put_request-IsControl,
  pick_request-IsControl, put_inform-IsControl, set_event-IsControl, clear_event-IsControl,
  clear_task-IsControl, clear_request-IsControl, clear_inform-IsControl,
}

-- The calls that change a control manager, with their arguments.
pub data Call : Type 0 where
  sets_event : ℤ → ℤ → Option Bytes → Call
  clears_event : Call
  puts_task : Task → Call
  picks_task clears_task : Call
  puts_request : ℤ → Call
  picks_request clears_request : Call
  puts_inform : Bytes → Call
  clears_inform : Call

module _ (P : Platform) where
  abbrev pub step : Control → Call → Control
  step c (sets_event index value key) = (set_event P c index value key).1
  step c clears_event = (clear_event P c).1
  step c (puts_task t) = (put_task c t).1
  step c picks_task = (pick_task c).1
  step c clears_task = (clear_task c).1
  step c (puts_request r) = (put_request P c r).1
  step c picks_request = (pick_request c).1
  step c clears_request = (clear_request c).1
  step c (puts_inform code) = (put_inform_parameter P c code).1
  step c clears_inform = (clear_inform_parameters c).1

  abbrev pub steps : Control → List Call → Control
  steps c [] = c
  steps c (x ∷ xs) = steps (step c x) xs

  module _ (s : IsSane P) where
    pub step-IsControl : (c : Control) (x : Call) → IsControl P c → IsControl P (step c x)
    step-IsControl c (sets_event index value key) w = set_event-IsControl P s c index value key w
    step-IsControl c clears_event w = clear_event-IsControl P s c w
    step-IsControl c (puts_task t) w = put_task-IsControl P s c t w
    step-IsControl c picks_task w = pick_task-IsControl P s c w
    step-IsControl c clears_task w = clear_task-IsControl P s c w
    step-IsControl c (puts_request r) w = put_request-IsControl P s c r w
    step-IsControl c picks_request w = pick_request-IsControl P s c w
    step-IsControl c clears_request w = clear_request-IsControl P s c w
    step-IsControl c (puts_inform code) w = put_inform-IsControl P s c code w
    step-IsControl c clears_inform w = clear_inform-IsControl P s c w

    steps_from : (c : Control) (xs : List Call) → IsControl P c → IsControl P (steps c xs)
    steps_from c [] w = w
    steps_from c (x ∷ xs) w = steps_from (step c x) xs (step-IsControl c x w)

    -- After tr069_control_init, no sequence of calls with any arguments breaks the manager: the
    -- event counter is the number of flags set, the queues' indices stay in their arrays, no value
    -- that a put function must refuse waits in them, and the rows fit in their table.
    pub steps-IsControl : (xs : List Call) → IsControl P (steps (init P) xs)
    steps-IsControl xs = steps_from (init P) xs (init-IsControl P s)
