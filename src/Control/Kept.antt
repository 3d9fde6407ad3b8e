-- ===== src/Control/Kept.antt =====
-- What each operation of tr069_control.c keeps.
use mathlib.Core.Path.{subst}
use tr.Base.{
  ◌-◌, ◌<◌, ◌≤◌, ◌≡◌, refl, sym, ◌⊎◌, inl, inr, true, Option, List, [], ◌∷◌, ◌++◌, arith, length,
  length-append, ltb, leb, ◌||◌, ℤ, pos, minus_one, between, All, All-snoc, Bool-cases,
  Option-cases,
}
use tr.Platform.{Platform, Bytes, IsSane}
use tr.Ring.Fifo.{IsValid, to_list-cleared, cleared-IsValid, put_cases, pick_cases}
use tr.Control.{
  Control, InformParameter, Task, is_valid_task, set_event, clear_event, put_task, pick_task,
  clear_task, put_request, pick_request, clear_request, put_inform_parameter,
  clear_inform_parameters,
}
use tr.Control.Init.{init}
use tr.Control.Events.{IsEvent, set_event-IsEvent, clear_event-IsEvent}
use tr.Control.Queues.{tasks, requests}

module _ (P : Platform) where
  abbrev AreTasks : List Task → Type 0
  AreTasks ts = All (λ t. is_valid_task t ≡ true) ts

  abbrev AreRequests : List ℤ → Type 0
  AreRequests rs = All (λ r. between P.rpc_acs_inform P.rpc_acs_transfer_complete r ≡ true) rs

  -- The counter of the events is right, both queues are inside their arrays and hold only what
  -- their put functions let in, and the rows fit in their table.
  pub record IsControl (c : Control) : Type 0 where
    pub event_ok : IsEvent P.event_number c.event
    pub tasks_ok : IsValid c.task_queue
    pub requests_ok : IsValid c.request_queue
    pub proper_tasks : AreTasks (tasks c)
    pub proper_requests : AreRequests (requests c)
    pub few_rows : length c.inform_parameters ≤ P.max_inform_param_num

module _ (P : Platform) (s : IsSane P) where
  pub init-IsControl : IsControl P (init P)
  unfolding init clear_inform_parameters clear_request clear_task
  init-IsControl = record {
    event_ok = clear_event-IsEvent P s _;
    tasks_ok = cleared-IsValid Task.session;
    requests_ok = cleared-IsValid (pos 0);
    proper_tasks = subst (AreTasks P) (sym (to_list-cleared Task.session)) tt;
    proper_requests = subst (AreRequests P) (sym (to_list-cleared (pos 0))) tt;
    few_rows = omega arith;
  }

  set_event-frame :
      (c : Control) (index value : ℤ) (key : Option Bytes)
      → let c' = (set_event P c index value key).1 in c' ≡ record c { event = c'.event }
  unfolding set_event
  set_event-frame c index value key = ground arith

  pub put_task-IsControl : (c : Control) (t : Task) → IsControl P c → IsControl P (put_task c t).1
  unfolding put_task
  put_task-IsControl c t w = elim (Bool-cases (is_valid_task t)) [
    | inr bad ↦ rw bad w
    | inl good ↦ elim (put_cases c.task_queue t w.tasks_ok) [
      | inl (e, _) ↦ rw (good, e) w
      | inr (q, e, _, l, v) ↦
          rw (good, e)
            (record {
              event_ok = w.event_ok;
              tasks_ok = v;
              requests_ok = w.requests_ok;
              proper_tasks = rw l (All-snoc _ (tasks c) t w.proper_tasks good);
              proper_requests = w.proper_requests;
              few_rows = w.few_rows;
            })
    ]
  ]

  pub pick_task-IsControl : (c : Control) → IsControl P c → IsControl P (pick_task c).1
  unfolding pick_task
  pick_task-IsControl c w = elim (pick_cases c.task_queue w.tasks_ok) [
    | inl (e, p) ↦ rw (p, pick_task) w
    | inr (x, xs, q, e, p, l, v) ↦
        rw (p, pick_task)
          (record {
            event_ok = w.event_ok;
            tasks_ok = v;
            requests_ok = w.requests_ok;
            proper_tasks = rw l (subst (AreTasks P) e w.proper_tasks).1;
            proper_requests = w.proper_requests;
            few_rows = w.few_rows;
          })
  ]

  pub put_request-IsControl :
      (c : Control) (r : ℤ) → IsControl P c → IsControl P (put_request P c r).1
  unfolding put_request
  put_request-IsControl c r w =
      elim (Bool-cases (between P.rpc_acs_inform P.rpc_acs_transfer_complete r)) [
        | inr bad ↦ rw bad w
        | inl good ↦ elim (put_cases c.request_queue r w.requests_ok) [
          | inl (e, _) ↦ rw (good, e) w
          | inr (q, e, _, l, v) ↦
              rw (good, e)
                (record {
                  event_ok = w.event_ok;
                  tasks_ok = w.tasks_ok;
                  requests_ok = v;
                  proper_tasks = w.proper_tasks;
                  proper_requests = rw l (All-snoc _ (requests c) r w.proper_requests good);
                  few_rows = w.few_rows;
                })
        ]
      ]

  pub pick_request-IsControl : (c : Control) → IsControl P c → IsControl P (pick_request c).1
  unfolding pick_request
  pick_request-IsControl c w = elim (pick_cases c.request_queue w.requests_ok) [
    | inl (e, p) ↦ rw (p, pick_request) w
    | inr (x, xs, q, e, p, l, v) ↦
        rw (p, pick_request)
          (record {
            event_ok = w.event_ok;
            tasks_ok = w.tasks_ok;
            requests_ok = v;
            proper_tasks = w.proper_tasks;
            proper_requests = rw l (subst (AreRequests P) e w.proper_requests).1;
            few_rows = w.few_rows;
          })
  ]

  -- A code makes one row behind the others, while there is room, or is refused.
  put_inform_cases :
      (c : Control) (code : Bytes)
      → (put_inform_parameter P c code ≡ (minus_one, c))
        ⊎ ((r : InformParameter) × (length c.inform_parameters < P.max_inform_param_num)
            × (put_inform_parameter P c code
                ≡ (pos 0, record c { inform_parameters = c.inform_parameters ++ (r ∷ []) })))
  unfolding put_inform_parameter
  put_inform_cases c [] = inl refl
  put_inform_cases c (x ∷ xs) = elim (Bool-cases (ltb x b'!' || leb P.param_num (x - b'!'))) [
    | inl bad ↦ rw bad (inl refl)
    | inr good ↦ elim (Option-cases (P.parameter_name (x - b'!'))) [
      | inl unnamed ↦ rw (good, unnamed) (inl refl)
      | inr (name, e) ↦
          elim (Bool-cases (leb P.max_inform_param_num (length c.inform_parameters))) [
            | inl full ↦ rw (good, e, full) (inl refl)
            | inr room ↦ rw (good, e, room) (inr (_, ground arith, refl))
          ]
    ]
  ]

  pub put_inform-IsControl :
      (c : Control) (code : Bytes) → IsControl P c → IsControl P (put_inform_parameter P c code).1
  put_inform-IsControl c code w = elim (put_inform_cases c code) [
    | inl e ↦ rw e w
    | inr (r, room, e) ↦ rw e (record {
      event_ok = w.event_ok;
      tasks_ok = w.tasks_ok;
      requests_ok = w.requests_ok;
      proper_tasks = w.proper_tasks;
      proper_requests = w.proper_requests;
      few_rows = omega (arith, length-append c.inform_parameters (r ∷ []));
    })
  ]

  pub set_event-IsControl :
      (c : Control) (index value : ℤ) (key : Option Bytes)
      → IsControl P c
      → IsControl P (set_event P c index value key).1
  set_event-IsControl c index value key w = rw (set_event-frame c index value key) (record {
    event_ok = set_event-IsEvent P s c index value key w.event_ok;
    tasks_ok = w.tasks_ok;
    requests_ok = w.requests_ok;
    proper_tasks = w.proper_tasks;
    proper_requests = w.proper_requests;
    few_rows = w.few_rows;
  })

  pub clear_event-IsControl : (c : Control) → IsControl P c → IsControl P (clear_event P c).1
  unfolding clear_event
  clear_event-IsControl c w = record {
    event_ok = clear_event-IsEvent P s c;
    tasks_ok = w.tasks_ok;
    requests_ok = w.requests_ok;
    proper_tasks = w.proper_tasks;
    proper_requests = w.proper_requests;
    few_rows = w.few_rows;
  }

  pub clear_task-IsControl : (c : Control) → IsControl P c → IsControl P (clear_task c).1
  unfolding clear_task
  clear_task-IsControl c w = record {
    event_ok = w.event_ok;
    tasks_ok = cleared-IsValid Task.session;
    requests_ok = w.requests_ok;
    proper_tasks = subst (AreTasks P) (sym (to_list-cleared Task.session)) tt;
    proper_requests = w.proper_requests;
    few_rows = w.few_rows;
  }

  pub clear_request-IsControl : (c : Control) → IsControl P c → IsControl P (clear_request c).1
  unfolding clear_request
  clear_request-IsControl c w = record {
    event_ok = w.event_ok;
    tasks_ok = w.tasks_ok;
    requests_ok = cleared-IsValid (pos 0);
    proper_tasks = w.proper_tasks;
    proper_requests = subst (AreRequests P) (sym (to_list-cleared (pos 0))) tt;
    few_rows = w.few_rows;
  }

  pub clear_inform-IsControl :
      (c : Control) → IsControl P c → IsControl P (clear_inform_parameters c).1
  unfolding clear_inform_parameters
  clear_inform-IsControl c w = record {
    event_ok = w.event_ok;
    tasks_ok = w.tasks_ok;
    requests_ok = w.requests_ok;
    proper_tasks = w.proper_tasks;
    proper_requests = w.proper_requests;
    few_rows = omega arith;
  }
