-- ===== src/Control/Queues.antt =====
-- The task and the request queue of tr069_control.c as first-in first-out lists.
use tr.Base.{
  ◌<◌, ◌≡◌, refl, ap, inl, inr, Bool, true, ◌&&◌, arith, List, [], ◌∷◌, ◌++◌, length, ltb,
  if◌then◌else◌, ℤ, pos, minus_one, between, Bool-cases,
}
use tr.Platform.{Platform}
use tr.Ring.Fifo.{
  IsValid, to_list, length-to_list, put_cases, pick_cases, put-ok, pick-ok, pick-empty,
}
use tr.Control.{Control, Task, is_valid_task, put_task, pick_task, put_request, pick_request}

abbrev pub tasks : Control → List Task
tasks c = to_list c.task_queue

abbrev pub requests : Control → List ℤ
requests c = to_list c.request_queue

-- What a put function answers and leaves waiting.
abbrev pub put_result : {A : Type 0} → Bool → List A → A → ℤ × List A
put_result accepted xs x =
    if accepted && ltb (length xs) 15 then (pos 0, xs ++ (x ∷ [])) else (minus_one, xs)

-- What a pick function answers and leaves waiting; `d` answers for an empty queue.
abbrev pub pick_result : {A : Type 0} → A → List A → A × List A
pick_result d [] = (d, [])
pick_result d (x ∷ xs) = (x, xs)

-- tr069_control_put_task appends a task proper to fewer than fifteen waiting ones and returns 0.
-- For any other value, or a full queue, it returns -1. Nothing but the task queue changes.
pub put_task_lem :
    (c : Control) (t : Task)
    → IsValid c.task_queue
    → let (r, c') = put_task c t in
      ((r, tasks c') ≡ put_result (is_valid_task t) (tasks c) t)
      × (c' ≡ record c { task_queue = c'.task_queue })
      × IsValid c'.task_queue
unfolding put_task
put_task_lem c t v = elim (Bool-cases (is_valid_task t)) [
  | inr bad ↦ rw bad (refl, refl, v)
  | inl good ↦ elim (put_cases c.task_queue t v) [
    | inl (e, full) ↦ rw (good, e, full) (refl, refl, v)
    | inr (q, e, room, l, v') ↦ rw (good, e, room) (ap (λ xs. (pos 0, xs)) l, refl, v')
  ]
]

-- tr069_control_pick_task takes the oldest task, TR069_TASK_NONE if there is none, and changes
-- nothing else.
pub pick_task_lem :
    (c : Control)
    → IsValid c.task_queue
    → let (t, c') = pick_task c in
      ((t, tasks c') ≡ pick_result Task.none (tasks c))
      × (c' ≡ record c { task_queue = c'.task_queue })
      × IsValid c'.task_queue
unfolding pick_task
pick_task_lem c v = elim (pick_cases c.task_queue v) [
  | inl (e, p) ↦ rw (p, pick_task, e) (refl, refl, v)
  | inr (x, xs, q, e, p, l, v') ↦ rw (p, pick_task, e) (ap (λ ys. (x, ys)) l, refl, v')
]

-- tr069_control_put_request accepts what lies above TR069_RPC_ACS_INFORM and not above
-- TR069_RPC_ACS_TRANSFER_COMPLETE while fewer than fifteen requests wait, and returns -1 otherwise.
-- Nothing but the request queue changes.
pub put_request_lem :
    (P : Platform) (c : Control) (request : ℤ)
    → IsValid c.request_queue
    → let (r, c') = put_request P c request in
      ((r, requests c')
        ≡ put_result
            (between P.rpc_acs_inform P.rpc_acs_transfer_complete request)
            (requests c)
            request)
      × (c' ≡ record c { request_queue = c'.request_queue })
      × IsValid c'.request_queue
unfolding put_request
put_request_lem P c request v =
    elim (Bool-cases (between P.rpc_acs_inform P.rpc_acs_transfer_complete request)) [
      | inr bad ↦ rw bad (refl, refl, v)
      | inl good ↦ elim (put_cases c.request_queue request v) [
        | inl (e, full) ↦ rw (good, e, full) (refl, refl, v)
        | inr (q, e, room, l, v') ↦ rw (good, e, room) (ap (λ xs. (pos 0, xs)) l, refl, v')
      ]
    ]

-- tr069_control_pick_request takes the oldest request, -1 if there is none, and changes nothing
-- else.
pub pick_request_lem :
    (c : Control)
    → IsValid c.request_queue
    → let (r, c') = pick_request c in
      ((r, requests c') ≡ pick_result minus_one (requests c))
      × (c' ≡ record c { request_queue = c'.request_queue })
      × IsValid c'.request_queue
unfolding pick_request
pick_request_lem c v = elim (pick_cases c.request_queue v) [
  | inl (e, p) ↦ rw (p, pick_request, e) (refl, refl, v)
  | inr (x, xs, q, e, p, l, v') ↦ rw (p, pick_request, e) (ap (λ ys. (x, ys)) l, refl, v')
]

-- The same facts, for a client that knows what waits.
pub pick_request-empty :
    (c : Control) → IsValid c.request_queue → requests c ≡ [] → pick_request c ≡ (minus_one, c)
unfolding pick_request
pick_request-empty c v e = rw (pick-empty c.request_queue v e, pick_request)

pub pick_request-cons :
    (c : Control) (r : ℤ) (rs : List ℤ)
    → IsValid c.request_queue
    → requests c ≡ r ∷ rs
    → (c' : Control) × (pick_request c ≡ (r, c'))
      × (requests c' ≡ rs)
      × (c' ≡ record c { request_queue = c'.request_queue })
      × IsValid c'.request_queue
unfolding pick_request
pick_request-cons c r rs v e =
    let (q, p, l, v') = pick-ok c.request_queue r rs v e in
    (record c { request_queue = q }, rw (p, pick_request), l, refl, v')

pub put_request-ok :
    (P : Platform) (c : Control) (r : ℤ)
    → IsValid c.request_queue
    → between P.rpc_acs_inform P.rpc_acs_transfer_complete r ≡ true
    → length (requests c) < 15
    → (c' : Control) × (put_request P c r ≡ (pos 0, c'))
      × (requests c' ≡ requests c ++ (r ∷ []))
      × (c' ≡ record c { request_queue = c'.request_queue })
      × IsValid c'.request_queue
unfolding put_request
put_request-ok P c r v good h =
    let (q, p, l, v', _) =
      put-ok c.request_queue r v (λ full. omega (arith, length-to_list c.request_queue)) in
    (record c { request_queue = q }, rw (good, p, put_request), l, refl, v')
