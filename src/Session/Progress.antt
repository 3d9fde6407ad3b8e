-- ===== src/Session/Progress.antt =====
-- The rounds of tr069_session_main that talk to the server (tr069_session.c) each use up an answer.
use tr.Base.{
  ℕ, zero, suc, ◌+◌, ◌*◌, ◌<◌, ◌≤◌, ◌≡◌, ◌≢◌, inl, inr, refl, sym, ap, ◌∙◌, Bool, true, false,
  arith, Option, some, List, [], ◌∷◌, length, if◌then◌else◌, ℤ, pos, negsuc, is_num, Bool-cases,
  List-cases, Option-cases,
}
use mathlib.Core.Path.{subst}
use tr.Platform.{Platform}
use tr.Ring
use tr.Ring.Fifo.{IsValid, length-to_list}
use tr.Control.{
  Control, Event, InformParameter, Task, is_valid_task, put_task, pick_task, set_event,
}
use tr.Control
use tr.Control.Queues.{tasks}
use tr.Rpc.{
  Run, Soap, SessionStatus, Method, build_inform, build_empty, build_transfer_complete, send,
  deal_recv,
}
use tr.Rpc.Kept.{Keeps, KeptIf, Kept, ReadsNull, deal_recv-Kept}
use tr.Session.{
  Round, or_finish, dealt, Device, inform_round, request_round, response_round, with_status,
  informed, requested, answered,
}

-- In the loop.
pub record IsLive (r : Run) : Type 0 where
  pub alive : r.status ≢ SessionStatus.stop
  pub ring : IsValid r.control.task_queue

-- A diagnosis puts one more task in the queue.
abbrev pub weight : Task → ℕ
weight Task.ping = 2
weight Task.tracert = 2
weight _ = 1

abbrev pub load : List Task → ℕ
load [] = 0
load (t ∷ ts) = weight t + load ts

abbrev pub extra : SessionStatus → ℕ → ℕ
extra SessionStatus.execute n = n + 1
extra _ n = 0

abbrev pub measure : Run → ℕ
measure r = 64 * length r.replies + extra r.status (load (tasks r.control))

-- A round makes progress, where `F` holds of the runs at which the code may read through NULL.
abbrev pub Progress : (Run → Type 0) → ℕ → Round → Type 0
Progress F m (Round.finish r) = Unit {0}
Progress F m (Round.fault r) = F r
Progress F m (Round.next r) = IsLive r × (measure r < m)

load-le : (ts : List Task) → load ts ≤ 2 * length ts
load-le [] = omega arith
load-le (t ∷ ts) = omega (arith, load-le ts, weight-le t)
  where
    weight-le : (t : Task) → weight t ≤ 2
    weight-le t = ground arith

load-bound : (c : Control) → load (tasks c) ≤ 30
load-bound c = omega (arith, load-le (tasks c), length-to_list c.task_queue)

pub extra-bound : (s : SessionStatus) (n : ℕ) → extra s n ≤ n + 1
extra-bound s n = ground arith

-- One answer less, whatever happened to the tasks.
shorter :
    (F : Run → Type 0) (r : Run) (m : ℕ)
    → IsLive r
    → 64 * suc (length r.replies) ≤ m
    → Progress F m (Round.next r)
shorter F r m w h =
    (w, omega (arith, extra-bound r.status (load (tasks r.control)), load-bound r.control))

if-Progress :
    (F : Run → Type 0) (m : ℕ) (b : Bool) (x y : Round)
    → Progress F m x
    → Progress F m y
    → Progress F m (if b then x else y)
if-Progress F m true x y p q = p
if-Progress F m false x y p q = q

-- A send that succeeds uses up one answer.
or_finish-send :
    (F : Run → Type 0) (m : ℕ) (r : Run) (rest : Run → Round)
    → ((r' : Run)
        → suc (length r'.replies) ≡ length r.replies
        → r'.control ≡ r.control
        → r'.status ≡ r.status
        → Progress F m (rest r'))
    → Progress F m (or_finish (send r) rest)
unfolding send
or_finish-send F m r rest k = elim (List-cases r.replies) [
  | inl e ↦ rw (e, send) tt
  | inr (x, xs, e) ↦ rw (e, send) (k _ (ap length (sym e)) refl refl)
]

module _ (P : Platform) (L : Soap) (serve : Method → L.Doc → Run → Option (ℤ × Run))
    (keeps : Keeps L serve) (D : Device) where
  status-Progress :
      (m : ℕ) (s : SessionStatus) (r : Run)
      → IsValid r.control.task_queue
      → s ≢ SessionStatus.stop
      → 64 * suc (length r.replies) ≤ m
      → Progress (ReadsNull P L serve) m (Round.next (with_status s r))
  status-Progress m s r v a h =
      shorter (ReadsNull P L serve) (with_status s r) m (record { alive = a; ring = v }) h

  informed-Progress :
      (m : ℕ) (ret : ℤ) (r : Run)
      → IsLive r
      → 64 * suc (length r.replies) ≤ m
      → Progress (ReadsNull P L serve) m (informed P (ret, r))
  unfolding informed
  informed-Progress m ret r w h =
      if-Progress (ReadsNull P L serve) m (is_num ret 0)
        (Round.next (with_status SessionStatus.request r))
        (if is_num ret P.fault_acs_retry_request then Round.next r else Round.finish r)
        (status-Progress m SessionStatus.request r w.ring (λ e. ground arith) h)
        (if-Progress (ReadsNull P L serve) m (is_num ret P.fault_acs_retry_request) (Round.next r)
          (Round.finish r) (shorter (ReadsNull P L serve) r m w h) tt)

  -- Dealing with an answer returns, with what it must leave alone, or reads through NULL.
  dealt-Progress :
      (m : ℕ) (r : Run) (rest : ℤ → Run → Round)
      → ((ret : ℤ) (r1 : Run) → Kept r r1 → Progress (ReadsNull P L serve) m (rest ret r1))
      → Progress (ReadsNull P L serve) m (dealt r (deal_recv P L serve r) rest)
  dealt-Progress m r rest k = go (deal_recv P L serve r) refl (deal_recv-Kept P L serve keeps r)
    where
      go :
          (o : Option (ℤ × Run))
          → deal_recv P L serve r ≡ o
          → KeptIf r o
          → Progress (ReadsNull P L serve) m (dealt r o rest)
      go Option.none e _ = e
      go (some (ret, r1)) e q = k ret r1 q

  pub inform_round-Progress :
      (r : Run) (event : Event) (rows : List InformParameter)
      → IsLive r
      → Progress
          (ReadsNull P L serve)
          (64 * length r.replies)
          (inform_round P L serve D r event rows)
  unfolding inform_round build_inform
  inform_round-Progress r event rows w =
      elim (Bool-cases (is_num (Control.is_event_empty P event) 0)) [
        | inr none ↦ rw none tt
        | inl some_event ↦ rw some_event (
            or_finish-send (ReadsNull P L serve) (64 * length r.replies) _
              (λ r2. dealt r2 (deal_recv P L serve r2) λ ret r3. informed P (ret, r3))
              (λ r2 h c s.
                dealt-Progress (64 * length r.replies) r2 (λ ret r3. informed P (ret, r3))
                  λ ret r3 k.
                    informed-Progress (64 * length r.replies) ret r3
                      (record {
                        alive = λ e. w.alive (sym s ∙ sym k.same_status ∙ e);
                        ring =
                            k.ring (subst (λ (x : Control). IsValid x.task_queue) (sym c) w.ring);
                      })
                      (omega (arith, h, ap length k.same_replies))))
      ]

  pick_request-tasks : (c : Control) → (Control.pick_request c).1.task_queue ≡ c.task_queue
  unfolding Control.pick_request
  pick_request-tasks c = elim (Option-cases (Ring.pick c.request_queue)) [
    | inl e ↦ rw (e, Control.pick_request) refl
    | inr (x, e) ↦ rw (e, Control.pick_request) refl
  ]

  -- What follows the send of a request.
  requested-Progress :
      (m : ℕ) (request : ℤ) (r3 : Run)
      → IsLive r3
      → 64 * suc (length r3.replies) ≤ m
      → Progress (ReadsNull P L serve) m (requested request r3)
  unfolding requested
  requested-Progress m (pos n) r3 w h = shorter (ReadsNull P L serve) r3 m w h
  requested-Progress m (negsuc zero) r3 w h =
      status-Progress m SessionStatus.response r3 w.ring (λ e. ground arith) h
  requested-Progress m (negsuc (suc n)) r3 w h = shorter (ReadsNull P L serve) r3 m w h

  pub request_round-Progress :
      (r : Run)
      → IsLive r
      → Progress (ReadsNull P L serve) (64 * length r.replies) (request_round P L serve D r)
  unfolding request_round build_empty build_transfer_complete
  request_round-Progress r w =
      elim (Bool-cases (is_num (Control.pick_request r.control).0 P.rpc_acs_transfer_complete)) [
        | inl complete ↦ rw complete (
            or_finish-send (ReadsNull P L serve) (64 * length r.replies) _
              (requested (Control.pick_request r.control).0)
              λ r3 h c s.
                requested-Progress (64 * length r.replies) (Control.pick_request r.control).0 r3
                  (record {
                    alive = λ e. w.alive (sym s ∙ e);
                    ring =
                        subst IsValid
                          (sym
                            (ap (λ (x : Control). x.task_queue) c ∙ pick_request-tasks r.control))
                          w.ring;
                  })
                  (omega (arith, h)))
        | inr other ↦ rw other (
            or_finish-send (ReadsNull P L serve) (64 * length r.replies) _
              (requested (Control.pick_request r.control).0)
              λ r3 h c s.
                requested-Progress (64 * length r.replies) (Control.pick_request r.control).0 r3
                  (record {
                    alive = λ e. w.alive (sym s ∙ e);
                    ring =
                        subst IsValid
                          (sym
                            (ap (λ (x : Control). x.task_queue) c ∙ pick_request-tasks r.control))
                          w.ring;
                  })
                  (omega (arith, h)))
      ]

  -- What follows the dealing of an order of the server.
  answered-Progress :
      (m : ℕ) (ret : ℤ) (r1 : Run)
      → IsLive r1
      → 64 * length r1.replies ≤ m
      → Progress (ReadsNull P L serve) m (answered ret r1)
  unfolding answered
  answered-Progress m (pos zero) r1 w h =
      or_finish-send (ReadsNull P L serve) m r1
        (λ r2. Round.next (with_status SessionStatus.execute r2))
        λ r2 l c s.
          status-Progress m SessionStatus.execute r2
            (subst (λ (x : Control). IsValid x.task_queue) (sym c) w.ring) (λ e. ground arith)
            (omega (arith, l))
  answered-Progress m (negsuc zero) r1 w h = tt
  answered-Progress m (pos (suc n)) r1 w h =
      or_finish-send (ReadsNull P L serve) m r1 Round.next λ r2 l c s.
        shorter (ReadsNull P L serve) r2 m
          (record {
            alive = λ e. w.alive (sym s ∙ e);
            ring = subst (λ (x : Control). IsValid x.task_queue) (sym c) w.ring;
          })
          (omega (arith, l))
  answered-Progress m (negsuc (suc n)) r1 w h =
      or_finish-send (ReadsNull P L serve) m r1 Round.next λ r2 l c s.
        shorter (ReadsNull P L serve) r2 m
          (record {
            alive = λ e. w.alive (sym s ∙ e);
            ring = subst (λ (x : Control). IsValid x.task_queue) (sym c) w.ring;
          })
          (omega (arith, l))

  pub response_round-Progress :
      (r : Run)
      → IsLive r
      → Progress (ReadsNull P L serve) (64 * length r.replies) (response_round P L serve D r)
  unfolding response_round
  response_round-Progress r w = dealt-Progress (64 * length r.replies) r answered λ ret r1 k.
      answered-Progress (64 * length r.replies) ret r1
        (record { alive = λ e. w.alive (sym k.same_status ∙ e); ring = k.ring w.ring })
        (omega (arith, ap length k.same_replies))
