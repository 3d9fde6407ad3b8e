-- ===== src/Session/Trace.antt =====
-- The list of the messages sent, as a session adds to it (tr069_session.c).
use mathlib.Core.List.{append-nil, append_assoc}
use tr.Base.{
  zero, suc, ◌≡◌, ◌⊎◌, inl, inr, sym, ap, ap₂, ◌∙◌, Bool, true, false, Option, some, List, [], ◌∷◌,
  ◌++◌, if◌then◌else◌, ℤ, pos, negsuc, is_num, List-cases,
}
use tr.Platform.{Platform}
use tr.Control.{Event, InformParameter}
use tr.Rpc.{Run, SessionStatus, Message, send}
use tr.Rpc.Names.{RpcType}
use tr.Session.{Round, Outcome, or_finish, with_status, informed, requested, answered}

abbrev pub Trace : Type 0
Trace = List (RpcType × Message)

-- `old` went out first.
abbrev pub Begins : Trace → Trace → Type 0
Begins old new = (more : Trace) × (new ≡ old ++ more)

abbrev pub Has : Trace → Round → Type 0
Has old (Round.finish r) = Begins old r.sent
Has old (Round.fault r) = Begins old r.sent
Has old (Round.next r) = Begins old r.sent

-- What a session adds: nothing, or its inform and whatever follows.
abbrev pub Opens : Event → List InformParameter → Trace → Trace → Type 0
Opens event rows old new =
    (new ≡ old)
    ⊎ ((rest : Trace) × (new ≡ old ++ ((RpcType.acs_inform, Message.inform_of event rows) ∷ rest)))

abbrev pub OpensRound : Trace → Event → List InformParameter → Round → Type 0
OpensRound old event rows (Round.finish r) = Opens event rows old r.sent
OpensRound old event rows (Round.fault r) = Opens event rows old r.sent
OpensRound old event rows (Round.next r) =
    Begins (old ++ ((RpcType.acs_inform, Message.inform_of event rows) ∷ [])) r.sent

-- What a session sent, however it ended.
abbrev pub sent_by : Outcome → Trace
sent_by (Outcome.stopped r) = r.sent
sent_by (Outcome.faulted r) = r.sent

abbrev pub Result : (Trace → Type 0) → Option Outcome → Type 0
Result Q Option.none = Unit {0}
Result Q (some o) = Q (sent_by o)

pub Begins-snoc :
    (old new : Trace) (m : RpcType × Message) → Begins old new → Begins old (new ++ (m ∷ []))
Begins-snoc old new m (more, e) =
    (more ++ (m ∷ []), ap (λ t. t ++ (m ∷ [])) e ∙ append_assoc old more (m ∷ []))

pub if-Has :
    (old : Trace) (b : Bool) (x y : Round) → Has old x → Has old y → Has old (if b then x else y)
if-Has old true x y p q = p
if-Has old false x y p q = q

pub or_finish-send-Has :
    (old : Trace) (r : Run) (rest : Run → Round)
    → Begins old r.sent
    → ((r' : Run) → Begins old r'.sent → Has old (rest r'))
    → Has old (or_finish (send r) rest)
unfolding send
or_finish-send-Has old r rest b k = elim (List-cases r.replies) [
  | inl e ↦ rw (e, send) b
  | inr (x, xs, e) ↦ rw (e, send) (k _ (Begins-snoc old r.sent (r.req_to_acs, r.xml_buffer) b))
]

pub informed-Has :
    (P : Platform) (old : Trace) (ret : ℤ) (r : Run)
    → Begins old r.sent
    → Has old (informed P (ret, r))
unfolding informed
informed-Has P old ret r b =
    if-Has old (is_num ret 0) (Round.next (with_status SessionStatus.request r))
      (if is_num ret P.fault_acs_retry_request then Round.next r else Round.finish r) b
      (if-Has old (is_num ret P.fault_acs_retry_request) (Round.next r) (Round.finish r) b b)

pub requested-Has : (old : Trace) (z : ℤ) (r : Run) → Begins old r.sent → Has old (requested z r)
unfolding requested
requested-Has old (pos n) r b = b
requested-Has old (negsuc zero) r b = b
requested-Has old (negsuc (suc n)) r b = b

pub answered-Has : (old : Trace) (z : ℤ) (r : Run) → Begins old r.sent → Has old (answered z r)
unfolding answered
answered-Has old (pos zero) r b =
    or_finish-send-Has old r (λ r2. Round.next (with_status SessionStatus.execute r2)) b
      (λ r2 b2. b2)
answered-Has old (negsuc zero) r b = b
answered-Has old (pos (suc n)) r b = or_finish-send-Has old r Round.next b (λ r2 b2. b2)
answered-Has old (negsuc (suc n)) r b = or_finish-send-Has old r Round.next b (λ r2 b2. b2)

pub Opens-weak :
    (event : Event) (rows : List InformParameter) (old new : Trace)
    → Begins (old ++ ((RpcType.acs_inform, Message.inform_of event rows) ∷ [])) new
    → Opens event rows old new
Opens-weak event rows old new (more, e) = inr (more, e ∙ append_assoc old _ more)

pub Opens-Round :
    (event : Event) (rows : List InformParameter) (old : Trace) (x : Round)
    → Has (old ++ ((RpcType.acs_inform, Message.inform_of event rows) ∷ [])) x
    → OpensRound old event rows x
Opens-Round event rows old (Round.finish r) b = Opens-weak event rows old r.sent b
Opens-Round event rows old (Round.fault r) b = Opens-weak event rows old r.sent b
Opens-Round event rows old (Round.next r) b = b

pub or_finish-send-Opens :
    (old : Trace) (r : Run) (event : Event) (rows : List InformParameter) (rest : Run → Round)
    → r.sent ≡ old
    → r.req_to_acs ≡ RpcType.acs_inform
    → r.xml_buffer ≡ Message.inform_of event rows
    → ((new : Trace) (r' : Run) → Begins new r'.sent → Has new (rest r'))
    → OpensRound old event rows (or_finish (send r) rest)
unfolding send
or_finish-send-Opens old r event rows rest s t x k = elim (List-cases r.replies) [
  | inl e ↦ rw (e, send) (inl s)
  | inr (reply, replies, e) ↦
      rw (e, send)
        (Opens-Round event rows old _
          (k _ _ ([], ap₂ (λ o m. o ++ (m ∷ [])) s (λ i. (t i, x i)) ∙ sym (append-nil _))))
]
