-- ===== src/Stun/Calm.antt =====
-- tr111_control_recvfrom (tr111_control.c): what a packet does to the flag for the attribute
-- BINDING-CHANGE.
use mathlib.Core.Path.{subst}
use tr.Base.{
  ℕ, zero, suc, ◌≡◌, ◌≢◌, refl, sym, ap, ◌∙◌, inl, inr, Bool, true, false, ◌&&◌, Option, none, some,
  arith, length, leb, get_or, ◌==◌, if◌then◌else◌, ℤ, pos, negsuc, All, Bool-cases, ==_false,
}
use tr.Platform.{Platform, Bytes}
use tr.Interface.{Indexes, Host}
use tr.Stun.{Crypto, StunIndexes, StunStatus, Client}
use tr.Stun.Parse.{received, parse_message, parse_received}
use tr.Stun.Request.{
  Result, ok, err, fault, Request, check_request, accept_request, judge_request, judge_uri, cut_uri,
  read_request, parse_udp_connection_request,
}
use tr.Stun.Receive.{wait_if, after_message, after_request, Outside, receive, dispatch, recvfrom}
use tr.Stun.Authentic.{Judged, parse_message-Judged}
use tr.Stun.Change.{HasNoChange}

module _ (P : Platform) (K : Crypto) (N : Indexes) (X : StunIndexes) (H : Host)
    (password_size : ℕ) where
  -- The flag is down while the client is in task status.
  pub record IsCalm (c : Client H) : Type 0 where
    pub calm : c.mgr.status ≡ StunStatus.task → c.mgr.binding_change_flag ≡ 0
    pub id : length c.mgr.trans_id ≡ 16
    pub sent : All HasNoChange c.sent

  abbrev pub CalmAfter : Option (Client H) → Type 0
  CalmAfter none = Unit {0}
  CalmAfter (some c) = IsCalm c

  -- The same flag, status, id and messages.
  abbrev pub Alike : Client H → Client H → Type 0
  Alike c c' =
      (c'.mgr.binding_change_flag ≡ c.mgr.binding_change_flag)
      × (c'.mgr.status ≡ c.mgr.status)
      × (c'.mgr.trans_id ≡ c.mgr.trans_id)
      × (c'.sent ≡ c.sent)

  pub Alike-IsCalm : (c c' : Client H) → Alike c c' → IsCalm c → IsCalm c'
  Alike-IsCalm c c' (f, s, i, t) h = record {
    calm = λ e. f ∙ h.calm (sym s ∙ e);
    id = ap (λ (x : Bytes). length x) i ∙ h.id;
    sent = subst (All HasNoChange) (sym t) h.sent;
  }

  other_IsCalm :
      (c : Client H) (t : Bytes) {ret : ℤ} (c' : Client H)
      → c.mgr.status ≡ StunStatus.task
      → IsCalm c
      → Judged P K N X H c t ret c'
      → ret ≢ pos 0
      → IsCalm c'
  other_IsCalm c t c' e h j n = record {
    calm = λ w. (j.same n).change ∙ h.calm e;
    id = ap (λ (x : Bytes). length x) j.trans_id ∙ h.id;
    sent = subst (All HasNoChange) (sym j.sent) h.sent;
  }

  wait_if-IsCalm :
      (now : ℕ) (c : Client H) (t : Bytes) (ret : ℤ) (c' : Client H)
      → c.mgr.status ≡ StunStatus.task
      → IsCalm c
      → Judged P K N X H c t ret c'
      → IsCalm (wait_if P K N X H password_size now (ret, c'))
  wait_if-IsCalm now c t (pos zero) c' e h j = record {
    calm = λ w. cc;
    id = ap (λ (x : Bytes). length x) j.trans_id ∙ h.id;
    sent = subst (All HasNoChange) (sym j.sent) h.sent;
  }
  wait_if-IsCalm now c t (pos (suc n)) c' e h j =
      rw (==_false (suc n) 0 (omega arith)) (other_IsCalm c t c' e h j (λ w. ground (arith, w)))
  wait_if-IsCalm now c t (negsuc n) c' e h j = other_IsCalm c t c' e h j (λ w. cc)

  parse_message_other :
      (c : Client H) (st : StunStatus)
      → c.mgr.status ≡ st
      → st ≢ StunStatus.task
      → parse_message P K N X H c ≡ some (negsuc 0, c)
  unfolding parse_message
  parse_message_other c st e n = ap on_status e ∙ other st n
    where
      on_status : StunStatus → Option (ℤ × Client H)
      on_status st = elim st [
        | StunStatus.task ↦ parse_received P K N X H (received P K N X H c.mgr) c
        | _ ↦ some (negsuc 0, c)
      ]

      other : (st : StunStatus) → st ≢ StunStatus.task → on_status st ≡ some (negsuc 0, c)
      other StunStatus.task n = absurd (n refl)
      other StunStatus.stop n = refl
      other StunStatus.idle n = refl
      other StunStatus.wait n = refl

  after_message-CalmAfter :
      (now : ℕ) (c : Client H)
      → IsCalm c
      → CalmAfter (after_message P K N X H password_size now (parse_message P K N X H c))
  after_message-CalmAfter now c h = on_status c.mgr.status refl
    where
      on_status :
          (st : StunStatus)
          → c.mgr.status ≡ st
          → CalmAfter (after_message P K N X H password_size now (parse_message P K N X H c))
      on_status StunStatus.task e =
          let (ret, c', r, j) = parse_message-Judged P K N X H c in
          rw r (wait_if-IsCalm now c _ ret c' e h j)
      on_status StunStatus.stop e = rw (parse_message_other c StunStatus.stop e (λ w. cc)) h
      on_status StunStatus.idle e = rw (parse_message_other c StunStatus.idle e (λ w. cc)) h
      on_status StunStatus.wait e = rw (parse_message_other c StunStatus.wait e (λ w. cc)) h

  judge_request-CalmAfter :
      (c : Client H) (q : Result Request)
      → IsCalm c
      → CalmAfter (after_request P K N X H password_size (judge_request P K N X H c q))
  unfolding judge_request accept_request
  judge_request-CalmAfter c (ok q) h = on_check (check_request P K N X H q c)
    where
      on_check :
          (x : ℤ)
          → CalmAfter (
              after_request P K N X H password_size (
                some (elim x [
                  | pos n ↦ (pos n, accept_request P K N X H q c)
                  | negsuc n ↦ (negsuc n, c)
                ])))
      on_check (pos n) = Alike-IsCalm c (accept_request P K N X H q c) (refl, refl, refl, refl) h
      on_check (negsuc n) = h
  judge_request-CalmAfter c (err code) h = h
  judge_request-CalmAfter c fault h = tt

  if_CalmAfter :
      (b : Bool) (x y : Option (Client H))
      → CalmAfter x
      → CalmAfter y
      → CalmAfter (if b then x else y)
  if_CalmAfter true x y h k = h
  if_CalmAfter false x y h k = k

  judge_uri-CalmAfter :
      (c : Client H) (uri : Result Bytes)
      → IsCalm c
      → CalmAfter (after_request P K N X H password_size (judge_uri P K N X H c uri))
  unfolding judge_uri
  judge_uri-CalmAfter c (ok uri) h =
      let c' = cut_uri P K N X H uri c in
      judge_request-CalmAfter c' (read_request P.max_param_value_len c.last_id uri)
        (Alike-IsCalm c c' (refl, refl, refl, refl) h)
  judge_uri-CalmAfter c (err code) h = h
  judge_uri-CalmAfter c fault h = tt

  request-CalmAfter :
      (b : Bool) (uri : Result Bytes) (c : Client H)
      → IsCalm c
      → CalmAfter (
          after_request P K N X H password_size
            (if b then judge_uri P K N X H c uri else some (negsuc 0, c)))
  request-CalmAfter true uri c h = judge_uri-CalmAfter c uri h
  request-CalmAfter false uri c h = h

  dispatch-CalmAfter :
      (now : ℕ) (c : Client H) → IsCalm c → CalmAfter (dispatch P K N X H password_size now c)
  unfolding dispatch parse_udp_connection_request
  dispatch-CalmAfter now c h =
      let first = get_or c.mgr.recv_buff 0 0 in
      if_CalmAfter (leb first 1) _ _ (after_message-CalmAfter now c h)
        (if_CalmAfter (leb 32 first && leb first 128) _ _ (request-CalmAfter _ _ c h) h)

  pub recvfrom-CalmAfter :
      (o : Outside) (c : Client H) → IsCalm c → CalmAfter (recvfrom P K N X H password_size o c)
  unfolding recvfrom receive
  recvfrom-CalmAfter o c h = on_packet o.packet
    where
      received_by : Bytes → Client H
      received_by t = (let m = c.mgr in record c { mgr = receive t m })

      on_packet :
          (packet : Option Bytes)
          → CalmAfter (elim packet [
            | none ↦ some c
            | some t ↦
                if length t == 0
                then some (received_by t)
                else dispatch P K N X H password_size o.received_at (received_by t)
          ])
      on_packet none = h
      on_packet (some t) =
          let h' = Alike-IsCalm c (received_by t) (refl, refl, refl, refl) h in
          elim (Bool-cases (length t == 0)) [
            | inl empty ↦ rw empty h'
            | inr some' ↦ rw some' (dispatch-CalmAfter o.received_at (received_by t) h')
          ]
