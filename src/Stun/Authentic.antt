-- ===== src/Stun/Authentic.antt =====
-- tr111_control_parse_message (tr111_control.c): which messages of a STUN server are accepted, and
-- what one that is not leaves alone.
use tr.Base.{
  ℕ, zero, suc, ◌⊎◌, ◌+◌, ◌≡◌, ◌≢◌, refl, ◌∙◌, inl, inr, true, false, ◌&&◌, ◌||◌, not, Option, none,
  some, arith, length, ltb, ◌==◌, ℤ, pos, negsuc, Bool-cases,
}
use tr.Platform.{Platform, Bytes}
use tr.CStr.{strcmp_eq}
use tr.Interface.{Indexes, Host}
use tr.Stun.{
  Crypto, StunIndexes, StunStatus, StunMgr, Address, Client, binding_response,
  binding_error_response,
}
use tr.Stun.Parse.{
  Loop, Ended, done, failed, stuck, number16, slice, attributes_from, change_address, check_nat,
  change_nat, apply_new_address, accept_message, finish_message, received, parse_received,
  parse_message,
}
use tr.Stun.Attributes.{IsAuthentic, Same, IsSound, EndKeeps, attributes_from-EndKeeps}

Same-refl : (m : StunMgr) → Same m m
Same-refl m = record {
  password = refl;
  public_addr = refl;
  change = refl;
  trans_id = refl;
  status = λ e. e;
}

module _ (P : Platform) (K : Crypto) (N : Indexes) (X : StunIndexes) (H : Host) where
  pub apply_new_address-keeps :
      (a : Address) (c : Client H)
      → let c' = apply_new_address P K N X H a c in
        (c'.mgr.trans_id ≡ c.mgr.trans_id) × (c'.sent ≡ c.sent)
  unfolding apply_new_address change_address check_nat change_nat
  apply_new_address-keeps a c = ground arith

  -- What a message does to the client.
  pub record Judged (c : Client H) (t : Bytes) (ret : ℤ) (c' : Client H) : Type 0 where
    pub accepted : ret ≡ pos 0 → c.mgr.auth_flag ≡ 1 → IsAuthentic K c.mgr.stun_password t
    pub store : ret ≢ pos 0 → c'.store ≡ c.store
    pub calls : ret ≢ pos 0 → c'.calls ≡ c.calls
    pub same : ret ≢ pos 0 → Same c.mgr c'.mgr
    pub trans_id : c'.mgr.trans_id ≡ c.mgr.trans_id
    pub sent : c'.sent ≡ c.sent

  abbrev JudgedBy : Client H → Bytes → Option (ℤ × Client H) → Type 0
  JudgedBy c t none = ⊥
  JudgedBy c t (some (ret, c')) = Judged c t ret c'

  rejected :
      (c : Client H) (t : Bytes) (n : ℕ) (m : StunMgr)
      → Same c.mgr m
      → Judged c t (negsuc n) (record c { mgr = m })
  rejected c t n m s = record {
    accepted = λ e a. cc;
    store = λ e. refl;
    calls = λ e. refl;
    same = λ e. s;
    trans_id = s.trans_id;
    sent = refl;
  }

  accept_message-Judged :
      (type : ℕ) (t : Bytes) (c : Client H) (l : Loop)
      → IsSound K c.mgr t type l
      → JudgedBy c t (some (accept_message P K N X H type l c))
  unfolding accept_message
  accept_message-Judged type t c l s = elim (Bool-cases (type == binding_response)) [
    | inr other ↦ rw other (rejected c t 17 l.mgr s.same)
    | inl response ↦ elim (Bool-cases ((l.mgr.auth_flag == 1) && not l.integrity)) [
      | inl unsigned ↦ rw (response, unsigned) (rejected c t 16 l.mgr s.same)
      | inr signed ↦ rw (response, signed) (on_mapped l.mapped (checked response signed))
    ]
  ]
    where
      checked :
          (type == binding_response) ≡ true
          → ((l.mgr.auth_flag == 1) && not l.integrity) ≡ false
          → c.mgr.auth_flag ≡ 1
          → IsAuthentic K c.mgr.stun_password t
      checked e f a = s.checked (ground (arith, f, s.auth (ground (arith, e)), a))

      on_mapped :
          (o : Option Address)
          → (c.mgr.auth_flag ≡ 1 → IsAuthentic K c.mgr.stun_password t)
          → Judged c t (pos 0) (elim o [
            | none ↦ record c { mgr = l.mgr }
            | some a ↦ apply_new_address P K N X H a (record c { mgr = l.mgr })
          ])
      on_mapped none h = record {
        accepted = λ e. h;
        store = λ e. absurd (e refl);
        calls = λ e. absurd (e refl);
        same = λ e. absurd (e refl);
        trans_id = s.same.trans_id;
        sent = refl;
      }
      on_mapped (some a) h =
          let keeps = apply_new_address-keeps a (record c { mgr = l.mgr }) in
          record {
            accepted = λ e. h;
            store = λ e. absurd (e refl);
            calls = λ e. absurd (e refl);
            same = λ e. absurd (e refl);
            trans_id = keeps.0 ∙ s.same.trans_id;
            sent = keeps.1;
          }

  finish_message-Judged :
      (type : ℕ) (t : Bytes) (c : Client H) (e : Ended)
      → EndKeeps K c.mgr t type e
      → JudgedBy c t (finish_message P K N X H type c e)
  unfolding finish_message
  finish_message-Judged type t c stuck h = h
  finish_message-Judged type t c (failed code m) h = rejected c t _ m h
  finish_message-Judged type t c (done l) h = accept_message-Judged type t c l h

  parse_received-Judged : (t : Bytes) (c : Client H) → JudgedBy c t (parse_received P K N X H t c)
  unfolding parse_received
  parse_received-Judged t c =
      let type = number16 t 0 in
      let start : Loop = record { mgr = c.mgr; mapped = none; integrity = false } in
      let known = (type == binding_response) || (type == binding_error_response) in
      elim (Bool-cases (ltb (length t) 20)) [
        | inl short ↦ rw short (rejected c t 1 c.mgr (Same-refl c.mgr))
        | inr long ↦ elim (Bool-cases (length t == 20 + number16 t 2)) [
          | inr wrong ↦ rw (long, wrong) (rejected c t 2 c.mgr (Same-refl c.mgr))
          | inl whole ↦ elim (Bool-cases (strcmp_eq (slice t 4 16) c.mgr.trans_id)) [
            | inr other ↦ rw (long, whole, other) (rejected c t 3 c.mgr (Same-refl c.mgr))
            | inl mine ↦ elim (Bool-cases known) [
              | inr unknown ↦
                  rw (long, whole, mine, unknown) (rejected c t 4 c.mgr (Same-refl c.mgr))
              | inl fine ↦
                  rw (long, whole, mine, fine)
                    (finish_message-Judged type t c (attributes_from K t type (length t) 20 start) (
                      attributes_from-EndKeeps K c.mgr t type (length t) 20 start
                        (ground (arith, long)) (omega arith)
                        (record { same = Same-refl c.mgr; auth = λ e. refl; checked = λ e. cc })))
            ]
          ]
        ]
      ]

  parse_message-JudgedBy :
      (c : Client H) → JudgedBy c (received P K N X H c.mgr) (parse_message P K N X H c)
  unfolding parse_message
  parse_message-JudgedBy c = on_status c.mgr.status
    where
      on_status :
          (status : StunStatus)
          → JudgedBy c (received P K N X H c.mgr) (elim status [
            | StunStatus.task ↦ parse_received P K N X H (received P K N X H c.mgr) c
            | _ ↦ some (negsuc 0, c)
          ])
      on_status StunStatus.task = parse_received-Judged (received P K N X H c.mgr) c
      on_status StunStatus.stop = rejected c _ 0 c.mgr (Same-refl c.mgr)
      on_status StunStatus.idle = rejected c _ 0 c.mgr (Same-refl c.mgr)
      on_status StunStatus.wait = rejected c _ 0 c.mgr (Same-refl c.mgr)

  pub parse_message-Judged :
      (c : Client H)
      → (ret : ℤ) × (c' : Client H) × (parse_message P K N X H c ≡ some (ret, c'))
        × Judged c (received P K N X H c.mgr) ret c'
  parse_message-Judged c = on_result (parse_message P K N X H c) (parse_message-JudgedBy c)
    where
      on_result :
          (o : Option (ℤ × Client H))
          → JudgedBy c (received P K N X H c.mgr) o
          → (ret : ℤ) × (c' : Client H) × (o ≡ some (ret, c'))
            × Judged c (received P K N X H c.mgr) ret c'
      on_result none h = absurd h
      on_result (some (ret, c')) h = (ret, c', refl, h)

  ℤ-cases : (x : ℤ) → (x ≡ pos 0) ⊎ (x ≢ pos 0)
  ℤ-cases (pos zero) = inl refl
  ℤ-cases (pos (suc n)) = inr (λ e. ground (arith, e))
  ℤ-cases (negsuc n) = inr (λ e. cc)

  -- Under authentication the reading of a message always ends, either with 0, and then the message
  -- ends with an HMAC, under the password, of all that stands before, or with another result, and then
  -- the configuration, the calls and the public address are as before.
  pub parse_message_lem :
      (c : Client H)
      → c.mgr.auth_flag ≡ 1
      → (ret : ℤ) × (c' : Client H) × (parse_message P K N X H c ≡ some (ret, c'))
        × (((ret ≡ pos 0) × IsAuthentic K c.mgr.stun_password (received P K N X H c.mgr))
            ⊎ ((ret ≢ pos 0)
                × (c'.store ≡ c.store)
                × (c'.calls ≡ c.calls)
                × (c'.mgr.public_addr ≡ c.mgr.public_addr)))
  parse_message_lem c auth =
      let (ret, c', e, j) = parse_message-Judged c in
      (
        ret,
        c',
        e,
        elim (ℤ-cases ret) [
          | inl zero' ↦ inl (zero', j.accepted zero' auth)
          | inr other ↦ inr (other, j.store other, j.calls other, (j.same other).public_addr)
        ],
      )
