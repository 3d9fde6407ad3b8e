-- ===== src/Stun/Steps.antt =====
-- The steps of tr111_control_task_proc (tr111_control.c) one by one, and the flag for the
-- attribute BINDING-CHANGE.
use mathlib.Core.Path.{subst}
use tr.Base.{
  ℕ, zero, suc, ◌+◌, ◌%◌, ◌≡◌, refl, sym, ap, ◌∙◌, inl, inr, false, [], ◌∷◌, ◌++◌, arith, length,
  leb, ltb, ℤ, pos, negsuc, All, All-snoc, Bool-cases,
}
use tr.Platform.{Platform, Bytes}
use tr.CStr.{strcmp_eq}
use tr.Interface.{Indexes, Host, Store, set_config, true_text}
use tr.Stun.{
  Crypto, StunIndexes, StunStatus, StunMgr, Address, Client, build_message, new_transaction,
}
use tr.Stun.Parse.{
  apply_new_address, configured, change_address, check_nat, change_nat, address_text,
}
use tr.Stun.Receive.{Outside}
use tr.Stun.Task.{
  is_due, with_port, check_stun_params, stun_port_text, set_request_address, setup, idle_step,
  send_request, retry_step, wait_step,
}
use tr.Stun.Change.{HasNoChange, build_message-HasNoChange, build_message-keeps, build_message-ret}
use tr.Stun.Calm.{IsCalm, Alike, Alike-IsCalm}

module _ (P : Platform) (K : Crypto) (N : Indexes) (X : StunIndexes) (H : Host)
    (password_size : ℕ) where
  with_port-Alike :
      (c c' : Client H) (x : ℤ)
      → Alike P K N X H password_size c c'
      → Alike P K N X H password_size c (with_port P K N X H password_size c c' x).1
  with_port-Alike c c' (pos zero) h = (refl, refl, refl, refl)
  with_port-Alike c c' (pos (suc n)) h = h
  with_port-Alike c c' (negsuc n) h = (refl, refl, refl, refl)

  pub check_stun_params-Alike :
      (o : Outside) (c : Client H)
      → Alike P K N X H password_size c (check_stun_params P K N X H password_size o c).1
  unfolding check_stun_params
  check_stun_params-Alike o c =
      elim (Bool-cases (strcmp_eq (configured P K N X H c.store X.stun_enable []) true_text)) [
        | inr off ↦ rw off (refl, refl, refl, refl)
        | inl enabled ↦
            rw enabled (with_port-Alike c _ (P.atoi stun_port_text) (refl, refl, refl, refl))
      ]

  -- The port is a number that is not 0, so only STUN being disabled makes the check fail.
  pub check_stun_params-fails :
      (o : Outside) (c : Client H) (n k : ℕ)
      → P.atoi stun_port_text ≡ pos (suc k)
      → (check_stun_params P K N X H password_size o c).0 ≡ negsuc n
      → strcmp_eq (configured P K N X H c.store X.stun_enable []) true_text ≡ false
  unfolding check_stun_params
  check_stun_params-fails o c n k a e = ground (arith, a, e)

  setup-Alike :
      (o : Outside) (c : Client H)
      → Alike P K N X H password_size c (setup P K N X H password_size o c)
  unfolding setup set_request_address
  setup-Alike o c = elim (Bool-cases o.has_socket) [
    | inr none' ↦ rw none' (refl, refl, refl, refl)
    | inl socket ↦ elim (Bool-cases o.can_bind) [
      | inl bound ↦ rw (socket, bound) (refl, refl, refl, refl)
      | inr unbound ↦ rw (socket, unbound) (refl, refl, refl, refl)
    ]
  ]

  -- A manager whose flag is down.
  pub down :
      (c : Client H)
      → c.mgr.binding_change_flag ≡ 0
      → length c.mgr.trans_id ≡ 16
      → All HasNoChange c.sent
      → IsCalm P K N X H password_size c
  down c z i s = record { calm = λ e. z; id = i; sent = s }

  pub idle_step-IsCalm :
      (o : Outside) (c : Client H)
      → c.mgr.status ≡ StunStatus.idle
      → length o.rands ≡ 16
      → IsCalm P K N X H password_size c
      → IsCalm P K N X H password_size (idle_step P K N X H password_size o c)
  unfolding idle_step new_transaction
  idle_step-IsCalm o c i r h =
      let (ret, c1) = check_stun_params P K N X H password_size o c in
      let h1 = Alike-IsCalm P K N X H password_size c c1 (check_stun_params-Alike o c) h in
      on_ret ret c1 h1
    where
      started : Client H → Client H
      started c1 =
          let m = c1.mgr in
          setup P K N X H password_size o (record c1 { mgr = new_transaction o.rands m })

      on_ret :
          (ret : ℤ) (c1 : Client H)
          → IsCalm P K N X H password_size c1
          → IsCalm P K N X H password_size (elim ret [
            | negsuc n ↦ c1
            | pos n ↦
                let c2 = started c1 in
                let m2 = c2.mgr in record c2 { mgr = record m2 { status = StunStatus.task } }
          ])
      on_ret (negsuc n) c1 h1 = h1
      on_ret (pos n) c1 h1 =
          let c0 : Client H = (let m = c1.mgr in record c1 { mgr = new_transaction o.rands m }) in
          let (f, s, t, w) = setup-Alike o c0 in
          down _ f (ap (λ (x : Bytes). length x) t ∙ r) (subst (All HasNoChange) (sym w) h1.sent)

  send_request-IsCalm :
      (o : Outside) (c : Client H)
      → c.mgr.binding_change_flag ≡ 0
      → IsCalm P K N X H password_size c
      → IsCalm P K N X H password_size (send_request P K N X H password_size o c)
  unfolding send_request
  send_request-IsCalm o c z h = on_ret (build_message K c.mgr).0 refl
    where
      m : StunMgr
      m = (build_message K c.mgr).1

      on_ret :
          (ret : ℤ)
          → (build_message K c.mgr).0 ≡ ret
          → IsCalm P K N X H password_size (elim ret [
            | negsuc n ↦ record c { mgr = m }
            | pos n ↦ record c {
              mgr = record m { retry_count = (m.retry_count + 1) % 4294967296 };
              sent = c.sent ++ (m.send_buff ∷ []);
              last_time = o.now;
            }
          ])
      on_ret (negsuc n) e =
          let (f, t, s) = build_message-keeps K c.mgr in
          down _ (f ∙ z) (ap (λ (x : Bytes). length x) t ∙ h.id) h.sent
      on_ret (pos n) e =
          let (f, t, s) = build_message-keeps K c.mgr in
          down _ (f ∙ z) (ap (λ (x : Bytes). length x) t ∙ h.id) (
            All-snoc HasNoChange c.sent m.send_buff h.sent
              (build_message-HasNoChange K c.mgr h.id z (build_message-ret K c.mgr n e)))

  pub retry_step-IsCalm :
      (o : Outside) (c : Client H)
      → c.mgr.binding_change_flag ≡ 0
      → length o.rands ≡ 16
      → IsCalm P K N X H password_size c
      → IsCalm P K N X H password_size (retry_step P K N X H password_size o c)
  unfolding retry_step new_transaction
  retry_step-IsCalm o c z r h = elim (Bool-cases (is_due P K N X H password_size o c)) [
    | inr early ↦ rw early h
    | inl due ↦ elim (Bool-cases (ltb 2 c.mgr.retry_count)) [
      | inl many ↦ rw (due, many) (down _ refl r h.sent)
      | inr few ↦ rw (due, few) (send_request-IsCalm o c z h)
    ]
  ]

  pub wait_step-IsCalm :
      (o : Outside) (c : Client H)
      → length o.rands ≡ 16
      → IsCalm P K N X H password_size c
      → IsCalm P K N X H password_size (wait_step P K N X H password_size o c)
  unfolding wait_step new_transaction
  wait_step-IsCalm o c r h = elim (Bool-cases (leb c.mgr.wait_time o.now)) [
    | inl over ↦ rw over (down _ refl r h.sent)
    | inr early ↦ rw early h
  ]

  -- Where STUN is disabled in the configuration it stays so when the address for requests is written.
  abbrev pub IsApart : Type 0
  IsApart =
      (s : Store H) (text : Bytes)
      → strcmp_eq (configured P K N X H s X.stun_enable []) true_text ≡ false
      → strcmp_eq
          (configured P K N X H (set_config P N H s X.udp_connection_request_address text).1
            X.stun_enable text)
          true_text
        ≡ false

  pub apply_new_address-status :
      (a : Address) (c : Client H)
      → IsApart
      → strcmp_eq (configured P K N X H c.store X.stun_enable []) true_text ≡ false
      → (apply_new_address P K N X H a c).mgr.status ≡ c.mgr.status
  unfolding apply_new_address change_address check_nat change_nat
  apply_new_address-status a c apart off =
      ground (arith, apart c.store (address_text P K N X H a) off)
