-- ===== src/Stun/Binding.antt =====
-- tr111_control_task_proc (tr111_control.c): which requests the client sends.
use mathlib.Core.Path.{subst}
use tr.Base.{
  ℕ, zero, suc, ◌≡◌, refl, sym, ap, ◌∙◌, inl, inr, false, Option, none, some, List, [], ◌∷◌, arith,
  length, ℤ, pos, negsuc, All, Bool-cases,
}
use tr.Platform.{Platform, Bytes}
use tr.CStr.{strcmp_eq}
use tr.Interface.{Indexes, Host, true_text}
use tr.Stun.{Crypto, StunIndexes, StunStatus, Client}
use tr.Stun.Parse.{apply_new_address, configured}
use tr.Stun.Receive.{Outside, recvfrom}
use tr.Stun.Task.{
  with_port, check_stun_params, stun_port_text, retry_step, task_step, status_step, task_proc,
  run_tasks,
}
use tr.Stun.Authentic.{apply_new_address-keeps}
use tr.Stun.Change.{HasNoChange}
use tr.Stun.Calm.{IsCalm, CalmAfter, Alike-IsCalm, recvfrom-CalmAfter}
use tr.Stun.Steps.{
  IsApart, check_stun_params-Alike, check_stun_params-fails, down, idle_step-IsCalm,
  retry_step-IsCalm, wait_step-IsCalm, apply_new_address-status,
}

module _ (P : Platform) (K : Crypto) (N : Indexes) (X : StunIndexes) (H : Host)
    (password_size : ℕ) where
  with_port-store :
      (c c' : Client H) (x : ℤ)
      → c'.store ≡ c.store
      → (with_port P K N X H password_size c c' x).1.store ≡ c.store
  with_port-store c c' (pos zero) h = refl
  with_port-store c c' (pos (suc n)) h = h
  with_port-store c c' (negsuc n) h = refl

  check_stun_params-store :
      (o : Outside) (c : Client H)
      → (check_stun_params P K N X H password_size o c).1.store ≡ c.store
  unfolding check_stun_params
  check_stun_params-store o c =
      elim (Bool-cases (strcmp_eq (configured P K N X H c.store X.stun_enable []) true_text)) [
        | inr off ↦ rw off refl
        | inl enabled ↦ rw enabled (with_port-store c _ (P.atoi stun_port_text) refl)
      ]

  disabled-IsCalm :
      (c : Client H)
      → IsApart P K N X H password_size
      → strcmp_eq (configured P K N X H c.store X.stun_enable []) true_text ≡ false
      → IsCalm P K N X H password_size c
      → IsCalm P K N X H password_size (
          let m = c.mgr in
          apply_new_address P K N X H m.local_addr
            (record c { mgr = record m { status = StunStatus.idle } }))
  disabled-IsCalm c apart off h =
      let c0 : Client H =
        (let m = c.mgr in record c { mgr = record m { status = StunStatus.idle } }) in
      let (t, s) = apply_new_address-keeps P K N X H c.mgr.local_addr c0 in
      let i = apply_new_address-status P K N X H password_size c.mgr.local_addr c0 apart off in
      record {
        calm = λ e. absurd (ground (arith, i, e));
        id = ap (λ (x : Bytes). length x) t ∙ h.id;
        sent = subst (All HasNoChange) (sym s) h.sent;
      }

  module _ (k : ℕ) (port : P.atoi stun_port_text ≡ pos (suc k))
      (apart : IsApart P K N X H password_size) where
    task_step-IsCalm :
        (o : Outside) (c : Client H)
        → c.mgr.status ≡ StunStatus.task
        → length o.rands ≡ 16
        → IsCalm P K N X H password_size c
        → IsCalm P K N X H password_size (task_step P K N X H password_size o c)
    unfolding task_step
    task_step-IsCalm o c e r h = on_ret (check_stun_params P K N X H password_size o c).0 refl
      where
        c1 : Client H
        c1 = (check_stun_params P K N X H password_size o c).1

        on_ret :
            (ret : ℤ)
            → (check_stun_params P K N X H password_size o c).0 ≡ ret
            → IsCalm P K N X H password_size (elim ret [
              | pos n ↦ retry_step P K N X H password_size o c1
              | negsuc n ↦
                  let m = c1.mgr in
                  apply_new_address P K N X H m.local_addr
                    (record c1 { mgr = record m { status = StunStatus.idle } })
            ])
        on_ret (pos n) z =
            let a = check_stun_params-Alike P K N X H password_size o c in
            retry_step-IsCalm P K N X H password_size o c1 (a.0 ∙ h.calm e) r
              (Alike-IsCalm P K N X H password_size c c1 a h)
        on_ret (negsuc n) z =
            disabled-IsCalm c1 apart
              (subst (λ s. strcmp_eq (configured P K N X H s X.stun_enable []) true_text ≡ false)
                (sym (check_stun_params-store o c))
                (check_stun_params-fails P K N X H password_size o c n k port z))
              (Alike-IsCalm P K N X H password_size c c1
                (check_stun_params-Alike P K N X H password_size o c) h)

    status_step-IsCalm :
        (o : Outside) (c : Client H) (st : StunStatus)
        → c.mgr.status ≡ st
        → length o.rands ≡ 16
        → IsCalm P K N X H password_size c
        → IsCalm P K N X H password_size (status_step P K N X H password_size o c st).1
    unfolding status_step
    status_step-IsCalm o c StunStatus.idle e r h =
        idle_step-IsCalm P K N X H password_size o c e r h
    status_step-IsCalm o c StunStatus.task e r h = task_step-IsCalm o c e r h
    status_step-IsCalm o c StunStatus.wait e r h = wait_step-IsCalm P K N X H password_size o c r h
    status_step-IsCalm o c StunStatus.stop e r h = h

    abbrev StepAfter : Option (ℤ × Client H) → Type 0
    StepAfter none = Unit {0}
    StepAfter (some (ret, c)) = IsCalm P K N X H password_size c

    task_proc-StepAfter :
        (o : Outside) (c : Client H)
        → length o.rands ≡ 16
        → IsCalm P K N X H password_size c
        → StepAfter (task_proc P K N X H password_size o c)
    unfolding task_proc
    task_proc-StepAfter o c r h =
        on_received (recvfrom P K N X H password_size o c)
          (recvfrom-CalmAfter P K N X H password_size o c h)
      where
        on_received :
            (x : Option (Client H))
            → CalmAfter P K N X H password_size x
            → StepAfter (elim x [
              | none ↦ none
              | some c' ↦ some (status_step P K N X H password_size o c' c'.mgr.status)
            ])
        on_received none h = tt
        on_received (some d) h = status_step-IsCalm o d d.mgr.status refl r h

    -- The rest of a run after a step.
    abbrev rest_of : List Outside → Option (ℤ × Client H) → Option (Client H)
    rest_of os x = elim x [
      | none ↦ none
      | some (pos n, d) ↦ run_tasks P K N X H password_size os d
      | some (negsuc n, d) ↦ some d
    ]

    after_step :
        (os : List Outside) (c' : Client H) (x : Option (ℤ × Client H))
        → StepAfter x
        → ((d : Client H)
            → IsCalm P K N X H password_size d
            → run_tasks P K N X H password_size os d ≡ some c'
            → IsCalm P K N X H password_size c')
        → rest_of os x ≡ some c'
        → IsCalm P K N X H password_size c'
    after_step os c' none h ih e = cc
    after_step os c' (some (pos n, d)) h ih e = ih d h e
    after_step os c' (some (negsuc n, d)) h ih e =
        subst (IsCalm P K N X H password_size) (ground (arith, e)) h

    run_tasks-IsCalm :
        (os : List Outside) (c c' : Client H)
        → All (λ o. length o.rands ≡ 16) os
        → IsCalm P K N X H password_size c
        → run_tasks P K N X H password_size os c ≡ some c'
        → IsCalm P K N X H password_size c'
    unfolding run_tasks
    run_tasks-IsCalm [] c c' r h e = subst (IsCalm P K N X H password_size) (ground (arith, e)) h
    run_tasks-IsCalm (o ∷ os) c c' r h e =
        after_step os c' (task_proc P K N X H password_size o c) (task_proc-StepAfter o c r.0 h)
          (λ d hd. run_tasks-IsCalm os d c' r.1 hd) e

  -- However many steps the client takes, whatever it receives, no request that it sends has the
  -- attribute BINDING-CHANGE, if the steps end without a fault of memory, the flag is down and nothing
  -- is sent at first, the port of the server is positive, the ids of the transactions have 16 bytes,
  -- and with STUN disabled the setting of the address for requests leaves it so.
  pub run_tasks_lem :
      (os : List Outside) (c c' : Client H) (k : ℕ)
      → P.atoi stun_port_text ≡ pos (suc k)
      → IsApart P K N X H password_size
      → All (λ o. length o.rands ≡ 16) os
      → length c.mgr.trans_id ≡ 16
      → c.mgr.binding_change_flag ≡ 0
      → c.sent ≡ []
      → run_tasks P K N X H password_size os c ≡ some c'
      → All HasNoChange c'.sent
  run_tasks_lem os c c' k port apart r i z s e =
      (run_tasks-IsCalm k port apart os c c' r
        (down P K N X H password_size c z i (subst (All HasNoChange) (sym s) tt)) e).sent
