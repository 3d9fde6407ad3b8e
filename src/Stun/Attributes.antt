-- ===== src/Stun/Attributes.antt =====
-- The loop of tr111_control_parse_message over the attributes of a message (tr111_control.c).
use tr.Base.{
  ℕ, zero, suc, ◌+◌, ◌-◌, ◌*◌, ◌<◌, ◌≤◌, ◌≡◌, ◌≢◌, refl, sym, ap₂, if◌then◌else◌, ◌∙◌, inl, inr,
  Bool, true, false, ◌&&◌, not, Option, some, arith, length, take, get_or, ltb, leb, ◌==◌,
  Bool-cases,
}
use tr.Platform.{Bytes}
use tr.CStr.{strcmp_eq}
use tr.CStr.Compare.{strcmp_eq-eq}
use tr.Stun.{
  Crypto, StunStatus, StunMgr, Address, binding_response, binding_error_response, message_integrity,
  error_code, mapped_address, integrity_length,
}
use tr.Stun.Parse.{
  Loop, Ended, done, failed, stuck, Step, next, refused, number16, slice, on_mapped, on_integrity,
  on_error, unauthorized, on_attribute, attributes_from,
}

-- A message ends with an attribute of integrity, which is the HMAC of all that stands before it.
pub record IsAuthentic (K : Crypto) (password t : Bytes) : Type 0 where
  pub place : ℕ
  pub last : place + 24 ≡ length t
  pub type : number16 t place ≡ message_integrity
  pub size : number16 t (place + 2) ≡ integrity_length
  pub digest : K.hmac password (take place t) ≡ slice t (place + 4) integrity_length

-- What the loop over the attributes leaves alone in the manager.
pub record Same (m0 m : StunMgr) : Type 0 where
  pub password : m.stun_password ≡ m0.stun_password
  pub public_addr : m.public_addr ≡ m0.public_addr
  pub change : m.binding_change_flag ≡ m0.binding_change_flag
  pub trans_id : m.trans_id ≡ m0.trans_id
  pub status : m0.status ≡ StunStatus.task → m.status ≡ StunStatus.task

module _ (K : Crypto) (m0 : StunMgr) (t : Bytes) (type : ℕ) where
  -- The variables of the loop on a message `t`.
  pub record IsSound (l : Loop) : Type 0 where
    pub same : Same m0 l.mgr
    pub auth : type ≡ binding_response → l.mgr.auth_flag ≡ m0.auth_flag
    pub checked : l.integrity ≡ true → IsAuthentic K m0.stun_password t

  data StepKeeps : Step → Type 0 where
    stopped : (code : ℕ) → StepKeeps (refused code)
    kept : (l : Loop) → IsSound l → StepKeeps (next l)

  abbrev pub EndKeeps : Ended → Type 0
  EndKeeps (done l) = IsSound l
  EndKeeps (failed code m) = Same m0 m
  EndKeeps stuck = ⊥

  guarded :
      (b : Bool) (code : ℕ) (x : Step)
      → (b ≡ false → StepKeeps x)
      → StepKeeps (if b then refused code else x)
  guarded true code x h = stopped code
  guarded false code x h = h refl

  chosen : (b : Bool) (x y : Step) → StepKeeps x → StepKeeps y → StepKeeps (if b then x else y)
  chosen true x y h k = h
  chosen false x y h k = k

  mapped-IsSound : (l : Loop) (a : Option Address) → IsSound l → IsSound (record l { mapped = a })
  mapped-IsSound l a s = record { same = s.same; auth = s.auth; checked = s.checked }

  unauthorized-IsSound :
      (l : Loop)
      → type ≢ binding_response
      → IsSound l
      → IsSound (record l { mgr = unauthorized l.mgr })
  unauthorized-IsSound l n s = record {
    same = record {
      password = s.same.password;
      public_addr = s.same.public_addr;
      change = s.same.change;
      trans_id = s.same.trans_id;
      status = λ e. refl;
    };
    auth = λ e. absurd (n e);
    checked = s.checked;
  }

  integrity-IsSound :
      (l : Loop)
      → IsAuthentic K m0.stun_password t
      → IsSound l
      → IsSound (record l { integrity = true })
  integrity-IsSound l a s = record { same = s.same; auth = s.auth; checked = λ e. a }

  on_mapped-StepKeeps : (size i : ℕ) (l : Loop) → IsSound l → StepKeeps (on_mapped t type size i l)
  unfolding on_mapped
  on_mapped-StepKeeps size i l s = guarded (not (type == binding_response)) 8 _ λ a.
      guarded (not (size == 8)) 9 _ λ b. guarded (not (get_or t (i + 1) 0 == 1)) 10 _ λ c.
        kept _ (
          mapped-IsSound l (some (record { port = slice t (i + 2) 2; addr = slice t (i + 4) 4 })) s)

  on_error-StepKeeps : (size i : ℕ) (l : Loop) → IsSound l → StepKeeps (on_error t type size i l)
  unfolding on_error
  on_error-StepKeeps size i l s = guarded (not (type == binding_error_response)) 15 _ λ a.
      guarded (ltb size 4) 16 _ λ b.
        chosen (get_or t (i + 2) 0 * 100 + get_or t (i + 3) 0 == 401) _ _
          (kept _ (unauthorized-IsSound l (λ e. ground (arith, a, e)) s)) (kept l s)

  on_integrity-StepKeeps :
      (i : ℕ) (l : Loop)
      → i + 4 + number16 t (i + 2) ≤ length t
      → number16 t i ≡ message_integrity
      → IsSound l
      → StepKeeps (on_integrity K t type (number16 t (i + 2)) (i + 4) l)
  unfolding on_integrity
  on_integrity-StepKeeps i l h a s =
      let mac = K.hmac l.mgr.stun_password (take (i + 4 - 4) t) in
      let size = number16 t (i + 2) in
      let fits = (size == integrity_length) && (length t - (i + 4) == integrity_length) in
      guarded (not (type == binding_response)) 11 _ λ b. guarded (not fits) 12 _ λ c.
        guarded (not (length mac == integrity_length)) 13 _ λ d.
          guarded (not (strcmp_eq mac (slice t (i + 4) integrity_length))) 14 _ λ e. kept _ (
            integrity-IsSound l
              (record {
                place = i;
                last = ground (arith, c, h);
                type = a;
                size = ground (arith, c);
                digest = digest (strcmp_eq-eq mac _ (ground (arith, e)));
              })
              s)
    where
      digest :
          K.hmac l.mgr.stun_password (take (i + 4 - 4) t) ≡ slice t (i + 4) integrity_length
          → K.hmac m0.stun_password (take i t) ≡ slice t (i + 4) integrity_length
      digest e = ap₂ (λ p n. K.hmac p (take n t)) (sym s.same.password) (omega arith) ∙ e

  on_attribute-StepKeeps :
      (i : ℕ) (l : Loop)
      → i + 4 + number16 t (i + 2) ≤ length t
      → IsSound l
      → StepKeeps (on_attribute K t type (number16 t i) (number16 t (i + 2)) (i + 4) l)
  unfolding on_attribute
  on_attribute-StepKeeps i l h s =
      chosen (number16 t i == mapped_address) _ _
        (on_mapped-StepKeeps (number16 t (i + 2)) (i + 4) l s)
        (elim (Bool-cases (number16 t i == message_integrity)) [
          | inl is ↦ rw is (on_integrity-StepKeeps i l h (ground (arith, is)) s)
          | inr no' ↦ rw no' (
              chosen (number16 t i == error_code) _ _
                (on_error-StepKeeps (number16 t (i + 2)) (i + 4) l s) (kept l s))
        ])

  on_step :
      (fuel i : ℕ) (m : StunMgr) (x : Step)
      → Same m0 m
      → StepKeeps x
      → ((l' : Loop) → IsSound l' → EndKeeps (attributes_from K t type fuel i l'))
      → EndKeeps
          (elim x [ refused code ↦ failed code m | next l' ↦ attributes_from K t type fuel i l' ])
  on_step fuel i m (refused code) s k ih = s
  on_step fuel i m (next l') s (kept _ s') ih = ih l' s'

  pub attributes_from-EndKeeps :
      (fuel i : ℕ) (l : Loop)
      → i ≤ length t
      → length t < i + fuel
      → IsSound l
      → EndKeeps (attributes_from K t type fuel i l)
  unfolding attributes_from
  attributes_from-EndKeeps zero i l h n s = absurd (omega arith)
  attributes_from-EndKeeps (suc fuel) i l h n s = elim (Bool-cases (leb (length t) i)) [
    | inl end ↦ rw end s
    | inr more ↦ elim (Bool-cases (ltb (length t - i) 4)) [
      | inl short ↦ rw (more, short) s.same
      | inr head ↦ elim (Bool-cases (ltb (length t - i - 4) (number16 t (i + 2)))) [
        | inl cut ↦ rw (more, head, cut) s.same
        | inr whole ↦
            let fits : i + 4 + number16 t (i + 2) ≤ length t = ground (arith, more, head, whole) in
            rw (more, head, whole)
              (on_step fuel (i + 4 + number16 t (i + 2)) l.mgr
                (on_attribute K t type (number16 t i) (number16 t (i + 2)) (i + 4) l) s.same
                (on_attribute-StepKeeps i l fits s)
                (λ l' s'.
                  attributes_from-EndKeeps fuel (i + 4 + number16 t (i + 2)) l' fits (omega arith)
                    s'))
      ]
    ]
  ]
