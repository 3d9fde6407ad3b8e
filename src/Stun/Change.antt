-- ===== src/Stun/Change.antt =====
-- tr111_control_build_message (tr111_control.c): the attribute BINDING-CHANGE of a request.
use tr.Base.{
  ℕ, ◌≡◌, ◌≢◌, refl, inl, inr, Bool, true, false, some, List, [], ◌∷◌, ◌++◌, arith, length, ◌==◌,
  if◌then◌else◌, pos, minus_one, All, Bool-cases,
}
use tr.Platform.{Bytes}
use tr.Stun.{
  Crypto, StunMgr, integrity_length, binding_request, binding_change, username, message_integrity,
  is_signed, padded_name, signed_part, build_message,
}
use tr.Stun.Reader.{Attribute, read_message}
use tr.Stun.Framing.{plain_expected, expected, build_message_lem}

-- A message that is read as a binding request without the attribute BINDING-CHANGE.
abbrev pub HasNoChange : Bytes → Type 0
HasNoChange t =
    (id : Bytes) × (l : List Attribute) × (read_message t ≡ some (binding_request, id, l))
    × All (λ a. a.0 ≢ binding_change) l

if-All :
    (Q : Attribute → Type 0) (b : Bool) (a : Attribute) → Q a → All Q (if b then [] else a ∷ [])
if-All Q true a h = tt
if-All Q false a h = (h, tt)

if-All_then :
    (Q : Attribute → Type 0) (b : Bool) (a : Attribute) → Q a → All Q (if b then a ∷ [] else [])
if-All_then Q true a h = (h, tt)
if-All_then Q false a h = tt

All-append : (Q : Attribute → Type 0) (l l' : List Attribute) → All Q l → All Q l' → All Q (l ++ l')
All-append Q [] l' h h' = h'
All-append Q (a ∷ l) l' h h' = (h.0, All-append Q l l' h.1 h')

expected-NoChange :
    (K : Crypto) (m : StunMgr)
    → m.binding_change_flag ≡ 0
    → All (λ a. a.0 ≢ binding_change) (expected K m)
expected-NoChange K m z =
    All-append _ (plain_expected m) _
      (
        (λ e. omega arith),
        rw z (
            if-All _ (length m.stun_username == 0) (username, padded_name m.stun_username)
              (λ e. omega arith)),
      )
      (if-All_then _ (is_signed m) (message_integrity, K.hmac m.stun_password (signed_part m))
        (λ e. omega arith))

pub build_message-HasNoChange :
    (K : Crypto) (m : StunMgr)
    → length m.trans_id ≡ 16
    → m.binding_change_flag ≡ 0
    → (build_message K m).0 ≡ pos 0
    → HasNoChange (build_message K m).1.send_buff
build_message-HasNoChange K m h z e =
    (m.trans_id, expected K m, build_message_lem K m h e, expected-NoChange K m z)

pub build_message-keeps :
    (K : Crypto) (m : StunMgr)
    → let m' = (build_message K m).1 in
      (m'.binding_change_flag ≡ m.binding_change_flag)
      × (m'.trans_id ≡ m.trans_id)
      × (m'.status ≡ m.status)
unfolding build_message
build_message-keeps K m = elim (Bool-cases (is_signed m)) [
  | inl signed ↦ rw signed (refl, refl, refl)
  | inr plain ↦ rw plain (refl, refl, refl)
]

mac_ret :
    (k n : ℕ)
    → (if k == integrity_length then pos 0 else minus_one) ≡ pos n
    → (if k == integrity_length then pos 0 else minus_one) ≡ pos 0
mac_ret k n e = ground arith

pub build_message-ret :
    (K : Crypto) (m : StunMgr) (n : ℕ)
    → (build_message K m).0 ≡ pos n
    → (build_message K m).0 ≡ pos 0
unfolding build_message
build_message-ret K m n e = elim (Bool-cases (is_signed m)) [
  | inl signed ↦
      rw signed (mac_ret (length (K.hmac m.stun_password (signed_part m))) n (rw signed at e))
  | inr plain ↦ rw plain refl
]
