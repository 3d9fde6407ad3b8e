-- ===== src/Stun/Framing.antt =====
-- tr111_control_build_message (tr111_control.c) against an independent reader of STUN messages.
use mathlib.Core.Path.{subst}
use mathlib.Core.List.{append_assoc, append-nil}
use tr.Base.{
  ℕ, ◌+◌, ◌*◌, ◌/◌, ◌%◌, ◌<◌, ◌≤◌, ◌≡◌, refl, sym, ap, ap₂, ◌∙◌, inl, inr, Bool, true, false, some,
  List, [], ◌∷◌, ◌++◌, arith, length, length-append, length-take_le, take, replicate, ◌==◌,
  if◌then◌else◌, pos, minus_one, All, Bool-cases,
}
use tr.Platform.{Bytes}
use tr.Stun.{
  Crypto, StunMgr, binding_request, username, message_integrity, connection_request_binding,
  binding_change, binding_value, integrity_length, integrity_header, attribute, user_length,
  padded_name, plain_attributes, is_signed, header, signed_part, build_message,
}
use tr.Stun.Reader.{
  ==_true, All-append, Attribute, Fits, drop-append_at, encode, encode-append,
  read_attributes-encode, read_message, take-append_at,
}

-- The attributes of a request, before its message integrity.
abbrev change_attributes : StunMgr → List Attribute
change_attributes m = if m.binding_change_flag == 0 then [] else (binding_change, []) ∷ []

abbrev user_attributes : StunMgr → List Attribute
user_attributes m =
    if length m.stun_username == 0 then [] else (username, padded_name m.stun_username) ∷ []

abbrev pub plain_expected : StunMgr → List Attribute
plain_expected m =
    (connection_request_binding, binding_value) ∷ (change_attributes m ++ user_attributes m)

-- The attributes of a request; its integrity, where it has one, is the HMAC of what stands before it.
abbrev pub expected : Crypto → StunMgr → List Attribute
expected K m =
    plain_expected m
    ++ (if is_signed m
        then (message_integrity, K.hmac m.stun_password (signed_part m)) ∷ []
        else [])

encode-if :
    (b : Bool) (a : Attribute)
    → encode (if b then [] else a ∷ []) ≡ (if b then [] else attribute a.0 a.1)
encode-if true a = refl
encode-if false a = append-nil (attribute a.0 a.1)

plain_attributes-encode : (m : StunMgr) → plain_attributes m ≡ encode (plain_expected m)
unfolding plain_attributes
plain_attributes-encode m =
    ap (λ t. attribute connection_request_binding binding_value ++ t)
      (sym (
        encode-append (change_attributes m) (user_attributes m)
        ∙ ap₂ (λ s t. s ++ t) (encode-if (m.binding_change_flag == 0) (binding_change, []))
            (encode-if (length m.stun_username == 0) (username, padded_name m.stun_username))))

length-padded_name : (name : Bytes) → length (padded_name name) < 256
length-padded_name name =
    omega (arith, length-take_le (user_length (length name)) (name ++ replicate 256 0))

if-Fits : (b : Bool) (a : Attribute) → Fits a → All Fits (if b then [] else a ∷ [])
if-Fits true a h = tt
if-Fits false a h = (h, tt)

plain_expected-Fits : (m : StunMgr) → All Fits (plain_expected m)
plain_expected-Fits m = (
  (omega arith, omega arith),
  All-append Fits (change_attributes m) (user_attributes m)
      (if-Fits (m.binding_change_flag == 0) (binding_change, []) (omega arith, omega arith))
      (if-Fits (length m.stun_username == 0) (username, padded_name m.stun_username)
        (omega arith, omega (arith, length-padded_name m.stun_username))),
)

length-if : (b : Bool) (t : Bytes) → length (if b then [] else t) ≤ length t
length-if true t = omega arith
length-if false t = omega arith

length-attribute : (type : ℕ) (value : Bytes) → length (attribute type value) ≡ length value + 4
unfolding attribute
length-attribute type value = omega arith

pub length-plain_attributes : (m : StunMgr) → length (plain_attributes m) < 300
unfolding plain_attributes
length-plain_attributes m =
    let user = attribute username (padded_name m.stun_username) in
    let change = attribute binding_change [] in
    let a = if m.binding_change_flag == 0 then [] else change in
    let b = if length m.stun_username == 0 then [] else user in
    omega (
      arith,
      length-append (attribute connection_request_binding binding_value) (a ++ b),
      length-append a b,
      length-if (m.binding_change_flag == 0) change,
      length-if (length m.stun_username == 0) user,
      length-attribute connection_request_binding binding_value,
      length-attribute binding_change [],
      length-attribute username (padded_name m.stun_username),
      length-padded_name m.stun_username,
    )

length-encode : (l : List Attribute) → length l ≤ length (encode l)
length-encode [] = omega arith
length-encode (a ∷ l) =
    omega (
      arith,
      length-append (attribute a.0 a.1) (encode l),
      length-attribute a.0 a.1,
      length-encode l,
    )

-- A message of a header and attributes is read back.
read_message-header :
    (m : StunMgr) (l : List Attribute)
    → length m.trans_id ≡ 16
    → length (encode l) < 65536
    → All Fits l
    → read_message (header m (length (encode l)) ++ encode l)
      ≡ some (binding_request, m.trans_id, l)
unfolding header read_message
read_message-header m l h n f =
    let whole = length-append m.trans_id (encode l) in
    rw
      (
        ==_true (length (encode l) / 256 % 256 * 256 + length (encode l) % 256 + 16)
            (length (m.trans_id ++ encode l)) (omega arith),
        take-append_at 16 m.trans_id (encode l) h,
        drop-append_at 16 m.trans_id (encode l) h,
        read_attributes-encode (length (m.trans_id ++ encode l)) l (omega (arith, length-encode l))
            f,
      )
      refl

integrity_encode :
    (mac : Bytes)
    → length mac ≡ integrity_length
    → integrity_header ++ take integrity_length (mac ++ replicate integrity_length 0)
      ≡ encode ((message_integrity, mac) ∷ [])
unfolding attribute
integrity_encode mac h =
    rw
      (
        take-append_at integrity_length mac (replicate integrity_length 0) h,
        append-nil (attribute message_integrity mac),
      )
      (ground (arith, h))

join_parts :
    (m : StunMgr) (n : ℕ) (t t' : Bytes) (l : List Attribute)
    → t ++ t' ≡ encode l
    → n ≡ length (encode l)
    → (header m n ++ t) ++ t' ≡ header m (length (encode l)) ++ encode l
join_parts m n t t' l e h = append_assoc (header m n) t t' ∙ ap₂ (λ k x. header m k ++ x) h e

mac_checked : (n : ℕ) → (if n == integrity_length then pos 0 else minus_one) ≡ pos 0 → n ≡ 20
mac_checked n e = ground arith

plain_built :
    (m : StunMgr)
    → length m.trans_id ≡ 16
    → read_message (header m (length (plain_attributes m)) ++ plain_attributes m)
      ≡ some (binding_request, m.trans_id, plain_expected m)
plain_built m h = rw (plain_attributes-encode m) (
    read_message-header m (plain_expected m) h
      (subst (λ t. length t < 65536) (plain_attributes-encode m)
        (omega (arith, length-plain_attributes m)))
      (plain_expected-Fits m))

signed_built :
    (m : StunMgr) (mac : Bytes)
    → length m.trans_id ≡ 16
    → length mac ≡ 20
    → read_message (
        signed_part m
        ++ (integrity_header ++ take integrity_length (mac ++ replicate integrity_length 0)))
      ≡ some (binding_request, m.trans_id, plain_expected m ++ ((message_integrity, mac) ∷ []))
signed_built m mac h n =
    let tail = integrity_header ++ take integrity_length (mac ++ replicate integrity_length 0) in
    let last : List Attribute = (message_integrity, mac) ∷ [] in
    let all : List Attribute = plain_expected m ++ last in
    let parts : plain_attributes m ++ tail ≡ encode all =
      ap₂ (λ s t. s ++ t) (plain_attributes-encode m) (integrity_encode mac n)
      ∙ sym (encode-append (plain_expected m) last) in
    let size : length (plain_attributes m) + 24 ≡ length (encode all) = omega (
      arith,
      ap (λ (t : Bytes). length t) parts,
      length-append (plain_attributes m) tail,
      ap (λ (t : Bytes). length t) (integrity_encode mac n),
      length-append (attribute message_integrity mac) [],
      length-attribute message_integrity mac,
    ) in
    rw (join_parts m (length (plain_attributes m) + 24) (plain_attributes m) tail all parts size) (
      read_message-header m all h (omega (arith, length-plain_attributes m, size)) (
        All-append Fits (plain_expected m) last (plain_expected-Fits m)
          ((omega arith, omega arith), tt)))

-- A binding request that is built without error, with a transaction id of 16 bytes, is read back, by
-- a reader of its own, as a message with that id and exactly the attributes that are due.
pub build_message_lem :
    (K : Crypto) (m : StunMgr)
    → length m.trans_id ≡ 16
    → (build_message K m).0 ≡ pos 0
    → read_message (build_message K m).1.send_buff
      ≡ some (binding_request, m.trans_id, expected K m)
unfolding build_message
build_message_lem K m h e = elim (Bool-cases (is_signed m)) [
  | inl signed ↦ rw signed (
      signed_built m (K.hmac m.stun_password (signed_part m)) h
        (mac_checked (length (K.hmac m.stun_password (signed_part m))) (rw signed at e)))
  | inr plain ↦ rw (plain, append-nil (plain_expected m)) (plain_built m h)
]
