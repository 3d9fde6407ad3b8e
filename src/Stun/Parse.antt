-- ===== src/Stun/Parse.antt =====
-- tr111_control_parse_message and tr111_apply_new_address (tr111_control.c): what a message of the
-- STUN server does. The loop takes fuel; each of its rounds moves on by four bytes at least.
use tr.Base.{
  ℕ, zero, suc, ◌+◌, ◌-◌, ◌*◌, Bool, true, false, ◌&&◌, ◌||◌, not, Option, none, some, [], ◌∷◌,
  ◌++◌, length, take, drop, get_or, ltb, leb, ◌==◌, if◌then◌else◌, ℤ, pos, negsuc,
}
use tr.Platform.{Platform, Bytes}
use tr.CStr.{strcmp_eq}
use tr.Interface.{Indexes, Host, Store, set_config, get_config, true_text, false_text}
use tr.Stun.{
  Crypto, StunIndexes, StunStatus, StunMgr, Address, Call, Client, binding_response,
  binding_error_response, mapped_address, message_integrity, error_code, integrity_length,
}

-- `ntohs` of two bytes at a place.
abbrev pub number16 : Bytes → ℕ → ℕ
number16 t i = get_or t i 0 * 256 + get_or t (i + 1) 0

abbrev pub slice : Bytes → (from size : ℕ) → Bytes
slice t from size = take size (drop from t)

-- The local variables of the loop and the manager: where it stands, `new_addr` if it is set, and
-- `integrity_flag`.
pub record Loop : Type 0 where
  pub mgr : StunMgr
  pub mapped : Option Address
  pub integrity : Bool

-- How the loop ends; `stuck` is fuel that ran out.
pub data Ended : Type 0 where
  done : Loop → Ended
  failed : ℕ → StunMgr → Ended
  stuck : Ended

-- An attribute: the loop's variables after it, or the negated return code.
pub data Step : Type 0 where
  next : Loop → Step
  refused : ℕ → Step

-- TR111_ATTRTYPE_MAPPEDADDRESS of `size` bytes at `i`.
unfoldable pub on_mapped : Bytes → (type size i : ℕ) → Loop → Step
on_mapped t type size i l =
    if not (type == binding_response)
    then refused 8
    else if not (size == 8)
    then refused 9
    else if not (get_or t (i + 1) 0 == 1)
    then refused 10
    else next
        (record l { mapped = some (record { port = slice t (i + 2) 2; addr = slice t (i + 4) 4 }) })

-- TR111_ATTRTYPE_MESSAGEINTEGRITY
unfoldable pub on_integrity : Crypto → Bytes → (type size i : ℕ) → Loop → Step
on_integrity K t type size i l =
    let mac = K.hmac l.mgr.stun_password (take (i - 4) t) in
    if not (type == binding_response)
    then refused 11
    else if not ((size == integrity_length) && (length t - i == integrity_length))
    then refused 12
    else if not (length mac == integrity_length)
    then refused 13
    else if not (strcmp_eq mac (slice t i integrity_length))
    then refused 14
    else next (record l { integrity = true })

-- 401 asks for authentication.
abbrev pub unauthorized : StunMgr → StunMgr
unauthorized m = record m { auth_flag = 1; status = StunStatus.task; retry_count = 0 }

-- TR111_ATTRTYPE_ERRORCODE
unfoldable pub on_error : Bytes → (type size i : ℕ) → Loop → Step
on_error t type size i l =
    if not (type == binding_error_response)
    then refused 15
    else if ltb size 4
    then refused 16
    else if get_or t (i + 2) 0 * 100 + get_or t (i + 3) 0 == 401
    then next (record l { mgr = unauthorized l.mgr })
    else next l

-- `switch (aheader.type)`
unfoldable pub on_attribute : Crypto → Bytes → (type attr size i : ℕ) → Loop → Step
on_attribute K t type attr size i l =
    if attr == mapped_address
    then on_mapped t type size i l
    else if attr == message_integrity
    then on_integrity K t type size i l
    else if attr == error_code
    then on_error t type size i l
    else next l

-- The loop over the attributes, at place `i`.
unfoldable pub attributes_from : Crypto → Bytes → (type fuel i : ℕ) → Loop → Ended
attributes_from K t type zero i l = stuck
attributes_from K t type (suc fuel) i l =
    if leb (length t) i
    then done l
    else if ltb (length t - i) 4
    then failed 6 l.mgr
    else if ltb (length t - i - 4) (number16 t (i + 2))
    then failed 7 l.mgr
    else elim (on_attribute K t type (number16 t i) (number16 t (i + 2)) (i + 4) l) [
      | refused code ↦ failed code l.mgr
      | next l' ↦ attributes_from K t type fuel (i + 4 + number16 t (i + 2)) l'
    ]

abbrev pub eq_address : Address → Address → Bool
eq_address a b = strcmp_eq a.port b.port && strcmp_eq a.addr b.addr

module _ (P : Platform) (K : Crypto) (N : Indexes) (X : StunIndexes) (H : Host) where
  abbrev pub configured : Store H → ℕ → Bytes → Bytes
  configured s index old = (get_config P N H s index old P.max_param_value_len).1

  abbrev pub address_text : Address → Bytes
  address_text a =
      take (P.max_param_value_len - 1)
        (K.inet_ntoa a.addr ++ (b':' ∷ P.sprintf_d (pos (number16 a.port 0))))

  -- The first part of tr111_apply_new_address, where the address is another one.
  unfoldable pub change_address : Address → Client H → Client H
  change_address a c =
      let text = address_text a in
      let s = (set_config P N H c.store X.udp_connection_request_address text).1 in
      let m = c.mgr in
      record c {
        store = s;
        calls = c.calls ++ (Call.inform_udp_address ∷ []);
        mgr =
            if strcmp_eq (configured s X.stun_enable text) true_text
            then (record m { status = StunStatus.task; retry_count = 0; binding_change_flag = 1 })
            else m;
      }

  -- NATDetected gets a value.
  unfoldable pub change_nat : Bytes → Client H → Client H
  change_nat text c = record c {
    store = (set_config P N H c.store X.nat_detected text).1;
    calls = c.calls ++ (Call.inform_nat_detected ∷ []);
  }

  -- The part of tr111_apply_new_address about NAT, with whether it asks for an inform.
  unfoldable pub check_nat : Address → Client H → Client H × Bool
  check_nat a c =
      if eq_address c.mgr.local_addr a
      then (if eq_address c.mgr.local_addr c.mgr.public_addr
          then (c, false)
          else (change_nat false_text c, true))
      else if eq_address c.mgr.local_addr c.mgr.public_addr
      then (change_nat true_text c, true)
      else (c, false)

  abbrev trigger : Bool → Client H → Client H
  trigger true c = record c { calls = c.calls ++ (Call.value_change ∷ Call.start ∷ []) }
  trigger false c = c

  -- tr111_apply_new_address
  unfoldable pub apply_new_address : Address → Client H → Client H
  apply_new_address a c =
      let same = eq_address c.mgr.public_addr a in
      let c1 = if same then c else change_address a c in
      let (c2, inform) = check_nat a c1 in
      let m = c2.mgr in
      trigger (not same || inform) (record c2 { mgr = record m { public_addr = a } })

  abbrev with_mgr : StunMgr → Client H → Client H
  with_mgr m c = record c { mgr = m }

  -- tr111_control_parse_message after its loop.
  unfoldable pub accept_message : ℕ → Loop → Client H → ℤ × Client H
  accept_message type l c =
      if not (type == binding_response)
      then (negsuc 17, with_mgr l.mgr c)
      else if (l.mgr.auth_flag == 1) && not l.integrity
      then (negsuc 16, with_mgr l.mgr c)
      else (
        pos 0,
        elim l.mapped [ none ↦ with_mgr l.mgr c | some a ↦ apply_new_address a (with_mgr l.mgr c) ],
      )

  unfoldable pub finish_message : ℕ → Client H → Ended → Option (ℤ × Client H)
  finish_message type c stuck = none
  finish_message type c (failed code m) = some (negsuc (code - 1), with_mgr m c)
  finish_message type c (done l) = some (accept_message type l c)

  abbrev pub received : StunMgr → Bytes
  received m = take m.recv_len m.recv_buff

  -- tr111_control_parse_message in task status; `none` is fuel that ran out, which is never so.
  unfoldable pub parse_received : Bytes → Client H → Option (ℤ × Client H)
  parse_received t c =
      let type = number16 t 0 in
      let start : Loop = record { mgr = c.mgr; mapped = none; integrity = false } in
      if ltb (length t) 20
      then some (negsuc 1, c)
      else if not (length t == 20 + number16 t 2)
      then some (negsuc 2, c)
      else if not (strcmp_eq (slice t 4 16) c.mgr.trans_id)
      then some (negsuc 3, c)
      else if not ((type == binding_response) || (type == binding_error_response))
      then some (negsuc 4, c)
      else finish_message type c (attributes_from K t type (length t) 20 start)

  -- tr111_control_parse_message
  unfoldable pub parse_message : Client H → Option (ℤ × Client H)
  parse_message c = elim c.mgr.status [
    | StunStatus.task ↦ parse_received (received c.mgr) c
    | _ ↦ some (negsuc 0, c)
  ]
