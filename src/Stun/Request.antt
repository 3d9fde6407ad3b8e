-- ===== src/Stun/Request.antt =====
-- tr111_control_parse_udp_connection_request (tr111_control.c): a signed request over UDP. `fault`
-- stands for a read behind the buffer and for a write behind one of the 128-byte arrays.
use tr.Base.{
  ℕ, ◌+◌, ◌*◌, Bool, true, false, not, Option, none, some, [], ◌∷◌, ◌++◌, length, replicate, take,
  drop, leb, ◌==◌, if◌then◌else◌, ℤ, pos, negsuc,
}
use tr.Platform.{Platform, Bytes}
use tr.CStr.{strcmp_eq, memcmp_eq}
use tr.Interface.{Indexes, Host, get_config}
use tr.Stun.{Crypto, StunIndexes, Call, Client, integrity_length}

-- A result, an error code of the function, or a fault.
pub data Result {ℓ} (A : Type ℓ) : Type ℓ where
  ok : A → Result A
  err : ℤ → Result A
  fault : Result A

infixl 5 ◌>>=◌
abbrev pub ◌>>=◌ {ℓ κ} : {A : Type ℓ} {B : Type κ} → Result A → (A → Result B) → Result B
ok a >>= f = f a
err e >>= f = err e
fault >>= f = fault

-- The text up to a space; there is none before the NUL that ends the text, or before the end of the
-- buffer, where the search goes on behind it.
unfoldable pub until_space : Bytes → Result Bytes
until_space [] = fault
until_space (c ∷ cs) =
    let rest = until_space cs >>= λ t. ok (c ∷ t) in
    if c == 0 then err (negsuc 1) else if c == b' ' then ok [] else rest

-- `t` starts with `s`.
abbrev starts_with : (s t : Bytes) → Bool
starts_with s t = if leb (length s) (length t) then memcmp_eq t s (length s) else false

-- What stands behind the first place of `s` in a text: `strstr(t, s) + strlen(s)`.
unfoldable pub behind : (s t : Bytes) → Option Bytes
behind s [] = none
behind s (c ∷ cs) =
    let rest = behind s cs in
    if starts_with s (c ∷ cs) then some (drop (length s) (c ∷ cs)) else rest

-- A text up to its first '&'.
unfoldable pub until_ampersand : Bytes → Bytes
until_ampersand [] = []
until_ampersand (c ∷ cs) = if c == b'&' then [] else c ∷ until_ampersand cs

-- A field of the URI, for an array of `size` bytes with its NUL; `code` where there is none.
unfoldable pub field : (size : ℕ) (code : ℤ) → (name uri : Bytes) → Result Bytes
field size code name uri = elim (behind name uri) [
  | none ↦ err code
  | some t ↦ if leb size (length (until_ampersand t)) then fault else ok (until_ampersand t)
]

-- TR111_STUN_ATTR_MAX_SIZE
abbrev pub attr_max_size : ℕ
attr_max_size = 128

abbrev pub ts_text : Bytes
ts_text = b't' ∷ b's' ∷ b'=' ∷ []

abbrev pub id_text : Bytes
id_text = b'i' ∷ b'd' ∷ b'=' ∷ []

abbrev pub un_text : Bytes
un_text = b'u' ∷ b'n' ∷ b'=' ∷ []

abbrev pub cn_text : Bytes
cn_text = b'c' ∷ b'n' ∷ b'=' ∷ []

abbrev pub sig_text : Bytes
sig_text = b's' ∷ b'i' ∷ b'g' ∷ b'=' ∷ []

abbrev pub get_text : Bytes
get_text = b'G' ∷ b'E' ∷ b'T' ∷ b' ' ∷ []

abbrev same_int : ℤ → ℤ → Bool
same_int (pos m) (pos n) = m == n
same_int (negsuc m) (negsuc n) = m == n
same_int _ _ = false

-- A byte of an array that was zeroed before the text was put there.
abbrev pub hex_at : Bytes → ℕ → Bytes
hex_at sig i = take 2 (drop (2 * i) (sig ++ replicate 128 0))

-- The comparison of the signature with the bytes of the HMAC, from the `i`th on.
unfoldable pub signature_ok : Crypto → Bytes → ℕ → Bytes → Bool
signature_ok K sig i [] = true
signature_ok K sig i (c ∷ mac) =
    let rest = signature_ok K sig (i + 1) mac in
    if same_int (K.strtol16 (hex_at sig i)) (K.char_of c) then rest else false

-- The fields of a request, and the text that is signed.
pub record Request : Type 0 where
  pub id : Bytes
  pub text : Bytes
  pub sig : Bytes

-- The fields, where the text that they make fits its array.
abbrev whole_request : (value_len : ℕ) (id text sig : Bytes) → Result Request
whole_request value_len id text sig =
    if leb value_len (length text) then fault else ok (record { id = id; text = text; sig = sig })

-- An id that is not the one of the last request.
abbrev new_id : (last_id id : Bytes) → Result Bytes
new_id last_id id = if strcmp_eq id last_id then err (negsuc 3) else ok id

-- The reading of the URI.
unfoldable pub read_request : (value_len : ℕ) (last_id uri : Bytes) → Result Request
read_request value_len last_id uri = do
  ts ← field attr_max_size (negsuc 2) ts_text uri
  asked ← field attr_max_size (negsuc 3) id_text uri
  id ← new_id last_id asked
  un ← field value_len (negsuc 4) un_text uri
  cn ← field value_len (negsuc 5) cn_text uri
  sig ← field attr_max_size (negsuc 6) sig_text uri
  whole_request value_len id (ts ++ (id ++ (un ++ cn))) sig

module _ (P : Platform) (K : Crypto) (N : Indexes) (X : StunIndexes) (H : Host) where
  -- The check of the signature, with the length of the HMAC.
  unfoldable pub check_request : Request → Client H → ℤ
  check_request q c =
      let key =
        (get_config P N H c.store X.connection_request_password [] P.max_param_value_len).1 in
      let mac = K.hmac key q.text in
      if not (length mac == integrity_length)
      then negsuc 7
      else if signature_ok K q.sig 0 mac
      then pos 0
      else negsuc 8

  -- A valid request raises the event and starts the session.
  unfoldable pub accept_request : Request → Client H → Client H
  accept_request q c = record c {
    calls =
        c.calls
        ++ (Call.connection_request ∷ Call.inform_stbid ∷ Call.inform_ip_address ∷ Call.start ∷ []);
    last_id = q.id;
  }

  unfoldable pub judge_request : Client H → Result Request → Option (ℤ × Client H)
  judge_request c (ok q) =
      some (elim (check_request q c) [
        | pos n ↦ (pos n, accept_request q c)
        | negsuc n ↦ (negsuc n, c)
      ])
  judge_request c (err code) = some (code, c)
  judge_request c fault = none

  -- The NUL that the end of the URI gets in the buffer.
  abbrev pub cut_uri : Bytes → Client H → Client H
  cut_uri uri c =
      let m = c.mgr in
      let end = 4 + length uri in
      record c {
        mgr = record m { recv_buff = take end m.recv_buff ++ (0 ∷ drop (end + 1) m.recv_buff) };
      }

  unfoldable pub judge_uri : Client H → Result Bytes → Option (ℤ × Client H)
  judge_uri c (ok uri) =
      judge_request (cut_uri uri c) (read_request P.max_param_value_len c.last_id uri)
  judge_uri c (err code) = some (code, c)
  judge_uri c fault = none

  -- tr111_control_parse_udp_connection_request
  unfoldable pub parse_udp_connection_request : Client H → Option (ℤ × Client H)
  parse_udp_connection_request c =
      if starts_with get_text c.mgr.recv_buff
      then judge_uri c (until_space (drop 4 c.mgr.recv_buff))
      else some (negsuc 0, c)
