-- ===== src/Stun.antt =====
-- tr069_sample/libtr069/tr069/tr111_control.c and tr111_control.h: the STUN client, which keeps a
-- binding for UDP connection requests. Numbers that the code keeps in network order, addresses and
-- the transaction id are the bytes that stand in memory. OpenSSL and sockets are not part of the
-- repository; calls of tr069_service.c are kept in their order.
pub mod Parse
pub mod Request
pub mod Receive
pub mod Task
pub mod Reader
pub mod Framing
pub mod Attributes
pub mod Authentic
pub mod Change
pub mod Calm
pub mod Steps
pub mod Binding
use tr.Base.{
  ℕ, ◌+◌, ◌-◌, ◌*◌, ◌/◌, ◌%◌, Bool, true, false, ◌&&◌, Option, none, some, List, [], ◌∷◌, ◌++◌,
  length, take, replicate, ◌==◌, if◌then◌else◌, ℤ, pos, negsuc, minus_one,
}
use tr.Platform.{Bytes}
use tr.Interface.{Host, Store}

-- Functions of OpenSSL and libc: HMAC with SHA-1, the conversions of addresses, `strtol(s, 0, 16)`,
-- and the value of a `char` with some byte, signed or not.
pub record Crypto : Type 0 where
  pub hmac : (key text : Bytes) → Bytes
  pub inet_ntoa : Bytes → Bytes
  pub inet_addr : Bytes → Bytes
  pub strtol16 : Bytes → ℤ
  pub char_of : ℕ → ℤ

-- The indexes TR069_PARAM_* that only this client names.
pub record StunIndexes : Type 0 where
  pub udp_connection_request_address : ℕ
  pub nat_detected : ℕ
  pub stun_enable : ℕ
  pub stun_max_keep_alive_period : ℕ
  pub stun_min_keep_alive_period : ℕ
  pub stun_password : ℕ
  pub connection_request_password : ℕ

-- tr111_control_status
pub data StunStatus : Type 0 where
  stop idle task wait : StunStatus

-- sockaddr_in: the bytes of `sin_port` and of `s_addr`.
pub record Address : Type 0 where
  pub port : Bytes
  pub addr : Bytes

-- tr111_control_mgr. The length of `send_buff` is send_len; recv_buff is the whole array.
pub record StunMgr : Type 0 where
  pub status : StunStatus
  pub trans_id : Bytes
  pub local_addr : Address
  pub public_addr : Address
  pub send_buff : Bytes
  pub recv_len : ℕ
  pub recv_buff : Bytes
  pub stun_username : Bytes
  pub stun_password : Bytes
  pub keepalive_period : ℕ
  pub max_keepalive_period : ℕ
  pub min_keepalive_period : ℕ
  pub wait_time : ℕ
  pub retry_count : ℕ
  pub auth_flag : ℕ
  pub binding_change_flag : ℕ

-- The calls of tr069_service_set_event, tr069_service_put_inform_parameter and tr069_service_start.
pub data Call : Type 0 where
  value_change connection_request : Call
  inform_udp_address inform_nat_detected inform_stbid inform_ip_address : Call
  start : Call

-- The manager, the configuration, the calls and messages so far, and the static variables of
-- tr111_control_parse_udp_connection_request and tr111_control_task_proc.
pub record Client (H : Host) : Type 0 where
  pub mgr : StunMgr
  pub store : Store H
  pub calls : List Call
  pub sent : List Bytes
  pub last_id : Bytes
  pub last_time : ℕ

-- `htons` in memory, and `ntohs` of what stands there.
abbrev pub bytes16 : ℕ → Bytes
bytes16 n = (n / 256 % 256) ∷ (n % 256) ∷ []

-- tr111_message_type and tr111_attr_type
abbrev pub binding_request : ℕ
binding_request = 0x0001

abbrev pub binding_response : ℕ
binding_response = 0x0101

abbrev pub binding_error_response : ℕ
binding_error_response = 0x0111

abbrev pub mapped_address : ℕ
mapped_address = 0x0001

abbrev pub username : ℕ
username = 0x0006

abbrev pub message_integrity : ℕ
message_integrity = 0x0008

abbrev pub error_code : ℕ
error_code = 0x0009

abbrev pub connection_request_binding : ℕ
connection_request_binding = 0xC001

abbrev pub binding_change : ℕ
binding_change = 0xC002

-- TR111_MESSAGEINTEGRITY_LENGTH
abbrev pub integrity_length : ℕ
integrity_length = 20

-- TR111_CONNECTIONREQUESTBINDING_VALUE, "dslforum.org/TR-111 "
abbrev pub binding_value : Bytes
binding_value =
    0x64 ∷ 0x73 ∷ 0x6C ∷ 0x66 ∷ 0x6F ∷ 0x72 ∷ 0x75 ∷ 0x6D ∷ 0x2E ∷ 0x6F ∷ 0x72 ∷ 0x67 ∷ 0x2F ∷ 0x54
    ∷ 0x52 ∷ 0x2D ∷ 0x31 ∷ 0x31 ∷ 0x31 ∷ 0x20 ∷ []

-- An attribute with a header of its own length.
unfoldable pub attribute : ℕ → Bytes → Bytes
attribute type value = bytes16 type ++ (bytes16 (length value) ++ value)

-- `ulen`, an unsigned char
abbrev pub user_length : ℕ → ℕ
user_length n = (n % 256 + (4 - n % 4) % 4) % 256

-- The user name with zeros behind it, as far as `ulen` goes.
abbrev pub padded_name : Bytes → Bytes
padded_name name = take (user_length (length name)) (name ++ replicate 256 0)

-- The attributes before the message integrity.
unfoldable pub plain_attributes : StunMgr → Bytes
plain_attributes m =
    attribute connection_request_binding binding_value
    ++ ((if m.binding_change_flag == 0 then [] else attribute binding_change [])
        ++ (if length m.stun_username == 0
            then []
            else attribute username (padded_name m.stun_username)))

-- `auth_flag && stun_password[0]`
abbrev pub is_signed : StunMgr → Bool
is_signed m =
    if m.auth_flag == 0 then false else (if length m.stun_password == 0 then false else true)

-- The header, whose length is that of what follows it.
unfoldable pub header : StunMgr → ℕ → Bytes
header m n = bytes16 binding_request ++ (bytes16 n ++ m.trans_id)

abbrev pub integrity_header : Bytes
integrity_header = bytes16 message_integrity ++ bytes16 integrity_length

-- What the message integrity is made of.
abbrev pub signed_part : StunMgr → Bytes
signed_part m = header m (length (plain_attributes m) + 24) ++ plain_attributes m

abbrev pub put_message : StunMgr → Bytes → StunMgr
put_message m t = record m { send_buff = t }

-- tr111_control_build_message of TR111_MSGTYPE_BINDING_REQUEST
unfoldable pub build_message : Crypto → StunMgr → ℤ × StunMgr
build_message K m =
    if is_signed m
    then (let mac = K.hmac m.stun_password (signed_part m) in
        let text =
          signed_part m
          ++ (integrity_header ++ take integrity_length (mac ++ replicate integrity_length 0)) in
        (if length mac == integrity_length then pos 0 else minus_one, put_message m text))
    else (pos 0, put_message m (header m (length (plain_attributes m)) ++ plain_attributes m))

-- tr111_control_new_transaction; the id is what four calls of `rand` gave.
unfoldable pub new_transaction : Bytes → StunMgr → StunMgr
new_transaction rands m = record m {
  retry_count = 0;
  auth_flag = 0;
  binding_change_flag = 0;
  trans_id = rands;
}
