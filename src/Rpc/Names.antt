-- ===== src/Rpc/Names.antt =====
-- tr069_rpc_type_name (tr069_rpc.c): the method names of the protocol, character by character.
use tr.Base.{[], ◌∷◌, Option, some}
use tr.Platform.{Bytes}

-- tr069_rpc_type, as far as the session uses it; `number` is TR069_RPC_NUMBER.
pub data RpcType : Type 0 where
  empty acs_inform acs_transfer_complete : RpcType
  cpe_set_parameter_values cpe_get_parameter_values cpe_get_parameter_names : RpcType
  cpe_download cpe_upload cpe_reboot cpe_factory_reset : RpcType
  cpe_set_parameter_attributes cpe_get_parameter_attributes cpe_x_fv_setup number : RpcType

-- `none` is NULL.
abbrev pub type_name : RpcType → Option Bytes
type_name RpcType.empty = some (b'U' ∷ b'n' ∷ b'd' ∷ b'e' ∷ b'f' ∷ b'i' ∷ b'n' ∷ b'e' ∷ b'd' ∷ [])
type_name RpcType.acs_inform = some (b'I' ∷ b'n' ∷ b'f' ∷ b'o' ∷ b'r' ∷ b'm' ∷ [])
type_name RpcType.acs_transfer_complete = some (
    b'T' ∷ b'r' ∷ b'a' ∷ b'n' ∷ b's' ∷ b'f' ∷ b'e' ∷ b'r' ∷ b'C' ∷ b'o' ∷ b'm' ∷ b'p' ∷ b'l' ∷ b'e'
    ∷ b't' ∷ b'e' ∷ [])
type_name RpcType.cpe_set_parameter_values = some (
    b'S' ∷ b'e' ∷ b't' ∷ b'P' ∷ b'a' ∷ b'r' ∷ b'a' ∷ b'm' ∷ b'e' ∷ b't' ∷ b'e' ∷ b'r' ∷ b'V' ∷ b'a'
    ∷ b'l' ∷ b'u' ∷ b'e' ∷ b's' ∷ [])
type_name RpcType.cpe_get_parameter_values = some (
    b'G' ∷ b'e' ∷ b't' ∷ b'P' ∷ b'a' ∷ b'r' ∷ b'a' ∷ b'm' ∷ b'e' ∷ b't' ∷ b'e' ∷ b'r' ∷ b'V' ∷ b'a'
    ∷ b'l' ∷ b'u' ∷ b'e' ∷ b's' ∷ [])
type_name RpcType.cpe_get_parameter_names = some (
    b'G' ∷ b'e' ∷ b't' ∷ b'P' ∷ b'a' ∷ b'r' ∷ b'a' ∷ b'm' ∷ b'e' ∷ b't' ∷ b'e' ∷ b'r' ∷ b'N' ∷ b'a'
    ∷ b'm' ∷ b'e' ∷ b's' ∷ [])
type_name RpcType.cpe_download = some (b'D' ∷ b'o' ∷ b'w' ∷ b'n' ∷ b'l' ∷ b'o' ∷ b'a' ∷ b'd' ∷ [])
type_name RpcType.cpe_upload = some (b'U' ∷ b'p' ∷ b'l' ∷ b'o' ∷ b'a' ∷ b'd' ∷ [])
type_name RpcType.cpe_reboot = some (b'R' ∷ b'e' ∷ b'b' ∷ b'o' ∷ b'o' ∷ b't' ∷ [])
type_name RpcType.cpe_factory_reset =
    some (b'F' ∷ b'a' ∷ b'c' ∷ b't' ∷ b'o' ∷ b'r' ∷ b'y' ∷ b'R' ∷ b'e' ∷ b's' ∷ b'e' ∷ b't' ∷ [])
type_name RpcType.cpe_set_parameter_attributes = some (
    b'S' ∷ b'e' ∷ b't' ∷ b'P' ∷ b'a' ∷ b'r' ∷ b'a' ∷ b'm' ∷ b'e' ∷ b't' ∷ b'e' ∷ b'r' ∷ b'A' ∷ b't'
    ∷ b't' ∷ b'r' ∷ b'i' ∷ b'b' ∷ b'u' ∷ b't' ∷ b'e' ∷ b's' ∷ [])
type_name RpcType.cpe_get_parameter_attributes = some (
    b'G' ∷ b'e' ∷ b't' ∷ b'P' ∷ b'a' ∷ b'r' ∷ b'a' ∷ b'm' ∷ b'e' ∷ b't' ∷ b'e' ∷ b'r' ∷ b'A' ∷ b't'
    ∷ b't' ∷ b'r' ∷ b'i' ∷ b'b' ∷ b'u' ∷ b't' ∷ b'e' ∷ b's' ∷ [])
type_name RpcType.cpe_x_fv_setup =
    some (b'X' ∷ b'_' ∷ b'F' ∷ b'V' ∷ b'_' ∷ b'S' ∷ b'e' ∷ b't' ∷ b'u' ∷ b'p' ∷ [])
type_name RpcType.number = Option.none

-- The texts "Response", "Fault", "MaxEnvelopes" and "1".
abbrev pub response_text : Bytes
response_text = b'R' ∷ b'e' ∷ b's' ∷ b'p' ∷ b'o' ∷ b'n' ∷ b's' ∷ b'e' ∷ []

abbrev pub fault_text : Bytes
fault_text = b'F' ∷ b'a' ∷ b'u' ∷ b'l' ∷ b't' ∷ []

abbrev pub max_envelopes : Bytes
max_envelopes =
    b'M' ∷ b'a' ∷ b'x' ∷ b'E' ∷ b'n' ∷ b'v' ∷ b'e' ∷ b'l' ∷ b'o' ∷ b'p' ∷ b'e' ∷ b's' ∷ []

abbrev pub one : Bytes
one = b'1' ∷ []
