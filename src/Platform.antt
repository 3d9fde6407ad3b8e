-- ===== src/Platform.antt =====
-- The constants of the vendor's header n_stb_tr069.h, which is not part of the repository, and the
-- functions of libc that print and read a number. Enumerators are numbers, tables are functions.
use tr.Base.{ℕ, ◌+◌, ◌<◌, ◌≤◌, ◌≡◌, Option, List, ℤ, pos, negsuc, length}

-- A C string without its final NUL.
abbrev pub Bytes : Type 0
Bytes = List ℕ

pub record Platform : Type 0 where
  -- TR069_EVENT_NUMBER, and the enumerators of tr069_event_type that the code names
  pub event_number : ℕ
  pub event_bootstrap : ℕ
  pub event_boot : ℕ
  pub event_connection_request : ℕ
  pub event_diagnostics_complete : ℕ
  pub event_m_scheduleinform : ℕ
  pub event_m_reboot : ℕ
  -- TR069_RPC_ACS_INFORM and TR069_RPC_ACS_TRANSFER_COMPLETE
  pub rpc_acs_inform : ℕ
  pub rpc_acs_transfer_complete : ℕ
  -- TR069_FAULT_ACS_RETRY_REQUEST
  pub fault_acs_retry_request : ℕ
  -- TR069_MAX_INFORM_PARAM_NUM and the sizes of the text buffers
  pub max_inform_param_num : ℕ
  pub max_param_name_len : ℕ
  pub max_param_code_len : ℕ
  pub max_param_value_len : ℕ
  -- TR069_MAX_PARAM_NUM
  pub max_param_num : ℕ
  -- TR069_NOTIFICATION_OFF
  pub notification_off : ℤ
  -- TR069_PARAM_NUM, and tr069_parameter_name_table once it is filled (`none` for NULL)
  pub param_num : ℕ
  pub parameter_name : ℕ → Option Bytes
  -- TR069_DEFAULT_EVENT_FLAG
  pub default_event_flag : Bytes
  -- sprintf with "%d", and atoi
  pub sprintf_d : ℤ → Bytes
  pub atoi : Bytes → ℤ

-- A value of INT32_T.
abbrev pub IsInt : ℤ → Type 0
IsInt (pos n) = n < 2147483648
IsInt (negsuc n) = n < 2147483648

-- What the code relies on: the enumerators stand in the order in which its loops walk them, the
-- 8-bit counters are wide enough, and the buffers hold what the code writes there.
pub record IsSane (P : Platform) : Type 0 where
  pub bootstrap_first : P.event_bootstrap ≡ 0
  pub primary_below : P.event_m_scheduleinform ≤ P.event_number
  pub few_events : P.event_number < 256
  pub few_params : P.max_inform_param_num < 128
  pub inform_below : P.rpc_acs_inform < P.rpc_acs_transfer_complete
  pub flags_fit : P.event_number + 1 < P.max_param_value_len
  pub codes_fit : P.max_inform_param_num + 1 < P.max_param_value_len
  pub code_room : 1 < P.max_param_code_len
  pub keys_fit : 32 < P.max_param_value_len
  pub atoi-sprintf_d : (x : ℤ) → IsInt x → P.atoi (P.sprintf_d x) ≡ x
  pub sprintf_d_short : (x : ℤ) → IsInt x → length (P.sprintf_d x) + 1 < P.max_param_value_len
