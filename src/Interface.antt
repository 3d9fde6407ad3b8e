-- ===== src/Interface.antt =====
-- tr069_sample/libtr069/tr069/tr069_interface.c: the values behind the parameters, by their index.
-- Diagnostics keep theirs in arrays of texts; the rest is in the configuration, whose functions
-- n_cfg_* are not part of the repository. Its wrappers of libxml, libsoap and libcurl are left out.
pub mod Config
use tr.Base.{
  ℕ, zero, suc, ◌+◌, ◌-◌, Bool, true, false, ◌&&◌, ◌||◌, Option, none, some, List, [], ◌∷◌, ◌++◌,
  length, take, get_or, ltb, leb, ◌==◌, if◌then◌else◌, ℤ, pos, negsuc, minus_one,
}
use tr.Platform.{Platform, Bytes}
use tr.CStr.{strcmp_eq}

-- The indexes TR069_PARAM_* and the entries F_CFG_* of the configuration that the code names; both
-- are enumerations of the vendor's headers.
pub record Indexes : Type 0 where
  pub tracert_diag_state : ℕ
  pub hophost32 : ℕ
  pub ping_diag_state : ℕ
  pub ping_diag_max_resp_time : ℕ
  pub speed_test_unique_num : ℕ
  pub speed_test_result : ℕ
  pub packet_lost_test_enable : ℕ
  pub packet_lost_test_band : ℕ
  pub ip_address_real : ℕ
  pub subnet_mask_real : ℕ
  pub default_gateway_real : ℕ
  pub dns_server0_real : ℕ
  pub dns_server1_real : ℕ
  pub current_local_time : ℕ
  pub connection_up_time : ℕ
  pub quarter_hour_packets_received : ℕ
  pub startpoint : ℕ
  pub play_error_info : ℕ
  pub multi_rrt : ℕ
  pub buffer_inc_nmb : ℕ
  pub auth_service_info_pppoe_enable : ℕ
  pub manage_ser_url : ℕ
  pub storage_size : ℕ
  pub phy_mem_size : ℕ
  pub description : ℕ
  pub is_support_ipv6 : ℕ
  pub current_language : ℕ
  pub available_languages : ℕ
  pub up_time : ℕ
  pub first_use_date : ℕ
  pub device_log : ℕ
  pub config_file : ℕ
  pub config_file_version : ℕ
  pub addressing_type : ℕ
  pub periodic_inform_enable : ℕ
  pub periodic_inform_time : ℕ
  pub log_msg_enable : ℕ
  pub log_msg_or_file : ℕ
  pub log_msg_duration : ℕ
  pub log_upload_interval : ℕ
  pub sqm_enable_epg : ℕ
  pub sqm_enable_warning : ℕ
  pub sqm_media_interval : ℕ
  pub sqm_enable_telnet : ℕ
  pub cfg_ip_address : ℕ
  pub cfg_subnet_mask : ℕ
  pub cfg_default_gateway : ℕ
  pub cfg_dns_server0 : ℕ
  pub cfg_dns_server1 : ℕ
  pub cfg_manage_ser_url : ℕ
  pub cfg_local_manage_server_url : ℕ
  -- tr069_index_map
  pub index_map : ℕ → ℕ

-- What is not part of the repository, or is the state of the box.
pub record Host : Type 1 where
  pub Dict : Type 0
  -- n_cfg_set_config, and n_cfg_get_config with its return code and what it writes
  pub set_config : Dict → ℕ → Bytes → Dict
  pub get_config : Dict → ℕ → ℕ → ℤ × Bytes
  -- what `snprintf` makes of a text that it is given as its format
  pub format : Bytes → Bytes
  -- tr069_format_time of the clock, tr069_get_net_stat, tr069_get_iptv_stat, o_soc_cap_query as
  -- text, and FTM_ENABLE(IPV6)
  pub local_time : ℕ → ℤ × Bytes
  pub net_stat : ℕ → ℕ → ℤ × Bytes
  pub iptv_stat : ℕ → ℕ → ℤ × Bytes
  pub storage_size : Bytes
  pub phy_mem_size : Bytes
  pub ipv6 : Bool

-- What a new value sets off elsewhere.
pub data Effect : Type 0 where
  start_heartbeat start_logmsg reset_statis_upload telnetd : Effect
  sqm_ctrl : ℤ → Effect

-- The arrays tr069_diag_*, the configuration, and the session's set_param_flag.
pub record Store (H : Host) : Type 0 where
  pub diag_traceroute : ℕ → Bytes
  pub diag_ping : ℕ → Bytes
  pub diag_speed_test : ℕ → Bytes
  pub diag_packetlost_test : ℕ → Bytes
  pub dict : H.Dict
  pub set_param_flag : ℕ
  pub effects : List Effect

-- `lo <= index && index <= hi`
abbrev pub is_in : ℕ → ℕ → ℕ → Bool
is_in lo hi index = leb lo index && leb index hi

abbrev pub put : (ℕ → Bytes) → ℕ → Bytes → ℕ → Bytes
put rows i v j = if i == j then v else rows j

-- `snprintf(buf, size, "%s", text)`, and one whose text is the format.
abbrev pub cut : ℕ → Bytes → Bytes
cut size text = take (size - 1) text

abbrev pub pppoe : Bytes
pppoe = b'P' ∷ b'P' ∷ b'P' ∷ b'O' ∷ b'E' ∷ []

abbrev pub true_text : Bytes
true_text = b't' ∷ b'r' ∷ b'u' ∷ b'e' ∷ []

abbrev pub false_text : Bytes
false_text = b'f' ∷ b'a' ∷ b'l' ∷ b's' ∷ b'e' ∷ []

abbrev pub zh_text : Bytes
zh_text = b'z' ∷ b'h' ∷ []

abbrev pub languages_text : Bytes
languages_text = b'z' ∷ b'h' ∷ b'+' ∷ b'e' ∷ b'n' ∷ []

abbrev pub up_time_text : Bytes
up_time_text = b'1' ∷ b'8' ∷ b'0' ∷ b'0' ∷ []

abbrev pub first_use_text : Bytes
first_use_text =
    b'2' ∷ b'0' ∷ b'1' ∷ b'3' ∷ b'-' ∷ b'0' ∷ b'4' ∷ b'-' ∷ b'1' ∷ b'6' ∷ b',' ∷ b'0' ∷ b'9' ∷ b':'
    ∷ b'3' ∷ b'0' ∷ []

abbrev pub description_text : Bytes
description_text =
    b'F' ∷ b'O' ∷ b'N' ∷ b'S' ∷ b'V' ∷ b'I' ∷ b'E' ∷ b'W' ∷ b'_' ∷ b'S' ∷ b'T' ∷ b'B' ∷ []

abbrev pub version_text : Bytes
version_text = b'v' ∷ b'1' ∷ b'.' ∷ b'3' ∷ []

module _ (P : Platform) (N : Indexes) (H : Host) where
  abbrev pub diag_size : ℕ
  diag_size = 256

  abbrev formatted : ℕ → Bytes → Bytes
  formatted size text = cut size (H.format text)

  -- The special effects of a new value.
  pub effect_of : ℕ → Bytes → List Effect
  effect_of index value =
      if is_in N.periodic_inform_enable N.periodic_inform_time index
      then start_heartbeat ∷ []
      else if (index == N.log_msg_enable)
          || (index == N.log_msg_or_file)
          || (index == N.log_msg_duration)
      then start_logmsg ∷ []
      else if index == N.log_upload_interval
      then reset_statis_upload ∷ []
      else if is_in N.sqm_enable_epg N.sqm_enable_warning index
      then sqm_ctrl (P.atoi value) ∷ []
      else if index == N.sqm_media_interval
      then sqm_ctrl (pos 1) ∷ []
      else if index == N.sqm_enable_telnet
      then telnetd ∷ []
      else []

  -- tr069_get_fixed_value
  pub get_fixed_value : ℕ → Bytes → ℕ → ℤ × Bytes
  get_fixed_value index old size =
      if index == N.is_support_ipv6
      then (pos 0, cut size (if H.ipv6 then true_text else false_text))
      else if index == N.current_language
      then (pos 0, cut size zh_text)
      else if index == N.available_languages
      then (pos 0, cut size languages_text)
      else if index == N.up_time
      then (pos 0, cut size up_time_text)
      else if index == N.first_use_date
      then (pos 0, cut size first_use_text)
      else if (index == N.device_log) || (index == N.config_file)
      then (pos 0, old)
      else if index == N.description
      then (pos 0, cut size description_text)
      else if index == N.config_file_version
      then (pos 0, cut size version_text)
      else (minus_one, old)

  -- tr069_get_config: the return code, and what stands in the caller's buffer of `size` bytes that
  -- held `old` before.
  unfoldable pub get_config : Store H → ℕ → Bytes → ℕ → ℤ × Bytes
  get_config s index old size =
      if index == N.current_local_time
      then H.local_time size
      else if is_in N.connection_up_time N.quarter_hour_packets_received index
      then H.net_stat index size
      else if is_in N.startpoint N.play_error_info index
      then H.iptv_stat index size
      else if is_in N.multi_rrt N.buffer_inc_nmb index
      then H.iptv_stat index size
      else if is_in N.tracert_diag_state N.hophost32 index
      then (pos 0, formatted size (s.diag_traceroute (index - N.tracert_diag_state)))
      else if is_in N.ping_diag_state N.ping_diag_max_resp_time index
      then (pos 0, formatted size (s.diag_ping (index - N.ping_diag_state)))
      else if index == N.auth_service_info_pppoe_enable
      then (
        pos 0,
        cut size (
            if strcmp_eq pppoe
              (H.get_config s.dict (N.index_map N.addressing_type) P.max_param_value_len).1
            then true_text
            else false_text),
      )
      else if index == N.manage_ser_url
      then (pos 0, server_url (H.get_config s.dict N.cfg_local_manage_server_url size).1)
      else if index == N.storage_size
      then (pos 0, cut size H.storage_size)
      else if index == N.phy_mem_size
      then (pos 0, cut size H.phy_mem_size)
      else if is_in N.description N.is_support_ipv6 index
      then get_fixed_value index old size
      else if is_in N.speed_test_unique_num N.speed_test_result index
      then (pos 0, formatted size (s.diag_speed_test (index - N.speed_test_unique_num)))
      else if is_in N.packet_lost_test_enable N.packet_lost_test_band index
      then (pos 0, formatted size (s.diag_packetlost_test (index - N.packet_lost_test_enable)))
      else H.get_config s.dict (N.index_map index) size
    where
      server_url : Bytes → Bytes
      server_url local =
          if length local == 0 then (H.get_config s.dict N.cfg_manage_ser_url size).1 else local

  -- A value that another entry of the configuration keeps.
  abbrev write_through : Store H → ℕ → Bytes → ℤ × Store H
  write_through s entry value = (pos 0, record s { dict = H.set_config s.dict entry value })

  -- `ret` and the store, before the flag of the session; the last branch asks for the old value.
  unfoldable pub store_value : Store H → ℕ → Bytes → ℤ × Store H
  store_value s index value =
      if is_in N.tracert_diag_state N.hophost32 index
      then (
        minus_one,
        record s {
          diag_traceroute =
              put s.diag_traceroute (index - N.tracert_diag_state) (formatted 256 value);
        },
      )
      else if is_in N.ping_diag_state N.ping_diag_max_resp_time index
      then (
        minus_one,
        record s { diag_ping = put s.diag_ping (index - N.ping_diag_state) (formatted 256 value) },
      )
      else if index == N.ip_address_real
      then write_through s N.cfg_ip_address value
      else if index == N.subnet_mask_real
      then write_through s N.cfg_subnet_mask value
      else if index == N.default_gateway_real
      then write_through s N.cfg_default_gateway value
      else if index == N.dns_server0_real
      then write_through s N.cfg_dns_server0 value
      else if index == N.dns_server1_real
      then write_through s N.cfg_dns_server1 value
      else if is_in N.speed_test_unique_num N.speed_test_result index
      then (
        minus_one,
        record s {
          diag_speed_test =
              put s.diag_speed_test (index - N.speed_test_unique_num) (formatted 256 value);
        },
      )
      else if is_in N.packet_lost_test_enable N.packet_lost_test_band index
      then (
        minus_one,
        record s {
          diag_packetlost_test =
              put s.diag_packetlost_test (index - N.packet_lost_test_enable) (formatted 256 value);
        },
      )
      else if strcmp_eq (get_config s index [] P.max_param_value_len).1 value
      then (minus_one, s)
      else (
        pos 0,
        record s {
          dict = H.set_config s.dict (N.index_map index) value;
          effects = s.effects ++ effect_of index value;
        },
      )

  -- `if (ret == FV_OK) set_param_flag = 1`
  abbrev flag : ℤ × Store H → Store H
  flag (pos zero, s) = record s { set_param_flag = 1 }
  flag (_, s) = s

  -- tr069_set_config, which returns FV_OK whatever happens.
  unfoldable pub set_config : Store H → ℕ → Bytes → ℤ × Store H
  set_config s index value = (pos 0, flag (store_value s index value))
