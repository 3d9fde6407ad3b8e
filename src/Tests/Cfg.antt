-- ===== src/Tests/Cfg.antt =====
-- A configuration kept as a function, for the parameters.
use tr.Base.{
  ℕ, ◌-◌, ap, inl, inr, false, none, some, [], arith, length, take, take-of_le, ◌==◌, if◌then◌else◌,
  pos, Bool-cases,
}
use tr.Platform.{Bytes}
use tr.Interface.{Indexes, Host, Store}
use tr.Interface.Config.{Keeps}
use tr.Param.Values.{Libc}

abbrev pub indexes : Indexes
indexes = record {
  tracert_diag_state = 10;
  hophost32 = 49;
  ping_diag_state = 50;
  ping_diag_max_resp_time = 58;
  speed_test_unique_num = 60;
  speed_test_result = 69;
  packet_lost_test_enable = 70;
  packet_lost_test_band = 79;
  ip_address_real = 100;
  subnet_mask_real = 102;
  default_gateway_real = 104;
  dns_server0_real = 106;
  dns_server1_real = 108;
  current_local_time = 110;
  connection_up_time = 112;
  quarter_hour_packets_received = 114;
  startpoint = 116;
  play_error_info = 118;
  multi_rrt = 120;
  buffer_inc_nmb = 122;
  auth_service_info_pppoe_enable = 124;
  manage_ser_url = 126;
  storage_size = 128;
  phy_mem_size = 130;
  description = 132;
  is_support_ipv6 = 134;
  current_language = 136;
  available_languages = 138;
  up_time = 140;
  first_use_date = 142;
  device_log = 144;
  config_file = 146;
  config_file_version = 148;
  addressing_type = 150;
  periodic_inform_enable = 152;
  periodic_inform_time = 154;
  log_msg_enable = 156;
  log_msg_or_file = 158;
  log_msg_duration = 160;
  log_upload_interval = 162;
  sqm_enable_epg = 164;
  sqm_enable_warning = 166;
  sqm_media_interval = 168;
  sqm_enable_telnet = 170;
  cfg_ip_address = 172;
  cfg_subnet_mask = 174;
  cfg_default_gateway = 176;
  cfg_dns_server0 = 178;
  cfg_dns_server1 = 180;
  cfg_manage_ser_url = 182;
  cfg_local_manage_server_url = 184;
  index_map = λ i. i;
}

abbrev pub cut_to : ℕ → Bytes → Bytes
cut_to size text = take (size - 1) text

abbrev pub host : Host
host = record {
  Dict = ℕ → Bytes;
  set_config = λ d k v j. if k == j then v else d j;
  get_config = λ d k size. (pos 0, cut_to size (d k));
  format = λ text. text;
  local_time = λ size. (pos 0, []);
  net_stat = λ index size. (pos 0, []);
  iptv_stat = λ index size. (pos 0, []);
  storage_size = [];
  phy_mem_size = [];
  ipv6 = false;
}

abbrev pub host-Keeps : Keeps host
host-Keeps = record {
  room = λ k. 64;
  get_config-set_config = λ d k v size f h. elim (Bool-cases (k == k)) [
    | inl same ↦ rw same (ap (λ t. (pos 0, t)) (take-of_le (size - 1) v (omega arith)))
    | inr other ↦ absurd (ground (arith, other))
  ];
}

abbrev pub store : Store host
store = record {
  diag_traceroute = λ i. [];
  diag_ping = λ i. [];
  diag_speed_test = λ i. [];
  diag_packetlost_test = λ i. [];
  dict = λ k. [];
  set_param_flag = 0;
  effects = [];
}

-- Every text of digits is a number, and every time is one.
abbrev pub libc : Libc
libc = record {
  scan_int = λ s. if length s == 0 then none else some (length s);
  mktime = λ y m d h i s. pos 0;
}
