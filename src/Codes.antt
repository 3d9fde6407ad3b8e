-- ===== src/Codes.antt =====
-- The codes by which parameters are named in an inform (tr069_format_param_code, tr069_interface.c),
-- and the lists of them that the notices send.

use tr.Base.{Bool, true, false, List, [], ◌∷◌}

-- The entries F_CFG_* of the configuration that have a code; the enumeration is the vendor's.
pub data Entry : Type 0 where
  manufacturer manufacturer_oui product_class serial_number hardware_version fs_version : Entry
  provisioning_code device_status kernel_version streaming_control_protocols : Entry
  streaming_transport_protocols streaming_transport_control_protocols : Entry
  download_transport_protocols multiplex_types max_dejittering_buffer_size audio_standards : Entry
  video_standards manage_ser_url manage_ser_username manage_ser_password connection_request_url :
      Entry
  connection_request_username connection_request_password periodic_inform_enable : Entry
  periodic_inform_interval periodic_inform_time upgrades_managed parameter_key ntp_server1 : Entry
  local_time_zone current_local_time device dhcp_user dhcp_password addressing_type : Entry
  ip_address_real subnet_mask_real default_gateway_real dns_server0_real dns_server1_real : Entry
  mac_address stbid pp_po_eid pp_po_e_password user_id user_password log_server_url : Entry
  log_upload_interval log_record_interval stat_interval operator_info upgrade_domain auth_url :
      Entry
  auth_url_backup administrator_password c_user_password user_province : Entry
  udp_connection_request_address udp_connection_request_ntf_limit stun_enable : Entry
  stun_server_address stun_server_port stun_username stun_password stun_max_keep_alive_period :
      Entry
  stun_min_keep_alive_period : Entry

-- The codes PCODE_* that the code names; their texts are the vendor's.
pub data Pcode : Type 0 where
  manufacturer manufacturer_oui product_class serial_number hardware_version software_version :
      Pcode
  provisioning_code device_status kernel_version strm_ctl_protocols strm_trspt_protocols : Pcode
  strm_trspt_ctl_protocols dld_trspt_protocols multiplex_types max_djt_buffer_size : Pcode
  audio_standards video_standards manage_ser_url manage_ser_username manage_ser_password : Pcode
  connection_request_url connection_request_username connection_request_password : Pcode
  periodic_inform_enable periodic_inform_interval periodic_inform_time upgrades_managed : Pcode
  parameter_key ntp_server1 local_time_zone current_local_time device dhcp_user dhcp_password :
      Pcode
  addressing_type ip_address_real subnet_mask_real default_gateway_real dns_server0_real : Pcode
  dns_server1_real mac_address stbid pp_po_eid pp_po_e_password user_id user_password : Pcode
  log_server_url log_upload_interval log_record_interval stat_interval operator_info : Pcode
  upgrade_url auth_url browser_url2 administrator_password c_user_password user_province : Pcode
  udp_connection_request_address udp_connection_request_ntf_limit stun_enable : Pcode
  stun_server_address stun_server_port stun_username stun_password stun_max_keep_alive_period :
      Pcode
  stun_min_keep_alive_period connection_up_time total_bytes_sent total_bytes_received : Pcode
  total_packets_sent total_packets_received current_day_interval current_day_bytes_sent : Pcode
  current_day_bytes_received current_day_packets_sent current_day_packets_received : Pcode
  quarter_hour_interval quarter_hour_bytes_sent quarter_hour_bytes_received : Pcode
  quarter_hour_packets_sent quarter_hour_packets_received log_msg_rtsp_info log_msg_http_info :
      Pcode
  log_msg_igmp_info log_msg_pkg_total_one_sec log_msg_byte_total_one_sec log_msg_pkg_lost_rate :
      Pcode
  log_msg_avarage_rate log_msg_buffer log_msg_error log_msg_vendor_ext : Pcode
  alarm_reason alarm_packets_lost_rate alarm_frames_lost : Pcode

-- tr069_format_param_code of an entry that it knows.
abbrev pub format_param_code : Entry → Pcode
format_param_code Entry.manufacturer = Pcode.manufacturer
format_param_code Entry.manufacturer_oui = Pcode.manufacturer_oui
format_param_code Entry.product_class = Pcode.product_class
format_param_code Entry.serial_number = Pcode.serial_number
format_param_code Entry.hardware_version = Pcode.hardware_version
format_param_code Entry.fs_version = Pcode.software_version
format_param_code Entry.provisioning_code = Pcode.provisioning_code
format_param_code Entry.device_status = Pcode.device_status
format_param_code Entry.kernel_version = Pcode.kernel_version
format_param_code Entry.streaming_control_protocols = Pcode.strm_ctl_protocols
format_param_code Entry.streaming_transport_protocols = Pcode.strm_trspt_protocols
format_param_code Entry.streaming_transport_control_protocols = Pcode.strm_trspt_ctl_protocols
format_param_code Entry.download_transport_protocols = Pcode.dld_trspt_protocols
format_param_code Entry.multiplex_types = Pcode.multiplex_types
format_param_code Entry.max_dejittering_buffer_size = Pcode.max_djt_buffer_size
format_param_code Entry.audio_standards = Pcode.audio_standards
format_param_code Entry.video_standards = Pcode.video_standards
format_param_code Entry.manage_ser_url = Pcode.manage_ser_url
format_param_code Entry.manage_ser_username = Pcode.manage_ser_username
format_param_code Entry.manage_ser_password = Pcode.manage_ser_password
format_param_code Entry.connection_request_url = Pcode.connection_request_url
format_param_code Entry.connection_request_username = Pcode.connection_request_username
format_param_code Entry.connection_request_password = Pcode.connection_request_password
format_param_code Entry.periodic_inform_enable = Pcode.periodic_inform_enable
format_param_code Entry.periodic_inform_interval = Pcode.periodic_inform_interval
format_param_code Entry.periodic_inform_time = Pcode.periodic_inform_time
format_param_code Entry.upgrades_managed = Pcode.upgrades_managed
format_param_code Entry.parameter_key = Pcode.parameter_key
format_param_code Entry.ntp_server1 = Pcode.ntp_server1
format_param_code Entry.local_time_zone = Pcode.local_time_zone
format_param_code Entry.current_local_time = Pcode.current_local_time
format_param_code Entry.device = Pcode.device
format_param_code Entry.dhcp_user = Pcode.dhcp_user
format_param_code Entry.dhcp_password = Pcode.dhcp_password
format_param_code Entry.addressing_type = Pcode.addressing_type
format_param_code Entry.ip_address_real = Pcode.ip_address_real
format_param_code Entry.subnet_mask_real = Pcode.subnet_mask_real
format_param_code Entry.default_gateway_real = Pcode.default_gateway_real
format_param_code Entry.dns_server0_real = Pcode.dns_server0_real
format_param_code Entry.dns_server1_real = Pcode.dns_server1_real
format_param_code Entry.mac_address = Pcode.mac_address
format_param_code Entry.stbid = Pcode.stbid
format_param_code Entry.pp_po_eid = Pcode.pp_po_eid
format_param_code Entry.pp_po_e_password = Pcode.pp_po_e_password
format_param_code Entry.user_id = Pcode.user_id
format_param_code Entry.user_password = Pcode.user_password
format_param_code Entry.log_server_url = Pcode.log_server_url
format_param_code Entry.log_upload_interval = Pcode.log_upload_interval
format_param_code Entry.log_record_interval = Pcode.log_record_interval
format_param_code Entry.stat_interval = Pcode.stat_interval
format_param_code Entry.operator_info = Pcode.operator_info
format_param_code Entry.upgrade_domain = Pcode.upgrade_url
format_param_code Entry.auth_url = Pcode.auth_url
format_param_code Entry.auth_url_backup = Pcode.browser_url2
format_param_code Entry.administrator_password = Pcode.administrator_password
format_param_code Entry.c_user_password = Pcode.c_user_password
format_param_code Entry.user_province = Pcode.user_province
format_param_code Entry.udp_connection_request_address = Pcode.udp_connection_request_address
format_param_code Entry.udp_connection_request_ntf_limit = Pcode.udp_connection_request_ntf_limit
format_param_code Entry.stun_enable = Pcode.stun_enable
format_param_code Entry.stun_server_address = Pcode.stun_server_address
format_param_code Entry.stun_server_port = Pcode.stun_server_port
format_param_code Entry.stun_username = Pcode.stun_username
format_param_code Entry.stun_password = Pcode.stun_password
format_param_code Entry.stun_max_keep_alive_period = Pcode.stun_max_keep_alive_period
format_param_code Entry.stun_min_keep_alive_period = Pcode.stun_min_keep_alive_period

-- The codes of tr069_heartbeat.
abbrev pub heartbeat_codes : List Pcode
heartbeat_codes =
    Pcode.stbid ∷ Pcode.ip_address_real ∷ Pcode.user_id ∷ Pcode.hardware_version
    ∷ Pcode.software_version ∷ Pcode.connection_request_url ∷ Pcode.provisioning_code
    ∷ Pcode.connection_up_time ∷ Pcode.total_bytes_sent ∷ Pcode.total_bytes_received
    ∷ Pcode.total_packets_sent ∷ Pcode.total_packets_received ∷ Pcode.current_day_interval
    ∷ Pcode.current_day_bytes_sent ∷ Pcode.current_day_bytes_received
    ∷ Pcode.current_day_packets_sent ∷ Pcode.current_day_packets_received
    ∷ Pcode.quarter_hour_interval ∷ Pcode.quarter_hour_bytes_sent
    ∷ Pcode.quarter_hour_bytes_received ∷ Pcode.quarter_hour_packets_sent
    ∷ Pcode.quarter_hour_packets_received ∷ Pcode.mac_address ∷ []

-- The codes of tr069_control_check_first_boot, for China Unicom and for the others.
abbrev pub boot_codes : Bool → List Pcode
boot_codes true =
    Pcode.hardware_version ∷ Pcode.software_version ∷ Pcode.manage_ser_url
    ∷ Pcode.udp_connection_request_address ∷ Pcode.ntp_server1 ∷ Pcode.dns_server0_real
    ∷ Pcode.dns_server1_real ∷ Pcode.stbid ∷ Pcode.log_server_url ∷ Pcode.operator_info
    ∷ Pcode.upgrade_url ∷ Pcode.auth_url ∷ Pcode.browser_url2 ∷ Pcode.user_province
    ∷ Pcode.connection_request_url ∷ Pcode.user_id ∷ []
boot_codes false =
    Pcode.hardware_version ∷ Pcode.software_version ∷ Pcode.connection_request_url ∷ Pcode.stbid
    ∷ Pcode.user_id ∷ Pcode.provisioning_code ∷ Pcode.ip_address_real ∷ Pcode.mac_address ∷ []

abbrev pub alarm_codes : List Pcode
alarm_codes =
    Pcode.alarm_reason ∷ Pcode.alarm_packets_lost_rate ∷ Pcode.alarm_frames_lost ∷ Pcode.stbid
    ∷ Pcode.ip_address_real ∷ []
