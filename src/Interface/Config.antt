-- ===== src/Interface/Config.antt =====
-- tr069_set_config followed by tr069_get_config.
use tr.Base.{
  ℕ, ◌<◌, ◌≡◌, refl, ap, ◌∙◌, inl, inr, Bool, true, false, ◌||◌, [], ◌++◌, arith, length, ◌==◌,
  if◌then◌else◌, ℤ, pos, minus_one, Bool-cases,
}
use tr.Platform.{Platform, Bytes}
use tr.CStr.{strcmp_eq}
use tr.CStr.Compare.{strcmp_eq-eq, strcmp_eq_refl}
use tr.Interface.{Indexes, Host, Store, is_in, get_config, set_config, store_value, effect_of}

-- What the code relies on of n_cfg_*: an entry reads back as it was set, where the entry and the
-- buffer have room for the value. cfg_service_set_config (config_sample) refuses what is not shorter
-- than the buffer of the entry, and keeps some entries, as F_CFG_HardwareVersion, elsewhere than
-- where they are read: these have no room.
pub record Keeps (H : Host) : Type 0 where
  pub room : ℕ → ℕ
  pub get_config-set_config :
      (d : H.Dict) (k : ℕ) (v : Bytes) (size : ℕ)
      → length v < room k
      → length v < size
      → H.get_config (H.set_config d k v) k size ≡ (pos 0, v)

-- No test of either function takes the index: it is an entry of the configuration of its own.
abbrev pub is_plain : Indexes → ℕ → Bool
is_plain N index =
    if index == N.current_local_time
      || is_in N.connection_up_time N.quarter_hour_packets_received index
      || is_in N.startpoint N.play_error_info index
      || is_in N.multi_rrt N.buffer_inc_nmb index
      || is_in N.tracert_diag_state N.hophost32 index
      || is_in N.ping_diag_state N.ping_diag_max_resp_time index
      || (index == N.auth_service_info_pppoe_enable)
      || (index == N.manage_ser_url)
      || (index == N.storage_size)
      || (index == N.phy_mem_size)
      || is_in N.description N.is_support_ipv6 index
      || is_in N.speed_test_unique_num N.speed_test_result index
      || is_in N.packet_lost_test_enable N.packet_lost_test_band index
      || (index == N.ip_address_real)
      || (index == N.subnet_mask_real)
      || (index == N.default_gateway_real)
      || (index == N.dns_server0_real)
      || (index == N.dns_server1_real)
    then false
    else true

module _ (P : Platform) (N : Indexes) (H : Host) where
  get_config-plain :
      (s : Store H) (index : ℕ) (old : Bytes) (size : ℕ)
      → is_plain N index ≡ true
      → get_config P N H s index old size ≡ H.get_config s.dict (N.index_map index) size
  unfolding get_config
  get_config-plain s index old size h = ground (arith, h)

  store_value-tests :
      (s : Store H) (index : ℕ) (v : Bytes)
      → is_plain N index ≡ true
      → store_value P N H s index v ≡ (
          if strcmp_eq (get_config P N H s index [] P.max_param_value_len).1 v
          then (minus_one, s)
          else (
            pos 0,
            record s {
              dict = H.set_config s.dict (N.index_map index) v;
              effects = s.effects ++ effect_of P N H index v;
            },
          ))
  unfolding store_value
  store_value-tests s index v h =
      rw (traceroute, ping, address, mask, gateway, dns0, dns1, speed, lost) refl
    where
      traceroute : is_in N.tracert_diag_state N.hophost32 index ≡ false
      traceroute = ground (arith, h)

      ping : is_in N.ping_diag_state N.ping_diag_max_resp_time index ≡ false
      ping = ground (arith, h)

      address : (index == N.ip_address_real) ≡ false
      address = ground (arith, h)

      mask : (index == N.subnet_mask_real) ≡ false
      mask = ground (arith, h)

      gateway : (index == N.default_gateway_real) ≡ false
      gateway = ground (arith, h)

      dns0 : (index == N.dns_server0_real) ≡ false
      dns0 = ground (arith, h)

      dns1 : (index == N.dns_server1_real) ≡ false
      dns1 = ground (arith, h)

      speed : is_in N.speed_test_unique_num N.speed_test_result index ≡ false
      speed = ground (arith, h)

      lost : is_in N.packet_lost_test_enable N.packet_lost_test_band index ≡ false
      lost = ground (arith, h)

  -- The entry's value, as both functions read it.
  abbrev held : Store H → ℕ → Bytes
  held s index = (H.get_config s.dict (N.index_map index) P.max_param_value_len).1

  held-get_config :
      (s : Store H) (index : ℕ) (old : Bytes)
      → is_plain N index ≡ true
      → (get_config P N H s index old P.max_param_value_len).1 ≡ held s index
  held-get_config s index old h =
      ap (λ (t : ℤ × Bytes). t.1) (get_config-plain s index old P.max_param_value_len h)

  abbrev changed : Store H → ℕ → Bytes → Store H
  changed s index v = record s {
    dict = H.set_config s.dict (N.index_map index) v;
    effects = s.effects ++ effect_of P N H index v;
    set_param_flag = 1;
  }

  -- The store after a plain value was set: either it had the value, or it is changed.
  set_config-same :
      (s : Store H) (index : ℕ) (v : Bytes)
      → is_plain N index ≡ true
      → strcmp_eq (held s index) v ≡ true
      → (set_config P N H s index v).1 ≡ s
  unfolding set_config
  set_config-same s index v h same =
      rw (store_value-tests s index v h, held-get_config s index [] h, same) refl

  set_config-other :
      (s : Store H) (index : ℕ) (v : Bytes)
      → is_plain N index ≡ true
      → strcmp_eq (held s index) v ≡ false
      → (set_config P N H s index v).1 ≡ changed s index v
  unfolding set_config
  set_config-other s index v h other =
      rw (store_value-tests s index v h, held-get_config s index [] h, other) refl

  -- Afterwards the entry has the value.
  held-set_config :
      (s : Store H) (index : ℕ) (v : Bytes) (k : Keeps H)
      → is_plain N index ≡ true
      → length v < k.room (N.index_map index)
      → length v < P.max_param_value_len
      → held (set_config P N H s index v).1 index ≡ v
  held-set_config s index v k h f l = elim (Bool-cases (strcmp_eq (held s index) v)) [
    | inl same ↦
        ap (λ t. held t index) (set_config-same s index v h same)
        ∙ strcmp_eq-eq (held s index) v same
    | inr other ↦
        ap (λ t. held t index) (set_config-other s index v h other)
        ∙ ap (λ (t : ℤ × Bytes). t.1)
            (k.get_config-set_config s.dict (N.index_map index) v P.max_param_value_len f l)
  ]

  -- With a configuration that keeps a value where its entry has room for it: a value for an index
  -- that no test of the two functions takes is read back, where its entry has room and the value is
  -- shorter than TR069_MAX_PARAM_VALUE_LEN, and setting it again changes nothing and sets nothing off.
  pub get_config-set_config :
      (s : Store H) (index : ℕ) (v old : Bytes) (k : Keeps H)
      → is_plain N index ≡ true
      → length v < k.room (N.index_map index)
      → length v < P.max_param_value_len
      → let s' = (set_config P N H s index v).1 in
        ((get_config P N H s' index old P.max_param_value_len).1 ≡ v)
        × ((set_config P N H s' index v).1 ≡ s')
  get_config-set_config s index v old k h f l =
      let s' = (set_config P N H s index v).1 in
      (
        held-get_config s' index old h ∙ held-set_config s index v k h f l,
        set_config-same s' index v h
            (ap (λ x. strcmp_eq x v) (held-set_config s index v k h f l) ∙ strcmp_eq_refl v),
      )
