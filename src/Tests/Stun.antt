-- ===== src/Tests/Stun.antt =====
-- The properties of the STUN client at a client that binds, with a HMAC that is easy to compute.
use tr.Base.{
  ◌≡◌, ◌≢◌, refl, ◌⊎◌, inl, inr, true, none, some, [], ◌∷◌, ◌++◌, length, replicate, take, ◌==◌,
  if◌then◌else◌, ℤ, pos, All, Bool-cases,
}
use tr.CStr.{strcmp_eq}
use tr.Interface.{Store, set_config, store_value, get_config, true_text}
use tr.Stun.{Crypto, StunIndexes, StunStatus, StunMgr, Client, binding_request, build_message}
use tr.Stun.Parse.{parse_message, received}
use tr.Stun.Attributes.{IsAuthentic}
use tr.Stun.Authentic.{parse_message_lem}
use tr.Stun.Receive.{Outside, recvfrom}
use tr.Stun.Task.{
  run_tasks, stun_port_text, task_proc, status_step, task_step, check_stun_params, retry_step,
  send_request,
}
use tr.Stun.Reader.{read_message}
use tr.Stun.Framing.{expected, build_message_lem}
use tr.Stun.Steps.{IsApart}
use tr.Stun.Change.{HasNoChange}
use tr.Stun.Binding.{run_tasks_lem}
use tr.Tests.Cfg.{indexes, host, store}
use tr.Tests.Stb.{stb, parse, value}

abbrev crypto : Crypto
crypto = record {
  hmac = λ key text. replicate 20 (length text);
  inet_ntoa = λ t. t;
  inet_addr = λ t. take 4 (t ++ replicate 4 0);
  strtol16 = λ t. pos 0;
  char_of = λ n. pos n;
}

abbrev stun_indexes : StunIndexes
stun_indexes = record {
  udp_connection_request_address = 200;
  nat_detected = 202;
  stun_enable = 204;
  stun_max_keep_alive_period = 206;
  stun_min_keep_alive_period = 208;
  stun_password = 210;
  connection_request_password = 212;
}

abbrev manager : StunMgr
manager = record {
  status = StunStatus.task;
  trans_id = replicate 16 7;
  local_addr = record { port = 31 ∷ 154 ∷ []; addr = replicate 4 1 };
  public_addr = record { port = 31 ∷ 154 ∷ []; addr = replicate 4 1 };
  send_buff = [];
  recv_len = 44;
  recv_buff = 1 ∷ 1 ∷ 0 ∷ 24 ∷ (replicate 16 7 ++ (0 ∷ 8 ∷ 0 ∷ 20 ∷ replicate 20 20));
  stun_username = b'S' ∷ b'T' ∷ b'B' ∷ [];
  stun_password = b'p' ∷ [];
  keepalive_period = 10;
  max_keepalive_period = 0;
  min_keepalive_period = 0;
  wait_time = 0;
  retry_count = 0;
  auth_flag = 1;
  binding_change_flag = 0;
}

-- STUN is enabled in the configuration.
abbrev enabled : Store host
enabled = record store { dict = λ k. if k == 204 then true_text else [] }

abbrev client : Client host
client = record {
  mgr = manager;
  store = enabled;
  calls = [];
  sent = [];
  last_id = [];
  last_time = 0;
}

built : (build_message crypto manager).0 ≡ pos 0
unfolding build_message
built = refl

build_message_lem_example :
    read_message (build_message crypto manager).1.send_buff
    ≡ some (binding_request, replicate 16 7, expected crypto manager)
build_message_lem_example = build_message_lem crypto manager refl built

parse_message_lem_example :
    (ret : ℤ) × (c' : Client host) × (parse_message stb crypto indexes stun_indexes host client
      ≡ some (ret, c'))
    × (((ret ≡ pos 0)
          × IsAuthentic crypto (b'p' ∷ []) (received stb crypto indexes stun_indexes host manager))
        ⊎ ((ret ≢ pos 0)
            × (c'.store ≡ enabled)
            × (c'.calls ≡ [])
            × (c'.mgr.public_addr ≡ manager.public_addr)))
parse_message_lem_example = parse_message_lem stb crypto indexes stun_indexes host client refl

-- Two steps without a packet.
abbrev quiet : Outside
quiet = record {
  packet = none;
  received_at = 100;
  now = 100;
  rands = replicate 16 9;
  stbid = b'S' ∷ b'T' ∷ b'B' ∷ [];
  has_socket = true;
  can_bind = true;
}

abbrev ended : Client host
ended = elim (run_tasks stb crypto indexes stun_indexes host 32 (quiet ∷ quiet ∷ []) client) [
  | none ↦ client
  | some c ↦ c
]

port : stb.atoi stun_port_text ≡ pos 3478
unfolding parse value
port = refl

apart : IsApart stb crypto indexes stun_indexes host 32
unfolding set_config store_value get_config
apart s text off = elim (Bool-cases (strcmp_eq (get_config stb indexes host s 200 [] 64).1 text)) [
  | inl same ↦ rw same off
  | inr other ↦ rw other off
]

ran : run_tasks stb crypto indexes stun_indexes host 32 (quiet ∷ quiet ∷ []) client ≡ some ended
unfolding run_tasks task_proc recvfrom status_step task_step check_stun_params get_config parse
    value retry_step send_request build_message
ran = refl

run_tasks_lem_example : All HasNoChange ended.sent
run_tasks_lem_example =
    run_tasks_lem stb crypto indexes stun_indexes host 32 (quiet ∷ quiet ∷ []) client ended 3477
      port apart (refl, (refl, tt)) refl refl refl ran
