-- ===== src/Stun/Task.antt =====
-- tr111_control_task_proc and what it calls (tr111_control.c): a step of the client, which a timer
-- takes every five seconds.
use tr.Base.{
  ℕ, zero, suc, ◌+◌, ◌-◌, ◌/◌, ◌%◌, Bool, false, ◌&&◌, ◌||◌, Option, none, some, List, [], ◌∷◌,
  ◌++◌, take, ltb, leb, ◌==◌, if◌then◌else◌, ℤ, pos, negsuc, minus_one,
}
use tr.Platform.{Platform, Bytes}
use tr.CStr.{strcmp_eq}
use tr.Interface.{Indexes, Host, set_config, get_config, true_text, false_text}
use tr.Stun.{
  Crypto, StunIndexes, StunStatus, Address, Client, bytes16, build_message, new_transaction,
}
use tr.Stun.Parse.{apply_new_address, configured}
use tr.Stun.Receive.{Outside, recvfrom}

-- A number kept as `unsigned int`.
abbrev pub unsigned : ℤ → ℕ
unsigned (pos n) = n % 4294967296
unsigned (negsuc n) = 4294967295 - n % 4294967296

-- TR111_UDP_CONNECTION_REQUEST_PORT
abbrev pub request_port : ℕ
request_port = 8090

-- "3478"
abbrev pub stun_port_text : Bytes
stun_port_text = b'3' ∷ b'4' ∷ b'7' ∷ b'8' ∷ []

-- The period between two bindings.
unfoldable pub period_of : (max min : ℕ) → ℕ
period_of max min =
    if (max == 0) && (min == 0)
    then 10
    else if ltb max min
    then min
    else (max + min) % 4294967296 / 2

module _ (P : Platform) (K : Crypto) (N : Indexes) (X : StunIndexes) (H : Host)
    (password_size : ℕ) where
  -- `if (atoi(temp_string) <= 0)`
  abbrev pub with_port : (old new : Client H) → ℤ → ℤ × Client H
  with_port old new (pos zero) = (negsuc 2, old)
  with_port old new (pos (suc n)) = (pos 0, new)
  with_port old new (negsuc n) = (negsuc 2, old)

  -- tr111_control_check_stun_params
  unfoldable pub check_stun_params : Outside → Client H → ℤ × Client H
  check_stun_params o c =
      let size = P.max_param_value_len in
      let enabled = configured P K N X H c.store X.stun_enable [] in
      let max_text = configured P K N X H c.store X.stun_max_keep_alive_period stun_port_text in
      let min_text = configured P K N X H c.store X.stun_min_keep_alive_period max_text in
      let max = unsigned (P.atoi max_text) in
      let min = unsigned (P.atoi min_text) in
      let m = c.mgr in
      if strcmp_eq enabled true_text
      then with_port c
          (record c {
            mgr = record m {
              max_keepalive_period = max;
              min_keepalive_period = min;
              keepalive_period = period_of max min;
              stun_username = o.stbid;
              stun_password =
                  (get_config P N H c.store X.stun_password m.stun_password password_size).1;
            };
          })
          (P.atoi stun_port_text)
      else (negsuc 1, c)

  -- The address that requests over UDP are sent to, as the configuration keeps it.
  unfoldable pub set_request_address : Client H → Client H
  set_request_address c =
      let size = P.max_param_value_len in
      let ip = configured P K N X H c.store N.ip_address_real [] in
      let text = take (size - 1) (ip ++ (b':' ∷ P.sprintf_d (pos request_port))) in
      record c { store = (set_config P N H c.store X.udp_connection_request_address text).1 }

  -- The address that the socket is bound to.
  abbrev pub local_of : Client H → Address
  local_of c = record {
    port = bytes16 request_port;
    addr = K.inet_addr (configured P K N X H c.store N.ip_address_real []);
  }

  -- tr111_control_setup, whose result is not used: where there is no socket the addresses stay, and
  -- where it cannot be bound the public address stays.
  unfoldable pub setup : Outside → Client H → Client H
  setup o c =
      let c1 = set_request_address c in
      let m = c1.mgr in
      let a = local_of c1 in
      if o.has_socket
      then (if o.can_bind
          then (record c1 {
            mgr = record m { local_addr = a; public_addr = a };
            store = (set_config P N H c1.store X.nat_detected false_text).1;
          })
          else (record c1 { mgr = record m { local_addr = a } }))
      else c1

  -- The client in idle status.
  unfoldable pub idle_step : Outside → Client H → Client H
  idle_step o c =
      let (ret, c1) = check_stun_params o c in
      elim ret [
        | negsuc n ↦ c1
        | pos n ↦
            let m = c1.mgr in
            let c2 = setup o (record c1 { mgr = new_transaction o.rands m }) in
            let m2 = c2.mgr in record c2 { mgr = record m2 { status = StunStatus.task } }
      ]

  -- A message is built and sent.
  unfoldable pub send_request : Outside → Client H → Client H
  send_request o c =
      let (ret, m) = build_message K c.mgr in
      elim ret [
        | negsuc n ↦ record c { mgr = m }
        | pos n ↦ record c {
          mgr = record m { retry_count = (m.retry_count + 1) % 4294967296 };
          sent = c.sent ++ (m.send_buff ∷ []);
          last_time = o.now;
        }
      ]

  -- TR111_MSG_TIMEOUT_SEC seconds since the last message, or none sent in this transaction.
  abbrev pub is_due : Outside → Client H → Bool
  is_due o c =
      (if c.last_time == 0 then false else ltb 3 ((o.now + 4294967296 - c.last_time) % 4294967296))
      || (c.mgr.retry_count == 0)

  -- The client in task status, with its STUN parameters in order.
  unfoldable pub retry_step : Outside → Client H → Client H
  retry_step o c =
      if is_due o c
      then (if ltb 2 c.mgr.retry_count
          then (let m = c.mgr in record c { mgr = new_transaction o.rands m })
          else send_request o c)
      else c

  -- The client in task status.
  unfoldable pub task_step : Outside → Client H → Client H
  task_step o c =
      let (ret, c1) = check_stun_params o c in
      let m = c1.mgr in
      elim ret [
        | pos n ↦ retry_step o c1
        | negsuc n ↦
            apply_new_address P K N X H m.local_addr
              (record c1 { mgr = record m { status = StunStatus.idle } })
      ]

  -- The client that waits for the next binding.
  unfoldable pub wait_step : Outside → Client H → Client H
  wait_step o c =
      let m = c.mgr in
      if leb m.wait_time o.now
      then (record c {
        mgr = (let n = new_transaction o.rands m in record n { status = StunStatus.task });
      })
      else c

  -- `switch (control_handle->status)`, with the return code.
  unfoldable pub status_step : Outside → Client H → StunStatus → ℤ × Client H
  status_step o c StunStatus.idle = (pos 0, idle_step o c)
  status_step o c StunStatus.task = (pos 0, task_step o c)
  status_step o c StunStatus.wait = (pos 0, wait_step o c)
  status_step o c StunStatus.stop = (minus_one, c)

  -- tr111_control_task_proc; -1 ends the timer, and `none` is a fault of memory.
  unfoldable pub task_proc : Outside → Client H → Option (ℤ × Client H)
  task_proc o c = elim (recvfrom P K N X H password_size o c) [
    | none ↦ none
    | some c' ↦ some (status_step o c' c'.mgr.status)
  ]

  -- Steps one after another, as long as the timer goes on.
  unfoldable pub run_tasks : List Outside → Client H → Option (Client H)
  run_tasks [] c = some c
  run_tasks (o ∷ os) c = elim (task_proc o c) [
    | none ↦ none
    | some (pos n, c') ↦ run_tasks os c'
    | some (negsuc n, c') ↦ some c'
  ]
