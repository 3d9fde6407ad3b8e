-- ===== src/Stun/Receive.antt =====
-- tr111_control_recvfrom (tr111_control.c): the packet that a step finds, if any.
use tr.Base.{
  ℕ, ◌+◌, ◌%◌, Bool, ◌&&◌, Option, none, some, ◌++◌, length, take, drop, get_or, leb, ◌==◌,
  if◌then◌else◌, ℤ, pos, negsuc,
}
use tr.Platform.{Platform, Bytes}
use tr.Interface.{Indexes, Host}
use tr.Stun.{Crypto, StunIndexes, StunStatus, StunMgr, Client}
use tr.Stun.Parse.{parse_message}
use tr.Stun.Request.{parse_udp_connection_request}

-- What a step finds outside: a packet (`none` for an error or a timeout), the two readings of the
-- clock, what `rand` gives, the device's id, and whether a socket can be had and bound.
pub record Outside : Type 0 where
  pub packet : Option Bytes
  pub received_at : ℕ
  pub now : ℕ
  pub rands : Bytes
  pub stbid : Bytes
  pub has_socket : Bool
  pub can_bind : Bool

-- TR111_STUN_MSG_MAX_SIZE
abbrev pub msg_max_size : ℕ
msg_max_size = 1024

-- recvfrom, which writes over the start of the array.
unfoldable pub receive : Bytes → StunMgr → StunMgr
receive t m =
    let got = take msg_max_size t in
    record m { recv_len = length got; recv_buff = got ++ drop (length got) m.recv_buff }

module _ (P : Platform) (K : Crypto) (N : Indexes) (X : StunIndexes) (H : Host)
    (password_size : ℕ) where
  -- The wait for the next binding.
  abbrev pub wait_from : ℕ → Client H → Client H
  wait_from now c =
      let m = c.mgr in
      record c {
        mgr = record m {
          status = StunStatus.wait;
          wait_time = (now + m.keepalive_period) % 4294967296;
        };
      }

  abbrev pub wait_if : ℕ → ℤ × Client H → Client H
  wait_if now (pos n, c) = if n == 0 then wait_from now c else c
  wait_if now (negsuc n, c) = c

  abbrev pub after_message : ℕ → Option (ℤ × Client H) → Option (Client H)
  after_message now none = none
  after_message now (some r) = some (wait_if now r)

  abbrev pub after_request : Option (ℤ × Client H) → Option (Client H)
  after_request none = none
  after_request (some (ret, c)) = some c

  -- What is done with a packet, by its first byte.
  unfoldable pub dispatch : ℕ → Client H → Option (Client H)
  dispatch now c =
      let first = get_or c.mgr.recv_buff 0 0 in
      if leb first 1
      then after_message now (parse_message P K N X H c)
      else if leb 32 first && leb first 128
      then after_request (parse_udp_connection_request P K N X H c)
      else some c

  -- tr111_control_recvfrom, whose result is not used; an empty packet is none.
  unfoldable pub recvfrom : Outside → Client H → Option (Client H)
  recvfrom o c = elim o.packet [
    | none ↦ some c
    | some t ↦
        let c' = (let m = c.mgr in record c { mgr = receive t m }) in
        if length t == 0 then some c' else dispatch o.received_at c'
  ]
