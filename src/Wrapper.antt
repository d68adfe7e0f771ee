-- ===== src/Wrapper.antt =====
-- The UDP sockets of cy_udp_posix/udp_wrapper.c and udp_wrapper.h, for a system that is not Windows.
-- A negative descriptor is none here. The handles and buffers are passed by value and given back, so
-- that a NULL pointer does not occur; a result code is an integer, as in the source. The child
-- Receiving has the sockets that receive.
pub mod Receiving
pub mod Receipt
pub mod Opening
pub mod Tests
use cy.Prelude.{
  ℕ, zero, suc, ◌+◌, ◌-◌, ◌*◌, ◌/◌, ◌%◌, ◌^◌, Bool, true, false, not, ◌&&◌, ◌||◌, Option, none,
  some, List, [], ◌∷◌, ◌++◌, ltb, leb, ◌==◌, if◌then◌else◌, length, take, drop, map,
}
use cy.Prelude.Int.{ℤ, pos, negsuc, ◌-ℤ◌, ltb_ℤ}
use cy.Os.{
  Os, Datagram, Ifaddr, PollFd, ip_multicast_ttl, ip_multicast_if, ip_tos, so_reuseaddr,
  so_reuseport, ip_pktinfo, ip_add_membership,
}

abbrev pub override_ttl : ℕ
override_ttl = 16

abbrev pub dscp_max : ℕ
dscp_max = 63

abbrev pub int32_max : ℕ
int32_max = 2 ^ 31 - 1

pub record TxSocket : Type 0 where
  pub fd : Option ℕ

pub record RxSocket : Type 0 where
  pub fd : Option ℕ
  pub allow_iface_index : ℕ
  pub deny_source_address : ℕ
  pub deny_source_port : ℕ

unfoldable pub is_multicast : ℕ → Bool
is_multicast address = (address / 2 ^ 28) % 16 == 14

abbrev pub udp_wrapper_tx_new : TxSocket
udp_wrapper_tx_new = record { fd = none }

abbrev pub udp_wrapper_rx_new : RxSocket
udp_wrapper_rx_new = record {
  fd = none;
  allow_iface_index = 0;
  deny_source_address = 0;
  deny_source_port = 0;
}

abbrev pub is_open : Option ℕ → Bool
is_open none = false
is_open (some fd) = true

unfoldable pub udp_wrapper_tx_is_initialized : TxSocket → Bool
udp_wrapper_tx_is_initialized self = is_open self.fd

unfoldable pub udp_wrapper_rx_is_initialized : RxSocket → Bool
udp_wrapper_rx_is_initialized self = is_open self.fd

-- The conversion to int16_t of a negated code.
unfoldable pub negated_i16 : ℕ → ℤ
negated_i16 n =
    let low = (2 ^ 16 - n % 2 ^ 16) % 2 ^ 16 in
    if ltb low (2 ^ 15) then pos low else negsuc (2 ^ 16 - 1 - low)

-- poll's timeout: whole milliseconds, at most INT_MAX.
unfoldable pub poll_timeout : ℤ → ℤ
poll_timeout (pos us) = if ltb int32_max (us / 1000) then pos int32_max else pos (us / 1000)
poll_timeout (negsuc n) = pos 0 -ℤ pos ((n + 1) / 1000)

module _ (os : Os) where
  open os use {
    World, errno, socket, bind, getsockname, set_nonblocking, setsockopt, close, sendto, recvmsg,
    getifaddrs, if_nametoindex, poll, inet_pton, einval, eio, eagain, ewouldblock,
  }

  unfoldable pub minus_errno : World → ℤ
  minus_errno w = negated_i16 (errno w)

  -- ok = ok && call
  abbrev pub and_then : Bool × World → (World → Bool × World) → Bool × World
  and_then (false, w) call = (false, w)
  and_then (true, w) call = call w

  -- The port that getsockname reports: zero where it fails.
  abbrev pub port_of : Option ℕ → ℕ
  port_of none = 0
  port_of (some port) = port

  unfoldable pub read_port : Bool × World → ℕ → ℕ → Bool × ℕ × World
  read_port (false, w) fd local_port = (false, local_port, w)
  read_port (true, w) fd local_port =
      let (name, w1) = getsockname fd w in (is_open name, port_of name, w1)

  unfoldable pub set_up_tx : ℕ → ℕ → ℕ → World → Bool × ℕ × World
  set_up_tx fd local_iface_address local_port w =
      let (ok, port, w1) = read_port (bind fd local_iface_address 0 w) fd local_port in
      let (ok1, w2) = and_then (ok, w1) (set_nonblocking fd) in
      let (ok2, w3) = and_then (ok1, w2) (setsockopt fd (ip_multicast_ttl override_ttl)) in
      let (ok3, w4) = and_then (ok2, w3) (setsockopt fd (ip_multicast_if local_iface_address)) in
      (ok3, port, w4)

  -- What is left when a socket could not be set up: errno, read before the socket is closed.
  unfoldable pub give_up_tx : Option ℕ → ℕ → World → ℤ × TxSocket × ℕ × World
  give_up_tx fd port w = (minus_errno w, record { fd = none }, port, close fd w)

  -- The result, the handle and the local port.
  unfoldable pub udp_wrapper_tx_init : TxSocket → ℕ → ℕ → World → ℤ × TxSocket × ℕ × World
  udp_wrapper_tx_init self local_iface_address local_port w = elim (ltb 0 local_iface_address) [
    | false ↦ (negated_i16 einval, self, local_port, w)
    | true ↦
        let (made, w1) = socket w in
        elim made [
          | none ↦ give_up_tx none local_port w1
          | some fd ↦
              let (ok, port, w2) = set_up_tx fd local_iface_address local_port w1 in
              elim ok [
                | true ↦ (pos 0, record { fd = some fd }, port, w2)
                | false ↦ give_up_tx (some fd) port w2
              ]
        ]
  ]

  -- Whether errno says that the socket is not ready.
  unfoldable pub would_block : World → Bool
  would_block w = errno w == eagain || errno w == ewouldblock

  abbrev pub sent_all : ℤ → ℕ → Bool
  sent_all (pos n) payload_size = n == payload_size
  sent_all (negsuc n) payload_size = false

  unfoldable pub send_from : ℕ → ℕ → ℕ → ℕ → List ℕ → World → ℤ × World
  send_from fd remote_address remote_port dscp payload w =
      let (best_effort, w1) = setsockopt fd (ip_tos (dscp * 4)) w in
      let (send_result, w2) = sendto fd payload remote_address remote_port w1 in
      (
        if sent_all send_result (length payload)
            then pos 1
            else (if would_block w2 then pos 0 else minus_errno w2),
        w2,
      )

  unfoldable pub udp_wrapper_tx_send : TxSocket → ℕ → ℕ → ℕ → List ℕ → World → ℤ × World
  udp_wrapper_tx_send self remote_address remote_port dscp payload w = elim self.fd [
    | none ↦ (negated_i16 einval, w)
    | some fd ↦ elim (ltb 0 remote_address && ltb 0 remote_port && leb dscp dscp_max) [
      | true ↦ send_from fd remote_address remote_port dscp payload w
      | false ↦ (negated_i16 einval, w)
    ]
  ]

  unfoldable pub udp_wrapper_tx_close : TxSocket → World → TxSocket × World
  udp_wrapper_tx_close self w = elim self.fd [
    | none ↦ (self, w)
    | some fd ↦ (record { fd = none }, close (some fd) w)
  ]

  abbrev pub for_write : TxSocket → PollFd
  for_write self = record { fd = self.fd; for_writing = true }

  abbrev pub for_read : RxSocket → PollFd
  for_read self = record { fd = self.fd; for_writing = false }

  -- The result, and for each handle whether its pointer is kept.
  unfoldable pub udp_wrapper_wait :
      ℤ → List TxSocket → List RxSocket → World → (ℤ × List Bool × List Bool) × World
  udp_wrapper_wait timeout_us tx rx w =
      let fds = map for_write tx ++ map for_read rx in
      let kept_tx = map (λ (s : TxSocket). true) tx in
      let kept_rx = map (λ (s : RxSocket). true) rx in
      elim (ltb 0 (length fds) && leb (length fds) int32_max) [
        | false ↦ ((negated_i16 einval, kept_tx, kept_rx), w)
        | true ↦
            let (polled, w1) = poll fds (poll_timeout timeout_us) w in
            elim polled [
              | none ↦ ((minus_errno w1, kept_tx, kept_rx), w1)
              | some ready ↦ ((pos 0, take (length tx) ready, drop (length tx) ready), w1)
            ]
      ]

  -- Zero where the address is not recognized. NULL is none.
  unfoldable pub udp_wrapper_parse_iface_address : Option (List ℕ) → ℕ
  udp_wrapper_parse_iface_address none = 0
  udp_wrapper_parse_iface_address (some address) = port_of (inet_pton address)
