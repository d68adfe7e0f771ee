-- ===== src/Wrapper/Receiving.antt =====
-- The receiving sockets of cy_udp_posix/udp_wrapper.c: get_local_iface_index, udp_wrapper_rx_init,
-- udp_wrapper_rx_receive, udp_wrapper_rx_close.
use cy.Prelude.{
  ℕ, Bool, true, false, not, ◌&&◌, ◌||◌, Option, none, some, List, [], ◌∷◌, ltb, ◌==◌,
  if◌then◌else◌,
}
use cy.Prelude.Int.{ℤ, pos}
use cy.Os.{Os, Datagram, Ifaddr, so_reuseaddr, so_reuseport, ip_pktinfo, ip_add_membership}
use cy.Wrapper.{RxSocket, is_multicast, negated_i16, minus_errno, and_then, would_block}

module _ (os : Os) where
  open os use {
    World, socket, bind, set_nonblocking, setsockopt, close, recvmsg, getifaddrs, freeifaddrs,
    if_nametoindex, einval, eio,
  }

  abbrev pub same_address : Option ℕ → ℕ → Bool
  same_address none local_iface_address = false
  same_address (some address) local_iface_address = address == local_iface_address

  -- The loop over the interfaces: the first one with this address gives the index.
  unfoldable pub index_in : List Ifaddr → ℕ → World → ℕ × World
  index_in [] local_iface_address w = (0, w)
  index_in (ifa ∷ rest) local_iface_address w =
      elim (same_address ifa.address local_iface_address) [
        | true ↦ if_nametoindex ifa.name w
        | false ↦ index_in rest local_iface_address w
      ]

  unfoldable pub get_local_iface_index : ℕ → World → ℕ × World
  get_local_iface_index local_iface_address w =
      let (found, w1) = getifaddrs w in
      elim found [
        | none ↦ (0, w1)
        | some ifas ↦
            let (idx, w2) = index_in ifas local_iface_address w1 in (idx, freeifaddrs ifas w2)
      ]

  unfoldable pub set_up_rx : ℕ → ℕ → ℕ → ℕ → ℕ → World → Bool × World
  set_up_rx fd iface_index local_iface_address multicast_group remote_port w =
      let r1 = and_then os (ltb 0 iface_index, w) (set_nonblocking fd) in
      let r2 = and_then os r1 (setsockopt fd so_reuseaddr) in
      let r3 = and_then os r2 (setsockopt fd so_reuseport) in
      let r4 = and_then os r3 (setsockopt fd ip_pktinfo) in
      let r5 = and_then os r4 (bind fd multicast_group remote_port) in
      and_then os r5 (setsockopt fd (ip_add_membership multicast_group local_iface_address))

  abbrev pub give_up_rx : RxSocket → Option ℕ → World → ℤ × RxSocket × World
  give_up_rx self fd w = (minus_errno os w, record self { fd = none }, close fd w)

  -- The arguments are good: the filter is set, and the socket is opened.
  unfoldable pub open_rx : RxSocket → ℕ → ℕ → ℕ → ℕ → World → ℤ × RxSocket × World
  open_rx self local_iface_address multicast_group remote_port deny_source_port w =
      let (iface_index, w1) = get_local_iface_index local_iface_address w in
      let filtered : RxSocket = record self {
        allow_iface_index = iface_index;
        deny_source_address = local_iface_address;
        deny_source_port = deny_source_port;
      } in
      let (made, w2) = socket w1 in
      elim made [
        | none ↦ give_up_rx filtered none w2
        | some fd ↦
            let (ok, w3) =
              set_up_rx fd iface_index local_iface_address multicast_group remote_port w2 in
            elim ok [
              | true ↦ (pos 0, record filtered { fd = some fd }, w3)
              | false ↦ give_up_rx filtered (some fd) w3
            ]
      ]

  unfoldable pub udp_wrapper_rx_init : RxSocket → ℕ → ℕ → ℕ → ℕ → World → ℤ × RxSocket × World
  udp_wrapper_rx_init self local_iface_address multicast_group remote_port deny_source_port w =
      elim (ltb 0 local_iface_address && is_multicast multicast_group && ltb 0 remote_port) [
        | false ↦ (negated_i16 einval, self, w)
        | true ↦ open_rx self local_iface_address multicast_group remote_port deny_source_port w
      ]

  -- The wrong interface, or own traffic.
  unfoldable pub is_unwanted : RxSocket → Datagram → ℕ → Bool
  is_unwanted self d iface_index =
      not (iface_index == self.allow_iface_index)
      || (d.source_address == self.deny_source_address && d.source_port == self.deny_source_port)

  unfoldable pub filter_datagram : RxSocket → Datagram → ℤ × List ℕ
  filter_datagram self d = elim d.iface_index [
    | none ↦ (negated_i16 eio, [])
    | some iface_index ↦ if is_unwanted self d iface_index then (pos 0, []) else (pos 1, d.bytes)
  ]

  -- The result, and the bytes received into a buffer of this size.
  unfoldable pub udp_wrapper_rx_receive : RxSocket → ℕ → World → (ℤ × List ℕ) × World
  udp_wrapper_rx_receive self payload_size w = elim self.fd [
    | none ↦ ((negated_i16 einval, []), w)
    | some fd ↦
        let (received, w1) = recvmsg fd payload_size w in
        elim received [
          | some d ↦ (filter_datagram self d, w1)
          | none ↦ ((if would_block os w1 then pos 0 else minus_errno os w1, []), w1)
        ]
  ]

  unfoldable pub udp_wrapper_rx_close : RxSocket → World → RxSocket × World
  udp_wrapper_rx_close self w = elim self.fd [
    | none ↦ (self, w)
    | some fd ↦ (record self { fd = none }, close (some fd) w)
  ]
