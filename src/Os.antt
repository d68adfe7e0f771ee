-- ===== src/Os.antt =====
-- The calls of the operating system that cy_udp_posix/udp_wrapper.c and cy_udp_posix/cy_udp_posix.c
-- make. POSIX is not part of the project: the calls are parameters, on a state of the system.
use cy.Prelude.{ℕ, Bool, Option, List}
use cy.Prelude.Int.{ℤ}

-- The socket options that are set, with their values.
pub data SockOpt : Type 0 where
  ip_multicast_ttl : ℕ → SockOpt
  ip_multicast_if : ℕ → SockOpt
  ip_tos : ℕ → SockOpt
  so_reuseaddr so_reuseport ip_pktinfo : SockOpt
  ip_add_membership : ℕ → ℕ → SockOpt

-- What recvmsg gives: the bytes, the source address and port, and the interface index of the
-- control message IP_PKTINFO, none when there is no such message.
pub record Datagram : Type 0 where
  pub bytes : List ℕ
  pub source_address : ℕ
  pub source_port : ℕ
  pub iface_index : Option ℕ

-- An entry of getifaddrs: its name, and its address when it has one of the family AF_INET.
pub record Ifaddr : Type 0 where
  pub name : List ℕ
  pub address : Option ℕ

-- A descriptor handed to poll, none when it is negative; POLLOUT or POLLIN is asked for.
pub record PollFd : Type 0 where
  pub fd : Option ℕ
  pub for_writing : Bool

-- A call that may fail gives false or none, and leaves its reason in errno. Addresses and ports are
-- in the host's byte order: htonl, htons and their inverses are left out. poll gives, for each
-- descriptor, whether it is ready for what was asked.
pub record Os : Type 1 where
  pub World : Type 0
  pub errno : World → ℕ
  pub monotonic : World → (ℤ × ℤ) × World
  pub monotonic_raw_nsec : World → ℕ × World
  pub malloc : ℕ → World → Option ℕ × World
  pub free : ℕ → World → World
  pub socket : World → Option ℕ × World
  pub bind : ℕ → ℕ → ℕ → World → Bool × World
  pub getsockname : ℕ → World → Option ℕ × World
  pub set_nonblocking : ℕ → World → Bool × World
  pub setsockopt : ℕ → SockOpt → World → Bool × World
  pub close : Option ℕ → World → World
  pub sendto : ℕ → List ℕ → ℕ → ℕ → World → ℤ × World
  pub recvmsg : ℕ → ℕ → World → Option Datagram × World
  pub getifaddrs : World → Option (List Ifaddr) × World
  pub freeifaddrs : List Ifaddr → World → World
  pub if_nametoindex : List ℕ → World → ℕ × World
  pub poll : List PollFd → ℤ → World → Option (List Bool) × World
  pub inet_pton : List ℕ → Option ℕ
  pub einval : ℕ
  pub enomem : ℕ
  pub eio : ℕ
  pub eagain : ℕ
  pub ewouldblock : ℕ
