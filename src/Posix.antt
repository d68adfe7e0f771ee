-- ===== src/Posix.antt =====
-- The node on POSIX sockets, cy_udp_posix/cy_udp_posix.c and cy_udp_posix.h: its state beside cy_t,
-- its memory, and the codes of errors.
pub mod NodeId
pub mod Topics
pub mod Layer
pub mod Offload
pub mod Reading
pub mod Spin
pub mod Start
pub mod Loops
pub mod Closing
pub mod Subscribing
pub mod Draining
pub mod Bounds
pub mod Payload
pub mod Unread
pub mod Collision
mod Tests
use cy.Prelude.{
  ℕ, zero, suc, ◌+◌, ◌-◌, ◌/◌, ◌%◌, ◌^◌, Bool, true, false, not, ◌&&◌, Option, none, some, List, [],
  ◌∷◌, ltb, ◌==◌, if◌then◌else◌, replicate, take,
}
use cy.Prelude.Int.{ℤ, pos, negsuc, ◌+ℤ◌, ◌-ℤ◌, ◌*ℤ◌, ltb_ℤ}
use cy.Subject.{u64_mod}
use cy.Age.{eq_ℤ}
use cy.Platform.{Err, cy_ok, cy_err_argument, cy_err_memory, cy_err_capacity, cy_err_media}
use cy.Node.{update}
use cy.Buffers.{cy_buffer_borrowed_size, cy_buffer_borrowed_gather}
use cy.Os.{Os}
use cy.Udpard.{Udpard}
use cy.Wrapper.{TxSocket, RxSocket}

abbrev pub socket_read_buffer_size : ℕ
socket_read_buffer_size = 2000

unfoldable pub min_i64 : ℤ → ℤ → ℤ
min_i64 a b = if ltb_ℤ a b then a else b

unfoldable pub is_valid_ip : ℕ → Bool
is_valid_ip ip = ltb 0 ip && ltb ip (2 ^ 32 - 1)

-- Conversions to uint64_t and int64_t.
unfoldable pub to_u64 : ℤ → ℕ
to_u64 (pos n) = n % u64_mod
to_u64 (negsuc n) = u64_mod - 1 - n % u64_mod

unfoldable pub to_i64 : ℕ → ℤ
to_i64 n =
    if ltb (n % u64_mod) (2 ^ 63) then pos (n % u64_mod) else negsuc (u64_mod - 1 - n % u64_mod)

-- A loop over `count` interfaces, from the interface i on.
unfoldable pub for_each {ℓ} : {S : Type ℓ} → ℕ → ℕ → (ℕ → S → S) → S → S
for_each zero i body s = s
for_each (suc count) i body s = for_each count (suc i) body (body i s)

abbrev pub buffer_of : Option (List ℕ) → List ℕ
buffer_of none = []
buffer_of (some bytes) = bytes

-- CY_BUFFER_GATHER_ON_STACK: a single fragment is not copied.
unfoldable pub gather_on_stack : List (List ℕ) → List ℕ
gather_on_stack [] = []
gather_on_stack (view ∷ []) = view
gather_on_stack (view ∷ next ∷ rest) =
    let payload = view ∷ next ∷ rest in
    let (size, buffer) =
      cy_buffer_borrowed_gather payload (some (replicate (cy_buffer_borrowed_size payload) 0)) in
    take size (buffer_of buffer)

unfoldable pub err_from_udp_wrapper : Os → ℤ → Err
err_from_udp_wrapper os e =
    if eq_ℤ e (pos 0 -ℤ pos os.einval)
    then cy_err_argument
    else if eq_ℤ e (pos 0 -ℤ pos os.enomem)
    then cy_err_memory
    else if ltb_ℤ e (pos 0)
    then cy_err_media
    else cy_ok

-- The quotient by a thousand, truncated towards zero.
unfoldable pub truncated : ℤ → ℤ
truncated (pos n) = pos (n / 1000)
truncated (negsuc n) = pos 0 -ℤ pos ((n + 1) / 1000)

-- (tv_sec * 1000000) + (tv_nsec / 1000)
unfoldable pub microseconds : ℤ → ℤ → ℤ
microseconds sec nsec = sec *ℤ pos 1_000_000 +ℤ truncated nsec

module _ (os : Os) where
  -- The system, and the counters that the allocator keeps.
  pub record Memory : Type 0 where
    pub world : os.World
    pub allocated_fragments : ℕ
    pub oom_count : ℕ

  abbrev pub is_made : Option ℕ → Bool
  is_made none = false
  is_made (some x) = true

  unfoldable pub count_allocation : ℕ → Option ℕ → Memory → Memory
  count_allocation size out m =
      if ltb 0 size
      then (if is_made out
          then record m { allocated_fragments = (m.allocated_fragments + 1) % u64_mod }
          else record m { oom_count = (m.oom_count + 1) % u64_mod })
      else m

  unfoldable pub mem_alloc : ℕ → Memory → Option ℕ × Memory
  mem_alloc size m =
      let (out, w) = os.malloc size m.world in
      (out, count_allocation size out (record m { world = w }))

  -- The counter is a size_t: below zero it wraps. The pointer is none when it is NULL.
  unfoldable pub mem_free : Option ℕ → Memory → Memory
  mem_free none m = m
  mem_free (some pointer) m = record m {
    world = os.free pointer m.world;
    allocated_fragments = (m.allocated_fragments + u64_mod - 1) % u64_mod;
  }

  -- The sum of seconds and nanoseconds; the code aborts where the clock cannot be read.
  unfoldable pub cy_udp_posix_now : Memory → ℤ × Memory
  cy_udp_posix_now m =
      let ((sec, nsec), w) = os.monotonic m.world in (microseconds sec nsec, record m { world = w })

module _ (os : Os) (udpard : Udpard (Memory os)) where
  open udpard use {
    Tx, Subscription, Dispatcher, error_argument, error_memory, error_capacity, error_anonymous,
  }

  pub record TxIface : Type 0 where
    pub udpard_tx : Tx
    pub sock : TxSocket
    pub local_port : ℕ
    pub frames_expired : ℕ

  pub record RpcIface : Type 0 where
    pub sock : RxSocket
    pub oom_count : ℕ

  -- cy_udp_posix_topic_t, without its base.
  pub record PosixTopic : Type 0 where
    pub sub : Subscription
    pub sock_rx : ℕ → RxSocket
    pub rx_oom_count : ℕ

  -- cy_udp_posix_t, without its base and without the Bloom filter, with the topics at their addresses.
  pub record Posix : Type 0 where
    pub memory : Memory os
    pub response_extent_with_overhead : ℕ
    pub rpc_rx_dispatcher : Dispatcher
    pub local_iface_address : ℕ → ℕ
    pub tx : ℕ → TxIface
    pub rpc_rx : ℕ → RpcIface
    pub topics : ℕ → PosixTopic

  unfoldable pub set_world : Posix → os.World → Posix
  set_world p w = record p { memory = record p.memory { world = w } }

  unfoldable pub set_tx : Posix → ℕ → TxIface → Posix
  set_tx p i v = record p { tx = update p.tx i v }

  unfoldable pub set_rpc_rx : Posix → ℕ → RpcIface → Posix
  set_rpc_rx p i v = record p { rpc_rx = update p.rpc_rx i v }

  unfoldable pub set_posix_topic : Posix → ℕ → PosixTopic → Posix
  set_posix_topic p t v = record p { topics = update p.topics t v }

  -- Any other negative code fails an assertion.
  unfoldable pub err_from_udpard : ℤ → Err
  err_from_udpard e =
      if eq_ℤ e (pos 0 -ℤ pos error_argument)
      then cy_err_argument
      else if eq_ℤ e (pos 0 -ℤ pos error_memory)
      then cy_err_memory
      else if eq_ℤ e (pos 0 -ℤ pos error_capacity)
      then cy_err_capacity
      else if eq_ℤ e (pos 0 -ℤ pos error_anonymous)
      then cy_err_media
      else cy_ok

  -- The result so far and the code of one more interface: an error replaces it.
  unfoldable pub merge_result : Err → ℤ → Err
  merge_result res e =
      if ltb_ℤ e (pos 0)
      then err_from_udpard e
      else if not (res == cy_ok)
      then res
      else err_from_udpard e
