-- ===== src/Wrapper/Opening.antt =====
-- What udp_wrapper_rx_init of cy_udp_posix/udp_wrapper.c returns, and the handle that it leaves.
use cy.Prelude.{ℕ, ◌%◌, ◌^◌, ◌<◌, ◌≡◌, ◌↔◌, refl, Bool, true, false, none, some, ◌&&◌, arith, ltb}
use cy.Prelude.Int.{pos}
use cy.Os.{Os}
use cy.Wrapper.{RxSocket, is_multicast, negated_i16, minus_errno, udp_wrapper_rx_is_initialized}
use cy.Wrapper.Receiving.{get_local_iface_index, set_up_rx, open_rx, udp_wrapper_rx_init}

negated_zero : (n : ℕ) → (negated_i16 n ≡ pos 0) ↔ (n % 2 ^ 16 ≡ 0)
unfolding negated_i16
negated_zero n = (λ h. ground arith, λ h. ground arith)

module _ (os : Os) where
  set_up_unfound :
      (fd a group port : ℕ) (w : os.World) → set_up_rx os fd 0 a group port w ≡ (false, w)
  unfolding set_up_rx
  set_up_unfound fd a group port w = refl

  gates :
      (a port : ℕ) (m : Bool) → 0 < a → m ≡ true → 0 < port → (ltb 0 a && m && ltb 0 port) ≡ true
  gates a port m local multi known = ground arith

  open_rx_unfound :
      (self : RxSocket) (a group port deny fd : ℕ) (w w1 w2 : os.World)
      → get_local_iface_index os a w ≡ (0, w1)
      → os.socket w1 ≡ (some fd, w2)
      → open_rx os self a group port deny w ≡ (
        minus_errno os w2,
        record self {
          fd = none;
          allow_iface_index = 0;
          deny_source_address = a;
          deny_source_port = deny;
        },
        os.close (some fd) w2,
      )
  unfolding open_rx
  open_rx_unfound self a group port deny fd w w1 w2 unfound made =
      simp (open_rx, unfound, made, set_up_unfound)

  -- udp_wrapper_rx_init with good arguments, for an address that no interface has, while a socket can be
  -- made: the handle is closed, but the call succeeds exactly when the low 16 bits of errno are zero.
  pub udp_wrapper_rx_init_unfound :
      (self : RxSocket) (a group port deny fd : ℕ) (w w1 w2 : os.World)
      → 0 < a
      → is_multicast group ≡ true
      → 0 < port
      → get_local_iface_index os a w ≡ (0, w1)
      → os.socket w1 ≡ (some fd, w2)
      → (udp_wrapper_rx_is_initialized (udp_wrapper_rx_init os self a group port deny w).1 ≡ false)
        × (((udp_wrapper_rx_init os self a group port deny w).0 ≡ pos 0)
            ↔ (os.errno w2 % 2 ^ 16 ≡ 0))
  unfolding udp_wrapper_rx_init udp_wrapper_rx_is_initialized minus_errno
  udp_wrapper_rx_init_unfound self a group port deny fd w w1 w2 local multi known unfound made =
      rw
        (
          udp_wrapper_rx_init,
          gates a port (is_multicast group) local multi known,
          open_rx_unfound self a group port deny fd w w1 w2 unfound made,
        )
        (refl, negated_zero (os.errno w2))
