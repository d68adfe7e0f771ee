-- ===== src/Wrapper/Receipt.antt =====
-- Which datagrams udp_wrapper_rx_receive of cy_udp_posix/udp_wrapper.c lets through, and how
-- udp_wrapper_rx_init fails.
use cy.Prelude.{
  ℕ, ◌≡◌, ◌≢◌, ◌↔◌, refl, Bool-cases, false, some, ◌⊎◌, inl, inr, [], arith, if◌then◌else◌,
}
use cy.Prelude.Int.{pos}
use cy.Os.{Os, Datagram}
use cy.Wrapper.{RxSocket}
use cy.Wrapper.Receiving.{is_unwanted, filter_datagram, udp_wrapper_rx_receive}

module _ (os : Os) where
  receive_run :
      (self : RxSocket) (fd size iface : ℕ) (d : Datagram) (w w1 : os.World)
      → self.fd ≡ some fd
      → os.recvmsg fd size w ≡ (some d, w1)
      → d.iface_index ≡ some iface
      → udp_wrapper_rx_receive os self size w
        ≡ (if is_unwanted os self d iface then (pos 0, []) else (pos 1, d.bytes), w1)
  unfolding udp_wrapper_rx_receive filter_datagram
  receive_run self fd size iface d w w1 opened received control =
      simp (udp_wrapper_rx_receive, opened, received, filter_datagram, control)

  wanted :
      (self : RxSocket) (d : Datagram) (iface : ℕ)
      → iface ≡ self.allow_iface_index
      → ((d.source_address ≢ self.deny_source_address) ⊎ (d.source_port ≢ self.deny_source_port))
      → is_unwanted os self d iface ≡ false
  unfolding is_unwanted
  wanted self d iface allowed foreign = ground arith

  wanted_only :
      (self : RxSocket) (d : Datagram) (iface : ℕ)
      → is_unwanted os self d iface ≡ false
      → (iface ≡ self.allow_iface_index)
        × ((d.source_address ≢ self.deny_source_address) ⊎ (d.source_port ≢ self.deny_source_port))
  unfolding is_unwanted
  wanted_only self d iface h = ground arith

  -- An open socket that recvmsg gives a datagram on accepts it whole, or drops it. It accepts it
  -- exactly when the datagram came over the interface that the socket allows, and from another
  -- address or another port than the denied ones.
  pub udp_wrapper_rx_receive-accepts :
      (self : RxSocket) (fd size iface : ℕ) (d : Datagram) (w w1 : os.World)
      → self.fd ≡ some fd
      → os.recvmsg fd size w ≡ (some d, w1)
      → d.iface_index ≡ some iface
      → ((udp_wrapper_rx_receive os self size w).0.0 ≡ pos 1 ↔ (
          (iface ≡ self.allow_iface_index)
          × ((d.source_address ≢ self.deny_source_address)
              ⊎ (d.source_port ≢ self.deny_source_port))))
        × ((udp_wrapper_rx_receive os self size w ≡ ((pos 1, d.bytes), w1))
            ⊎ (udp_wrapper_rx_receive os self size w ≡ ((pos 0, []), w1)))
  udp_wrapper_rx_receive-accepts self fd size iface d w w1 opened received control =
      rw (receive_run self fd size iface d w w1 opened received control) (
        (
          elim (Bool-cases (is_unwanted os self d iface)) [
            | inl e ↦ rw e (λ accepted. absurd (ground arith))
            | inr e ↦ λ accepted. wanted_only self d iface e
          ],
          λ (allowed, foreign). rw (wanted self d iface allowed foreign) refl,
        ),
        elim (Bool-cases (is_unwanted os self d iface)) [
          | inl e ↦ rw e (inr refl)
          | inr e ↦ rw e (inl refl)
        ],
      )
