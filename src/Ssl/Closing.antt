-- ===== src/Ssl/Closing.antt =====
-- A TLS connection that fails leaves nothing behind (src/ssl_socket.cpp, src/ssl_client_socket.cpp).
use libaeon.Prelude.{ℕ, ◌≡◌, ◌∙◌, Bool, false, List, is_zero, arith, Bool-cases, inl, inr}
use libaeon.Platform.{Platform, Family, Sockaddr, Syscall, answer}
use libaeon.Socket.{is_valid_socket, invalid_socket}
use libaeon.Socket
use libaeon.Ssl.{OpenSsl, Stage, clear_ssl_errors, close}
use libaeon.Ssl.Setup.{setup_ssl, perform_handshake}
use libaeon.Ssl.Client.{
  open_transport, close_previous, close_other, ensure_transport, prepare, secure, attempt,
  target_family, connect_to,
}

module _ (os : Platform) {X : Type 0} (lib : OpenSsl X) where
  -- There is neither a session nor a descriptor.
  abbrev pub IsEnded : Stage X → Type 0
  IsEnded g = (g.tls.session ≡ false) × (is_valid_socket g.tls.base ≡ false)

  -- The same, after a failure.
  abbrev pub EndedIfFailed : Bool → Stage X → Type 0
  EndedIfFailed ok g = ok ≡ false → IsEnded g

  close-IsEnded : (g : Stage X) → IsEnded (close lib os g).1
  unfolding close clear_ssl_errors Socket.close
  close-IsEnded g = ground arith

  close_previous-session : (g : Stage X) → (close_previous os lib g).1.tls.session ≡ false
  unfolding close_previous
  close_previous-session g = ground (arith, close-IsEnded g)

  close_other-session :
      (family : Family) (g : Stage X) → (close_other os lib family g).1.tls.session ≡ g.tls.session
  unfolding close_other
  close_other-session family g = ground arith

  ensure_transport-EndedIfFailed :
      (family : Family) (g : Stage X)
      → g.tls.session ≡ false
      → let (ok, g') = ensure_transport os lib family g in EndedIfFailed ok g'
  unfolding ensure_transport open_transport
  ensure_transport-EndedIfFailed family g h = ground (arith, h)

  prepare-EndedIfFailed :
      (family : Family) (g : Stage X)
      → let (ok, g') = prepare os lib family g in EndedIfFailed ok g'
  unfolding prepare
  prepare-EndedIfFailed family g =
      let g₁ = (close_previous os lib g).1 in
      let g₂ = (close_other os lib family g₁).1 in
      ensure_transport-EndedIfFailed family g₂
        (close_other-session family g₁ ∙ close_previous-session g)

  secure-EndedIfFailed :
      (identity : List ℕ) (g : Stage X)
      → let (ok, g') = secure os lib identity g in EndedIfFailed ok g'
  unfolding secure
  secure-EndedIfFailed identity g =
      let a = setup_ssl os lib identity g in
      let b = perform_handshake os lib a.1 in ground (arith, close-IsEnded a.1, close-IsEnded b.1)

  attempt-EndedIfFailed :
      (target : Sockaddr) (identity : List ℕ) (g : Stage X)
      → let (ok, g') = attempt os lib target identity g in EndedIfFailed ok g'
  unfolding attempt
  attempt-EndedIfFailed target identity g =
      let r = answer os (Syscall.connect g.tls.base.sockfd target) g.world in
      elim (Bool-cases (is_zero r.value)) [
        | inr failed ↦ rw (failed, attempt) (λ _. close-IsEnded _)
        | inl fine ↦ rw (fine, attempt) (secure-EndedIfFailed identity _)
      ]

  pub connect_to-EndedIfFailed :
      (target : Sockaddr) (identity : List ℕ) (g : Stage X)
      → let (ok, g') = connect_to os lib target identity g in EndedIfFailed ok g'
  unfolding connect_to
  connect_to-EndedIfFailed target identity g =
      let a = prepare os lib (target_family target) g in
      elim (Bool-cases a.0) [
        | inr failed ↦
            rw (failed, connect_to) (λ _. prepare-EndedIfFailed (target_family target) g failed)
        | inl ready ↦ rw (ready, connect_to) (attempt-EndedIfFailed target identity a.1)
      ]
