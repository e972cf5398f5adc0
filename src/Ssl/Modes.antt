-- ===== src/Ssl/Modes.antt =====
-- The mode of verification is not changed by what a connection does (src/ssl_socket.cpp).
use libaeon.Prelude.{ℕ, ◌≡◌, ◌∙◌, true, false, List, arith}
use libaeon.Platform.{Platform, Family}
use libaeon.Ssl.{OpenSsl, Stage, Action, clear_ssl_errors, close}
use libaeon.Ssl.Setup.{
  load_credentials, require_identity, verify_strictly, verify_nothing, configure_session,
  free_session, new_session, setup_ssl,
}
use libaeon.Ssl.Client.{open_transport, close_previous, close_other, ensure_transport, prepare}

module _ (os : Platform) {X : Type 0} (lib : OpenSsl X) where
  abbrev pub KeepsMode : {A : Type 0} → Action X A → Type 0
  KeepsMode m = (g : Stage X) → (m g).1.tls.verify_mode ≡ g.tls.verify_mode

  pub load_credentials-KeepsMode : KeepsMode (load_credentials os lib)
  unfolding load_credentials
  load_credentials-KeepsMode g = ground arith

  require_identity-KeepsMode : (identity : List ℕ) → KeepsMode (require_identity os lib identity)
  unfolding require_identity
  require_identity-KeepsMode identity g = ground arith

  verify_strictly-KeepsMode : (identity : List ℕ) → KeepsMode (verify_strictly os lib identity)
  unfolding verify_strictly
  verify_strictly-KeepsMode identity g = ground (
    arith,
    require_identity-KeepsMode identity (record g {
      below = lib.set_hostflags (lib.ssl_set_verify true g.tls.allow_self_signed g.below);
    }),
  )

  verify_nothing-KeepsMode : (identity : List ℕ) → KeepsMode (verify_nothing os lib identity)
  unfolding verify_nothing
  verify_nothing-KeepsMode identity g = ground arith

  configure_session-KeepsMode : (identity : List ℕ) → KeepsMode (configure_session os lib identity)
  unfolding configure_session
  configure_session-KeepsMode identity g =
      let g₁ = (load_credentials os lib g).1 in
      ground (
        arith,
        load_credentials-KeepsMode g,
        verify_strictly-KeepsMode identity g₁,
        verify_nothing-KeepsMode identity g₁,
      )

  new_session-KeepsMode : (identity : List ℕ) → KeepsMode (new_session os lib identity)
  unfolding new_session clear_ssl_errors free_session
  new_session-KeepsMode identity g =
      let g₀ = (clear_ssl_errors lib g).1 in
      let made = lib.ssl_new g₀.below in
      let attached = lib.ssl_set_fd g.tls.base.sockfd made.1 in
      ground (
        arith,
        configure_session-KeepsMode identity
            (record g { below = attached.1; tls = record (g.tls) { session = true } }),
      )

  pub setup_ssl-KeepsMode : (identity : List ℕ) → KeepsMode (setup_ssl os lib identity)
  unfolding setup_ssl free_session
  setup_ssl-KeepsMode identity g = ground (
    arith,
    new_session-KeepsMode identity g,
    new_session-KeepsMode identity
        (record g { below = lib.ssl_free g.below; tls = record (g.tls) { session = false } }),
  )

  close-KeepsMode : KeepsMode (close lib os)
  unfolding close clear_ssl_errors
  close-KeepsMode g = ground arith

  open_transport-KeepsMode : (family : Family) → KeepsMode (open_transport os lib family)
  unfolding open_transport
  open_transport-KeepsMode family g = ground arith

  close_previous-KeepsMode : KeepsMode (close_previous os lib)
  unfolding close_previous
  close_previous-KeepsMode g = ground (arith, close-KeepsMode g)

  close_other-KeepsMode : (family : Family) → KeepsMode (close_other os lib family)
  unfolding close_other
  close_other-KeepsMode family g = ground arith

  ensure_transport-KeepsMode : (family : Family) → KeepsMode (ensure_transport os lib family)
  unfolding ensure_transport
  ensure_transport-KeepsMode family g = ground (arith, open_transport-KeepsMode family g)

  pub prepare-KeepsMode : (family : Family) → KeepsMode (prepare os lib family)
  unfolding prepare
  prepare-KeepsMode family g =
      let g₁ = (close_previous os lib g).1 in
      let g₂ = (close_other os lib family g₁).1 in
      ensure_transport-KeepsMode family g₂
      ∙ close_other-KeepsMode family g₁
      ∙ close_previous-KeepsMode g
