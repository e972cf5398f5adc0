-- ===== src/Ssl/Verified.antt =====
-- With strict verification, a TLS client (src/ssl_socket.cpp, src/ssl_client_socket.cpp) is connected only
-- to the identity that was asked for.
use libaeon.Prelude.{
  ℕ, zero, suc, ◌==◌, ◌≡◌, refl, ap, ◌∙◌, Bool, true, false, List, ℤ, pos, ◌==ℤ◌, is_zero, arith,
  Bool-cases, inl, inr,
}
use libaeon.Errors.{err_none}
use libaeon.Platform.{Platform, Sockaddr, Syscall, answer}
use libaeon.Tls.{is_strict}
use libaeon.Ssl.{OpenSsl, SslSocket, Stage, pop_errors, clear_ssl_errors}
use libaeon.Ssl.Setup.{setup_ssl, judge_handshake, perform_handshake}
use libaeon.Ssl.Client.{secure, attempt, prepare, connect_to, target_family}
use libaeon.Ssl.Closing.{IsEnded, connect_to-EndedIfFailed}
use libaeon.Ssl.Modes.{setup_ssl-KeepsMode, prepare-KeepsMode}
use libaeon.Ssl.Demands.{RemembersIdentity, Demands, setup_ssl-Demands}

module _ (os : Platform) {X : Type 0} (lib : OpenSsl X) (law : RemembersIdentity lib) where
  pop_errors-Demands :
      (identity : List ℕ) (fuel : ℕ) (x : X)
      → Demands os lib law identity x
      → Demands os lib law identity (pop_errors lib fuel x)
  unfolding pop_errors
  pop_errors-Demands identity zero x d = d
  pop_errors-Demands identity (suc fuel) x (v, e) =
      let x' = (lib.err_get_error x).1 in
      let d : Demands os lib law identity x' =
        (law.error_verifying x ∙ v, law.error_expected x ∙ e) in
      elim (Bool-cases ((lib.err_get_error x).0 == 0)) [
        | inl last ↦ rw (last, pop_errors) d
        | inr more ↦ rw (more, pop_errors) (pop_errors-Demands identity fuel x' d)
      ]

  judge_handshake-verified :
      (result : ℤ) (g : Stage X)
      → is_strict g.tls.verify_mode ≡ true
      → let (code, g') = judge_handshake os lib result g in
        (code ==ℤ err_none) ≡ true
        → (lib.verify_ok g.below ≡ true)
          × ((result ==ℤ pos 1) ≡ true)
          × (g'.below ≡ g.below)
          × (g'.tls ≡ g.tls)
  unfolding judge_handshake
  judge_handshake-verified result g strict = ground (arith, strict)

  -- The session demands the identity, and its certificate was found in order.
  abbrev pub IsSecured : List ℕ → Stage X → Type 0
  IsSecured identity g =
      Demands os lib law identity g.below × (lib.verify_ok g.below ≡ true) × (g.tls.session ≡ true)

  perform_handshake-IsSecured :
      (identity : List ℕ) (g : Stage X)
      → is_strict g.tls.verify_mode ≡ true
      → Demands os lib law identity g.below
      → let (result, g') = perform_handshake os lib g in
        (result ==ℤ err_none) ≡ true → IsSecured identity g'
  unfolding perform_handshake clear_ssl_errors
  perform_handshake-IsSecured identity g strict d =
      let x₀ = pop_errors lib (suc (lib.queued_errors g.below)) g.below in
      let out = lib.ssl_connect x₀ in
      let g₁ : Stage X = record g { below = out.1; tls = record (g.tls) { session = true } } in
      let (v, e) = pop_errors-Demands identity (suc (lib.queued_errors g.below)) g.below d in
      elim (Bool-cases g.tls.session) [
        | inr none_ ↦ rw (none_, perform_handshake) (λ h. absurd (ground (arith, h)))
        | inl live ↦
            rw (live, perform_handshake)
              (λ h.
                let (verified, one, below, tls) = judge_handshake-verified out.0 g₁ strict h in
                (
                  (
                    ap law.verifying below ∙ law.connect_verifying x₀ ∙ v,
                    ap law.expected below ∙ law.connect_expected x₀ ∙ e,
                  ),
                  ap lib.verify_ok below ∙ verified,
                  ap (λ (t : SslSocket). t.session) tls,
                ))
      ]

  secure-IsSecured :
      (identity : List ℕ) (g : Stage X)
      → is_strict g.tls.verify_mode ≡ true
      → let (ok, g') = secure os lib identity g in ok ≡ true → IsSecured identity g'
  unfolding secure
  secure-IsSecured identity g strict =
      let a = setup_ssl os lib identity g in
      let b = perform_handshake os lib a.1 in
      elim (Bool-cases (a.0 ==ℤ err_none)) [
        | inr failed ↦ rw (failed, failed, secure) (λ h. absurd (ground (arith, h)))
        | inl ready ↦ elim (Bool-cases (b.0 ==ℤ err_none)) [
          | inr failed ↦ rw (ready, failed, secure) (λ h. absurd (ground (arith, h)))
          | inl done ↦
              rw (ready, done, secure)
                (λ h.
                  perform_handshake-IsSecured identity a.1
                    (ap is_strict (setup_ssl-KeepsMode os lib identity g) ∙ strict)
                    (setup_ssl-Demands os lib law identity g strict ready) done)
        ]
      ]

  attempt-IsSecured :
      (target : Sockaddr) (identity : List ℕ) (g : Stage X)
      → is_strict g.tls.verify_mode ≡ true
      → let (ok, g') = attempt os lib target identity g in ok ≡ true → IsSecured identity g'
  unfolding attempt
  attempt-IsSecured target identity g strict =
      let r = answer os (Syscall.connect g.tls.base.sockfd target) g.world in
      elim (Bool-cases (is_zero r.value)) [
        | inr failed ↦ rw (failed, attempt) (λ h. absurd (ground (arith, h)))
        | inl fine ↦ rw (fine, attempt) (secure-IsSecured identity _ strict)
      ]

  connect_to-IsSecured :
      (target : Sockaddr) (identity : List ℕ) (g : Stage X)
      → is_strict g.tls.verify_mode ≡ true
      → let (ok, g') = connect_to os lib target identity g in ok ≡ true → IsSecured identity g'
  unfolding connect_to
  connect_to-IsSecured target identity g strict =
      let a = prepare os lib (target_family target) g in
      elim (Bool-cases a.0) [
        | inr failed ↦ rw (failed, connect_to) (λ h. absurd (ground (arith, h)))
        | inl ready ↦
            rw (ready, connect_to)
              (attempt-IsSecured target identity a.1
                (ap is_strict (prepare-KeepsMode os lib (target_family target) g) ∙ strict))
      ]

  -- By the result of a connection.
  abbrev pub ConnectSecured : List ℕ → Bool → Stage X → Type 0
  ConnectSecured identity true g = IsSecured identity g
  ConnectSecured identity false g = IsEnded os lib g

  by_result :
      (identity : List ℕ) (ok : Bool) (g : Stage X)
      → (ok ≡ true → IsSecured identity g)
      → (ok ≡ false → IsEnded os lib g)
      → ConnectSecured identity ok g
  by_result identity true g secured ended = secured refl
  by_result identity false g secured ended = ended refl

  -- With strict verification, `connect_to` that returns true leaves a session that verifies its peer
  -- against the identity that was asked for, and whose certificate was found in order; one that returns
  -- false leaves neither a session nor a descriptor.
  pub connect_to-ConnectSecured :
      (target : Sockaddr) (identity : List ℕ) (g : Stage X)
      → is_strict g.tls.verify_mode ≡ true
      → let (ok, g') = connect_to os lib target identity g in ConnectSecured identity ok g'
  connect_to-ConnectSecured target identity g strict =
      let out = connect_to os lib target identity g in
      by_result identity out.0 out.1 (connect_to-IsSecured target identity g strict)
        (connect_to-EndedIfFailed os lib target identity g)
