-- ===== src/Ssl/Demands.antt =====
-- What a TLS session demands of its peer once it is set up with strict verification
-- (src/ssl_socket.cpp, `setup_ssl`).
use libaeon.Prelude.{ℕ, ◌≡◌, ap, ◌∙◌, Bool, true, false, List, ◌==ℤ◌, arith, Bool-cases, inl, inr}
use libaeon.Errors.{err_none}
use libaeon.Platform.{Platform}
use libaeon.Tls.{is_strict}
use libaeon.Ssl.{OpenSsl, Stage, clear_ssl_errors}
use libaeon.Ssl.Setup.{
  is_empty, numeric_ip, load_credentials, require_identity, verify_strictly, configure_session,
  free_session, new_session, setup_ssl,
}
use libaeon.Ssl.Modes.{load_credentials-KeepsMode}

-- What is relied on of OpenSSL: a session remembers whether it verifies its peer, and which identity the
-- certificate must match.
pub record RemembersIdentity {X : Type 0} (lib : OpenSsl X) : Type 0 where
  pub verifying : X → Bool
  pub expected : X → List ℕ
  pub set_verify_verifying :
      (peer leaf : Bool) (x : X) → verifying (lib.ssl_set_verify peer leaf x) ≡ peer
  pub hostflags_verifying : (x : X) → verifying (lib.set_hostflags x) ≡ verifying x
  pub ip_verifying : (name : List ℕ) (x : X) → verifying (lib.set1_ip_asc name x).1 ≡ verifying x
  pub host_verifying : (name : List ℕ) (x : X) → verifying (lib.set1_host name x).1 ≡ verifying x
  pub name_verifying :
      (name : List ℕ) (x : X) → verifying (lib.set_tlsext_host_name name x).1 ≡ verifying x
  pub error_verifying : (x : X) → verifying (lib.err_get_error x).1 ≡ verifying x
  pub connect_verifying : (x : X) → verifying (lib.ssl_connect x).1 ≡ verifying x
  pub ip_expected :
      (name : List ℕ) (x : X)
      → (lib.set1_ip_asc name x).0 ≡ true
      → expected (lib.set1_ip_asc name x).1 ≡ name
  pub host_expected :
      (name : List ℕ) (x : X)
      → (lib.set1_host name x).0 ≡ true
      → expected (lib.set1_host name x).1 ≡ name
  pub name_expected :
      (name : List ℕ) (x : X) → expected (lib.set_tlsext_host_name name x).1 ≡ expected x
  pub error_expected : (x : X) → expected (lib.err_get_error x).1 ≡ expected x
  pub connect_expected : (x : X) → expected (lib.ssl_connect x).1 ≡ expected x

module _ (os : Platform) {X : Type 0} (lib : OpenSsl X) (law : RemembersIdentity lib) where
  -- The session verifies its peer against the identity.
  abbrev pub Demands : List ℕ → X → Type 0
  Demands identity x = (law.verifying x ≡ true) × (law.expected x ≡ identity)

  require_identity-Demands :
      (identity : List ℕ) (g : Stage X)
      → law.verifying g.below ≡ true
      → let (ok, g') = require_identity os lib identity g in ok ≡ true → Demands identity g'.below
  unfolding require_identity
  require_identity-Demands identity g v = elim (Bool-cases (numeric_ip os identity)) [
    | inl numeric ↦
        rw (numeric, require_identity)
          (λ ok. (law.ip_verifying identity g.below ∙ v, law.ip_expected identity g.below ok))
    | inr named ↦ elim (Bool-cases (lib.set1_host identity g.below).0) [
      | inr refused ↦ rw (named, refused, require_identity) (λ ok. absurd (ground (arith, ok)))
      | inl taken ↦
          rw (named, taken, require_identity)
            (let x = (lib.set1_host identity g.below).1 in
              λ ok. (
                law.name_verifying identity x ∙ law.host_verifying identity g.below ∙ v,
                law.name_expected identity x ∙ law.host_expected identity g.below taken,
              ))
    ]
  ]

  verify_strictly-Demands :
      (identity : List ℕ) (g : Stage X)
      → let (result, g') = verify_strictly os lib identity g in
        (result ==ℤ err_none) ≡ true → Demands identity g'.below
  unfolding verify_strictly
  verify_strictly-Demands identity g = elim (Bool-cases (is_empty identity)) [
    | inl empty ↦ rw (empty, verify_strictly) (λ h. absurd (ground (arith, h)))
    | inr given ↦
        let x = lib.set_hostflags (lib.ssl_set_verify true g.tls.allow_self_signed g.below) in
        let g₁ : Stage X = record g { below = x } in
        let v : law.verifying x ≡ true =
          law.hostflags_verifying _
          ∙ law.set_verify_verifying true g.tls.allow_self_signed g.below in
        elim (Bool-cases (require_identity os lib identity g₁).0) [
          | inr refused ↦ rw (given, refused, verify_strictly) (λ h. absurd (ground (arith, h)))
          | inl ok ↦
              rw (given, ok, verify_strictly) (λ h. require_identity-Demands identity g₁ v ok)
        ]
  ]

  configure_session-Demands :
      (identity : List ℕ) (g : Stage X)
      → is_strict g.tls.verify_mode ≡ true
      → let (result, g') = configure_session os lib identity g in
        (result ==ℤ err_none) ≡ true → Demands identity g'.below
  unfolding configure_session
  configure_session-Demands identity g strict =
      let loaded = load_credentials os lib g in
      elim (Bool-cases (loaded.0 ==ℤ err_none)) [
        | inr failed ↦ rw (failed, configure_session) (λ h. absurd (ground (arith, h, failed)))
        | inl fine ↦
            let mode : is_strict loaded.1.tls.verify_mode ≡ true =
              ap is_strict (load_credentials-KeepsMode os lib g) ∙ strict in
            rw (fine, mode, configure_session) (verify_strictly-Demands identity loaded.1)
      ]

  new_session-Demands :
      (identity : List ℕ) (g : Stage X)
      → is_strict g.tls.verify_mode ≡ true
      → let (result, g') = new_session os lib identity g in
        (result ==ℤ err_none) ≡ true → Demands identity g'.below
  unfolding new_session clear_ssl_errors configure_session free_session
  new_session-Demands identity g strict =
      let g₀ = (clear_ssl_errors lib g).1 in
      let made = lib.ssl_new g₀.below in
      let g₁ : Stage X = record g₀ { below = made.1; tls = record (g.tls) { session = true } } in
      let attached = lib.ssl_set_fd g.tls.base.sockfd made.1 in
      elim (Bool-cases made.0) [
        | inr failed ↦ rw (failed, new_session) (λ h. absurd (ground (arith, h)))
        | inl created ↦ elim (Bool-cases attached.0) [
          | inr failed ↦ rw (created, failed, new_session) (λ h. absurd (ground (arith, h)))
          | inl ready ↦
              rw (created, ready, new_session)
                (configure_session-Demands identity (record g₁ { below = attached.1 }) strict)
        ]
      ]

  pub setup_ssl-Demands :
      (identity : List ℕ) (g : Stage X)
      → is_strict g.tls.verify_mode ≡ true
      → let (result, g') = setup_ssl os lib identity g in
        (result ==ℤ err_none) ≡ true → Demands identity g'.below
  unfolding setup_ssl free_session
  setup_ssl-Demands identity g strict = elim (Bool-cases g.tls.ctx) [
    | inr bare ↦ rw (bare, setup_ssl) (λ h. absurd (ground (arith, h)))
    | inl made ↦ elim (Bool-cases g.tls.session) [
      | inl old ↦
          rw (made, old, setup_ssl)
            (new_session-Demands identity
              (record g {
                below = lib.ssl_free g.below;
                tls = record (g.tls) { ctx = true; session = false };
              })
              strict)
      | inr none_ ↦
          rw (made, none_, setup_ssl)
            (new_session-Demands identity
              (record g { tls = record (g.tls) { ctx = true; session = false } }) strict)
    ]
  ]
