-- ===== src/Ssl/Setup.antt =====
-- Setting up a TLS session and its handshakes (src/ssl_socket.cpp).
use libaeon.Prelude.{
  ℕ, ◌==◌, ◌&&◌, ◌||◌, not, Bool, true, false, Option, none, some, List, ℤ, pos, ◌==ℤ◌, is_some,
  length, if◌then◌else◌,
}
use libaeon.Errors.{err_none, err_no_socket}
use libaeon.Platform.{Platform, Family}
use libaeon.Socket.{is_valid_socket}
use libaeon.Tls.{
  VerifyMode, is_strict, ssl_error, ssl_error_init, ssl_error_cert, ssl_error_handshake,
}
use libaeon.Ssl.{
  OpenSsl, SslFailure, Action, pure, ◌>>=◌, ◌>>◌, this, change, call, effect, query, set_error,
  fail, clear_ssl_errors, ssl_error_key,
}

-- `std::string::empty`
abbrev pub is_empty : List ℕ → Bool
is_empty text = length text == 0

abbrev pub is_syscall_error : SslFailure → Bool
is_syscall_error SslFailure.syscall_error = true
is_syscall_error _ = false

module _ (os : Platform) where
  -- `numeric_ip`
  abbrev pub numeric_ip : List ℕ → Bool
  numeric_ip name =
      is_some (os.inet_pton Family.ipv4 name) || is_some (os.inet_pton Family.ipv6 name)

module _ (os : Platform) {X : Type 0} (lib : OpenSsl X) where
  -- `setup_ssl`, the certificate and the private key
  unfoldable pub load_credentials : Action X ℤ
  load_credentials = do
    t ← this
    certified ←
        (if is_empty t.cert_file
          then pure true
          else call (lib.ssl_ctx_use_certificate_file t.cert_file))
    if not certified then fail ssl_error_cert else do
      keyed ←
          (if is_empty t.key_file
            then pure true
            else call (lib.ssl_ctx_use_private_key_file t.key_file))
      if not keyed then fail ssl_error_key else pure err_none

  -- `setup_ssl`, the identity that the certificate must match
  unfoldable pub require_identity : List ℕ → Action X Bool
  require_identity identity = if numeric_ip os identity then call (lib.set1_ip_asc identity) else do
    ok ← call (lib.set1_host identity)
    if ok then call (lib.set_tlsext_host_name identity) else pure false

  -- `setup_ssl`, strict verification
  unfoldable pub verify_strictly : List ℕ → Action X ℤ
  verify_strictly identity = do
    t ← this
    if is_empty identity then fail ssl_error_cert else do
      effect (lib.ssl_set_verify true t.allow_self_signed)
      effect lib.set_hostflags
      ok ← require_identity identity
      if ok then pure err_none else fail ssl_error_cert

  -- `setup_ssl`, without verification
  unfoldable pub verify_nothing : List ℕ → Action X ℤ
  verify_nothing identity = do
    effect (lib.ssl_set_verify false false)
    if is_empty identity || numeric_ip os identity then pure err_none else do
      named ← call (lib.set_tlsext_host_name identity)
      if named then pure err_none else fail ssl_error_init

  -- `setup_ssl`, once the session is attached to the descriptor
  unfoldable pub configure_session : List ℕ → Action X ℤ
  configure_session identity = do
    loaded ← load_credentials
    if not (loaded ==ℤ err_none) then pure loaded else do
      t ← this
      if is_strict t.verify_mode then verify_strictly identity else verify_nothing identity

  -- `SSL_free(ssl); ssl = nullptr;`
  unfoldable pub free_session : Action X (Unit {0})
  free_session = effect lib.ssl_free >> change (λ t. record t { session = false })

  -- `setup_ssl`, once no session is left
  unfoldable pub new_session : List ℕ → Action X ℤ
  new_session identity = do
    clear_ssl_errors lib
    made ← call lib.ssl_new
    if not made then fail ssl_error_init else do
      change (λ t. record t { session = true })
      t ← this
      attached ← call (lib.ssl_set_fd t.base.sockfd)
      if attached
          then configure_session identity
          else (set_error ssl_error_init >> free_session) >> pure ssl_error_init

  -- `setup_ssl`
  unfoldable pub setup_ssl : List ℕ → Action X ℤ
  setup_ssl identity = do
    t ← this
    if not t.ctx
        then fail ssl_error_init
        else do if t.session then free_session else pure tt; new_session identity

  -- `perform_handshake`, after SSL_connect
  unfoldable pub judge_handshake : ℤ → Action X ℤ
  judge_handshake result = do
    t ← this
    reason ← query (lib.ssl_get_error result)
    verified ← query lib.verify_ok
    if is_strict t.verify_mode && not verified
        then fail ssl_error_cert
        else if result ==ℤ pos 1
        then pure err_none
        else if is_syscall_error reason
        then fail err_no_socket
        else fail ssl_error_handshake

  -- `perform_handshake`
  unfoldable pub perform_handshake : Action X ℤ
  perform_handshake = do
    t ← this
    if not t.session
        then fail ssl_error_init
        else do clear_ssl_errors lib; result ← call lib.ssl_connect; judge_handshake result

  -- `perform_server_handshake`
  unfoldable pub perform_server_handshake : Action X ℤ
  perform_server_handshake = do
    t ← this
    if not t.ctx || not (is_valid_socket t.base) then fail ssl_error_init else do
      clear_ssl_errors lib
      made ← call lib.ssl_new
      change (λ t. record t { session = made })
      if not made then fail ssl_error_init else do
        attached ← call (lib.ssl_set_fd t.base.sockfd)
        if not attached then fail ssl_error_init else do
          effect lib.ssl_set_accept_state
          result ← call lib.ssl_accept
          if result ==ℤ pos 1 then fail err_none else fail ssl_error_handshake

  -- `set_certificate_file`, `set_private_key_file`; the path may be a null pointer.
  unfoldable pub set_certificate_file : Option (List ℕ) → Action X ℤ
  set_certificate_file none = fail ssl_error
  set_certificate_file (some path) = change (λ t. record t { cert_file = path }) >> pure err_none

  unfoldable pub set_private_key_file : Option (List ℕ) → Action X ℤ
  set_private_key_file none = fail ssl_error
  set_private_key_file (some path) = change (λ t. record t { key_file = path }) >> pure err_none

  unfoldable pub set_ca_file : Option (List ℕ) → Action X ℤ
  set_ca_file none = fail ssl_error
  set_ca_file (some path) = do
    t ← this
    if not t.ctx then fail ssl_error_init else do
      loaded ← call (lib.ssl_ctx_load_verify_locations path)
      if loaded then pure err_none else fail ssl_error_cert

  unfoldable pub set_peer_verification : VerifyMode → Action X ℤ
  set_peer_verification mode = change (λ t. record t { verify_mode = mode }) >> pure err_none

  unfoldable pub set_allow_self_signed : Bool → Action X ℤ
  set_allow_self_signed allow =
      change (λ t. record t { allow_self_signed = allow }) >> pure err_none
