-- ===== src/Tls/Session.antt =====
-- The begin and the end of a TLS session (src/ssl_event_socket.cpp).
use libaeon.Prelude.{
  ℕ, ◌+◌, ◌*◌, Bool, true, false, not, ◌||◌, ◌&&◌, List, ℤ, is_zero, is_above, is_below, to_ℕ, ◌==◌,
  if◌then◌else◌,
}
use libaeon.Errors.{err_none}
use libaeon.Platform.{Platform}
use libaeon.Socket.{is_valid_socket}
use libaeon.Socket.Options.{set_blocking}
use libaeon.EventSocket.{EventSocket, Env}
use libaeon.EventSocket
use libaeon.Tls.{
  TlsLibrary, TlsSocket, TlsMethod, set_error, ssl_error, ssl_error_init, ssl_error_cert,
  ssl_error_io, is_strict, ns_per_ms,
}

-- The members as `close` leaves them.
abbrev pub session_ended : TlsSocket → TlsSocket
session_ended t = record t {
  session = false;
  tls_ready = false;
  pending_write_len = 0;
  pending_write_queued = false;
  pending_write_hash = 0;
  ssl_failed = false;
  peer_notified_close = false;
  shutdown_requested = false;
  shutdown_notify_sent = false;
  shutdown_need_write = false;
  shutdown_need_read = false;
  need_write = false;
  send_need_read = false;
  recv_need_write = false;
}

-- The members as `init_session` sets them for a new session.
abbrev pub session_begun : Bool → ℕ → TlsSocket → TlsSocket
session_begun server now t = record t {
  session = true;
  tls_ready = false;
  need_write = not server;
  send_need_read = false;
  recv_need_write = false;
  pending_write_len = 0;
  pending_write_queued = false;
  pending_write_hash = 0;
  ssl_failed = false;
  peer_notified_close = false;
  shutdown_requested = false;
  shutdown_notify_sent = false;
  shutdown_need_write = false;
  shutdown_need_read = false;
  handshake_deadline = now + t.handshake_timeout_ms * ns_per_ms;
}

-- Without a ready session that is to be shut down: what `shutdown_requested_` begins with.
abbrev pub shutdown_begun : ℕ → TlsSocket → TlsSocket
shutdown_begun deadline t = record t {
  shutdown_requested = true;
  shutdown_notify_sent = false;
  shutdown_need_write = false;
  shutdown_need_read = false;
  shutdown_deadline = deadline;
}

module _ (os : Platform) {X : Type 0} (lib : TlsLibrary X) where
  unfoldable pub init_session : Bool → TlsMethod X Bool
  init_session server t env =
      let (made, x) = lib.ssl_new server env.below in
      let env' = record env { below = x } in
      if not t.ctx || not (is_valid_socket t.event.base)
      then (false, t, env)
      else if not (made.0 && made.1)
      then (false, record t { session = made.0 }, env')
      else (true, session_begun server (lib.now x) t, env')

  unfoldable pub close : TlsMethod X Bool
  close t env =
      let tell =
        t.session
        && t.tls_ready
        && not t.ssl_failed
        && not t.peer_notified_close
        && not t.shutdown_notify_sent
        && is_valid_socket t.event.base in
      let env' = if tell then record env { below = (lib.ssl_shutdown env.below).1 } else env in
      let (closed, event', env'') = EventSocket.close os t.event env' in
      (closed, record (session_ended t) { event = event' }, env'')

  -- `set_error(code); (void)close(); return false;`
  abbrev pub give_up : ℤ → TlsMethod X Bool
  give_up code t env = let (_, t', env') = close (set_error code t) env in (false, t', env')

  -- `set_blocking` of the base, over the world of the process
  abbrev pub base_blocking : Bool → TlsMethod X ℤ
  base_blocking flag t env =
      let (result, s, w) = set_blocking os flag t.event.base env.world in
      (result, record t { event = record t.event { base = s } }, record env { world = w })

  -- `start_client`, from the configuration of the verification on
  unfoldable pub configure_client : List ℕ → TlsMethod X Bool
  configure_client identity t env =
      let (verified, x) =
        lib.set_verification (is_strict t.verify_mode) t.allow_self_signed
          (lib.is_numeric_ip identity) identity env.below in
      let (named, x') = lib.set_host_name identity x in
      if is_strict t.verify_mode && not verified
      then give_up ssl_error_cert t (record env { below = x })
      else if lib.is_numeric_ip identity
      then (true, set_error err_none t, record env { below = x })
      else if not named
      then give_up ssl_error_init t (record env { below = x' })
      else (true, set_error err_none t, record env { below = x' })

  unfoldable pub start_client : List ℕ → TlsMethod X Bool
  start_client identity t₀ env =
      let t = record t₀ { expected_identity = identity } in
      let (result, t', env') = base_blocking false t env in
      let (ready, t'', env'') = init_session false t' env' in
      if not (is_valid_socket t.event.base)
      then give_up ssl_error_init t env
      else if not (is_zero result)
      then give_up ssl_error_init t' env'
      else if not ready
      then give_up ssl_error_init t'' env''
      else configure_client identity t'' env''

  unfoldable pub begin_graceful_shutdown : ℤ → TlsMethod X Bool
  begin_graceful_shutdown timeout_ms t env =
      if is_below timeout_ms 100
        || is_above timeout_ms 60000
        || not t.tls_ready
        || not t.session
        || not (is_valid_socket t.event.base)
        || t.ssl_failed
        || t.peer_notified_close
        || not (t.pending_write_len == 0) && not t.pending_write_queued
      then (false, set_error ssl_error_io t, env)
      else if t.shutdown_requested
      then (false, t, env)
      else (
        true,
        set_error err_none (shutdown_begun (lib.now env.below + to_ℕ timeout_ms * ns_per_ms) t),
        env,
      )

  unfoldable pub set_handshake_timeout : ℤ → TlsMethod X ℤ
  set_handshake_timeout milliseconds t env =
      let t' = record t { handshake_timeout_ms = to_ℕ milliseconds } in
      let t'' =
        if t.session && not t.tls_ready
        then record t' { handshake_deadline = lib.now env.below + to_ℕ milliseconds * ns_per_ms }
        else t' in
      if is_below milliseconds 100 || is_above milliseconds 60000
      then (ssl_error, set_error ssl_error t, env)
      else (err_none, set_error err_none t'', env)
