-- ===== src/Tls/Step.antt =====
-- `poll_step` (src/ssl_event_socket.cpp): the handshake, the checks before application data, and the
-- orderly shutdown of a TLS session.
use libaeon.Prelude.{
  ℕ, ◌+◌, ◌-◌, Bool, true, false, not, ◌||◌, ◌&&◌, ℤ, pos, negsuc, ◌==ℤ◌, ◌==◌, leb, if◌then◌else◌,
}
use Prim.Native.Nat.{◌/◌}
use libaeon.Errors.{err_none, socket_error}
use libaeon.Platform.{Platform}
use libaeon.Socket.{is_valid_socket}
use libaeon.WriteQueue.{queued_bytes}
use libaeon.EventSocket.{Env, Event, fire}
use libaeon.Tls.{
  TlsLibrary, TlsSocket, TlsMethod, wants_more, is_want_read, is_want_write, is_strict, set_error,
  set_errno, ssl_error_init, ssl_error_io, ssl_error_cert, ssl_error_handshake, ns_per_ms,
}
use libaeon.Platform.{Readiness}

module _ (os : Platform) {X : Type 0} (lib : TlsLibrary X) where
  -- `set_error(code); return -1;`
  abbrev pub broken : ℤ → TlsMethod X ℤ
  broken code t env = (socket_error, set_error code t, env)

  -- A client that verifies the server found its certificate wanting.
  abbrev pub unverified : TlsSocket → X → Bool
  unverified t x = not t.server_side && is_strict t.verify_mode && not (lib.verify_ok x)

  -- The step of a handshake.
  unfoldable pub handshake_step : TlsMethod X ℤ
  handshake_step t env =
      let (result, x) = lib.ssl_do_handshake env.below in
      let env' = record env { below = x } in
      let reason = lib.ssl_get_error result x in
      if result ==ℤ pos 1
      then (if unverified t x then broken ssl_error_cert t env' else (
        pos 2,
        set_error err_none (record t { tls_ready = true; need_write = false }),
        fire Event.on_connect env',
      ))
      else if is_want_read reason
      then (pos 0, record t { need_write = false }, env')
      else if is_want_write reason
      then (pos 0, record t { need_write = true }, env')
      else if unverified t x
      then broken ssl_error_cert t env'
      else broken ssl_error_handshake t env'

  -- The call of SSL_shutdown in an orderly shutdown.
  unfoldable pub shutdown_step : Readiness → TlsMethod X ℤ
  shutdown_step r t env =
      let (done, x) = lib.ssl_shutdown env.below in
      let env' = record env { below = x } in
      let reason = lib.ssl_get_error done x in
      if done ==ℤ pos 1
      then (pos 3, t, env')
      else if done ==ℤ pos 0
      then (
        pos 0,
        record t {
          shutdown_notify_sent = true;
          shutdown_need_write = false;
          shutdown_need_read = true;
        },
        env',
      )
      else if wants_more reason
      then (
        (if t.peer_notified_close && lib.sent_shutdown x && r.pollhup then pos 3 else pos 0),
        record t {
          shutdown_notify_sent = lib.sent_shutdown x;
          shutdown_need_write = is_want_write reason;
          shutdown_need_read = is_want_read reason;
        },
        env',
      )
      else if t.peer_notified_close
      then (pos 3, t, env')
      else broken ssl_error_io (record t { ssl_failed = true }) env'

  -- Whether an orderly shutdown waits for a readiness that is not there.
  abbrev pub shutdown_waits : Readiness → TlsSocket → Bool
  shutdown_waits r t =
      t.shutdown_need_read && not (r.pollin || r.pollhup)
      || t.shutdown_need_write && not r.pollout
      || not t.shutdown_need_read
        && not t.shutdown_need_write
        && t.shutdown_notify_sent
        && not r.pollin
      || not t.shutdown_need_read
        && not t.shutdown_need_write
        && not t.shutdown_notify_sent
        && not r.pollout

  unfoldable pub ready_step : Readiness → TlsMethod X ℤ
  ready_step r t env =
      let step = shutdown_step r t env in
      if not t.shutdown_requested
      then (if r.pollerr || r.pollnval
          then broken ssl_error_io (record t { ssl_failed = true }) env
          else (pos 1, t, env))
      else if leb t.shutdown_deadline (lib.now env.below)
      then broken ssl_error_io t (set_errno os.errnos.etimedout env)
      else if r.pollerr || r.pollnval
      then (if t.peer_notified_close
          then (pos 3, t, env)
          else broken ssl_error_io (record t { ssl_failed = true }) env)
      else if t.peer_notified_close && r.pollhup
      then (pos 3, t, env)
      else if not (queued_bytes t.event.out == 0)
      then (pos 1, t, env)
      else if shutdown_waits r t
      then (pos 0, t, env)
      else step

  -- `poll_step(short flags)`: 1 lets application data pass, 0 waits, 2 has completed the handshake,
  -- 3 asks the poller to close in order, and -1 is an error.
  unfoldable pub poll_step : Readiness → TlsMethod X ℤ
  poll_step r t env =
      let handshake = handshake_step t env in
      let ready = ready_step r t env in
      if t.session && not t.tls_ready && leb t.handshake_deadline (lib.now env.below)
      then broken ssl_error_handshake t env
      else if not t.session
      then broken ssl_error_init t env
      else if t.tls_ready
      then ready
      else if r.pollerr || r.pollnval || r.pollhup
      then broken ssl_error_handshake t env
      else if t.need_write && not r.pollout || not t.need_write && not (r.pollin || r.pollhup)
      then (pos 0, t, env)
      else handshake

  -- Milliseconds to a deadline, rounded up beyond it.
  abbrev due_in : ℕ → X → ℤ
  due_in deadline x =
      if leb deadline (lib.now x) then pos 0 else pos ((deadline - lib.now x) / ns_per_ms + 1)

  unfoldable pub poll_timeout_ms : TlsSocket → Env X → ℤ
  poll_timeout_ms t env =
      if not t.session || not (is_valid_socket t.event.base)
      then negsuc 0
      else if t.tls_ready && t.shutdown_requested
      then due_in t.shutdown_deadline env.below
      else if t.tls_ready
      then negsuc 0
      else due_in t.handshake_deadline env.below
