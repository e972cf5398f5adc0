-- ===== src/Tls/Stream.antt =====
-- Reading and writing through a TLS session, and what the poller asks of it
-- (src/ssl_event_socket.cpp).
use libaeon.Prelude.{
  ℕ, ◌+◌, ◌*◌, Bool, true, false, not, ◌||◌, ◌&&◌, Option, List, [], ℤ, is_some, is_positive,
  is_nonpos, to_ℕ, length, take, ◌==◌, ltb, if◌then◌else◌,
}
use libaeon.Errors.{err_none, socket_error}
use libaeon.Platform.{Platform}
use libaeon.Socket.Transfer.{bytes_of, overwrite}
use libaeon.WriteQueue.{queued_bytes, Transport}
use libaeon.EventSocket.{Env}
use libaeon.Tls.{
  TlsLibrary, TlsSocket, TlsMethod, wants_more, is_want_read, is_want_write, is_zero_return,
  bytes_hash, set_error, set_errno, ssl_error_io, ns_per_ms,
}
use libaeon.Platform.{Readiness}
use libaeon.Tls.Session.{shutdown_begun}

-- `set_error(ssl_error_io); set_transport_error(); return -1;`
abbrev pub io_failure : (os : Platform) {X : Type 0} → TlsMethod X ℤ
io_failure os t env = (socket_error, set_error ssl_error_io t, set_errno os.errnos.eproto env)

-- `set_would_block(); return -1;`
abbrev pub would_block : (os : Platform) {X : Type 0} → TlsMethod X ℤ
would_block os t env = (socket_error, t, set_errno os.errnos.ewouldblock env)

-- A write that TLS must see again has been given up or is done.
abbrev pub nothing_pending : TlsSocket → TlsSocket
nothing_pending t = record t {
  pending_write_len = 0;
  pending_write_queued = false;
  pending_write_hash = 0;
  send_need_read = false;
}

-- What SSL_write is given: exactly the bytes that it was given before, if it wants them again.
unfoldable pub requested : ℕ → TlsSocket → ℕ
requested size t = if t.pending_write_len == 0 then size else t.pending_write_len

-- Whether the bytes cannot be those that SSL_write was given before.
unfoldable pub differs : List ℕ → Bool → TlsSocket → Bool
differs data_ queued t =
    ltb (length data_) t.pending_write_len
    || not queued && not (length data_ == t.pending_write_len)
    || not (bytes_hash (take t.pending_write_len data_) == t.pending_write_hash)

abbrev pub same_kind : Bool → Bool → Bool
same_kind true b = b
same_kind false b = not b

module _ (os : Platform) {X : Type 0} (lib : TlsLibrary X) where
  -- The bytes come with the result: none but for a positive one.
  unfoldable pub poll_receive : ℕ → TlsMethod X (ℤ × List ℕ)
  poll_receive size t env =
      let ((result, bytes), x) = lib.ssl_read size env.below in
      let env' = record env { below = x } in
      let code = lib.ssl_get_error result x in
      let closing = record t { peer_notified_close = true } in
      let blocked = would_block os (record t { recv_need_write = is_want_write code }) env' in
      let failed = io_failure os (record t { ssl_failed = true }) env' in
      let closed =
        would_block os
          (if t.shutdown_requested
            then closing
            else shutdown_begun (lib.now x + 5000 * ns_per_ms) closing)
          env' in
      let refused = io_failure os t env in
      if not t.tls_ready || not t.session
      then ((refused.0, []), refused.1, refused.2)
      else if is_positive result
      then ((result, bytes), set_error err_none (record t { recv_need_write = false }), env')
      else if is_zero_return code
      then ((closed.0, []), closed.1, closed.2)
      else if wants_more code
      then ((blocked.0, []), blocked.1, blocked.2)
      else ((failed.0, []), failed.1, failed.2)

  -- `send_tls`, from SSL_write on
  unfoldable pub write_record : List ℕ → Bool → TlsMethod X ℤ
  write_record bytes queued t env =
      let (result, x) = lib.ssl_write bytes env.below in
      let env' = record env { below = x } in
      let code = lib.ssl_get_error result x in
      let waiting = record t { send_need_read = is_want_read code } in
      if is_positive result
      then (result, set_error err_none (nothing_pending t), env')
      else if wants_more code
      then would_block os
          (if t.pending_write_len == 0
            then record waiting {
              pending_write_len = length bytes;
              pending_write_queued = queued;
              pending_write_hash = bytes_hash bytes;
            }
            else waiting)
          env'
      else io_failure os (record (nothing_pending t) { ssl_failed = true }) env'

  unfoldable pub send_tls : List ℕ → Bool → TlsMethod X ℤ
  send_tls data_ queued t env =
      let sent = write_record (take (requested (length data_) t) data_) queued t env in
      if not t.tls_ready || not t.session || length data_ == 0 || t.shutdown_requested && not queued
      then io_failure os t env
      else if not queued && t.pending_write_len == 0 && not (queued_bytes t.event.out == 0)
      then would_block os t env
      else if t.pending_write_len == 0
      then sent
      else if not (same_kind queued t.pending_write_queued)
      then would_block os t env
      else if differs data_ queued t
      then io_failure os t env
      else sent

  -- The transport of the queue: `poll_send_queued`.
  abbrev pub tls_transport : Transport (TlsSocket × Env X)
  tls_transport = record {
    poll_send_queued =
        λ bytes (t, env). let (sent, t', env') = send_tls bytes true t env in (sent, (t', env'));
    errno = λ (t, env). env.world.errno;
    get_error = λ (t, env). t.event.base.error_code;
    poll_error_terminal = true;
  }

  unfoldable pub poll_has_buffered_input : TlsSocket → Env X → Bool
  poll_has_buffered_input t env =
      t.tls_ready && t.session && is_positive (lib.ssl_pending env.below)

  -- `read(char* buffer, int size)`
  unfoldable pub read : Option (List ℕ) → ℤ → TlsMethod X (ℤ × List ℕ)
  read buffer size t env =
      let refused = io_failure os t env in
      let (r, t', env') = poll_receive (to_ℕ size) t env in
      if not (is_some buffer) || is_nonpos size || not t.tls_ready
      then ((refused.0, bytes_of buffer), refused.1, refused.2)
      else (
        (r.0, overwrite r.1 (bytes_of buffer)),
        record t' { event = record t'.event { base = record t'.event.base { n = r.0 } } },
        env',
      )

unfoldable pub poll_wants_write : TlsSocket → Bool
poll_wants_write t =
    if not t.tls_ready
    then t.need_write
    else if t.shutdown_requested && queued_bytes t.event.out == 0
    then t.shutdown_need_write || not t.shutdown_notify_sent && not t.shutdown_need_read
    else t.recv_need_write
      || not t.send_need_read
        && not (not (t.pending_write_len == 0) && not t.pending_write_queued)
        && not (queued_bytes t.event.out == 0)

abbrev pub poll_accepts_queued_write : TlsSocket → Bool
poll_accepts_queued_write t = not t.shutdown_requested

unfoldable pub poll_read_ready : Readiness → TlsSocket → Bool
poll_read_ready r t =
    not t.send_need_read && (r.pollin || r.pollhup) || t.recv_need_write && r.pollout

unfoldable pub poll_queue_ready : Readiness → TlsSocket → Bool
poll_queue_ready r t =
    if not (t.pending_write_len == 0) && not t.pending_write_queued
    then false
    else not (queued_bytes t.event.out == 0) && (if t.send_need_read then r.pollin else r.pollout)
