-- ===== src/Poll/Dispatch.antt =====
-- The part of a round that one watched socket gets (src/event_socket_set.cpp, the last loop of `poll`).
use libaeon.Prelude.{
  ℕ, ◌+◌, Bool, false, not, ◌&&◌, ◌||◌, List, ℤ, pos, ◌==◌, ◌==ℤ◌, is_neg, is_zero, is_positive,
  if◌then◌else◌,
}
use libaeon.Errors.{
  socket_error, err_no_socket, err_system, translate_native_error, would_block_error,
}
use libaeon.Platform.{Readiness, Sockaddr}
use libaeon.WriteQueue.{FlushResult}
use libaeon.Socket.{max_buffer_size}
use libaeon.Poll.{
  Host, Watch, Report, Audience, Act, Poller, pure, ◌>>=◌, ◌>>◌, check_active, ask, touch, update,
  native, native_error,
}

abbrev pub send_budget : ℕ
send_budget = 65536

-- A Boolean as the `int` that `++handled` makes of it.
abbrev pub count : Bool → ℕ
count b = if b then 1 else 0

module _ {S : Type 0} (host : Host S) (w : Watch) where
  -- `s && s->is_valid_socket() && s->sockfd == watch.fd`
  unfoldable pub check_current : Poller S Bool
  check_current = do
    active ← check_active host w
    if not active then pure false else do
      valid ← ask host w host.is_valid_socket
      fd ← ask host w host.sockfd
      pure (valid && fd ==ℤ w.fd)

  -- `get_if_active() && s->is_valid_socket()`
  unfoldable pub check_valid : Poller S Bool
  check_valid = do
    active ← check_active host w
    if not active then pure false else ask host w host.is_valid_socket

  abbrev pub tell : Audience → Report → Poller S (Unit {0})
  tell audience report =
      update host w (Act.tells audience report) (λ ref. host.fire audience ref report)

  -- `if (get_if_active()) fire_on_socket_…`
  unfoldable pub tell_set : Report → Poller S (Unit {0})
  tell_set report = do
    active ← check_active host w
    if active then tell Audience.set_handler report else pure tt

  -- `s->fire_on_…; if (get_if_active()) fire_on_socket_…`
  unfoldable pub tell_both : Report → Poller S (Unit {0})
  unfolding tell_set
  tell_both report = tell Audience.own_handler report >> tell_set report

  -- `s->set_error(code); s->n = NET_SOCKET_ERROR;` and the handlers
  unfoldable pub report_error : ℤ → Poller S (Unit {0})
  unfolding tell_both
  report_error code = do
    update host w Act.stores (λ ref s. host.set_n socket_error ref (host.set_error code ref s))
    tell_both (Report.failed code)

  -- `socket_pending_error`
  unfoldable pub socket_pending_error : Poller S ℤ
  socket_pending_error = do
    (status, code) ← native host (host.pending_error w.fd)
    error ← native_error host
    pure (
        if not (is_zero status)
        then translate_native_error host.codes error
        else if code == 0
        then err_system
        else translate_native_error host.codes code)

  -- `(flags & POLLNVAL) ? err_no_socket : socket_pending_error(watch.fd)`, and its report
  unfoldable pub report_flags : Readiness → Poller S (Unit {0})
  report_flags flags = do
    err ← (if flags.pollnval then pure err_no_socket else socket_pending_error)
    report_error err

  unfoldable pub dispatch_listener : Readiness → Poller S ℕ
  dispatch_listener flags =
      if flags.pollin
      then tell Audience.set_handler Report.listening >> pure 1
      else if flags.pollerr || flags.pollnval || flags.pollhup
      then report_flags flags >> pure 1
      else pure 0

  -- A step that failed: `progress < 0`.
  unfoldable pub dispatch_broken : Poller S ℕ
  dispatch_broken = do
    err ← ask host w host.get_error
    update host w Act.stores (host.set_n socket_error)
    tell_both (Report.failed err)
    valid ← check_valid
    if valid then update host w Act.closes host.close >> pure 1 else pure 1

  -- `progress == 3`
  unfoldable pub dispatch_end : Poller S ℕ
  dispatch_end = do update host w Act.closes host.close; tell_set Report.closed; pure 1

  -- `progress == 2`
  unfoldable pub dispatch_connected : Poller S ℕ
  dispatch_connected = do
    current ← check_current
    if current then tell Audience.set_handler Report.connected >> pure 1 else pure 1

  -- `poll_error_terminal()` closes the socket if it is still the watched one.
  unfoldable pub close_terminal : Poller S (Unit {0})
  close_terminal = do
    current ← check_current
    if not current then pure tt else do
      terminal ← ask host w host.poll_error_terminal
      if terminal then update host w Act.closes host.close else pure tt

  -- A receive that failed with a native error.
  unfoldable pub dispatch_read_error : ℕ → Poller S ℕ
  dispatch_read_error err = if would_block_error host.codes err then pure 0 else do
    terminal ← ask host w host.poll_error_terminal
    stored ← ask host w host.get_error
    report_error (
        if terminal && is_neg stored && not (stored ==ℤ socket_error)
        then stored
        else translate_native_error host.codes err)
    close_terminal
    pure 1

  -- What `poll_receive` has returned.
  unfoldable pub dispatch_received : ℤ → List ℕ → Poller S ℕ
  dispatch_received bytes buffer =
      if is_positive bytes
      then (do
        update host w Act.stores (host.set_n bytes)
        tell_both (Report.data_received buffer)
        pure 1)
      else if is_zero bytes
      then dispatch_end
      else (do err ← native_error host; dispatch_read_error err)

  unfoldable pub dispatch_read : Readiness → Poller S ℕ
  dispatch_read flags = do
    readable ← ask host w (host.poll_read_ready flags)
    if readable
        then (do
          (bytes, buffer) ← touch host w Act.receives (host.poll_receive max_buffer_size)
          dispatch_received bytes buffer)
        else if flags.pollerr || flags.pollnval
        then report_flags flags >> pure 1
        else pure 0

  -- What `flush_queued` has returned.
  unfoldable pub dispatch_flushed : FlushResult → Poller S ℕ
  dispatch_flushed flushed =
      let handled =
        count (not (flushed.bytes == 0) || flushed.drained || not (flushed.error ==ℤ pos 0)) in
      if not (flushed.error ==ℤ pos 0)
      then (report_error flushed.error >> close_terminal) >> pure handled
      else if flushed.drained
      then tell_both Report.drained >> pure handled
      else pure handled

  unfoldable pub dispatch_queue : Readiness → Poller S ℕ
  dispatch_queue flags = do
    current ← check_current
    if not current then pure 0 else do
      writable ← ask host w (host.poll_queue_ready flags)
      if not writable then pure 0 else do
        flushed ← touch host w Act.flushes (host.flush_queued send_budget)
        dispatch_flushed flushed

  -- Application data: what can be read, then what can be written.
  unfoldable pub dispatch_data : Readiness → Poller S ℕ
  dispatch_data flags = do
    received ← dispatch_read flags
    sent ← dispatch_queue flags
    pure (received + sent)

  unfoldable pub dispatch_progress : ℤ → Readiness → Poller S ℕ
  dispatch_progress progress flags =
      if is_neg progress
      then dispatch_broken
      else if is_zero progress
      then pure 1
      else if progress ==ℤ pos 3
      then dispatch_end
      else if progress ==ℤ pos 2
      then dispatch_connected
      else dispatch_data flags

  unfoldable pub dispatch_tcp : Readiness → Poller S ℕ
  dispatch_tcp flags = do
    current ← check_current
    if not current
        then pure 0
        else if host.is_listener w.entry.socket_ref
        then dispatch_listener flags
        else (do
          progress ← touch host w Act.steps (host.poll_step flags)
          dispatch_progress progress flags)

  -- A datagram, which may be empty, or a receive that failed.
  unfoldable pub dispatch_datagram : ℤ → List ℕ → Sockaddr → Poller S ℕ
  dispatch_datagram bytes buffer peer =
      if is_neg bytes
      then (do
        err ← native_error host
        if would_block_error host.codes err
            then pure 0
            else (report_error (translate_native_error host.codes err) >> pure 1))
      else (do
        update host w Act.stores (λ ref s. host.set_remote_addr peer ref (host.set_n bytes ref s))
        tell_both (Report.datagram buffer peer)
        pure 1)

  unfoldable pub dispatch_udp : Readiness → Poller S ℕ
  dispatch_udp flags = do
    current ← check_current
    if not current
        then pure 0
        else if flags.pollin
        then (do
          (bytes, buffer, peer) ← native host (host.recv_from w.fd max_buffer_size)
          dispatch_datagram bytes buffer peer)
        else if flags.pollerr || flags.pollnval
        then report_flags flags >> pure 1
        else pure 0
