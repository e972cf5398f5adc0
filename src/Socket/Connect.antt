-- ===== src/Socket/Connect.antt =====
-- Connecting (src/socket.cpp): the three overloads of `tcp_connect` and the guard that makes a socket
-- non-blocking for the time of an attempt. `tcp_connect` is the one without arguments.
use libaeon.Prelude.{
  ℕ, Bool, true, false, not, ◌||◌, ◌&&◌, Option, some, List, [], ◌∷◌, ℤ, ◌==ℤ◌, is_zero,
  is_positive, is_some, ◌==◌, if◌then◌else◌, length,
}
use libaeon.Errors.{
  err_none, err_no_socket, err_no_host, err_timeout, state_connect, state_create, state_resolve,
  is_valid_port, translate_native_error,
}
use libaeon.Platform.{Platform, Family, Sockaddr, Syscall, ss_family}
use libaeon.Socket.{
  Method, pure, ◌>>=◌, ◌>>◌, self, modify, is_valid_socket, set_error, fail, syscall, native_error,
  last_error, set_remote_hostname, clear_buffers, close, reopen,
}
use libaeon.Socket.Options.{set_blocking}
use libaeon.Socket.Transfer.{bytes_of, head_or, wait_for_writable}

-- `family == AF_INET || family == AF_INET6`
abbrev pub is_internet : Family → Bool
is_internet Family.ipv4 = true
is_internet Family.ipv6 = true
is_internet _ = false

module _ (os : Platform) where
  -- `error_code = translate_native_error(GET_NET_SOCKET_ERROR()); error_state = state_connect;`
  unfoldable pub connect_failure : Method Bool
  connect_failure = do code ← last_error os; fail code state_connect false

  -- `blocking_mode_guard`, its constructor: whether the guard is valid.
  unfoldable pub enter_guard : Method Bool
  enter_guard = do result ← set_blocking os false; pure (is_zero result)

  -- The destructor of a valid guard.
  unfoldable pub leave_guard : (original_blocking : Bool) → Method (Unit {0})
  leave_guard original_blocking = do
    s ← self
    result ← set_blocking os original_blocking
    if is_zero result && not (s.error_code ==ℤ err_none) then set_error s.error_code else pure tt

  -- The end of an attempt that is in progress.
  unfoldable pub finish_pending : Method Bool
  unfolding wait_for_writable
  finish_pending = do
    s ← self
    ready ← wait_for_writable os s.sockfd s.connect_timeout_ms
    if is_positive ready
        then (do
          r ← syscall os (Syscall.getsockopt_error s.sockfd)
          if not (is_zero r.value)
              then connect_failure
              else if head_or 0 r.bytes == 0
              then pure true
              else fail (translate_native_error os.errnos (head_or 0 r.bytes)) state_connect false)
        else if is_zero ready
        then fail err_timeout state_connect false
        else connect_failure

  abbrev pub is_pending : ℕ → Bool
  is_pending error = error == os.errnos.einprogress || error == os.errnos.ewouldblock

  unfoldable pub attempt_timed : Sockaddr → Method Bool
  attempt_timed target = do
    s ← self
    r ← syscall os (Syscall.connect s.sockfd target)
    error ← native_error os
    if is_zero r.value
        then pure true
        else if is_pending error
        then finish_pending
        else fail (translate_native_error os.errnos error) state_connect false

  unfoldable pub attempt_guarded : Sockaddr → Method Bool
  attempt_guarded target = do
    s ← self
    valid ← enter_guard
    if not valid
        then connect_failure
        else do succeeded ← attempt_timed target; leave_guard s.blocking; pure succeeded

  unfoldable pub attempt_plain : Sockaddr → Method Bool
  attempt_plain target = do
    s ← self
    r ← syscall os (Syscall.connect s.sockfd target)
    if is_zero r.value then pure true else connect_failure

  -- `tcp_connect(const address& addr)`
  unfoldable pub tcp_connect_address : Sockaddr → Method Bool
  tcp_connect_address target =
      if not (is_internet (ss_family target)) then fail err_no_socket state_connect false else do
        reopen os (ss_family target)
        modify (λ s. record s { connected = false })
        s ← self
        if not (is_valid_socket s) then fail err_no_socket state_create false else do
          modify (λ s. record s { net_family = ss_family target })
          succeeded ←
              (if is_positive s.connect_timeout_ms
                then attempt_guarded target
                else attempt_plain target)
          if not succeeded then close os >> pure false else do
            modify (λ s. record s { remote_addr = target; connected = true })
            clear_buffers
            fail err_none 0 true

  -- The loop over the addresses that a name resolves to.
  unfoldable pub connect_first : List Sockaddr → Method Bool
  connect_first [] = pure false
  connect_first (entry ∷ rest) =
      if not (is_internet (ss_family entry))
      then connect_first rest
      else do success ← tcp_connect_address entry; if success then pure true else connect_first rest

  -- `tcp_connect()`
  unfoldable pub tcp_connect : Method Bool
  tcp_connect = do
    s ← self
    if length s.hostname == 0 || not (is_valid_port s.port)
        then fail err_no_host state_resolve false
        else do
          r ← syscall os (Syscall.getaddrinfo s.hostname (some s.port))
          if not (is_zero r.value) then fail err_no_host state_resolve false else do
            success ← connect_first r.found
            modify (λ s. record s { connected = success })
            pure success

  -- `tcp_connect(const char* hostname, int port)`
  unfoldable pub tcp_connect_host : Option (List ℕ) → ℤ → Method Bool
  tcp_connect_host hostname port =
      if not (is_some hostname) || length (bytes_of hostname) == 0 || not (is_valid_port port)
      then fail err_no_socket state_connect false
      else do
        set_remote_hostname (bytes_of hostname)
        modify (λ s. record s { port = port })
        tcp_connect
