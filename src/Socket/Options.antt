-- ===== src/Socket/Options.antt =====
-- Configuration of a socket (src/socket.cpp): blocking mode, time limits and socket options.
use libaeon.Prelude.{ℕ, Bool, not, ℤ, pos, is_neg, is_zero, if◌then◌else◌}
use libaeon.Errors.{err_none, err_no_socket, err_invalid_argument, socket_error, state_create}
use libaeon.Platform.{Platform, Syscall, Sockopt}
use libaeon.Socket.{
  Socket, Method, pure, ◌>>=◌, ◌>>◌, self, modify, is_valid_socket, set_error, fail, syscall,
  last_error,
}

-- `if (timeout_ms < 0) …`, the common body of the three setters of time limits
abbrev set_timeout : (Socket → Socket) → ℤ → Method ℤ
set_timeout store ms =
    if is_neg ms
    then set_error err_invalid_argument >> pure socket_error
    else modify store >> set_error err_none >> pure (pos 0)

unfoldable pub set_read_timeout : ℤ → Method ℤ
set_read_timeout ms = set_timeout (λ s. record s { read_timeout_ms = ms }) ms

unfoldable pub set_write_timeout : ℤ → Method ℤ
set_write_timeout ms = set_timeout (λ s. record s { write_timeout_ms = ms }) ms

unfoldable pub set_connect_timeout : ℤ → Method ℤ
set_connect_timeout ms = set_timeout (λ s. record s { connect_timeout_ms = ms }) ms

module _ (os : Platform) where
  unfoldable pub set_socket_nonblocking : Bool → Method ℤ
  set_socket_nonblocking nonblocking = do
    s ← self
    if not (is_valid_socket s) then set_error err_no_socket >> pure socket_error else do
      flags ← syscall os (Syscall.fcntl_getfl s.sockfd)
      if is_neg flags.value then pure socket_error else do
        r ← syscall os (Syscall.fcntl_setfl s.sockfd flags.value nonblocking)
        if is_zero r.value
            then pure (pos 0)
            else do code ← last_error os; set_error code; pure socket_error

  unfoldable pub set_blocking : Bool → Method ℤ
  unfolding set_socket_nonblocking
  set_blocking flag = do
    s ← self
    if not (is_valid_socket s) then fail err_no_socket state_create socket_error else do
      result ← set_socket_nonblocking (not flag)
      if is_zero result
          then (do modify (λ s. record s { blocking = flag }); set_error err_none; pure (pos 0))
          else do code ← last_error os; fail code state_create socket_error

  -- The body that the setters of socket options share.
  unfoldable pub set_option : Sockopt → ℕ → Method ℤ
  set_option option value = do
    s ← self
    if not (is_valid_socket s) then fail err_no_socket state_create socket_error else do
      r ← syscall os (Syscall.setsockopt s.sockfd option value)
      if is_neg r.value
          then (do code ← last_error os; fail code state_create socket_error)
          else (set_error err_none >> pure (pos 0))

  unfoldable pub set_tcp_nodelay : Bool → Method ℤ
  unfolding set_option
  set_tcp_nodelay enabled = set_option Sockopt.tcp_nodelay (if enabled then 1 else 0)

  unfoldable pub set_so_reuseaddr : Bool → Method ℤ
  unfolding set_option
  set_so_reuseaddr enabled = set_option Sockopt.so_reuseaddr (if enabled then 1 else 0)

  -- `l_onoff` is on exactly if `l_linger` is positive, so the option is given by its time.
  unfoldable pub set_so_linger : ℕ → Method ℤ
  unfolding set_option
  set_so_linger linger_time_sec = set_option Sockopt.so_linger linger_time_sec

  unfoldable pub set_ipv6_v6only : Bool → Method ℤ
  unfolding set_option
  set_ipv6_v6only enabled = set_option Sockopt.ipv6_v6only (if enabled then 1 else 0)

  -- The shortcuts ignore what `setsockopt` returns.
  unfoldable pub set_quietly : Sockopt → ℕ → Method (Unit {0})
  set_quietly option value = do
    s ← self
    if not (is_valid_socket s)
        then pure tt
        else do syscall os (Syscall.setsockopt s.sockfd option value); pure tt

  unfoldable pub set_socket_reuseaddr : Method (Unit {0})
  unfolding set_quietly
  set_socket_reuseaddr = set_quietly Sockopt.so_reuseaddr 1

  unfoldable pub set_socket_tcp_nodelay : Method (Unit {0})
  unfolding set_quietly
  set_socket_tcp_nodelay = set_quietly Sockopt.tcp_nodelay 1

  unfoldable pub set_socket_linger : ℕ → Method (Unit {0})
  unfolding set_quietly
  set_socket_linger linger_sec = set_quietly Sockopt.so_linger linger_sec
