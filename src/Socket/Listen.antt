-- ===== src/Socket/Listen.antt =====
-- Binding, listening and accepting (`tcp_bind`, `tcp_listen`, `tcp_accept`, src/socket.cpp).
use libaeon.Prelude.{
  ℕ, Bool, true, false, not, ◌||◌, Option, none, some, List, ℤ, pos, ◌==ℤ◌, is_neg, is_zero,
  is_positive, to_ℕ, ◌==◌, if◌then◌else◌,
}
use libaeon.Errors.{
  err_none, err_no_socket, socket_error, state_bind, state_create, state_accept, is_valid_port,
}
use libaeon.Platform.{Platform, Family, family_eq, Sockaddr, Syscall, Sockopt, ss_family}
use libaeon.Socket.{
  Method, pure, ◌>>=◌, ◌>>◌, self, modify, is_valid_socket, invalid_socket, set_error, fail,
  syscall, native_error, last_error, close, reopen,
}
use libaeon.Socket.Options.{set_so_reuseaddr, set_ipv6_v6only}
use libaeon.Socket.Transfer.{wait_for_readable}

module _ (os : Platform) where
  -- `error_code = translate_native_error(GET_NET_SOCKET_ERROR()); error_state = state; return a;`
  unfoldable pub fail_native : {A : Type 0} → ℕ → A → Method A
  fail_native state a = do code ← last_error os; fail code state a

  -- `tcp_bind`; the address may be a null pointer.
  unfoldable pub tcp_bind : Option Sockaddr → Method ℤ
  tcp_bind none = fail err_no_socket state_bind socket_error
  tcp_bind (some addr) = do
    s ← self
    if not (is_valid_socket s) then fail err_no_socket state_bind socket_error else do
      r ← syscall os (Syscall.bind s.sockfd addr)
      if not (is_zero r.value)
          then fail_native state_bind socket_error
          else (set_error err_none >> pure (pos 0))

  -- The address that `tcp_listen` binds to: the text is tried as IPv6, then as IPv4.
  abbrev pub listen_target : List ℕ → ℕ → Option Sockaddr
  listen_target ip port = parsed6 (os.inet_pton Family.ipv6 ip) (os.inet_pton Family.ipv4 ip)
    where
      parsed6 : Option (List ℕ) → Option (List ℕ) → Option Sockaddr
      parsed6 (some bytes) _ = some (Sockaddr.inet6 (os.htons port) bytes 0)
      parsed6 none (some bytes) = some (Sockaddr.inet (os.htons port) bytes)
      parsed6 none none = none

  -- `tcp_listen`, from `listen` on
  unfoldable pub listen_bound : Method Bool
  listen_bound = do
    s ← self
    r ← syscall os (Syscall.listen s.sockfd)
    if not (is_zero r.value)
        then (fail_native state_accept tt >> close os) >> pure false
        else do modify (λ s. record s { connected = true }); fail err_none 0 true

  -- `tcp_listen`, from `tcp_bind` on
  unfoldable pub bind_and_listen : Sockaddr → Method Bool
  bind_and_listen target = do
    bound ← tcp_bind (some target)
    if not (is_zero bound) then close os >> pure false else listen_bound

  -- `tcp_listen`, from the new descriptor on
  unfoldable pub start_listening : Sockaddr → ℤ → Method Bool
  start_listening target port = do
    reopen os (ss_family target)
    s ← self
    if not (is_valid_socket s) then fail err_no_socket state_create false else do
      modify (λ s. record s { net_family = ss_family target; port = port })
      set_so_reuseaddr os true
      if family_eq (ss_family target) Family.ipv6 then set_ipv6_v6only os true else pure (pos 0)
      bind_and_listen target

  -- `tcp_listen(const char* ip, int port)`
  unfoldable pub tcp_listen : Option (List ℕ) → ℤ → Method Bool
  tcp_listen none port = fail err_no_socket state_bind false
  tcp_listen (some ip) port =
      if not (is_valid_port port)
      then fail err_no_socket state_bind false
      else listen_at (listen_target ip (to_ℕ port))
    where
      listen_at : Option Sockaddr → Method Bool
      listen_at none = fail err_no_socket state_bind false
      listen_at (some target) = start_listening target port

  -- Errors of `accept` that are no errors of the listener: nothing waits, or the peer is gone.
  abbrev pub accept_retry : ℕ → Bool
  accept_retry error =
      error == os.errnos.eagain || error == os.errnos.ewouldblock || error == os.errnos.econnreset

  -- An accepted descriptor is made blocking or not before it is handed over. `GET_NET_SOCKET_ERROR()`
  -- is read before the descriptor is closed.
  unfoldable pub configure_accepted : ℤ → Bool → Method ℤ
  configure_accepted fd blocking = do
    flags ← syscall os (Syscall.fcntl_getfl fd)
    if is_neg flags.value then discard else do
      r ← syscall os (Syscall.fcntl_setfl fd flags.value (not blocking))
      if not (is_zero r.value)
          then discard
          else do syscall os (Syscall.setsockopt fd Sockopt.tcp_nodelay 1); fail err_none 0 fd
    where
      discard : Method ℤ
      discard = do
        code ← last_error os
        fail code state_accept tt
        syscall os (Syscall.close_socket fd)
        pure invalid_socket

  -- `tcp_accept` behind its wait, with the address of the peer.
  unfoldable pub accept_now : Bool → Sockaddr → Method (ℤ × Sockaddr)
  accept_now blocking peer = do
    s ← self
    r ← syscall os (Syscall.accept s.sockfd)
    error ← native_error os
    if r.value ==ℤ invalid_socket
        then (if accept_retry error
            then pure (invalid_socket, peer)
            else fail_native state_accept (invalid_socket, peer))
        else do fd ← configure_accepted r.value blocking; pure (fd, r.peer)

  unfoldable pub tcp_accept : ℤ → Bool → Sockaddr → Method (ℤ × Sockaddr)
  unfolding wait_for_readable
  tcp_accept timeout_ms blocking peer = do
    s ← self
    if not (is_valid_socket s)
        then fail err_no_socket state_accept (invalid_socket, peer)
        else if is_positive timeout_ms
        then (do
          ready ← wait_for_readable os s.sockfd timeout_ms
          if is_zero ready
              then pure (invalid_socket, peer)
              else if is_neg ready
              then fail_native state_accept (invalid_socket, peer)
              else accept_now blocking peer)
        else accept_now blocking peer
