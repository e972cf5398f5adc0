-- ===== src/Udp/Setup.antt =====
-- Destinations and bound ports of a UDP socket (src/udp_socket.cpp, `udp_connect`, `udp_listen`). The
-- binding function of `udp_listen` is `native_bind`.
use libaeon.Prelude.{
  ℕ, Bool, true, false, not, ◌||◌, Option, none, some, List, [], ◌∷◌, ℤ, pos, is_neg, is_zero,
  is_some, to_ℕ, ◌==ℤ◌, ◌==◌, if◌then◌else◌, length, replicate, ◌&&◌,
}
use libaeon.Errors.{
  err_none, err_no_host, err_no_socket, state_connect, state_create, state_bind, is_valid_port,
}
use libaeon.Platform.{
  Platform, Family, family_eq, Sockaddr, SocketType, Sockopt, Syscall, ss_family,
}
use libaeon.Socket.{
  Method, pure, ◌>>=◌, ◌>>◌, self, modify, fail, syscall, last_error, invalid_socket,
  set_remote_hostname,
}
use libaeon.Socket.Connect.{is_internet}
use libaeon.Socket.Transfer.{bytes_of}
use libaeon.Address.{get_port}

-- `valid`
abbrev pub is_descriptor : ℤ → Bool
is_descriptor fd = not (fd ==ℤ invalid_socket)

module _ (os : Platform) where
  unfoldable pub close_candidate : ℤ → Method (Unit {0})
  close_candidate fd =
      if is_descriptor fd then syscall os (Syscall.close_socket fd) >> pure tt else pure tt

  unfoldable pub configure_blocking : ℤ → Bool → Method Bool
  configure_blocking fd blocking = do
    flags ← syscall os (Syscall.fcntl_getfl fd)
    if is_neg flags.value then pure false else do
      r ← syscall os (Syscall.fcntl_setfl fd flags.value (not blocking))
      pure (is_zero r.value)

  -- A new descriptor of the family, or nothing.
  unfoldable pub select_family : Family → Bool → Method (Option ℤ)
  select_family family blocking = if not (is_internet family) then pure none else do
    r ← syscall os (Syscall.open_socket family SocketType.datagram)
    if not (is_descriptor r.value) then pure none else do
      configured ← configure_blocking r.value blocking
      if configured then pure (some r.value) else close_candidate r.value >> pure none

  -- The candidate takes the place of the descriptor, which is closed behind it.
  unfoldable pub install : Family → Option ℤ → Method Bool
  install family none = fail err_no_socket state_create false
  install family (some candidate) = do
    s ← self
    modify (λ s. record s { sockfd = candidate; net_family = family })
    close_candidate s.sockfd
    pure true

  -- `udp_connect(const address& remote)`, the descriptor
  unfoldable pub ensure_family : Family → Method Bool
  ensure_family family = do
    s ← self
    if is_descriptor s.sockfd && family_eq family s.net_family
        then pure true
        else do candidate ← select_family family s.blocking; install family candidate

  -- `udp_connect(const address& remote)`
  unfoldable pub udp_connect_address : Sockaddr → Method Bool
  udp_connect_address target =
      if not (is_internet (ss_family target)) then fail err_no_host state_connect false else do
        ready ← ensure_family (ss_family target)
        if not ready then pure false else do
          modify (λ s. record s {
            remote_addr = target;
            port = pos (get_port os target);
            connected = true;
          })
          fail err_none 0 true

  -- `udp_connect()`
  unfoldable pub udp_connect : Method Bool
  udp_connect = do s ← self; udp_connect_address s.remote_addr

  -- The loop over the addresses that a name resolves to.
  unfoldable pub udp_connect_first : List Sockaddr → Method Bool
  udp_connect_first [] = pure false
  udp_connect_first (entry ∷ rest) =
      if not (is_internet (ss_family entry)) then udp_connect_first rest else do
        success ← udp_connect_address entry
        if success then pure true else udp_connect_first rest

  -- `udp_connect(const char* hostname, int port)`
  unfoldable pub udp_connect_host : Option (List ℕ) → ℤ → Method Bool
  udp_connect_host hostname port =
      if not (is_some hostname) || length (bytes_of hostname) == 0 || not (is_valid_port port)
      then fail err_no_host state_connect false
      else do
        r ← syscall os (Syscall.getaddrinfo (bytes_of hostname) (some port))
        if not (is_zero r.value) then fail err_no_host state_connect false else do
          success ← udp_connect_first r.found
          if success
              then set_remote_hostname (bytes_of hostname) >> pure true
              else fail err_no_host state_connect false

  -- The address that stands for every interface.
  abbrev pub any_address : Family → ℕ → Sockaddr
  any_address Family.ipv6 port = Sockaddr.inet6 (os.htons port) (replicate 16 0) 0
  any_address _ port = Sockaddr.inet (os.htons port) (replicate 4 0)

  -- `last_error = …; close_candidate(candidate);`
  unfoldable pub discard_candidate : ℤ → Method (Option ℤ)
  discard_candidate candidate = do code ← last_error os; close_candidate candidate; pure (some code)

  -- The loop of `udp_listen` from `bind_socket` on: the error, if there is one.
  unfoldable pub bind_candidate : Family → ℤ → ℤ → Method (Option ℤ)
  bind_candidate family port candidate = do
    r ← syscall os (Syscall.bind candidate (any_address family (to_ℕ port)))
    if not (is_zero r.value) then discard_candidate candidate else do
      s ← self
      modify (λ s. record s {
        sockfd = candidate;
        net_family = family;
        port = port;
        connected = false;
        remote_addr = Sockaddr.empty;
        error_code = err_none;
        error_state = 0;
      })
      close_candidate s.sockfd
      pure none

  -- The loop of `udp_listen`, behind the choice of a candidate.
  unfoldable pub prepare_candidate : Family → ℤ → Option ℤ → Method (Option ℤ)
  prepare_candidate family port none = do code ← last_error os; pure (some code)
  prepare_candidate family port (some candidate) =
      if not (family_eq family Family.ipv6) then bind_candidate family port candidate else do
        r ← syscall os (Syscall.setsockopt candidate Sockopt.ipv6_v6only 0)
        if not (is_zero r.value)
            then discard_candidate candidate
            else bind_candidate family port candidate

  unfoldable pub listen_on : Family → ℤ → Method (Option ℤ)
  listen_on family port = do
    s ← self
    candidate ← select_family family s.blocking
    prepare_candidate family port candidate

  -- `udp_listen(int port)`: both families on one socket, or IPv4 alone.
  unfoldable pub listen_families : List Family → ℤ → ℤ → Method Bool
  listen_families [] port previous s w = fail previous state_bind false s w
  listen_families (family ∷ rest) port previous s w =
      let (failure, s', w') = listen_on family port s w in
      elim failure [ none ↦ (true, s', w') | some code ↦ listen_families rest port code s' w' ]

  unfoldable pub udp_listen : ℤ → Method Bool
  udp_listen port =
      if not (is_valid_port port)
      then fail err_no_socket state_bind false
      else listen_families (Family.ipv6 ∷ Family.ipv4 ∷ []) port err_no_socket
