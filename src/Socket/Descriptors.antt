-- ===== src/Socket/Descriptors.antt =====
-- Descriptors are neither leaked nor closed twice by the methods of a socket (src/socket.cpp).
use libaeon.Prelude.{
  ==ℤ→eq, Option-cases, to_ℕ, Option, some, none, ℕ, ◌+◌, ◌≡◌, Bool, false, not, List, [], ◌∷◌, ℤ,
  pos, ◌==ℤ◌, if◌then◌else◌, arith, Bool-cases, inl, inr, refl,
}
use libaeon.Socket.Connect.{
  connect_failure, enter_guard, leave_guard, finish_pending, attempt_timed, attempt_guarded,
  attempt_plain, tcp_connect_address, connect_first, tcp_connect, tcp_connect_host,
}
use libaeon.Socket.Listen.{
  listen_bound, bind_and_listen, listen_target, fail_native, tcp_bind, start_listening, tcp_listen,
  tcp_accept, accept_now, configure_accepted,
}
use libaeon.Socket.Transfer.{bytes_of, wait_for_writable, wait_for_readable}
use libaeon.Platform.{
  after, Sockopt, ss_family, Platform, World, History, Syscall, Family, Sockaddr,
}
use libaeon.Socket.{invalid_socket, Socket, close, reopen}
use libaeon.Errors.{is_valid_port}
use libaeon.Socket.Options.{
  set_option, set_so_reuseaddr, set_ipv6_v6only, set_blocking, set_socket_nonblocking,
}

abbrev pub count_if : Bool → ℕ
count_if b = if b then 1 else 0

module _ (os : Platform) (fd : ℕ) where
  -- How often the system has handed out the descriptor, and how often it was closed.
  abbrev pub opened : History → ℕ
  opened [] = 0
  opened (Syscall.open_socket f t ∷ h) =
      count_if ((os.reply (Syscall.open_socket f t ∷ h)).value ==ℤ pos fd) + opened h
  opened (Syscall.accept l ∷ h) =
      count_if ((os.reply (Syscall.accept l ∷ h)).value ==ℤ pos fd) + opened h
  opened (_ ∷ h) = opened h

  abbrev pub closed : History → ℕ
  closed [] = 0
  closed (Syscall.close_socket d ∷ h) = count_if (d ==ℤ pos fd) + closed h
  closed (_ ∷ h) = closed h

  -- Whether the socket holds it.
  abbrev pub held : Socket → ℕ
  held s = count_if (s.sockfd ==ℤ pos fd)

  -- From one state to another, the descriptor was opened as often more as it was closed, but for
  -- the socket's hold on it.
  abbrev pub Balanced : Socket → World → Socket → World → Type 0
  Balanced s w s' w' =
      opened w'.calls + closed w.calls + held s ≡ opened w.calls + closed w'.calls + held s'

  pub close-Balanced :
      (s : Socket) (w : World) → let (r, s', w') = close os s w in Balanced s w s' w'
  unfolding close
  close-Balanced s w = ground arith

  pub set_blocking-Balanced :
      (flag : Bool) (s : Socket) (w : World)
      → let (r, s', w') = set_blocking os flag s w in Balanced s w s' w'
  unfolding set_blocking set_socket_nonblocking
  set_blocking-Balanced flag s w = ground arith

  -- A new descriptor replaces the old one, which is closed.
  reopen-Balanced :
      (family : Family) (s : Socket) (w : World)
      → let (r, s', w') = reopen os family s w in Balanced s w s' w'
  unfolding reopen close
  reopen-Balanced family s w = ground arith

  leave_guard-Balanced :
      (original : Bool) (s : Socket) (w : World)
      → let (r, s', w') = leave_guard os original s w in Balanced s w s' w'
  unfolding leave_guard
  leave_guard-Balanced original s w = ground (arith, set_blocking-Balanced original s w)

  attempt_timed-Balanced :
      (target : Sockaddr) (s : Socket) (w : World)
      → let (r, s', w') = attempt_timed os target s w in Balanced s w s' w'
  unfolding attempt_timed finish_pending connect_failure wait_for_writable
  attempt_timed-Balanced target s w = ground arith

  attempt_guarded-Balanced :
      (target : Sockaddr) (s : Socket) (w : World)
      → let (r, s', w') = attempt_guarded os target s w in Balanced s w s' w'
  unfolding attempt_guarded enter_guard connect_failure
  attempt_guarded-Balanced target s w =
      let a = set_blocking os false s w in
      let b = attempt_timed os target a.1 a.2 in
      ground (
        arith,
        set_blocking-Balanced false s w,
        attempt_timed-Balanced target a.1 a.2,
        leave_guard-Balanced s.blocking b.1 b.2,
      )

  attempt_plain-Balanced :
      (target : Sockaddr) (s : Socket) (w : World)
      → let (r, s', w') = attempt_plain os target s w in Balanced s w s' w'
  unfolding attempt_plain connect_failure
  attempt_plain-Balanced target s w = ground arith

  tcp_connect_address-Balanced :
      (target : Sockaddr) (s : Socket) (w : World)
      → let (r, s', w') = tcp_connect_address os target s w in Balanced s w s' w'
  unfolding tcp_connect_address
  tcp_connect_address-Balanced target s w =
      let a = reopen os (ss_family target) s w in
      let s₁ = record a.1 { connected = false; net_family = ss_family target } in
      let b = attempt_guarded os target s₁ a.2 in
      let c = attempt_plain os target s₁ a.2 in
      ground (
        arith,
        reopen-Balanced (ss_family target) s w,
        attempt_guarded-Balanced target s₁ a.2,
        attempt_plain-Balanced target s₁ a.2,
        close-Balanced b.1 b.2,
        close-Balanced c.1 c.2,
      )

  set_option-Balanced :
      (option : Sockopt) (value : ℕ) (s : Socket) (w : World)
      → let (r, s', w') = set_option os option value s w in Balanced s w s' w'
  unfolding set_option
  set_option-Balanced option value s w = ground arith

  tcp_bind-Balanced :
      (addr : Option Sockaddr) (s : Socket) (w : World)
      → let (r, s', w') = tcp_bind os addr s w in Balanced s w s' w'
  unfolding tcp_bind fail_native
  tcp_bind-Balanced none s w = refl
  tcp_bind-Balanced (some addr) s w = ground arith

  listen_bound-Balanced :
      (s : Socket) (w : World) → let (r, s', w') = listen_bound os s w in Balanced s w s' w'
  unfolding listen_bound fail_native close
  listen_bound-Balanced s w = ground arith

  bind_and_listen-Balanced :
      (target : Sockaddr) (s : Socket) (w : World)
      → let (r, s', w') = bind_and_listen os target s w in Balanced s w s' w'
  unfolding bind_and_listen
  bind_and_listen-Balanced target s w =
      let d = tcp_bind os (some target) s w in
      ground (
        arith,
        tcp_bind-Balanced (some target) s w,
        close-Balanced d.1 d.2,
        listen_bound-Balanced d.1 d.2,
      )

  start_listening-Balanced :
      (target : Sockaddr) (port : ℤ) (s : Socket) (w : World)
      → let (r, s', w') = start_listening os target port s w in Balanced s w s' w'
  unfolding start_listening set_so_reuseaddr set_ipv6_v6only
  start_listening-Balanced target port s w =
      let a = reopen os (ss_family target) s w in
      let s₁ = record a.1 { net_family = ss_family target; port = port } in
      let b = set_option os Sockopt.so_reuseaddr 1 s₁ a.2 in
      let c = set_option os Sockopt.ipv6_v6only 1 b.1 b.2 in
      ground (
        arith,
        reopen-Balanced (ss_family target) s w,
        set_option-Balanced Sockopt.so_reuseaddr 1 s₁ a.2,
        set_option-Balanced Sockopt.ipv6_v6only 1 b.1 b.2,
        bind_and_listen-Balanced target b.1 b.2,
        bind_and_listen-Balanced target c.1 c.2,
      )

  -- `tcp_listen` neither leaks a descriptor nor closes one that the socket does not hold.
  pub tcp_listen-Balanced :
      (ip : Option (List ℕ)) (port : ℤ) (s : Socket) (w : World)
      → let (r, s', w') = tcp_listen os ip port s w in Balanced s w s' w'
  unfolding tcp_listen
  tcp_listen-Balanced none port s w = refl
  tcp_listen-Balanced (some ip) port s w = elim (Bool-cases (not (is_valid_port port))) [
    | inl bad ↦ rw (bad, tcp_listen) refl
    | inr fine ↦ elim (Option-cases (listen_target os ip (to_ℕ port))) [
      | inl e ↦ rw (fine, e, tcp_listen) refl
      | inr (target, e) ↦ rw (fine, e, tcp_listen) (start_listening-Balanced target port s w)
    ]
  ]

  connect_first-Balanced :
      (found : List Sockaddr) (s : Socket) (w : World)
      → let (r, s', w') = connect_first os found s w in Balanced s w s' w'
  unfolding connect_first
  connect_first-Balanced [] s w = refl
  connect_first-Balanced (entry ∷ rest) s w =
      let a = tcp_connect_address os entry s w in
      ground (
        arith,
        connect_first-Balanced rest s w,
        tcp_connect_address-Balanced entry s w,
        connect_first-Balanced rest a.1 a.2,
      )

  tcp_connect-Balanced :
      (s : Socket) (w : World) → let (r, s', w') = tcp_connect os s w in Balanced s w s' w'
  unfolding tcp_connect
  tcp_connect-Balanced s w =
      let r = os.reply (Syscall.getaddrinfo s.hostname (some s.port) ∷ w.calls) in
      ground (
        arith,
        connect_first-Balanced r.found s
            (after os (Syscall.getaddrinfo s.hostname (some s.port)) w),
      )

  -- `tcp_connect` to a host, over all the addresses that it tries, neither leaks a descriptor nor closes one that the socket does not hold.
  pub tcp_connect_host-Balanced :
      (hostname : Option (List ℕ)) (port : ℤ) (s : Socket) (w : World)
      → let (r, s', w') = tcp_connect_host os hostname port s w in Balanced s w s' w'
  unfolding tcp_connect_host
  tcp_connect_host-Balanced hostname port s w =
      ground
        (arith, tcp_connect-Balanced (record s { hostname = bytes_of hostname; port = port }) w)

  -- The descriptor that an accept hands out is what was opened meanwhile and not closed.
  abbrev pub HandsOut : Socket → World → ℤ → Socket → World → Type 0
  HandsOut s w new s' w' =
      (s'.sockfd ≡ s.sockfd)
      × (opened w'.calls + closed w.calls
          ≡ opened w.calls + closed w'.calls + count_if (new ==ℤ pos fd))

  configure_accepted-Balanced :
      (new : ℤ) (blocking : Bool) (s : Socket) (w : World)
      → let (r, s', w') = configure_accepted os new blocking s w in
        (s'.sockfd ≡ s.sockfd)
        × (opened w'.calls + closed w.calls + count_if (new ==ℤ pos fd)
            ≡ opened w.calls + closed w'.calls + count_if (r ==ℤ pos fd))
  unfolding configure_accepted
  configure_accepted-Balanced new blocking s w = ground arith

  accept_now-HandsOut :
      (blocking : Bool) (peer : Sockaddr) (s : Socket) (w : World)
      → let (r, s', w') = accept_now os blocking peer s w in HandsOut s w r.0 s' w'
  unfolding accept_now fail_native
  accept_now-HandsOut blocking peer s w =
      let r = os.reply (Syscall.accept s.sockfd ∷ w.calls) in
      elim (Bool-cases (r.value ==ℤ invalid_socket)) [
        | inl failed ↦ ground (arith, ==ℤ→eq r.value invalid_socket failed)
        | inr fine ↦ ground (
          arith,
          configure_accepted-Balanced r.value blocking s (after os (Syscall.accept s.sockfd) w),
        )
      ]

  -- `tcp_accept` leaves the listening descriptor alone. It returns the descriptor that the system
  -- handed out, or has closed that one: none is leaked.
  pub tcp_accept-HandsOut :
      (timeout_ms : ℤ) (blocking : Bool) (peer : Sockaddr) (s : Socket) (w : World)
      → let (r, s', w') = tcp_accept os timeout_ms blocking peer s w in HandsOut s w r.0 s' w'
  unfolding tcp_accept wait_for_readable fail_native
  tcp_accept-HandsOut timeout_ms blocking peer s w = ground (
    arith,
    accept_now-HandsOut blocking peer s w,
    accept_now-HandsOut blocking peer s (after os (Syscall.select_readable s.sockfd timeout_ms) w),
  )
