-- ===== src/Udp/Descriptors.antt =====
-- Descriptors are neither leaked nor closed twice when a UDP socket (src/udp_socket.cpp) gets a
-- destination or a port.
use libaeon.Prelude.{
  ℕ, ◌+◌, ◌≡◌, refl, Bool, false, Option, none, some, List, [], ◌∷◌, ℤ, pos, ◌==ℤ◌, to_ℕ, arith,
  Bool-cases, Option-cases, inl, inr,
}
use libaeon.Errors.{err_none, err_no_socket}
use libaeon.Platform.{
  Platform, World, Family, Sockaddr, Syscall, SocketType, Sockopt, ss_family, after, answer,
}
use libaeon.Socket.{Socket}
use libaeon.Socket.Transfer.{bytes_of}
use libaeon.Socket.Descriptors.{count_if, opened, closed, held, Balanced}
use libaeon.Udp.Setup.{
  is_descriptor, close_candidate, configure_blocking, select_family, install, ensure_family,
  udp_connect_address, udp_connect_first, udp_connect_host, discard_candidate, any_address,
  bind_candidate, prepare_candidate, listen_on, listen_families, udp_listen,
}

module _ (os : Platform) (fd : ℕ) where
  abbrev held_by : Option ℤ → ℕ
  held_by none = 0
  held_by (some candidate) = count_if (candidate ==ℤ pos fd)

  -- A candidate is closed.
  close_candidate_lem :
      (candidate : ℤ) (s : Socket) (w : World)
      → let (r, s', w') = close_candidate os candidate s w in
        (opened os fd w'.calls ≡ opened os fd w.calls)
        × (closed os fd w'.calls ≡ closed os fd w.calls + count_if (candidate ==ℤ pos fd))
        × (s' ≡ s)
  unfolding close_candidate
  close_candidate_lem candidate s w = elim (Bool-cases (is_descriptor candidate)) [
    | inl valid ↦ rw (valid, close_candidate) (refl, ground arith, refl)
    | inr none_ ↦ rw (none_, close_candidate) (refl, ground (arith, none_), refl)
  ]

  configure_blocking_lem :
      (candidate : ℤ) (blocking : Bool) (s : Socket) (w : World)
      → let (r, s', w') = configure_blocking os candidate blocking s w in
        (opened os fd w'.calls ≡ opened os fd w.calls)
        × (closed os fd w'.calls ≡ closed os fd w.calls)
        × (s' ≡ s)
  unfolding configure_blocking
  configure_blocking_lem candidate blocking s w = ground arith

  -- What was opened is the candidate, or is closed.
  select_family_lem :
      (family : Family) (blocking : Bool) (s : Socket) (w : World)
      → let (c, s', w') = select_family os family blocking s w in
        (opened os fd w'.calls + closed os fd w.calls
          ≡ opened os fd w.calls + closed os fd w'.calls + held_by c)
        × (s' ≡ s)
  unfolding select_family
  select_family_lem family blocking s w =
      let candidate = (answer os (Syscall.open_socket family SocketType.datagram) w).value in
      let w₁ = after os (Syscall.open_socket family SocketType.datagram) w in
      let b = configure_blocking os candidate blocking s w₁ in
      ground (
        arith,
        configure_blocking_lem candidate blocking s w₁,
        close_candidate_lem candidate b.1 b.2,
      )

  -- The candidate is the new descriptor, and the old one is closed.
  install_lem :
      (family : Family) (candidate : Option ℤ) (s : Socket) (w : World)
      → let (r, s', w') = install os family candidate s w in
        opened os fd w'.calls + closed os fd w.calls + held os fd s + held_by candidate
        ≡ opened os fd w.calls + closed os fd w'.calls + held os fd s'
  unfolding install
  install_lem family none s w = ground arith
  install_lem family (some candidate) s w =
      ground (
        arith,
        close_candidate_lem s.sockfd (record s { sockfd = candidate; net_family = family }) w,
      )

  ensure_family-Balanced :
      (family : Family) (s : Socket) (w : World)
      → let (r, s', w') = ensure_family os family s w in Balanced os fd s w s' w'
  unfolding ensure_family
  ensure_family-Balanced family s w =
      let c = select_family os family s.blocking s w in
      ground (arith, select_family_lem family s.blocking s w, install_lem family c.0 c.1 c.2)

  -- `udp_connect` to an address, whether it succeeds or not, leaks no descriptor and closes none that
  -- the socket does not hold.
  pub udp_connect_address-Balanced :
      (target : Sockaddr) (s : Socket) (w : World)
      → let (r, s', w') = udp_connect_address os target s w in Balanced os fd s w s' w'
  unfolding udp_connect_address
  udp_connect_address-Balanced target s w =
      ground (arith, ensure_family-Balanced (ss_family target) s w)

  udp_connect_first-Balanced :
      (entries : List Sockaddr) (s : Socket) (w : World)
      → let (r, s', w') = udp_connect_first os entries s w in Balanced os fd s w s' w'
  unfolding udp_connect_first
  udp_connect_first-Balanced [] s w = refl
  udp_connect_first-Balanced (entry ∷ rest) s w =
      let a = udp_connect_address os entry s w in
      ground (
        arith,
        udp_connect_address-Balanced entry s w,
        udp_connect_first-Balanced rest s w,
        udp_connect_first-Balanced rest a.1 a.2,
      )

  -- `udp_connect` to a host name, over the addresses that it tries, leaks no descriptor and closes none
  -- that the socket does not hold.
  pub udp_connect_host-Balanced :
      (hostname : Option (List ℕ)) (port : ℤ) (s : Socket) (w : World)
      → let (r, s', w') = udp_connect_host os hostname port s w in Balanced os fd s w s' w'
  unfolding udp_connect_host
  udp_connect_host-Balanced hostname port s w =
      let r = answer os (Syscall.getaddrinfo (bytes_of hostname) (some port)) w in
      ground (
        arith,
        udp_connect_first-Balanced r.found s
            (after os (Syscall.getaddrinfo (bytes_of hostname) (some port)) w),
      )

  discard_candidate_lem :
      (candidate : ℤ) (s : Socket) (w : World)
      → let (r, s', w') = discard_candidate os candidate s w in
        opened os fd w'.calls + closed os fd w.calls + held os fd s + held_by (some candidate)
        ≡ opened os fd w.calls + closed os fd w'.calls + held os fd s'
  unfolding discard_candidate
  discard_candidate_lem candidate s w = ground (arith, close_candidate_lem candidate s w)

  bind_candidate_lem :
      (family : Family) (port candidate : ℤ) (s : Socket) (w : World)
      → let (r, s', w') = bind_candidate os family port candidate s w in
        opened os fd w'.calls + closed os fd w.calls + held os fd s + held_by (some candidate)
        ≡ opened os fd w.calls + closed os fd w'.calls + held os fd s'
  unfolding bind_candidate
  bind_candidate_lem family port candidate s w =
      let w₁ = after os (Syscall.bind candidate (any_address os family (to_ℕ port))) w in
      ground (
        arith,
        discard_candidate_lem candidate s w₁,
        close_candidate_lem s.sockfd
            (record s {
              sockfd = candidate;
              net_family = family;
              port = port;
              connected = false;
              remote_addr = Sockaddr.empty;
              error_code = err_none;
              error_state = 0;
            })
            w₁,
      )

  prepare_candidate_lem :
      (family : Family) (port : ℤ) (candidate : Option ℤ) (s : Socket) (w : World)
      → let (r, s', w') = prepare_candidate os family port candidate s w in
        opened os fd w'.calls + closed os fd w.calls + held os fd s + held_by candidate
        ≡ opened os fd w.calls + closed os fd w'.calls + held os fd s'
  unfolding prepare_candidate
  prepare_candidate_lem family port none s w = ground arith
  prepare_candidate_lem family port (some candidate) s w =
      let w₁ = after os (Syscall.setsockopt candidate Sockopt.ipv6_v6only 0) w in
      ground (
        arith,
        bind_candidate_lem family port candidate s w,
        bind_candidate_lem family port candidate s w₁,
        discard_candidate_lem candidate s w₁,
      )

  listen_on-Balanced :
      (family : Family) (port : ℤ) (s : Socket) (w : World)
      → let (r, s', w') = listen_on os family port s w in Balanced os fd s w s' w'
  unfolding listen_on
  listen_on-Balanced family port s w =
      let c = select_family os family s.blocking s w in
      ground (
        arith,
        select_family_lem family s.blocking s w,
        prepare_candidate_lem family port c.0 c.1 c.2,
      )

  listen_families-Balanced :
      (families : List Family) (port previous : ℤ) (s : Socket) (w : World)
      → let (r, s', w') = listen_families os families port previous s w in Balanced os fd s w s' w'
  unfolding listen_families
  listen_families-Balanced [] port previous s w = refl
  listen_families-Balanced (family ∷ rest) port previous s w =
      let a = listen_on os family port s w in
      elim (Option-cases a.0) [
        | inl bound ↦ rw (bound, listen_families) (listen_on-Balanced family port s w)
        | inr (code, refused) ↦
            rw (refused, listen_families)
              (ground (
                arith,
                listen_on-Balanced family port s w,
                listen_families-Balanced rest port code a.1 a.2,
              ))
      ]

  -- `udp_listen`, over the candidates of both families, leaks no descriptor and closes none that the
  -- socket does not hold.
  pub udp_listen-Balanced :
      (port : ℤ) (s : Socket) (w : World)
      → let (r, s', w') = udp_listen os port s w in Balanced os fd s w s' w'
  unfolding udp_listen
  udp_listen-Balanced port s w =
      ground
        (arith, listen_families-Balanced (Family.ipv6 ∷ Family.ipv4 ∷ []) port err_no_socket s w)
