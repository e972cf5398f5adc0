-- ===== src/Server/Accepting.antt =====
-- An accepted descriptor has an owner or is closed (src/server_socket.cpp, `accept`).
use libaeon.Prelude.{
  ℕ, ◌+◌, ◌≡◌, ap, ◌∙◌, Bool, Option, none, some, ℤ, pos, ◌==ℤ◌, is_zero, ==-refl, ==ℤ→eq,
  if◌then◌else◌, arith, Bool-cases, inl, inr,
}
use libaeon.Platform.{Platform, World, Sockaddr}
use libaeon.PeerCollection.{add_peer}
use libaeon.SocketSet
use libaeon.Socket.{Socket, invalid_socket, adopt, close, destroy}
use libaeon.Socket.Options.{set_blocking}
use libaeon.Socket.Listen.{tcp_accept}
use libaeon.Socket.Descriptors.{
  count_if, opened, closed, held, set_blocking-Balanced, tcp_accept-HandsOut,
}
use libaeon.Server.{Server, Sockets, put, keep_peer, adopt_peer, accept, with_listener}

module _ (os : Platform) (fd : ℕ) where
  -- Whether the peer holds the descriptor.
  abbrev pub held_by : Option ℕ → Server → ℕ
  held_by none srv = 0
  held_by (some ref) srv = held os fd (srv.sockets.object ref)

  destroy-closes :
      (s : Socket) (w : World)
      → opened os fd (destroy os s w).calls + closed os fd w.calls + held os fd s
        ≡ opened os fd w.calls + closed os fd (destroy os s w).calls
  unfolding destroy close
  destroy-closes s w = ground arith

  adopt-holds :
      (new : ℤ) (w : World)
      → let (s, w') = adopt os new w in
        (opened os fd w'.calls ≡ opened os fd w.calls)
        × (closed os fd w'.calls ≡ closed os fd w.calls)
        × (s.sockfd ≡ new)
  unfolding adopt
  adopt-holds new w = ground arith

  put_here : (ref : ℕ) (s : Socket) (w : World) (o : Sockets) → (put ref s w o).object ref ≡ s
  put_here ref s w o = ap (λ b. if b then s else o.object ref) (==-refl ref)

  -- From one world to another: a socket's hold on the descriptor is passed on to the peer, or it is
  -- closed.
  abbrev HandsOn : ℕ → World → Option ℕ → Server → Type 0
  HandsOn before w r srv' =
      opened os fd srv'.sockets.world.calls + closed os fd w.calls + before
      ≡ opened os fd w.calls + closed os fd srv'.sockets.world.calls + held_by r srv'

  keep_peer-HandsOn :
      (blocking : Bool) (new : Socket) (w : World) (srv : Server)
      → let (r, srv') = keep_peer os blocking new w srv in HandsOn (held os fd new) w r srv'
  unfolding keep_peer add_peer SocketSet.add
  keep_peer-HandsOn blocking new w srv =
      let b = set_blocking os blocking new w in
      elim (Bool-cases (is_zero b.0)) [
        | inr failed ↦
            rw (failed, keep_peer)
              (omega (arith, set_blocking-Balanced os fd blocking new w, destroy-closes b.1 b.2))
        | inl fine ↦
            rw (fine, keep_peer)
              (omega (
                arith,
                set_blocking-Balanced os fd blocking new w,
                ap (held os fd) (put_here srv.sockets.next_ref b.1 b.2 srv.sockets),
              ))
      ]

  adopt_peer-HandsOn :
      (blocking : Bool) (new : ℤ) (peer : Sockaddr) (srv : Server)
      → let (r, srv') = adopt_peer os blocking new peer srv in
        HandsOn (count_if (new ==ℤ pos fd)) srv.sockets.world r srv'
  unfolding adopt_peer
  adopt_peer-HandsOn blocking new peer srv =
      let a = adopt os new srv.sockets.world in
      let (opens, closes, same) = adopt-holds new srv.sockets.world in
      omega (
        arith,
        opens,
        closes,
        ap (λ f. count_if (f ==ℤ pos fd)) same,
        keep_peer-HandsOn blocking
            (record (a.0) { remote_addr = peer; parent_server = some srv.ref }) a.1 srv,
      )

  keep_peer-socket :
      (blocking : Bool) (new : Socket) (w : World) (srv : Server)
      → (keep_peer os blocking new w srv).1.socket ≡ srv.socket
  unfolding keep_peer
  keep_peer-socket blocking new w srv = ground arith

  -- `accept` leaves the listening descriptor alone; an accepted descriptor is held by the peer that is
  -- returned, or has been closed when there is none.
  pub accept-HandsOn :
      (blocking : Bool) (srv : Server)
      → let (r, srv') = accept os blocking srv in
        (srv'.socket.sockfd ≡ srv.socket.sockfd)
        × (opened os fd srv'.sockets.world.calls + closed os fd srv.sockets.world.calls
            ≡ opened os fd srv.sockets.world.calls
              + closed os fd srv'.sockets.world.calls
              + held_by r srv')
  unfolding accept adopt_peer
  accept-HandsOn blocking srv =
      let a =
        tcp_accept os srv.accept_timeout_ms blocking Sockaddr.empty srv.socket srv.sockets.world in
      let srv₁ = with_listener os a.1 a.2 srv in
      let n = adopt os a.0.0 a.2 in
      let (same, balance) =
        tcp_accept-HandsOut os fd srv.accept_timeout_ms blocking Sockaddr.empty srv.socket
          srv.sockets.world in
      elim (Bool-cases (a.0.0 ==ℤ invalid_socket)) [
        | inl none_ ↦
            rw (none_, accept)
              (
                same,
                omega (
                  arith,
                  balance,
                  ap (λ f. count_if (f ==ℤ pos fd)) (==ℤ→eq a.0.0 invalid_socket none_),
                ),
              )
        | inr new ↦
            rw (new, accept)
              (
                ap (λ (s : Socket). s.sockfd)
                      (keep_peer-socket blocking
                        (record (n.0) { remote_addr = a.0.1; parent_server = some srv.ref }) n.1
                        srv₁)
                    ∙ same,
                omega (arith, balance, adopt_peer-HandsOn blocking a.0.0 a.0.1 srv₁),
              )
      ]
