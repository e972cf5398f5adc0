-- ===== src/Udp/Events.antt =====
-- The UDP event sockets (src/udp_event_socket.cpp, src/udp_client_event_socket.cpp,
-- src/udp_server_event_socket.cpp). What the handlers are told is kept, in the order of the calls.
use libaeon.Prelude.{
  ℕ, ◌≡◌, Bool, false, not, ◌||◌, Option, List, [], ◌∷◌, ◌++◌, append-nil, ℤ, is_zero,
  if◌then◌else◌, arith,
}
use libaeon.Platform.{Platform, World, Sockaddr}
use libaeon.Socket.{Method, is_valid_socket, close}
use libaeon.Socket.Options.{set_blocking}
use libaeon.Udp.{UdpSocket, create_udp}
use libaeon.Udp.Setup.{udp_connect, udp_connect_address, udp_connect_host, udp_listen}
use libaeon.Udp.Server.{UdpServer, get_peer, close_peers, read_server}

pub data UdpEvent : Type 0 where
  on_datagram : List ℕ → Sockaddr → UdpEvent
  on_connect on_close on_listen : UdpEvent
  on_error : ℤ → UdpEvent

-- The listener of a server, or the socket of a client, which has no peers, with what was told so far.
pub record UdpEventSocket : Type 0 where
  pub server : UdpServer
  pub told : List UdpEvent

abbrev pub fire_udp : UdpEvent → UdpEventSocket → UdpEventSocket
fire_udp event u = record u { told = u.told ++ event ∷ [] }

module _ (os : Platform) where
  -- A method of the base class.
  abbrev on_socket : {A : Type 0} → Method A → UdpEventSocket → A × UdpEventSocket
  on_socket m u =
      let (a, s, w) = m u.server.socket u.server.objects.world in
      (
        a,
        record u {
          server = record (u.server) {
            socket = s;
            objects = record (u.server.objects) { world = w };
          };
        },
      )

  -- `udp_event_socket()`: a socket that cannot be made non-blocking is closed.
  unfoldable pub create_udp_event : World → UdpSocket × World
  create_udp_event w =
      let (u, w₁) = create_udp os w in
      let (result, s, w₂) = set_blocking os false u.base w₁ in
      let (_, s', w₃) = close os s w₂ in
      if not (is_valid_socket u.base)
      then (u, w₁)
      else if is_zero result
      then (record u { base = s }, w₂)
      else (record u { base = s' }, w₃)

  -- `fire_on_datagram` of a server: the sender becomes a peer first.
  unfoldable pub fire_on_datagram : List ℕ → Sockaddr → UdpEventSocket → UdpEventSocket
  fire_on_datagram bytes from u =
      fire_udp (UdpEvent.on_datagram bytes from)
        (record u { server = (get_peer os from u.server).1 })

  -- `udp_event_socket::close`
  unfoldable pub close_udp_event : UdpEventSocket → Bool × UdpEventSocket
  close_udp_event u =
      let (result, u') = on_socket (close os) u in
      (result, if result then fire_udp UdpEvent.on_close u' else u')

  -- `connect` of a client, in its overloads
  abbrev told_connect : Bool × UdpEventSocket → Bool × UdpEventSocket
  told_connect (ok, u) = (ok, if ok then fire_udp UdpEvent.on_connect u else u)

  unfoldable pub connect_udp_host : Option (List ℕ) → ℤ → UdpEventSocket → Bool × UdpEventSocket
  connect_udp_host hostname port u = told_connect (on_socket (udp_connect_host os hostname port) u)

  unfoldable pub connect_udp_address : Sockaddr → UdpEventSocket → Bool × UdpEventSocket
  connect_udp_address destination u =
      told_connect (on_socket (udp_connect_address os destination) u)

  unfoldable pub connect_udp : UdpEventSocket → Bool × UdpEventSocket
  connect_udp u = told_connect (on_socket (udp_connect os) u)

  -- `udp_server_event_socket::listen(int port)`
  unfoldable pub listen_udp : ℤ → UdpEventSocket → Bool × UdpEventSocket
  listen_udp port u =
      let (ok, u') = on_socket (udp_listen os port) u in
      (
        ok,
        if ok
            then fire_udp UdpEvent.on_listen (record u' { server = (close_peers os u'.server).1 })
            else u',
      )

  -- `udp_server_event_socket::close`
  unfoldable pub close_udp_server : UdpEventSocket → Bool × UdpEventSocket
  close_udp_server u =
      let (changed, u') = close_udp_event u in
      let (closed, server) = close_peers os u'.server in
      (closed || changed, record u' { server = server })

  -- `udp_server_event_socket::read`
  unfoldable pub read_udp_server :
      Option (List ℕ) → ℤ → UdpEventSocket → (ℤ × List ℕ) × UdpEventSocket
  read_udp_server buffer size u =
      let (out, server) = read_server os buffer size u.server in (out, record u { server = server })

  -- After `close` the descriptor is gone; the close handler is told exactly if `close` returns true, and
  -- closing again returns false and tells nothing.
  pub close_udp_event-twice :
      (u : UdpEventSocket)
      → let (result, u') = close_udp_event u in
        (is_valid_socket u'.server.socket ≡ false)
        × (u'.told ≡ u.told ++ (if result then UdpEvent.on_close ∷ [] else []))
        × ((close_udp_event u').0 ≡ false)
        × ((close_udp_event u').1.told ≡ u'.told)
  unfolding close_udp_event close
  close_udp_event-twice u = ground (arith, append-nil u.told)
