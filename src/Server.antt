-- ===== src/Server.antt =====
-- class server_socket (src/server_socket.cpp): a TCP listener and the peers that it accepted. The objects
-- of the peers are kept by their identities. The factory `create_accepted_socket` is the one of the
-- class itself, whose peers are plain sockets.
pub mod Accepting
use libaeon.Prelude.{
  ℕ, ◌+◌, ◌==◌, Bool, true, false, not, ◌||◌, ◌&&◌, is_some, to_ℕ, Option, none, some, List, [],
  ◌∷◌, ℤ, pos, negsuc, ◌==ℤ◌, is_zero, is_neg, is_above, if◌then◌else◌,
}
use libaeon.Errors.{err_none, err_no_socket, is_valid_port}
use libaeon.Platform.{Platform, World, Sockaddr}
use libaeon.PeerCollection.{
  Peers, add_peer, remove_owned_peer, close_owned_peers, owned_peer_count, owned_peer_at,
}
use libaeon.Socket.{Socket, invalid_socket, adopt, close, destroy}
use libaeon.Socket.Options.{set_blocking}
use libaeon.Socket.Listen.{listen_target, tcp_listen, tcp_accept}

pub record Sockets : Type 0 where
  pub object : ℕ → Socket
  pub next_ref : ℕ
  pub world : World

pub record Server : Type 0 where
  pub socket : Socket
  pub ref : ℕ
  pub accept_timeout_ms : ℤ
  pub peers : Peers
  pub sockets : Sockets

abbrev pub put : ℕ → Socket → World → Sockets → Sockets
put ref s w o = record o { object = λ k. if k == ref then s else o.object k; world = w }

unfoldable pub set_accept_timeout : ℤ → Server → ℤ × Server
set_accept_timeout timeout_ms srv =
    if is_neg timeout_ms || is_above timeout_ms 60000
    then (negsuc 0, record srv { socket = record (srv.socket) { error_code = err_no_socket } })
    else (
      pos 0,
      record srv {
        accept_timeout_ms = timeout_ms;
        socket = record (srv.socket) { error_code = err_none };
      },
    )

-- The text of the address that `listen(int port)` binds to, "0.0.0.0".
abbrev pub every_interface : List ℕ
every_interface = 48 ∷ 46 ∷ 48 ∷ 46 ∷ 48 ∷ 46 ∷ 48 ∷ []

module _ (os : Platform) where
  -- `close` of a peer, which runs no handler
  unfoldable pub close_peer : ℕ → Peers → Sockets → Bool × Peers × Sockets
  close_peer ref p o =
      let (closed, s, w) = close os (o.object ref) o.world in (closed, p, put ref s w o)

  -- `close_owned_peers()`
  abbrev pub close_peers : Server → Bool × Server
  close_peers srv =
      let (changed, p, o) = close_owned_peers close_peer srv.peers srv.sockets in
      (changed, record srv { peers = p; sockets = o })

  -- The listener and the world, as a method of the socket leaves them.
  abbrev pub with_listener : Socket → World → Server → Server
  with_listener s w srv = record srv { socket = s; sockets = record (srv.sockets) { world = w } }

  -- `close()`
  unfoldable pub close_server : Server → Bool × Server
  close_server srv =
      let (changed, s, w) = close os srv.socket srv.sockets.world in
      let (closed, srv') = close_peers (with_listener s w srv) in (closed || changed, srv')

  -- Whether the arguments of `listen` name an address to bind to.
  abbrev pub names_address : Option (List ℕ) → ℤ → Bool
  names_address none port = false
  names_address (some ip) port = is_valid_port port && is_some (listen_target os ip (to_ℕ port))

  -- `listen(const char* ip, int port)`. `tcp_listen` closes the socket before it opens a new
  -- descriptor, with the `close` of this class, which also closes the peers. Closing them again does
  -- nothing, so that the `close` with which it gives up an attempt is that of the descriptor alone.
  unfoldable pub listen : Option (List ℕ) → ℤ → Server → Bool × Server
  unfolding close_server
  listen ip port srv =
      let srv₁ = if names_address ip port then (close_server srv).1 else srv in
      let (ok, s, w) = tcp_listen os ip port srv₁.socket srv₁.sockets.world in
      (ok, if ok then (close_peers (with_listener s w srv₁)).1 else with_listener s w srv₁)

  -- `listen(int port)` and `listen()`
  abbrev pub listen_port : ℤ → Server → Bool × Server
  listen_port port srv = listen (some every_interface) port srv

  abbrev pub listen_again : Server → Bool × Server
  listen_again srv = listen_port srv.socket.port srv

  -- `accept`, once the new peer has its members: it is owned, or destroyed when it cannot be set up.
  unfoldable pub keep_peer : Bool → Socket → World → Server → Option ℕ × Server
  keep_peer blocking new w srv =
      let (status, s, w') = set_blocking os blocking new w in
      let (added, p) = add_peer (some srv.sockets.next_ref) srv.peers in
      if not (is_zero status)
      then (none, record srv { sockets = record (srv.sockets) { world = destroy os s w' } })
      else (
        added,
        record srv {
          peers = p;
          sockets = record (put srv.sockets.next_ref s w' srv.sockets) {
            next_ref = srv.sockets.next_ref + 1;
          };
        },
      )

  -- `accept`, with an accepted descriptor
  unfoldable pub adopt_peer : Bool → ℤ → Sockaddr → Server → Option ℕ × Server
  adopt_peer blocking fd peer srv =
      let (s, w) = adopt os fd srv.sockets.world in
      keep_peer blocking (record s { remote_addr = peer; parent_server = some srv.ref }) w srv

  -- `accept(bool blocking)`
  unfoldable pub accept : Bool → Server → Option ℕ × Server
  accept blocking srv =
      let ((fd, peer), s, w) =
        tcp_accept os srv.accept_timeout_ms blocking Sockaddr.empty srv.socket srv.sockets.world in
      if fd ==ℤ invalid_socket
      then (none, with_listener s w srv)
      else adopt_peer blocking fd peer (with_listener s w srv)

  -- `remove_peer(socket* peer)`
  unfoldable pub remove_peer : Option ℕ → Server → Bool × Server
  remove_peer ref srv =
      let (removed, p, o) = remove_owned_peer close_peer ref srv.peers srv.sockets in
      (removed, record srv { peers = p; sockets = o })

abbrev pub peer_count : Server → ℕ
peer_count srv = owned_peer_count srv.peers

abbrev pub peer_at : ℕ → Server → Option ℕ
peer_at index srv = owned_peer_at index srv.peers
