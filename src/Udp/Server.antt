-- ===== src/Udp/Server.antt =====
-- class udp_server_socket (src/udp_server_socket.cpp): a UDP socket with a port, and its peers.
use libaeon.Prelude.{
  ℕ, ◌<◌, ◌≡◌, refl, ap, ◌∙◌, Bool, true, false, not, ◌||◌, is_zero, is_nonpos, is_positive, to_ℕ,
  [], ◌∷◌, Option, none, some, List, ℤ, is_neg, is_some, length, if◌then◌else◌, arith, Bool-cases,
  inl, inr,
}
use libaeon.Platform.{Platform, World, Sockaddr, Syscall, History, ss_family, answer}
use libaeon.PeerCollection.{Peers, remove_owned_peer, close_owned_peers}
use libaeon.Socket.{Socket, close}
use libaeon.Socket.Connect.{is_internet}
use libaeon.Socket.Transfer.{wait_for_readable, bytes_of}
use libaeon.Udp.{standalone, is_valid}
use libaeon.Udp.Setup.{udp_listen}
use libaeon.Udp.Transfer.{read_udp, receive_datagram}
use libaeon.Udp.Peers.{Objects, close_peer, get_or_create_udp_peer, find_udp_peer}
use libaeon.Udp.Uniqueness.{IsPeers, IsFound, get_or_create_udp_peer-IsPeers}

pub record UdpServer : Type 0 where
  pub socket : Socket
  pub ref : ℕ
  pub peers : Peers
  pub objects : Objects

module _ (os : Platform) where
  -- `close_owned_peers()`
  abbrev pub close_peers : UdpServer → Bool × UdpServer
  close_peers srv =
      let (changed, p, o) = close_owned_peers (close_peer os) srv.peers srv.objects in
      (changed, record srv { peers = p; objects = o })

  -- `listen(int port)`
  unfoldable pub listen : ℤ → UdpServer → Bool × UdpServer
  listen port srv =
      let (ok, s, w) = udp_listen os port srv.socket srv.objects.world in
      let bound : UdpServer = record srv {
        socket = s;
        objects = record (srv.objects) { world = w };
      } in
      (ok, if ok then (close_peers bound).1 else bound)

  -- `listen()`
  abbrev pub listen_again : UdpServer → Bool × UdpServer
  listen_again srv = listen srv.socket.port srv

  -- `close()`
  unfoldable pub close_server : UdpServer → Bool × UdpServer
  close_server srv =
      let (changed, s, w) = close os srv.socket srv.objects.world in
      let (closed, srv') =
        close_peers (record srv { socket = s; objects = record (srv.objects) { world = w } }) in
      (closed || changed, srv')

  -- `get_peer(const address& remote)`
  unfoldable pub get_peer : Sockaddr → UdpServer → Option ℕ × UdpServer
  get_peer remote srv =
      let (r, p, o) = get_or_create_udp_peer os srv.socket srv.ref remote srv.peers srv.objects in
      (r, record srv { peers = p; objects = o })

  -- `remove_peer(udp_socket* peer)`
  unfoldable pub remove_peer : Option ℕ → UdpServer → Bool × UdpServer
  remove_peer ref srv =
      let (removed, p, o) = remove_owned_peer (close_peer os) ref srv.peers srv.objects in
      (removed, record srv { peers = p; objects = o })

  -- `read(char* data, int size)`: the sender of a datagram becomes a peer.
  unfoldable pub read_server : Option (List ℕ) → ℤ → UdpServer → (ℤ × List ℕ) × UdpServer
  read_server buffer size srv =
      let (out, s, w) = read_udp os standalone buffer size srv.socket srv.objects.world in
      let srv' : UdpServer = record srv {
        socket = s;
        objects = record (srv.objects) { world = w };
      } in
      (out, if is_neg out.0 then srv' else (get_peer s.remote_addr srv').1)

  -- A read that does not fail is of a valid socket, which it leaves valid.
  read_udp-is_valid :
      (buffer : Option (List ℕ)) (size : ℤ) (s : Socket) (w : World)
      → let (out, s', w') = read_udp os standalone buffer size s w in
        is_neg out.0 ≡ false → is_valid standalone s' ≡ true
  unfolding read_udp receive_datagram wait_for_readable is_valid
  read_udp-is_valid buffer size s w h = ground (arith, h)

  -- The last call has received from the descriptor, and the address is that of the sender.
  abbrev pub IsSender : ℤ → Sockaddr → History → Type 0
  IsSender fd peer [] = ⊥
  IsSender fd peer (call ∷ before) =
      (size : ℕ) × (call ≡ Syscall.recv_from fd size)
      × (is_neg (os.reply (call ∷ before)).value ≡ false)
      × (peer ≡ (os.reply (call ∷ before)).peer)

  -- The last call has waited for the descriptor in vain, or the address is that of the last sender.
  abbrev pub IsLatest : ℤ → Sockaddr → Sockaddr → History → Type 0
  IsLatest fd old peer (Syscall.select_readable fd' limit ∷ before) =
      (is_zero (os.reply (Syscall.select_readable fd' limit ∷ before)).value ≡ true) × (peer ≡ old)
  IsLatest fd old peer calls = IsSender fd peer calls

  receive_datagram-IsLatest :
      (old : Sockaddr) (buffer : List ℕ) (size : ℕ) (s : Socket) (w : World)
      → let (out, s', w') = receive_datagram os standalone buffer size s w in
        is_neg out.0 ≡ false → IsLatest s.sockfd old s'.remote_addr w'.calls
  unfolding receive_datagram
  receive_datagram-IsLatest old buffer size s w =
      let call = Syscall.recv_from s.sockfd size in
      elim (Bool-cases (is_neg (answer os call w).value)) [
        | inl failed ↦ rw (failed, receive_datagram) (λ h. absurd (ground (arith, h, failed)))
        | inr came ↦ rw (came, receive_datagram) (λ h. (size, refl, came, refl))
      ]

  read_udp-IsLatest :
      (buffer : Option (List ℕ)) (size : ℤ) (s : Socket) (w : World)
      → let (out, s', w') = read_udp os standalone buffer size s w in
        is_neg out.0 ≡ false → IsLatest s.sockfd s.remote_addr s'.remote_addr w'.calls
  unfolding read_udp wait_for_readable
  read_udp-IsLatest buffer size s w =
      let n = to_ℕ size in
      let bytes = bytes_of buffer in
      let wait = Syscall.select_readable s.sockfd s.read_timeout_ms in
      let w₁ : World = record { calls = wait ∷ w.calls; errno = w.errno } in
      let bad = not (is_some buffer) || not (is_valid standalone s) || is_nonpos size in
      elim (Bool-cases bad) [
        | inl refused ↦ rw (refused, read_udp) (λ h. absurd (ground (arith, h)))
        | inr fine ↦ elim (Bool-cases (is_positive s.read_timeout_ms)) [
          | inr none_ ↦
              rw (fine, none_, read_udp) (receive_datagram-IsLatest s.remote_addr bytes n s w)
          | inl limit ↦
              let wants : is_nonpos s.read_timeout_ms ≡ false = ground (arith, limit) in
              elim (Bool-cases (is_zero (answer os wait w).value)) [
                | inl over ↦ rw (fine, limit, wants, over, read_udp) (λ h. (over, refl))
                | inr ended ↦ elim (Bool-cases (is_neg (answer os wait w).value)) [
                  | inl broken ↦
                      rw (fine, limit, wants, ended, broken, read_udp)
                        (λ h. absurd (ground (arith, h)))
                  | inr ready ↦
                      rw (fine, limit, wants, ended, ready, read_udp)
                        (receive_datagram-IsLatest s.remote_addr bytes n s w₁)
                ]
              ]
        ]
      ]

  -- What the search for an address finds in a server.
  abbrev pub peer_of : Sockaddr → UdpServer → Option ℕ
  peer_of remote srv = find_udp_peer os remote srv.peers.members.sockets srv.objects

  found_some :
      (remote : Sockaddr) (r : Option ℕ) (p : Peers) (o : Objects)
      → is_some r ≡ true
      → IsFound os remote r p o
      → is_some (find_udp_peer os remote p.members.sockets o) ≡ true
  found_some remote none p o h f = cc
  found_some remote (some ref) p o h f = ap is_some f

  -- A server with well-formed peers, fewer than an `unsigned int` counts, keeps them well formed when
  -- it reads. After a read that does not fail, the remote address of the server is the sender's of the
  -- datagram that was received by the last call, or as it was when the wait for one was in vain; and
  -- there is a peer with that address, if it is an internet address.
  pub read_server-IsPeers :
      (buffer : Option (List ℕ)) (size : ℤ) (srv : UdpServer)
      → IsPeers os srv.peers srv.objects
      → length srv.peers.owned < 4294967296
      → let (out, srv') = read_server buffer size srv in
        let (got, s, w) = read_udp os standalone buffer size srv.socket srv.objects.world in
        IsPeers os srv'.peers srv'.objects
        × (is_neg out.0 ≡ false
            → IsLatest srv.socket.sockfd srv.socket.remote_addr srv'.socket.remote_addr w.calls)
        × (is_neg out.0 ≡ false
            → is_internet (ss_family srv'.socket.remote_addr) ≡ true
            → is_some (peer_of srv'.socket.remote_addr srv') ≡ true)
  unfolding read_server get_peer
  read_server-IsPeers buffer size srv q small =
      let a = read_udp os standalone buffer size srv.socket srv.objects.world in
      let o : Objects = record (srv.objects) { world = a.2 } in
      let q' : IsPeers os srv.peers o = record {
        owner = q.owner;
        below = q.below;
        unique = q.unique;
      } in
      let kept =
        get_or_create_udp_peer-IsPeers os a.1 srv.ref a.1.remote_addr srv.peers o q' small in
      elim (Bool-cases (is_neg a.0.0)) [
        | inl failed ↦
            rw (failed, read_server)
              (q', λ h. absurd (ground (arith, h)), λ h known. absurd (ground (arith, h)))
        | inr came ↦
            rw (came, read_server)
              (
                kept.0,
                λ h. read_udp-IsLatest buffer size srv.socket srv.objects.world came,
                λ h known.
                    found_some a.1.remote_addr _ _ _
                      (kept.2
                        ∙ ground (
                          arith,
                          known,
                          read_udp-is_valid buffer size srv.socket srv.objects.world came,
                        ))
                      kept.1,
              )
      ]
