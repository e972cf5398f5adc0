-- ===== src/Tests/Datagrams.antt =====
-- The theorems about UDP sockets and the peers of a UDP server, on a platform where every call succeeds.
use libaeon.Prelude.{
  ℕ, ◌≡◌, ◌↔◌, ◌&&◌, refl, true, false, some, List, [], ◌∷◌, ◌++◌, pos, take, is_neg, is_some,
  arith,
}
use libaeon.Platform.{Family, Sockaddr, ss_family}
use libaeon.PeerCollection.{no_peers}
use libaeon.Socket.{Socket}
use libaeon.Socket.Connect.{is_internet}
use libaeon.Socket.Descriptors.{Balanced}
use libaeon.Udp.{standalone, is_valid, Link}
use libaeon.Udp.Setup.{udp_connect_host, udp_listen}
use libaeon.Udp.Transfer.{read_udp, send_datagram, mapped_prefix}
use libaeon.Udp.Descriptors.{udp_connect_host-Balanced}
use libaeon.Udp.Ends.{ListenEnds, udp_listen-ListenEnds}
use libaeon.Udp.Peers.{Objects, same_udp_address, get_or_create_udp_peer}
use libaeon.Udp.Endpoint.{OneEndpoint, same_udp_address-OneEndpoint}
use libaeon.Udp.Sending.{SendEnds, send_datagram-SendEnds}
use libaeon.Udp.Uniqueness.{IsPeers, IsFound, get_or_create_udp_peer-IsPeers}
use libaeon.Udp.Server.{UdpServer, read_server, peer_of, IsLatest, read_server-IsPeers}
use libaeon.Tests.Systems.{kind_os, kind_os-IsPosix, fresh_world, peer_addr, sample}
use libaeon.Tests.Sockets.{open_socket}

abbrev host_name : List ℕ
host_name = 97 ∷ 46 ∷ 98 ∷ []

udp_connect_host-Balanced_example :
    let (r, s', w') = udp_connect_host kind_os (some host_name) (pos 53) open_socket fresh_world in
    Balanced kind_os 3 open_socket fresh_world s' w'
udp_connect_host-Balanced_example =
    udp_connect_host-Balanced kind_os 3 (some host_name) (pos 53) open_socket fresh_world

udp_listen-ListenEnds_example :
    let (r, s', w') = udp_listen kind_os (pos 53) open_socket fresh_world in
    ListenEnds kind_os (pos 53) open_socket r s' w'
udp_listen-ListenEnds_example = udp_listen-ListenEnds kind_os (pos 53) open_socket fresh_world

abbrev mapped_addr : Sockaddr
mapped_addr = Sockaddr.inet6 80 (mapped_prefix ++ 127 ∷ 0 ∷ 0 ∷ 1 ∷ []) 0

same_udp_address-OneEndpoint_example :
    (same_udp_address kind_os mapped_addr peer_addr ≡ true)
    ↔ OneEndpoint kind_os mapped_addr peer_addr
same_udp_address-OneEndpoint_example = same_udp_address-OneEndpoint kind_os mapped_addr peer_addr

-- An IPv6 listener, and a peer of it with an IPv4 address.
abbrev listener : Socket
listener = record open_socket { net_family = Family.ipv6 }

abbrev peer_link : Link
peer_link = record { parent = some listener; peer_active = true }

abbrev peer_base : Socket
peer_base = record open_socket { remote_addr = peer_addr; net_family = Family.ipv4 }

send_datagram-SendEnds_example :
    let (r, s', w') = send_datagram kind_os peer_link (some sample) (pos 2) peer_base fresh_world in
    SendEnds kind_os kind_os-IsPosix peer_link peer_base fresh_world (take 2 sample) r s' w'
send_datagram-SendEnds_example =
    send_datagram-SendEnds kind_os kind_os-IsPosix peer_link peer_base fresh_world (some sample)
      (pos 2) refl

abbrev no_objects : Objects
no_objects = record {
  object = λ _. record { base = open_socket; link = standalone };
  next_ref = 0;
  world = fresh_world;
}

no_peers-IsPeers : IsPeers kind_os no_peers no_objects
no_peers-IsPeers = record {
  owner = record { agrees = refl; distinct = tt };
  below = refl;
  unique = refl;
}

get_or_create_udp_peer-IsPeers_example :
    let (r, p', o') = get_or_create_udp_peer kind_os listener 9 peer_addr no_peers no_objects in
    IsPeers kind_os p' o'
    × IsFound kind_os peer_addr r p' o'
    × (is_some r ≡ (is_valid standalone listener && is_internet (ss_family peer_addr)))
get_or_create_udp_peer-IsPeers_example =
    get_or_create_udp_peer-IsPeers kind_os listener 9 peer_addr no_peers no_objects no_peers-IsPeers
      (omega arith)

abbrev server : UdpServer
server = record { socket = listener; ref = 9; peers = no_peers; objects = no_objects }

read_server-IsPeers_example :
    let (out, srv') = read_server kind_os (some sample) (pos 4) server in
    let (got, s, w) =
      read_udp kind_os standalone (some sample) (pos 4) server.socket server.objects.world in
    IsPeers kind_os srv'.peers srv'.objects
    × (is_neg out.0 ≡ false
        → IsLatest kind_os server.socket.sockfd server.socket.remote_addr srv'.socket.remote_addr
            w.calls)
    × (is_neg out.0 ≡ false
        → is_internet (ss_family srv'.socket.remote_addr) ≡ true
        → is_some (peer_of kind_os srv'.socket.remote_addr srv') ≡ true)
read_server-IsPeers_example =
    read_server-IsPeers kind_os (some sample) (pos 4) server no_peers-IsPeers (omega arith)
