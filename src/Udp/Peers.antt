-- ===== src/Udp/Peers.antt =====
-- The peers of a UDP server (src/udp_server_socket.cpp): one for each remote endpoint. The objects of
-- the peers are kept by their identities.
use libaeon.Prelude.{
  ℕ, ◌+◌, Bool, false, not, ◌&&◌, Option, none, some, List, [], ◌∷◌, ◌==◌, if◌then◌else◌, take,
  drop, bytes_eq,
}
use libaeon.Platform.{Platform, World, Sockaddr, ss_family}
use libaeon.Address.{get_port}
use libaeon.PeerCollection.{Peers, add_peer, remove_owned_peer}
use libaeon.Socket.{Socket}
use libaeon.Socket.Connect.{is_internet}
use libaeon.Udp.{UdpSocket, standalone, is_valid, create_peer, close_udp}
use libaeon.Udp.Transfer.{mapped_prefix}

-- The IPv6 address stands for the IPv4 address.
abbrev pub is_mapped : List ℕ → ℕ → List ℕ → Bool
is_mapped v6 scope v4 =
    scope == 0 && bytes_eq (take 12 v6) mapped_prefix && bytes_eq (drop 12 v6) v4

-- `same_udp_address`, but for the ports
unfoldable pub same_host : Sockaddr → Sockaddr → Bool
same_host (Sockaddr.inet _ a) (Sockaddr.inet _ b) = bytes_eq a b
same_host (Sockaddr.inet6 _ a s) (Sockaddr.inet6 _ b t) = s == t && bytes_eq a b
same_host (Sockaddr.inet6 _ a s) (Sockaddr.inet _ b) = is_mapped a s b
same_host (Sockaddr.inet _ a) (Sockaddr.inet6 _ b s) = is_mapped b s a
same_host _ _ = false

-- The objects of the peers, the identity that the next one gets, and the world.
pub record Objects : Type 0 where
  pub object : ℕ → UdpSocket
  pub next_ref : ℕ
  pub world : World

abbrev pub put : ℕ → UdpSocket → Objects → Objects
put ref u o = record o { object = λ k. if k == ref then u else o.object k }

module _ (os : Platform) where
  unfoldable pub same_udp_address : Sockaddr → Sockaddr → Bool
  same_udp_address a b = if not (get_port os a == get_port os b) then false else same_host a b

  abbrev pub address_of : Objects → ℕ → Sockaddr
  address_of o ref = (o.object ref).base.remote_addr

  -- The loop of `find_udp_peer` over the members.
  unfoldable pub find_udp_peer : Sockaddr → List ℕ → Objects → Option ℕ
  find_udp_peer remote [] o = none
  find_udp_peer remote (ref ∷ rest) o =
      if same_udp_address (address_of o ref) remote then some ref else find_udp_peer remote rest o

  -- `peer->is_valid_socket()`, with the server as it stands
  abbrev pub is_valid_peer : Socket → ℕ → Objects → Bool
  is_valid_peer server ref o =
      let u = o.object ref in is_valid (record u.link { parent = some server }) u.base

  -- `close` of a peer, which runs no handler
  unfoldable pub close_peer : ℕ → Peers → Objects → Bool × Peers × Objects
  close_peer ref p o =
      let (closed, u, w) = close_udp os (o.object ref) o.world in
      (closed, p, record (put ref u o) { world = w })

  -- `new udp_socket(server, remote)` and `add_peer`, for an internet address
  unfoldable pub create_udp_peer :
      Socket → ℕ → Sockaddr → Peers → Objects → Option ℕ × Peers × Objects
  create_udp_peer server server_ref remote p o =
      let (u, w) = create_peer os server server_ref remote o.world in
      let (added, p') = add_peer (some o.next_ref) p in
      if not (is_internet (ss_family remote))
      then (none, p, o)
      else (added, p', record (put o.next_ref u o) { next_ref = o.next_ref + 1; world = w })

  -- `get_or_create_udp_peer`, when a peer with the address was found
  unfoldable pub reuse_udp_peer :
      Socket → ℕ → Sockaddr → Option ℕ → Peers → Objects → Option ℕ × Peers × Objects
  reuse_udp_peer server server_ref remote none p o = create_udp_peer server server_ref remote p o
  reuse_udp_peer server server_ref remote (some existing) p o =
      if is_valid_peer server existing o
      then (some existing, p, o)
      else (let (_, p', o') = remove_owned_peer close_peer (some existing) p o in
          create_udp_peer server server_ref remote p' o')

  -- `get_or_create_udp_peer`
  unfoldable pub get_or_create_udp_peer :
      Socket → ℕ → Sockaddr → Peers → Objects → Option ℕ × Peers × Objects
  get_or_create_udp_peer server server_ref remote p o =
      if not (is_valid standalone server)
      then (none, p, o)
      else reuse_udp_peer server server_ref remote (find_udp_peer remote p.members.sockets o) p o
