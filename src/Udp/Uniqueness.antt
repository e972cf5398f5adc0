-- ===== src/Udp/Uniqueness.antt =====
-- A UDP server (src/udp_server_socket.cpp) has one peer for an endpoint.
use libaeon.Prelude.{
  ℕ, ◌+◌, ◌<◌, ◌≡◌, refl, sym, ap, ◌∙◌, true, false, ◌&&◌, Option, none, some, ◌==◌, length,
  if◌then◌else◌, is_some, arith, Bool-cases, inl, inr, ==-refl, ==→eq,
}
use libaeon.Platform.{Platform, Sockaddr, ss_family, World}
use libaeon.PeerCollection.{Peers, add_peer, remove_owned_peer, detach, contains, erase_first}
use libaeon.PeerCollection.Ownership.{IsOwner, add_peer-IsOwner, detach-IsOwner}
use libaeon.SocketSet
use libaeon.Socket.{Socket, close}
use libaeon.Socket.Connect.{is_internet}
use libaeon.Udp.{UdpSocket, standalone, is_valid, create_peer, close_udp}
use libaeon.Udp.Peers.{
  same_udp_address, Objects, put, address_of, find_udp_peer, is_valid_peer, close_peer,
  create_udp_peer, reuse_udp_peer, get_or_create_udp_peer,
}
use libaeon.Udp.Endpoint.{same_udp_address-OneEndpoint, host_of-is_internet}
use libaeon.Udp.Matching.{
  no_match, one_each, all_below, Agree, one_each-append, all_below-append, all_below-contains,
  all_below-erase_first, one_each-erase_first, no_match-erase_first, find_udp_peer-none,
  find_udp_peer-some, find_udp_peer-append, no_match-Agree, one_each-Agree,
}

put_here : (ref : ℕ) (u : UdpSocket) (o : Objects) → (put ref u o).object ref ≡ u
put_here ref u o = ap (λ b. if b then u else o.object ref) (==-refl ref)

put_other :
    (ref : ℕ) (u : UdpSocket) (o : Objects) (k : ℕ)
    → (k == ref) ≡ false
    → (put ref u o).object k ≡ o.object k
put_other ref u o k h = ap (λ b. if b then u else o.object k) h

module _ (os : Platform) where
  -- The peers are owned and members, were all made before, and no two of them have one endpoint.
  pub record IsPeers (p : Peers) (o : Objects) : Type 0 where
    pub owner : IsOwner p
    pub below : all_below os o.next_ref p.owned ≡ true
    pub unique : one_each os (address_of os o) p.owned ≡ true

  -- A peer that is returned is the one that a search for the address finds.
  abbrev pub IsFound : Sockaddr → Option ℕ → Peers → Objects → Type 0
  IsFound remote none p o = Unit
  IsFound remote (some ref) p o = find_udp_peer os remote p.members.sockets o ≡ some ref

  created : Socket → ℕ → Sockaddr → Objects → Objects
  created server server_ref remote o =
      let (u, w) = create_peer os server server_ref remote o.world in
      record (put o.next_ref u o) { next_ref = o.next_ref + 1; world = w }

  created-Agree :
      (server : Socket) (server_ref : ℕ) (remote : Sockaddr) (o : Objects)
      → Agree os o.next_ref (address_of os o) (address_of os (created server server_ref remote o))
  unfolding created
  created-Agree server server_ref remote o k h = elim (Bool-cases (k == o.next_ref)) [
    | inl same ↦ absurd (ground (arith, h, same))
    | inr other ↦
        ap (λ (u : UdpSocket). u.base.remote_addr)
          (put_other o.next_ref (create_peer os server server_ref remote o.world).0 o k other)
  ]

  created-remote :
      (server : Socket) (server_ref : ℕ) (remote : Sockaddr) (o : Objects)
      → address_of os (created server server_ref remote o) o.next_ref ≡ remote
  unfolding created create_peer
  created-remote server server_ref remote o =
      ap (λ (u : UdpSocket). u.base.remote_addr)
        (put_here o.next_ref (create_peer os server server_ref remote o.world).0 o)

  create_udp_peer-IsPeers :
      (server : Socket) (server_ref : ℕ) (remote : Sockaddr) (p : Peers) (o : Objects)
      → IsPeers p o
      → no_match os (address_of os o) remote p.owned ≡ true
      → let (r, p', o') = create_udp_peer os server server_ref remote p o in
        IsPeers p' o' × IsFound remote r p' o' × (is_some r ≡ is_internet (ss_family remote))
  unfolding create_udp_peer created add_peer SocketSet.add
  create_udp_peer-IsPeers server server_ref remote p o q fresh =
      elim (Bool-cases (is_internet (ss_family remote))) [
        | inr foreign_ ↦ rw (foreign_, create_udp_peer) (q, tt, refl)
        | inl known ↦
            let o' = created server server_ref remote o in
            let agree = created-Agree server server_ref remote o in
            let at_new = created-remote server server_ref remote o in
            let apart : no_match os (address_of os o') remote p.owned ≡ true =
              no_match-Agree os o.next_ref (address_of os o) (address_of os o') remote p.owned agree
                q.below
              ∙ fresh in
            let same : same_udp_address os (address_of os o' o.next_ref) remote ≡ true =
              ap (λ a. same_udp_address os a remote) at_new
              ∙ (same_udp_address-OneEndpoint os remote remote).1 (refl, (known, refl)) in
            rw (known, create_udp_peer)
              (
                record {
                  owner =
                      add_peer-IsOwner o.next_ref p q.owner
                        (all_below-contains os o.next_ref p.owned q.below);
                  below = all_below-append os o.next_ref p.owned q.below;
                  unique =
                      one_each-append os (address_of os o') p.owned o.next_ref
                        (one_each-Agree os o.next_ref (address_of os o) (address_of os o') p.owned
                            agree q.below
                          ∙ q.unique)
                        (ap (λ a. no_match os (address_of os o') a p.owned) at_new ∙ apart);
                },
                find_udp_peer-append os remote p.members.sockets o' o.next_ref
                    (ap (no_match os (address_of os o') remote) q.owner.agrees ∙ apart) same,
                refl,
              )
      ]

  -- A peer that is closed keeps its address.
  close_udp-remote :
      (u : UdpSocket) (w : World) → (close_udp os u w).1.base.remote_addr ≡ u.base.remote_addr
  unfolding close_udp close
  close_udp-remote u w = ground arith

  close_peer-address :
      (ref : ℕ) (p : Peers) (o : Objects) (k : ℕ)
      → address_of os (close_peer os ref p o).2 k ≡ address_of os o k
  unfolding close_peer
  close_peer-address ref p o k =
      let u = (close_udp os (o.object ref) o.world).1 in
      elim (Bool-cases (k == ref)) [
        | inr other ↦ ap (λ (u : UdpSocket). u.base.remote_addr) (put_other ref u o k other)
        | inl same ↦
            ap (λ n. address_of os (put ref u o) n) (==→eq k ref same)
            ∙ ap (λ (u : UdpSocket). u.base.remote_addr) (put_here ref u o)
            ∙ close_udp-remote (o.object ref) o.world
            ∙ ap (address_of os o) (sym (==→eq k ref same))
      ]

  -- An inactive peer is retired before another takes its endpoint.
  remove_owned_peer-IsPeers :
      (remote : Sockaddr) (ref : ℕ) (p : Peers) (o : Objects)
      → IsPeers p o
      → length p.owned < 4294967296
      → contains ref p.owned ≡ true
      → same_udp_address os (address_of os o ref) remote ≡ true
      → let (r, p', o') = remove_owned_peer (close_peer os) (some ref) p o in
        IsPeers p' o' × (no_match os (address_of os o') remote p'.owned ≡ true)
  unfolding remove_owned_peer close_peer detach
  remove_owned_peer-IsPeers remote ref p o q small within same =
      let o' = (close_peer os ref (detach ref p) o).2 in
      let rest = erase_first ref p.owned in
      let agree : Agree os o.next_ref (address_of os o) (address_of os o') =
        λ k h. close_peer-address ref (detach ref p) o k in
      let below = all_below-erase_first os o.next_ref ref p.owned q.below in
      rw (within, remove_owned_peer)
        (
          record {
            owner = (detach-IsOwner ref p q.owner small).0;
            below = below;
            unique =
                one_each-Agree os o.next_ref (address_of os o) (address_of os o') rest agree below
                ∙ one_each-erase_first os (address_of os o) ref p.owned q.unique;
          },
          no_match-Agree os o.next_ref (address_of os o) (address_of os o') remote rest agree below
              ∙ no_match-erase_first os (address_of os o) remote ref p.owned q.unique within same,
        )

  reuse_udp_peer-IsPeers :
      (server : Socket) (server_ref : ℕ) (remote : Sockaddr) (found : Option ℕ) (p : Peers)
      (o : Objects)
      → IsPeers p o
      → length p.owned < 4294967296
      → find_udp_peer os remote p.members.sockets o ≡ found
      → let (r, p', o') = reuse_udp_peer os server server_ref remote found p o in
        IsPeers p' o' × IsFound remote r p' o' × (is_some r ≡ is_internet (ss_family remote))
  unfolding reuse_udp_peer
  reuse_udp_peer-IsPeers server server_ref remote none p o q small e =
      create_udp_peer-IsPeers server server_ref remote p o q (
        ap (no_match os (address_of os o) remote) (sym q.owner.agrees)
        ∙ find_udp_peer-none os remote p.members.sockets o e)
  reuse_udp_peer-IsPeers server server_ref remote (some ref) p o q small e =
      let (within, same) = find_udp_peer-some os remote p.members.sockets o ref e in
      elim (Bool-cases (is_valid_peer os server ref o)) [
        | inl active ↦
            let (ports, (known, hosts)) =
              (same_udp_address-OneEndpoint os (address_of os o ref) remote).0 same in
            rw (active, reuse_udp_peer)
              (q, e, sym (host_of-is_internet os (address_of os o ref) remote hosts known))
        | inr gone ↦
            let kept =
              remove_owned_peer-IsPeers remote ref p o q small
                (ap (contains ref) (sym q.owner.agrees) ∙ within) same in
            let out = remove_owned_peer (close_peer os) (some ref) p o in
            rw (gone, reuse_udp_peer)
              (create_udp_peer-IsPeers server server_ref remote out.1 out.2 kept.0 kept.1)
      ]

  -- On well-formed peers, fewer than an `unsigned int` counts: `get_or_create_udp_peer` keeps them so,
  -- with one peer at most for an endpoint; it returns a peer exactly if the server is valid and the
  -- address is of an internet family, and then the peer that a search for the address finds.
  pub get_or_create_udp_peer-IsPeers :
      (server : Socket) (server_ref : ℕ) (remote : Sockaddr) (p : Peers) (o : Objects)
      → IsPeers p o
      → length p.owned < 4294967296
      → let (r, p', o') = get_or_create_udp_peer os server server_ref remote p o in
        IsPeers p' o'
        × IsFound remote r p' o'
        × (is_some r ≡ (is_valid standalone server && is_internet (ss_family remote)))
  unfolding get_or_create_udp_peer
  get_or_create_udp_peer-IsPeers server server_ref remote p o q small =
      elim (Bool-cases (is_valid standalone server)) [
        | inr invalid ↦ rw (invalid, get_or_create_udp_peer) (q, tt, refl)
        | inl valid ↦
            rw (valid, get_or_create_udp_peer)
              (reuse_udp_peer-IsPeers server server_ref remote
                (find_udp_peer os remote p.members.sockets o) p o q small refl)
      ]
