-- ===== src/Udp/Endpoint.antt =====
-- When two addresses are one UDP endpoint (src/udp_server_socket.cpp, `same_udp_address`).
use libaeon.Prelude.{
  ℕ, ◌≡◌, ◌↔◌, refl, sym, ap, ◌∙◌, subst, true, Option, none, some, List, [], ◌++◌, take, drop,
  bytes_eq, bytes_eq_refl, bytes_eq→eq, ==→eq, ==-refl, arith, take-append-drop,
}
use libaeon.Platform.{Platform, Family, Sockaddr, ss_family}
use libaeon.Address.{get_port}
use libaeon.Socket.Connect.{is_internet}
use libaeon.Udp.Transfer.{mapped_prefix, target_address}
use libaeon.Udp.Peers.{same_udp_address, same_host, is_mapped}

-- The host that an address stands for, as the scope and the bytes of an IPv6 address.
abbrev pub host_of : Sockaddr → Option (ℕ × List ℕ)
host_of (Sockaddr.inet _ bytes) = some (0, mapped_prefix ++ bytes)
host_of (Sockaddr.inet6 _ bytes scope) = some (scope, bytes)
host_of _ = none

is_mapped→eq :
    (v6 v4 : List ℕ) (scope : ℕ)
    → is_mapped v6 scope v4 ≡ true
    → (scope ≡ 0) × (v6 ≡ mapped_prefix ++ v4)
is_mapped→eq v6 v4 scope h =
    let front = bytes_eq→eq (take 12 v6) mapped_prefix (ground (arith, h)) in
    let back = bytes_eq→eq (drop 12 v6) v4 (ground (arith, h)) in
    (
      ==→eq scope 0 (ground (arith, h)),
      sym (take-append-drop 12 v6)
          ∙ ap (λ l. l ++ drop 12 v6) front
          ∙ ap (λ l. mapped_prefix ++ l) back,
    )

is_mapped_refl : (v4 : List ℕ) → is_mapped (mapped_prefix ++ v4) 0 v4 ≡ true
is_mapped_refl v4 = bytes_eq_refl v4

scope_of : Option (ℕ × List ℕ) → ℕ
scope_of none = 0
scope_of (some (scope, bytes)) = scope

bytes_of_host : Option (ℕ × List ℕ) → List ℕ
bytes_of_host none = []
bytes_of_host (some (scope, bytes)) = bytes

-- Two addresses of one host.
abbrev pub OneHost : Sockaddr → Sockaddr → Type 0
OneHost a b = (is_internet (ss_family a) ≡ true) × (host_of a ≡ host_of b)

same_host→OneHost : (a b : Sockaddr) → same_host a b ≡ true → OneHost a b
unfolding same_host
same_host→OneHost (Sockaddr.inet _ x) (Sockaddr.inet _ y) h =
    (refl, ap (λ l. some (0, mapped_prefix ++ l)) (bytes_eq→eq x y h))
same_host→OneHost (Sockaddr.inet _ x) (Sockaddr.inet6 _ y s) h =
    let (zero_, same) = is_mapped→eq y x s h in (refl, cc (zero_, same))
same_host→OneHost (Sockaddr.inet6 _ x s) (Sockaddr.inet _ y) h =
    let (zero_, same) = is_mapped→eq x y s h in (refl, cc (zero_, same))
same_host→OneHost (Sockaddr.inet6 _ x s) (Sockaddr.inet6 _ y t) h =
    let scopes = ==→eq s t (ground (arith, h)) in
    let bytes = bytes_eq→eq x y (ground (arith, h)) in (refl, cc (scopes, bytes))
same_host→OneHost (Sockaddr.inet _ x) Sockaddr.empty h = cc
same_host→OneHost (Sockaddr.inet _ x) (Sockaddr.opaque k) h = cc
same_host→OneHost (Sockaddr.inet6 _ x s) Sockaddr.empty h = cc
same_host→OneHost (Sockaddr.inet6 _ x s) (Sockaddr.opaque k) h = cc
same_host→OneHost Sockaddr.empty b h = cc
same_host→OneHost (Sockaddr.opaque k) b h = cc

OneHost→same_host : (a b : Sockaddr) → OneHost a b → same_host a b ≡ true
unfolding same_host bytes_of_host scope_of
OneHost→same_host (Sockaddr.inet _ x) (Sockaddr.inet _ y) (known, h) =
    ap (λ l. bytes_eq x (drop 12 l)) (sym (ap bytes_of_host h)) ∙ bytes_eq_refl x
OneHost→same_host (Sockaddr.inet _ x) (Sockaddr.inet6 _ y s) (known, h) =
    ap (λ n. is_mapped y n x) (sym (ap scope_of h))
    ∙ ap (λ l. is_mapped l 0 x) (sym (ap bytes_of_host h))
    ∙ is_mapped_refl x
OneHost→same_host (Sockaddr.inet6 _ x s) (Sockaddr.inet _ y) (known, h) =
    ap (λ n. is_mapped x n y) (ap scope_of h)
    ∙ ap (λ l. is_mapped l 0 y) (ap bytes_of_host h)
    ∙ is_mapped_refl y
OneHost→same_host (Sockaddr.inet6 _ x s) (Sockaddr.inet6 _ y t) (known, h) =
    ground (
      arith,
      ap scope_of h,
      ap (λ l. bytes_eq x l) (ap bytes_of_host h),
      bytes_eq_refl x,
      ==-refl s,
    )
OneHost→same_host (Sockaddr.inet _ x) Sockaddr.empty (known, h) = cc
OneHost→same_host (Sockaddr.inet _ x) (Sockaddr.opaque k) (known, h) = cc
OneHost→same_host (Sockaddr.inet6 _ x s) Sockaddr.empty (known, h) = cc
OneHost→same_host (Sockaddr.inet6 _ x s) (Sockaddr.opaque k) (known, h) = cc
OneHost→same_host Sockaddr.empty b (known, h) = cc
OneHost→same_host (Sockaddr.opaque k) b (known, h) = cc

module _ (os : Platform) where
  -- Two addresses are one endpoint.
  abbrev pub OneEndpoint : Sockaddr → Sockaddr → Type 0
  OneEndpoint a b = (get_port os a ≡ get_port os b) × OneHost a b

  -- `same_udp_address` holds exactly of internet addresses with the same port that stand for the same
  -- host: the same IPv6 address and scope, where an IPv4 address is the IPv6 address it is mapped to.
  pub same_udp_address-OneEndpoint :
      (a b : Sockaddr) → (same_udp_address os a b ≡ true) ↔ OneEndpoint a b
  unfolding same_udp_address
  same_udp_address-OneEndpoint a b = (forth, back)
    where
      forth : same_udp_address os a b ≡ true → OneEndpoint a b
      forth h = (
        ==→eq (get_port os a) (get_port os b) (ground (arith, h)),
        same_host→OneHost a b (ground (arith, h)),
      )

      back : OneEndpoint a b → same_udp_address os a b ≡ true
      back (ports, hosts) =
          ground (arith, ports, OneHost→same_host a b hosts, ==-refl (get_port os a))

  pub host_of-is_internet :
      (a b : Sockaddr)
      → host_of a ≡ host_of b
      → is_internet (ss_family a) ≡ true
      → is_internet (ss_family b) ≡ true
  host_of-is_internet a (Sockaddr.inet _ y) h known = refl
  host_of-is_internet a (Sockaddr.inet6 _ y s) h known = refl
  host_of-is_internet (Sockaddr.inet _ x) Sockaddr.empty h known = cc
  host_of-is_internet (Sockaddr.inet6 _ x s) Sockaddr.empty h known = cc
  host_of-is_internet (Sockaddr.inet _ x) (Sockaddr.opaque k) h known = cc
  host_of-is_internet (Sockaddr.inet6 _ x s) (Sockaddr.opaque k) h known = cc
  host_of-is_internet Sockaddr.empty (Sockaddr.opaque k) h known = cc
  host_of-is_internet Sockaddr.empty Sockaddr.empty h known = cc
  host_of-is_internet (Sockaddr.opaque k) Sockaddr.empty h known = cc
  host_of-is_internet (Sockaddr.opaque k) (Sockaddr.opaque m) h known = cc

  -- Addresses that are one endpoint with a third are one endpoint with each other.
  pub same_udp_address-euclidean :
      (a b c : Sockaddr)
      → same_udp_address os a c ≡ true
      → same_udp_address os b c ≡ true
      → same_udp_address os a b ≡ true
  same_udp_address-euclidean a b c h k =
      let (ports, (known, hosts)) = (same_udp_address-OneEndpoint a c).0 h in
      let (ports', (known', hosts')) = (same_udp_address-OneEndpoint b c).0 k in
      (same_udp_address-OneEndpoint a b).1 (ports ∙ sym ports', (known, hosts ∙ sym hosts'))

  sent_as :
      (target u sent : Sockaddr)
      → some u ≡ some sent
      → OneEndpoint target u
      → OneEndpoint target sent
  sent_as target u sent h one = let e : u ≡ sent = cc in subst (λ v. OneEndpoint target v) e one

  target_address-OneEndpoint :
      (family : Family) (target sent : Sockaddr)
      → is_internet (ss_family target) ≡ true
      → target_address family target ≡ some sent
      → OneEndpoint target sent
  unfolding target_address
  target_address-OneEndpoint Family.ipv4 (Sockaddr.inet p x) sent known h =
      sent_as (Sockaddr.inet p x) (Sockaddr.inet p x) sent h (refl, (refl, refl))
  target_address-OneEndpoint Family.ipv6 (Sockaddr.inet p x) sent known h =
      sent_as (Sockaddr.inet p x) (Sockaddr.inet6 p (mapped_prefix ++ x) 0) sent h
        (refl, (refl, refl))
  target_address-OneEndpoint Family.ipv6 (Sockaddr.inet6 p x s) sent known h =
      sent_as (Sockaddr.inet6 p x s) (Sockaddr.inet6 p x s) sent h (refl, (refl, refl))
  target_address-OneEndpoint Family.ipv4 (Sockaddr.inet6 p x s) sent known h =
      absurd (ground (arith, h))
  target_address-OneEndpoint Family.unspec (Sockaddr.inet p x) sent known h =
      absurd (ground (arith, h))
  target_address-OneEndpoint Family.unspec (Sockaddr.inet6 p x s) sent known h =
      absurd (ground (arith, h))
  target_address-OneEndpoint (Family.foreign k) (Sockaddr.inet p x) sent known h =
      absurd (ground (arith, h))
  target_address-OneEndpoint (Family.foreign k) (Sockaddr.inet6 p x s) sent known h =
      absurd (ground (arith, h))
  target_address-OneEndpoint f Sockaddr.empty sent known h = absurd (ground (arith, known))
  target_address-OneEndpoint f (Sockaddr.opaque k) sent known h = absurd (ground (arith, known))

  -- A datagram is sent to the endpoint that the socket has as its destination, whatever the families of
  -- the two: as it is, or as the mapped address.
  pub target_address-same :
      (family : Family) (target sent : Sockaddr)
      → is_internet (ss_family target) ≡ true
      → target_address family target ≡ some sent
      → same_udp_address os target sent ≡ true
  target_address-same family target sent known h =
      (same_udp_address-OneEndpoint target sent).1
        (target_address-OneEndpoint family target sent known h)

  -- A socket of an internet family sends to internet addresses only.
  pub target_address-is_internet :
      (family : Family) (target sent : Sockaddr)
      → is_internet family ≡ true
      → target_address family target ≡ some sent
      → is_internet (ss_family target) ≡ true
  unfolding target_address
  target_address-is_internet f (Sockaddr.inet p x) sent known h = refl
  target_address-is_internet f (Sockaddr.inet6 p x s) sent known h = refl
  target_address-is_internet Family.ipv4 Sockaddr.empty sent known h = absurd (ground (arith, h))
  target_address-is_internet Family.ipv6 Sockaddr.empty sent known h = absurd (ground (arith, h))
  target_address-is_internet Family.ipv4 (Sockaddr.opaque k) sent known h =
      absurd (ground (arith, h))
  target_address-is_internet Family.ipv6 (Sockaddr.opaque k) sent known h =
      absurd (ground (arith, h))
  target_address-is_internet Family.unspec Sockaddr.empty sent known h =
      absurd (ground (arith, known))
  target_address-is_internet (Family.foreign j) Sockaddr.empty sent known h =
      absurd (ground (arith, known))
  target_address-is_internet Family.unspec (Sockaddr.opaque k) sent known h =
      absurd (ground (arith, known))
  target_address-is_internet (Family.foreign j) (Sockaddr.opaque k) sent known h =
      absurd (ground (arith, known))
