-- ===== src/Address/Choice.antt =====
-- Which address a name resolves to (src/resolver.cpp), and ports (src/address.cpp).
use libaeon.Prelude.{
  ℕ, ◌≡◌, refl, Bool, Option, none, some, List, [], ◌∷◌, is_zero, if◌then◌else◌, arith,
}
use libaeon.Platform.{Platform, World, Sockaddr, Syscall, answer}
use libaeon.Address.{is_ipv4, is_ipv6, or_else, collect, resolve_internal}

-- The first address that passes a test.
abbrev pub first : (Sockaddr → Bool) → List Sockaddr → Option Sockaddr
first test [] = none
first test (a ∷ rest) = if test a then some a else first test rest

collect-first :
    (found : List Sockaddr) (six four : Option Sockaddr)
    → collect found (record { ipv6_addr = six; ipv4_addr = four }) ≡ record {
      ipv6_addr = or_else six (first is_ipv6 found);
      ipv4_addr = or_else four (first is_ipv4 found);
    }
unfolding collect
collect-first [] none none = refl
collect-first [] none (some b) = refl
collect-first [] (some a) none = refl
collect-first [] (some a) (some b) = refl
collect-first (Sockaddr.empty ∷ rest) six four = collect-first rest six four
collect-first (Sockaddr.opaque k ∷ rest) six four = collect-first rest six four
collect-first (Sockaddr.inet p bytes ∷ rest) six none =
    collect-first rest six (some (Sockaddr.inet p bytes))
collect-first (Sockaddr.inet p bytes ∷ rest) six (some b) = collect-first rest six (some b)
collect-first (Sockaddr.inet6 p bytes scope ∷ rest) none four =
    collect-first rest (some (Sockaddr.inet6 p bytes scope)) four
collect-first (Sockaddr.inet6 p bytes scope ∷ rest) (some a) four = collect-first rest (some a) four

-- A name resolves to the first IPv6 address that the system finds for it, without one to the first
-- IPv4 address, and otherwise, or when the system finds nothing, the resolver throws.
pub resolve_internal-first :
    (os : Platform) (hostname : List ℕ) (w : World)
    → let r = answer os (Syscall.getaddrinfo hostname none) w in
      (resolve_internal os hostname w).0
      ≡ (if is_zero r.value then or_else (first is_ipv6 r.found) (first is_ipv4 r.found) else none)
unfolding resolve_internal
resolve_internal-first os hostname w =
    ground (arith, collect-first (answer os (Syscall.getaddrinfo hostname none) w).found none none)
