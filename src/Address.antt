-- ===== src/Address.antt =====
-- Addresses and their resolution (src/address.cpp, src/resolver.cpp). An `address` is its storage: the
-- constructors give it the family of the storage. A thrown exception is `none`.
pub mod Choice
use libaeon.Prelude.{
  ℕ, Bool, true, false, not, Option, none, some, List, [], ◌∷◌, ℤ, is_zero, if◌then◌else◌,
}
use libaeon.Platform.{Platform, World, Family, Sockaddr, Syscall, answer, after}

abbrev pub is_ipv4 : Sockaddr → Bool
is_ipv4 (Sockaddr.inet _ _) = true
is_ipv4 _ = false

abbrev pub is_ipv6 : Sockaddr → Bool
is_ipv6 (Sockaddr.inet6 _ _ _) = true
is_ipv6 _ = false

-- `get_sockaddr_ipv4`, `get_sockaddr_ipv6`
abbrev pub get_sockaddr_ipv4 : Sockaddr → Option Sockaddr
get_sockaddr_ipv4 a = if is_ipv4 a then some a else none

abbrev pub get_sockaddr_ipv6 : Sockaddr → Option Sockaddr
get_sockaddr_ipv6 a = if is_ipv6 a then some a else none

-- What the loop over the results has found so far.
pub record Found : Type 0 where
  pub ipv6_addr : Option Sockaddr
  pub ipv4_addr : Option Sockaddr

abbrev pub keep_first : Option Sockaddr → Sockaddr → Option Sockaddr
keep_first none a = some a
keep_first (some b) a = some b

abbrev pub or_else : Option Sockaddr → Option Sockaddr → Option Sockaddr
or_else none second = second
or_else (some a) second = some a

unfoldable pub collect : List Sockaddr → Found → Found
collect [] found = found
collect (p ∷ rest) found = collect rest (
    if is_ipv6 p
    then record found { ipv6_addr = keep_first found.ipv6_addr p }
    else if is_ipv4 p
    then record found { ipv4_addr = keep_first found.ipv4_addr p }
    else found)

module _ (os : Platform) where
  abbrev pub get_port : Sockaddr → ℕ
  get_port (Sockaddr.inet port _) = os.ntohs port
  get_port (Sockaddr.inet6 port _ _) = os.ntohs port
  get_port _ = 0

  abbrev pub set_port : ℕ → Sockaddr → Sockaddr
  set_port port (Sockaddr.inet _ bytes) = Sockaddr.inet (os.htons port) bytes
  set_port port (Sockaddr.inet6 _ bytes scope) = Sockaddr.inet6 (os.htons port) bytes scope
  set_port port a = a

  unfoldable pub resolve_internal : List ℕ → World → Option Sockaddr × World
  resolve_internal hostname w =
      let r = answer os (Syscall.getaddrinfo hostname none) w in
      let found = collect r.found (record { ipv6_addr = none; ipv4_addr = none }) in
      (
        (if not (is_zero r.value) then none else or_else found.ipv6_addr found.ipv4_addr),
        after os (Syscall.getaddrinfo hostname none) w,
      )
