-- ===== src/Tests/Names.antt =====
-- The theorems about addresses and names on a platform that knows one address.
use libaeon.Prelude.{◌≡◌, none, [], ◌∷◌, is_zero, if◌then◌else◌}
use libaeon.Platform.{Syscall, answer}
use libaeon.Address.{is_ipv4, is_ipv6, or_else, resolve_internal}
use libaeon.Address.Choice.{first, resolve_internal-first}
use libaeon.Tests.Systems.{kind_os, fresh_world, peer_addr}

resolve_internal-first_example : (resolve_internal kind_os (97 ∷ []) fresh_world).0 ≡ (
    if is_zero (answer kind_os (Syscall.getaddrinfo (97 ∷ []) none) fresh_world).value
    then or_else (first is_ipv6 (peer_addr ∷ [])) (first is_ipv4 (peer_addr ∷ []))
    else none)
resolve_internal-first_example = resolve_internal-first kind_os (97 ∷ []) fresh_world
