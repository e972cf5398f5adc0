-- ===== src/Registry/Members.antt =====
-- The sockets of an event_socket_set (src/event_socket_set.cpp, `event_socket_set::state` and the
-- methods that change it): a registry of TCP sockets, and one of UDP sockets, which come behind them.
use libaeon.Prelude.{
  ℕ, zero, suc, ◌+◌, ◌-◌, ◌≡◌, refl, sym, ap, ◌∙◌, Bool, true, false, Option, List, [], ◌∷◌, ◌++◌,
  ltb, arith, length-append, Bool-cases, inl, inr, length, if◌then◌else◌,
}
use libaeon.SocketSet.{erase}
use libaeon.Registry.{Registry, add, remove_index, remove_socket, size}
use libaeon.Registry.Invariant.{IsRegistry}
use libaeon.Registry.Refines.{sockets_of, Operation, run-Refines, length-sockets_of}

pub record EventSocketSet : Type 0 where
  pub sockets : Registry
  pub udp_sockets : Registry

abbrev pub add_socket : Option ℕ → EventSocketSet → Bool × EventSocketSet
add_socket socket_ref set =
    let (added, r) = add socket_ref set.sockets in (added, record set { sockets = r })

abbrev pub add_udp_socket : Option ℕ → EventSocketSet → Bool × EventSocketSet
add_udp_socket socket_ref set =
    let (added, r) = add socket_ref set.udp_sockets in (added, record set { udp_sockets = r })

unfoldable pub remove : ℕ → EventSocketSet → Bool × EventSocketSet
remove index set =
    let tcp_count = size set.sockets in
    if ltb index tcp_count
    then (let (removed, r) = remove_index index set.sockets in
        (removed, record set { sockets = r }))
    else (let (removed, r) = remove_index (index - tcp_count) set.udp_sockets in
        (removed, record set { udp_sockets = r }))

abbrev pub remove_tcp_socket : Option ℕ → EventSocketSet → Bool × EventSocketSet
remove_tcp_socket socket_ref set =
    let (removed, r) = remove_socket socket_ref set.sockets in (removed, record set { sockets = r })

abbrev pub remove_udp_socket : Option ℕ → EventSocketSet → Bool × EventSocketSet
remove_udp_socket socket_ref set =
    let (removed, r) = remove_socket socket_ref set.udp_sockets in
    (removed, record set { udp_sockets = r })

abbrev pub set_size : EventSocketSet → ℕ
set_size set = size set.sockets + size set.udp_sockets

-- The sockets in the order of their indices.
abbrev pub members : EventSocketSet → List ℕ
members set = sockets_of set.sockets.entries ++ sockets_of set.udp_sockets.entries

abbrev pub IsMembership : EventSocketSet → Type 0
IsMembership set = IsRegistry set.sockets × IsRegistry set.udp_sockets

erase-append_left :
    (index : ℕ) (xs ys : List ℕ)
    → ltb index (length xs) ≡ true
    → erase index 1 (xs ++ ys) ≡ erase index 1 xs ++ ys
erase-append_left index [] ys h = absurd (ground (arith, h))
erase-append_left zero (x ∷ xs) ys h = refl
erase-append_left (suc index) (x ∷ xs) ys h =
    ap (λ l. x ∷ l) (erase-append_left index xs ys (ground (arith, h)))

erase-append_right :
    (index : ℕ) (xs ys : List ℕ)
    → ltb index (length xs) ≡ false
    → erase index 1 (xs ++ ys) ≡ xs ++ erase (index - length xs) 1 ys
erase-append_right index [] ys h = ap (λ k. erase k 1 ys) (omega arith)
erase-append_right zero (x ∷ xs) ys h = absurd (ground (arith, h))
erase-append_right (suc index) (x ∷ xs) ys h =
    ap (λ l. x ∷ l)
      (erase-append_right index xs ys (ground (arith, h))
        ∙ ap (λ k. xs ++ erase k 1 ys) (omega arith))

-- `remove(index)` on a well-formed set keeps it well formed; it succeeds exactly for an index of a
-- member, TCP or UDP, and takes out that member alone.
pub remove-erases :
    (index : ℕ) (set : EventSocketSet)
    → IsMembership set
    → IsMembership (remove index set).1
      × ((remove index set).0 ≡ ltb index (length (members set)))
      × (members (remove index set).1 ≡ erase index 1 (members set))
unfolding remove
remove-erases index set (tcp, udp) =
    let xs = sockets_of set.sockets.entries in
    let ys = sockets_of set.udp_sockets.entries in
    let count = length-sockets_of set.sockets.entries in
    let all = length-append xs ys in
    elim (Bool-cases (ltb index (length set.sockets.entries))) [
      | inl of_tcp ↦
          let (kept, result, rest) = run-Refines (Operation.removes_at index) set.sockets tcp in
          rw (of_tcp, remove)
            (
              (kept, udp),
              result ∙ ground (arith, all, count, of_tcp),
              ap (λ l. l ++ ys) rest
                  ∙ sym (erase-append_left index xs ys (ap (ltb index) count ∙ of_tcp)),
            )
      | inr of_udp ↦
          let (kept, result, rest) =
            run-Refines (Operation.removes_at (index - length set.sockets.entries)) set.udp_sockets
              udp in
          rw (of_udp, remove)
            (
              (tcp, kept),
              result ∙ ground (arith, all, count, of_udp),
              ap (λ l. xs ++ l) rest
                  ∙ ap (λ k. xs ++ erase (index - k) 1 ys) (sym count)
                  ∙ sym (erase-append_right index xs ys (ap (ltb index) count ∙ of_udp)),
            )
    ]
