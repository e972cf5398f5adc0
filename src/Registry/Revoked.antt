-- ===== src/Registry/Revoked.antt =====
-- A token that a poller still holds (src/event_socket_set.cpp) stays inactive once its socket was
-- removed, whatever is registered later.
use libaeon.Prelude.{
  ℕ, ◌≡◌, refl, true, false, Option, none, some, List, [], ◌∷◌, ◌==◌, ltb, arith, ap, ==→eq,
}
use libaeon.Registry.{
  snapshot, get_if_active, Registration, Registry, find, entry_at, retire, add, remove_index,
  remove_socket, clear,
}
use libaeon.Registry.Order.{
  Extracts, here, there, has_token, has_socket, Finds, find-Finds, all_distinct,
}
use libaeon.Registry.Invariant.{IsRegistry}
use libaeon.Registry.Refines.{contains-Extracts, Operation, run, deactivate_all_lem}

-- Operations one after the other.
abbrev pub run_all : List Operation → Registry → Registry
run_all [] r = r
run_all (op ∷ ops) r = run_all ops (run op r).1

-- The token was made, and is not active.
abbrev pub IsRevoked : ℕ → Registry → Type 0
IsRevoked token r = (ltb token r.next_token ≡ true) × (r.active token ≡ false)

retire-IsRevoked :
    (token : ℕ) (found : Option (Registration × List Registration)) (r : Registry)
    → IsRevoked token r
    → IsRevoked token (retire found r).1
retire-IsRevoked token none r h = h
retire-IsRevoked token (some (entry, others)) r h = (h.0, ground (arith, h.1))

run-IsRevoked :
    (op : Operation) (token : ℕ) (r : Registry) → IsRevoked token r → IsRevoked token (run op r).1
unfolding add remove_index remove_socket clear
run-IsRevoked (Operation.adds s) token r h = ground (arith, h)
run-IsRevoked (Operation.removes s) token r h =
    retire-IsRevoked token (find s r.active r.entries) r h
run-IsRevoked (Operation.removes_at index) token r h =
    retire-IsRevoked token (entry_at index r.entries) r h
run-IsRevoked Operation.clears token r h =
    (h.0, ground (arith, h.1, deactivate_all_lem r.entries r.active token))

run_all-IsRevoked :
    (ops : List Operation) (token : ℕ) (r : Registry)
    → IsRevoked token r
    → IsRevoked token (run_all ops r)
run_all-IsRevoked [] token r h = h
run_all-IsRevoked (op ∷ ops) token r h =
    run_all-IsRevoked ops token (run op r).1 (run-IsRevoked op token r h)

-- An entry of a snapshot.
pub data IsEntry (entry : Registration) : List Registration → Type 0 where
  first : {xs : List Registration} → IsEntry entry (entry ∷ xs)
  later : {x : Registration} {xs : List Registration} → IsEntry entry xs → IsEntry entry (x ∷ xs)

IsEntry-has_token :
    {entry : Registration} {xs : List Registration}
    → IsEntry entry xs
    → has_token entry.token xs ≡ true
IsEntry-has_token first = ground arith
IsEntry-has_token (later e) = ground (arith, IsEntry-has_token e)

IsEntry-has_socket :
    {entry : Registration} {xs : List Registration}
    → IsEntry entry xs
    → has_socket entry.socket_ref xs ≡ true
IsEntry-has_socket first = ground arith
IsEntry-has_socket (later e) = ground (arith, IsEntry-has_socket e)

-- Sockets are distinct, so that the entry of a socket is the one that a search takes out.
same_entry :
    {entry found : Registration} {xs others : List Registration}
    → IsEntry entry xs
    → Extracts found xs others
    → all_distinct xs ≡ true
    → (entry.socket_ref == found.socket_ref) ≡ true
    → entry ≡ found
same_entry first here d h = refl
same_entry {entry} {found} first (there {xs} e) d h = absurd (
    ground (
      arith,
      d,
      contains-Extracts e,
      ap (λ s. has_socket s xs) (==→eq entry.socket_ref found.socket_ref h),
    ))
same_entry {entry} {found} (later {xs} i) here d h = absurd (
    ground (
      arith,
      d,
      IsEntry-has_socket i,
      ap (λ s. has_socket s xs) (==→eq entry.socket_ref found.socket_ref h),
    ))
same_entry (later i) (there e) d h = same_entry i e (ground (arith, d)) h

retire_found-IsRevoked :
    (r : Registry) (entry : Registration) (found : Option (Registration × List Registration))
    → IsRegistry r
    → IsEntry entry r.entries
    → Finds entry.socket_ref r.entries found
    → IsRevoked entry.token (retire found r).1
retire_found-IsRevoked r entry none q i h = absurd (ground (arith, h, IsEntry-has_socket i))
retire_found-IsRevoked r entry (some (found, others)) q i (h, e, rest) =
    let same : entry ≡ found = same_entry i rest q.distinct (ground (arith, e)) in
    (
      q.tokens_made entry.token (IsEntry-has_token i),
      ground (arith, ap (λ (x : Registration). x.token) same),
    )

-- When the socket of an entry of a snapshot is removed, the token of that entry is inactive, and
-- stays so whatever is added and removed later, also when the same socket is added again.
pub remove_socket-revokes :
    (r : Registry) (entry : Registration) (ops : List Operation)
    → IsRegistry r
    → IsEntry entry (snapshot r)
    → get_if_active (run_all ops (remove_socket (some entry.socket_ref) r).1).active entry ≡ none
unfolding remove_socket
remove_socket-revokes r entry ops q i =
    let r' = (retire (find entry.socket_ref r.active r.entries) r).1 in
    let gone : IsRevoked entry.token r' =
      retire_found-IsRevoked r entry (find entry.socket_ref r.active r.entries) q i
        (find-Finds entry.socket_ref r.active r.entries q.listed_active) in
    rw (run_all-IsRevoked ops entry.token r' gone).1
