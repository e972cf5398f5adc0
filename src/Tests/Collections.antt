-- ===== src/Tests/Collections.antt =====
-- The theorems about socket sets and owned peers at concrete collections.
use libaeon.Prelude.{
  ℕ, ◌≡◌, ◌+◌, ◌&&◌, ◌++◌, refl, inl, Bool, true, false, some, List, [], ◌∷◌, ℤ, pos, arith, length,
  ltb, take, drop, if◌then◌else◌, suc,
}
use libaeon.SocketSet.{SocketSet, remove_range, size, broadcast}
use libaeon.SocketSet.Removal.{remove_range-erases}
use libaeon.SocketSet.Broadcast.{writes, count_eq, broadcast-writes}
use libaeon.PeerCollection.{Peers, contains, detach, close_from, close_owned_peers}
use libaeon.PeerCollection.Ownership.{IsOwner, detach-IsOwner}
use libaeon.PeerCollection.Closing.{
  LeavesAlone, OnlyRetires, ClosesEach, close_owned_peers-ClosesEach, close_from-terminates,
}

abbrev three : SocketSet
three = record { sockets = 10 ∷ 11 ∷ 12 ∷ []; error_code = pos 0; error_state = 0 }

abbrev peers : Peers
peers = record { owned = 10 ∷ 11 ∷ 12 ∷ []; members = three; closing_peers = false }

remove_range-erases_example :
    ((remove_range 1 5 three).0 ≡ (ltb 0 5 && ltb 1 (size three)))
    × ((remove_range 1 5 three).1.sockets ≡ (
        if ltb 0 5 && ltb 1 (size three)
        then take 1 three.sockets ++ drop (1 + 5) three.sockets
        else three.sockets))
remove_range-erases_example = remove_range-erases 1 5 three (omega arith)

-- A write that keeps a log of the peers, and takes all bytes but those for peer 11.
abbrev log_write : ℕ → List ℕ → List ℕ → ℤ × List ℕ
log_write peer bytes log = (if ltb peer 11 then pos (length bytes) else pos 0, log ++ peer ∷ [])

broadcast-writes_example : broadcast log_write (some (1 ∷ 2 ∷ [])) (pos 2) three [] ≡ (
  pos (count_eq log_write (pos 2) (writes log_write (1 ∷ 2 ∷ []) (10 ∷ 11 ∷ 12 ∷ []) []).0),
  10 ∷ 11 ∷ 12 ∷ [],
)
broadcast-writes_example = broadcast-writes log_write (1 ∷ 2 ∷ []) three []

peers-IsOwner : IsOwner peers
peers-IsOwner = record { agrees = refl; distinct = (refl, (refl, (refl, tt))) }

detach-IsOwner_example : IsOwner (detach 11 peers) × (contains 11 (detach 11 peers).owned ≡ false)
detach-IsOwner_example = detach-IsOwner 11 peers peers-IsOwner (omega arith)

-- A close that only logs.
abbrev log_close : ℕ → Peers → List ℕ → Bool × Peers × List ℕ
log_close peer p log = (true, p, log ++ peer ∷ [])

log_close-LeavesAlone : LeavesAlone log_close
log_close-LeavesAlone peer p h = refl

close_owned_peers-ClosesEach_example : ClosesEach log_close peers []
close_owned_peers-ClosesEach_example =
    close_owned_peers-ClosesEach log_close peers [] log_close-LeavesAlone refl

close_owned_peers_test : (close_owned_peers log_close peers []).2 ≡ 10 ∷ 11 ∷ 12 ∷ []
unfolding close_owned_peers close_from
close_owned_peers_test = refl

log_close-OnlyRetires : OnlyRetires log_close
log_close-OnlyRetires peer p h = inl refl

close_from-terminates_example :
    close_from log_close (suc 3 + 4) 0 false peers []
    ≡ close_from log_close (suc 3) 0 false peers []
close_from-terminates_example =
    close_from-terminates log_close 4 false peers [] log_close-OnlyRetires
