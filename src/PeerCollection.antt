-- ===== src/PeerCollection.antt =====
-- class peer_collection (src/socket_set.cpp), the peers that a server owns. A peer is known by its
-- identity. Closing one is virtual and may run a user's handler, which may call back into the
-- collection: `close_peer` is a parameter that returns the collection as it left it, with the state
-- behind it. An allocation that fails is not modelled.
pub mod Ownership
pub mod Closing
use libaeon.Prelude.{
  ℕ, zero, suc, ◌+◌, Bool, true, false, not, ◌||◌, Option, none, some, List, [], ◌∷◌, ◌++◌, ◌==◌,
  if◌then◌else◌, length, take, drop, get_elem?, ltb,
}
use libaeon.SocketSet.{SocketSet, empty_set, remove}
use libaeon.SocketSet

pub record Peers : Type 0 where
  pub owned : List ℕ
  pub members : SocketSet
  pub closing_peers : Bool

abbrev pub no_peers : Peers
no_peers = record { owned = []; members = empty_set; closing_peers = false }

-- `add_peer`: a member that could not be added is not owned either.
unfoldable pub add_peer : Option ℕ → Peers → Option ℕ × Peers
add_peer none p = (none, p)
add_peer (some peer) p =
    let (added, members) = SocketSet.add (some peer) p.members in
    if added
    then (some peer, record p { owned = p.owned ++ peer ∷ []; members = members })
    else (none, record p { members = members })

-- `std::find_if`, then `erase` of what was found
abbrev pub contains : ℕ → List ℕ → Bool
contains peer [] = false
contains peer (x ∷ xs) = x == peer || contains peer xs

abbrev pub erase_first : ℕ → List ℕ → List ℕ
erase_first peer [] = []
erase_first peer (x ∷ xs) = if x == peer then xs else x ∷ erase_first peer xs

-- The index of the first member that is the peer.
abbrev pub index_of : ℕ → List ℕ → Option ℕ
index_of peer [] = none
index_of peer (x ∷ xs) =
    if x == peer then some 0 else elim (index_of peer xs) [ none ↦ none | some i ↦ some (suc i) ]

abbrev pub drop_member : Option ℕ → SocketSet → SocketSet
drop_member none set = set
drop_member (some i) set = (remove i set).1

-- `remove_owned_peer` before its last call: the peer leaves the members and the owner.
unfoldable pub detach : ℕ → Peers → Peers
detach peer p = record p {
  owned = erase_first peer p.owned;
  members = drop_member (index_of peer p.members.sockets) p.members;
}

abbrev pub owned_peer_count : Peers → ℕ
owned_peer_count p = length p.owned

abbrev pub owned_peer_at : ℕ → Peers → Option ℕ
owned_peer_at index p = get_elem? p.owned index

-- `owned[index].get() == peer`
abbrev pub is_at : ℕ → Option ℕ → Bool
is_at peer none = false
is_at peer (some other) = other == peer

module _ {H : Type 0} (close_peer : ℕ → Peers → H → Bool × Peers × H) where
  unfoldable pub remove_owned_peer : Option ℕ → Peers → H → Bool × Peers × H
  remove_owned_peer none p h = (false, p, h)
  remove_owned_peer (some peer) p h =
      if not (contains peer p.owned)
      then (false, p, h)
      else (let (_, p', h') = close_peer peer (detach peer p) h in (true, p', h'))

  -- The loop of `close_owned_peers`: the slot is looked at again after each close.
  unfoldable pub close_from : ℕ → ℕ → Bool → Peers → H → Bool × Peers × H
  close_from zero index changed p h = (changed, p, h)
  close_from (suc fuel) index changed p h = elim (get_elem? p.owned index) [
    | none ↦ (changed, p, h)
    | some peer ↦
        let (closed, p', h') = close_peer peer p h in
        close_from fuel (if is_at peer (get_elem? p'.owned index) then index + 1 else index)
          (closed || changed) p' h'
  ]

  unfoldable pub close_owned_peers : Peers → H → Bool × Peers × H
  close_owned_peers p h =
      if p.closing_peers
      then (false, p, h)
      else (let (changed, p', h') =
            close_from (suc (length p.owned)) 0 false (record p { closing_peers = true }) h in
          (changed, record p' { closing_peers = false }, h'))
