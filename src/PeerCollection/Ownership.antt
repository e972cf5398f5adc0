-- ===== src/PeerCollection/Ownership.antt =====
-- Which peers the collection (src/socket_set.cpp) owns, and that its two lists of them agree.
use libaeon.Prelude.{
  ℕ, zero, suc, ◌<◌, ◌≡◌, refl, sym, ap, ◌∙◌, inl, inr, false, Option, none, some, List, [], ◌∷◌,
  ◌++◌, arith, ◌==◌, length, Option-cases, Bool-cases, leb, lt→leb,
}
use libaeon.SocketSet.{SocketSet, remove, u32, erase}
use libaeon.SocketSet
use libaeon.PeerCollection.{Peers, add_peer, contains, erase_first, index_of, drop_member, detach}

-- The members are the owned peers, in their order, and no peer is owned twice.
abbrev pub Distinct : List ℕ → Type 0
Distinct [] = Unit
Distinct (x ∷ xs) = (contains x xs ≡ false) × Distinct xs

pub record IsOwner (p : Peers) : Type 0 where
  pub agrees : p.members.sockets ≡ p.owned
  pub distinct : Distinct p.owned

contains-append :
    (x y : ℕ) (xs : List ℕ)
    → contains x xs ≡ false
    → (y == x) ≡ false
    → contains x (xs ++ y ∷ []) ≡ false
contains-append x y [] h e = ground arith
contains-append x y (z ∷ xs) h e = ground (arith, contains-append x y xs)

Distinct-append :
    (y : ℕ) (xs : List ℕ) → Distinct xs → contains y xs ≡ false → Distinct (xs ++ y ∷ [])
Distinct-append y [] d h = (refl, tt)
Distinct-append y (x ∷ xs) d h =
    (ground (arith, contains-append x y xs), Distinct-append y xs d.1 (ground arith))

contains-erase_first :
    (x peer : ℕ) (xs : List ℕ) → contains x xs ≡ false → contains x (erase_first peer xs) ≡ false
contains-erase_first x peer [] h = refl
contains-erase_first x peer (y ∷ xs) h = ground (arith, contains-erase_first x peer xs)

Distinct-erase_first : (peer : ℕ) (xs : List ℕ) → Distinct xs → Distinct (erase_first peer xs)
Distinct-erase_first peer [] d = tt
Distinct-erase_first peer (x ∷ xs) d = elim (Bool-cases (x == peer)) [
  | inl hit ↦ rw hit d.1
  | inr miss ↦ rw miss (contains-erase_first x peer xs d.0, Distinct-erase_first peer xs d.1)
]

erase_first-gone :
    (peer : ℕ) (xs : List ℕ) → Distinct xs → contains peer (erase_first peer xs) ≡ false
erase_first-gone peer [] d = refl
erase_first-gone peer (x ∷ xs) d = ground (arith, erase_first-gone peer xs)

-- A new peer, which nobody owns yet, keeps the collection in order: it is owned and a member, last.
pub add_peer-IsOwner :
    (peer : ℕ) (p : Peers)
    → IsOwner p
    → contains peer p.owned ≡ false
    → IsOwner (add_peer (some peer) p).1
unfolding add_peer SocketSet.add
add_peer-IsOwner peer p o fresh = record {
  agrees = ap (λ l. l ++ peer ∷ []) o.agrees;
  distinct = Distinct-append peer p.owned o.distinct fresh;
}

index_of-none : (peer : ℕ) (xs : List ℕ) → index_of peer xs ≡ none → erase_first peer xs ≡ xs
index_of-none peer [] h = refl
index_of-none peer (x ∷ xs) h = ground (arith, index_of-none peer xs)

index_of-some :
    (peer : ℕ) (xs : List ℕ) (i : ℕ)
    → index_of peer xs ≡ some i
    → (i < length xs) × (erase i 1 xs ≡ erase_first peer xs)
index_of-some peer [] i h = cc
index_of-some peer (x ∷ xs) zero h = elim (Bool-cases (x == peer)) [
  | inl hit ↦ rw hit (omega arith, refl)
  | inr miss ↦ elim (Option-cases (index_of peer xs)) [
    | inl none_there ↦ ground arith
    | inr (j, there) ↦ ground arith
  ]
]
index_of-some peer (x ∷ xs) (suc i) h =
    let miss : (x == peer) ≡ false = ground arith in
    let there : index_of peer xs ≡ some i = ground arith in
    let (inside, same) = index_of-some peer xs i there in
    rw miss (omega (arith, inside), ap (λ l. x ∷ l) same)

remove-sockets :
    (i : ℕ) (set : SocketSet)
    → leb (u32 (length set.sockets)) i ≡ false
    → (remove i set).1.sockets ≡ erase i 1 set.sockets
unfolding remove
remove-sockets i set inside = rw (inside, remove)

drop_member-sockets :
    (peer : ℕ) (p : Peers) (o : Option ℕ)
    → index_of peer p.members.sockets ≡ o
    → length p.members.sockets < 4294967296
    → (drop_member o p.members).sockets ≡ erase_first peer p.members.sockets
drop_member-sockets peer p none e small = sym (index_of-none peer p.members.sockets e)
drop_member-sockets peer p (some i) e small =
    let (inside, same) = index_of-some peer p.members.sockets i e in
    let counted : u32 (length p.members.sockets) ≡ length p.members.sockets = omega arith in
    let kept : leb (u32 (length p.members.sockets)) i ≡ false =
      ap (λ n. leb n i) counted ∙ lt→leb (length p.members.sockets) i inside in
    remove-sockets i p.members kept ∙ same

-- The first half of `remove_owned_peer`, for fewer peers than an `unsigned int` counts: the peer is
-- gone from the owned peers and from the members, which still agree, before its `close` runs.
pub detach-IsOwner :
    (peer : ℕ) (p : Peers)
    → IsOwner p
    → length p.owned < 4294967296
    → IsOwner (detach peer p) × (contains peer (detach peer p).owned ≡ false)
unfolding detach
detach-IsOwner peer p o small = (
  record {
    agrees =
        drop_member-sockets peer p _ refl (omega (arith, ap length o.agrees))
        ∙ ap (erase_first peer) o.agrees;
    distinct = Distinct-erase_first peer p.owned o.distinct;
  },
  erase_first-gone peer p.owned o.distinct,
)
