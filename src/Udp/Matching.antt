-- ===== src/Udp/Matching.antt =====
-- Peers by their endpoints (src/udp_server_socket.cpp): no two of one endpoint, and the search for one.
use libaeon.Prelude.{
  ℕ, ◌+◌, ◌≡◌, refl, sym, ap, ◌∙◌, Bool, true, false, not, ◌&&◌, none, some, List, [], ◌∷◌, ◌++◌,
  ◌==◌, ltb, arith, Bool-cases, inl, inr, ==→eq,
}
use libaeon.Platform.{Platform, Sockaddr}
use libaeon.PeerCollection.{contains, erase_first}
use libaeon.Udp.Peers.{same_udp_address, Objects, address_of, find_udp_peer}
use libaeon.Udp.Endpoint.{same_udp_address-euclidean}

module _ (os : Platform) where
  -- No one of the peers has the address, by what is kept of their addresses.
  abbrev pub no_match : (ℕ → Sockaddr) → Sockaddr → List ℕ → Bool
  no_match addr remote [] = true
  no_match addr remote (ref ∷ rest) =
      not (same_udp_address os (addr ref) remote) && no_match addr remote rest

  abbrev pub none_same : (ℕ → Sockaddr) → Sockaddr → List ℕ → Bool
  none_same addr a [] = true
  none_same addr a (ref ∷ rest) = not (same_udp_address os a (addr ref)) && none_same addr a rest

  -- No two of the peers have one endpoint.
  abbrev pub one_each : (ℕ → Sockaddr) → List ℕ → Bool
  one_each addr [] = true
  one_each addr (ref ∷ rest) = none_same addr (addr ref) rest && one_each addr rest

  -- The peers were made before.
  abbrev pub all_below : ℕ → List ℕ → Bool
  all_below next [] = true
  all_below next (ref ∷ rest) = ltb ref next && all_below next rest

  pub none_same-append :
      (addr : ℕ → Sockaddr) (a : Sockaddr) (xs : List ℕ) (new : ℕ)
      → none_same addr a (xs ++ new ∷ [])
        ≡ (none_same addr a xs && not (same_udp_address os a (addr new)))
  none_same-append addr a [] new = ground arith
  none_same-append addr a (x ∷ xs) new = ground (arith, none_same-append addr a xs new)

  pub one_each-append :
      (addr : ℕ → Sockaddr) (xs : List ℕ) (new : ℕ)
      → one_each addr xs ≡ true
      → no_match addr (addr new) xs ≡ true
      → one_each addr (xs ++ new ∷ []) ≡ true
  one_each-append addr [] new h k = refl
  one_each-append addr (x ∷ xs) new h k =
      ground (arith, h, k, none_same-append addr (addr x) xs new, one_each-append addr xs new)

  pub all_below-append :
      (next : ℕ) (xs : List ℕ)
      → all_below next xs ≡ true
      → all_below (next + 1) (xs ++ next ∷ []) ≡ true
  all_below-append next [] h = ground arith
  all_below-append next (x ∷ xs) h = ground (arith, h, all_below-append next xs)

  pub all_below-contains :
      (next : ℕ) (xs : List ℕ) → all_below next xs ≡ true → contains next xs ≡ false
  all_below-contains next [] h = refl
  all_below-contains next (x ∷ xs) h = ground (arith, h, all_below-contains next xs)

  pub all_below-erase_first :
      (next ref : ℕ) (xs : List ℕ)
      → all_below next xs ≡ true
      → all_below next (erase_first ref xs) ≡ true
  all_below-erase_first next ref [] h = refl
  all_below-erase_first next ref (x ∷ xs) h = ground (arith, h, all_below-erase_first next ref xs)

  pub none_same-erase_first :
      (addr : ℕ → Sockaddr) (a : Sockaddr) (ref : ℕ) (xs : List ℕ)
      → none_same addr a xs ≡ true
      → none_same addr a (erase_first ref xs) ≡ true
  none_same-erase_first addr a ref [] h = refl
  none_same-erase_first addr a ref (x ∷ xs) h =
      ground (arith, h, none_same-erase_first addr a ref xs)

  pub one_each-erase_first :
      (addr : ℕ → Sockaddr) (ref : ℕ) (xs : List ℕ)
      → one_each addr xs ≡ true
      → one_each addr (erase_first ref xs) ≡ true
  one_each-erase_first addr ref [] h = refl
  one_each-erase_first addr ref (x ∷ xs) h =
      ground
        (arith, h, one_each-erase_first addr ref xs, none_same-erase_first addr (addr x) ref xs)

  pub none_same-contains :
      (addr : ℕ → Sockaddr) (a : Sockaddr) (ref : ℕ) (xs : List ℕ)
      → none_same addr a xs ≡ true
      → contains ref xs ≡ true
      → same_udp_address os a (addr ref) ≡ false
  none_same-contains addr a ref [] h k = absurd (ground (arith, k))
  none_same-contains addr a ref (x ∷ xs) h k = elim (Bool-cases (x == ref)) [
    | inl hit ↦ ap (λ r. same_udp_address os a (addr r)) (sym (==→eq x ref hit)) ∙ ground (arith, h)
    | inr miss ↦ none_same-contains addr a ref xs (ground (arith, h)) (ground (arith, k, miss))
  ]

  -- A peer with the address rules out every peer that is not one endpoint with it.
  pub no_match-none_same :
      (addr : ℕ → Sockaddr) (a remote : Sockaddr) (xs : List ℕ)
      → same_udp_address os a remote ≡ true
      → none_same addr a xs ≡ true
      → no_match addr remote xs ≡ true
  no_match-none_same addr a remote [] s h = refl
  no_match-none_same addr a remote (x ∷ xs) s h = ground (
    arith,
    h,
    no_match-none_same addr a remote xs s,
    same_udp_address-euclidean os a (addr x) remote s,
  )

  pub no_match-erase_first :
      (addr : ℕ → Sockaddr) (remote : Sockaddr) (ref : ℕ) (xs : List ℕ)
      → one_each addr xs ≡ true
      → contains ref xs ≡ true
      → same_udp_address os (addr ref) remote ≡ true
      → no_match addr remote (erase_first ref xs) ≡ true
  no_match-erase_first addr remote ref [] h k s = refl
  no_match-erase_first addr remote ref (x ∷ xs) h k s = elim (Bool-cases (x == ref)) [
    | inl hit ↦ rw hit (
        no_match-none_same addr (addr x) remote xs
          (ap (λ r. same_udp_address os (addr r) remote) (==→eq x ref hit) ∙ s) (ground (arith, h)))
    | inr miss ↦ rw miss (
        ground (
          arith,
          h,
          k,
          miss,
          s,
          no_match-erase_first addr remote ref xs,
          none_same-contains addr (addr x) ref xs,
          same_udp_address-euclidean os (addr x) (addr ref) remote,
        ))
  ]

  pub find_udp_peer-none :
      (remote : Sockaddr) (xs : List ℕ) (o : Objects)
      → find_udp_peer os remote xs o ≡ none
      → no_match (address_of os o) remote xs ≡ true
  unfolding find_udp_peer
  find_udp_peer-none remote [] o h = refl
  find_udp_peer-none remote (x ∷ xs) o h = ground (arith, h, find_udp_peer-none remote xs o)

  pub find_udp_peer-some :
      (remote : Sockaddr) (xs : List ℕ) (o : Objects) (ref : ℕ)
      → find_udp_peer os remote xs o ≡ some ref
      → (contains ref xs ≡ true) × (same_udp_address os (address_of os o ref) remote ≡ true)
  unfolding find_udp_peer
  find_udp_peer-some remote [] o ref h = absurd (ground (arith, h))
  find_udp_peer-some remote (x ∷ xs) o ref h =
      elim (Bool-cases (same_udp_address os (address_of os o x) remote)) [
        | inl hit ↦
            let e : x ≡ ref = ground (arith, h, hit) in
            (
              ground (arith, e),
              ap (λ r. same_udp_address os (address_of os o r) remote) (sym e) ∙ hit,
            )
        | inr miss ↦
            let (within, same) = find_udp_peer-some remote xs o ref (ground (arith, h, miss)) in
            (ground (arith, within), same)
      ]

  pub find_udp_peer-append :
      (remote : Sockaddr) (xs : List ℕ) (o : Objects) (new : ℕ)
      → no_match (address_of os o) remote xs ≡ true
      → same_udp_address os (address_of os o new) remote ≡ true
      → find_udp_peer os remote (xs ++ new ∷ []) o ≡ some new
  unfolding find_udp_peer
  find_udp_peer-append remote [] o new h s = ground (arith, s)
  find_udp_peer-append remote (x ∷ xs) o new h s =
      ground (arith, h, s, find_udp_peer-append remote xs o new)

  -- The addresses of the peers made before are the same.
  abbrev pub Agree : ℕ → (ℕ → Sockaddr) → (ℕ → Sockaddr) → Type 0
  Agree next addr addr' = (k : ℕ) → ltb k next ≡ true → addr' k ≡ addr k

  pub no_match-Agree :
      (next : ℕ) (addr addr' : ℕ → Sockaddr) (remote : Sockaddr) (xs : List ℕ)
      → Agree next addr addr'
      → all_below next xs ≡ true
      → no_match addr' remote xs ≡ no_match addr remote xs
  no_match-Agree next addr addr' remote [] g h = refl
  no_match-Agree next addr addr' remote (x ∷ xs) g h =
      let e = ap (λ a. same_udp_address os a remote) (g x (ground (arith, h))) in
      ground (arith, e, h, no_match-Agree next addr addr' remote xs g)

  pub none_same-Agree :
      (next : ℕ) (addr addr' : ℕ → Sockaddr) (a : Sockaddr) (xs : List ℕ)
      → Agree next addr addr'
      → all_below next xs ≡ true
      → none_same addr' a xs ≡ none_same addr a xs
  none_same-Agree next addr addr' a [] g h = refl
  none_same-Agree next addr addr' a (x ∷ xs) g h =
      let e = ap (same_udp_address os a) (g x (ground (arith, h))) in
      ground (arith, e, h, none_same-Agree next addr addr' a xs g)

  pub one_each-Agree :
      (next : ℕ) (addr addr' : ℕ → Sockaddr) (xs : List ℕ)
      → Agree next addr addr'
      → all_below next xs ≡ true
      → one_each addr' xs ≡ one_each addr xs
  one_each-Agree next addr addr' [] g h = refl
  one_each-Agree next addr addr' (x ∷ xs) g h =
      let e = ap (λ a. none_same addr' a xs) (g x (ground (arith, h))) in
      ground (
        arith,
        e,
        h,
        none_same-Agree next addr addr' (addr x) xs g,
        one_each-Agree next addr addr' xs g,
      )
