-- ===== src/PeerCollection/Closing.antt =====
-- `close_owned_peers` (src/socket_set.cpp) against handlers that change the collection meanwhile.
use libaeon.Prelude.{
  ℕ, zero, suc, ◌+◌, ◌-◌, ◌<◌, ◌≡◌, refl, sym, ap, subst, ◌∙◌, ◌⊎◌, inl, inr, Bool, true, false,
  ◌||◌, List, [], ◌∷◌, arith, ==-refl, length, get_elem?, get_elem?-lt, length_of_get_elem?-none,
  drop-get_elem?, drop, drop_beyond, Option-cases, Bool-cases,
}
use native.Mathlib.Numerals.{add-one}
use libaeon.SocketSet.{SocketSet}
use libaeon.PeerCollection.{Peers, is_at, close_from, close_owned_peers}

module _ {H : Type 0} (close_peer : ℕ → Peers → H → Bool × Peers × H) where
  -- Closing each peer of a list in turn, with whether any of them was open.
  pub close_each : List ℕ → Peers → Bool → H → Bool × H
  close_each [] p changed h = (changed, h)
  close_each (peer ∷ peers) p changed h =
      let (closed, _, h') = close_peer peer p h in close_each peers p (closed || changed) h'

  -- A handler that leaves the collection as it is.
  abbrev pub LeavesAlone : Type 0
  LeavesAlone = (peer : ℕ) (p : Peers) (h : H) → (close_peer peer p h).1 ≡ p

  -- A handler that may retire peers, and does nothing else to the owned ones.
  abbrev pub OnlyRetires : Type 0
  OnlyRetires =
      (peer : ℕ) (p : Peers) (h : H)
      → ((close_peer peer p h).1.owned ≡ p.owned)
        ⊎ (length (close_peer peer p h).1.owned < length p.owned)

  close_from-close_each :
      LeavesAlone
      → (fuel index : ℕ) (changed : Bool) (p : Peers) (h : H) → length p.owned < fuel + index
      → let (changed', p', h') = close_from close_peer fuel index changed p h in
        (p' ≡ p) × ((changed', h') ≡ close_each (drop index p.owned) p changed h)
  unfolding close_from close_each
  close_from-close_each alone zero index changed p h enough =
      rw (drop_beyond index p.owned (omega arith)) (refl, refl)
  close_from-close_each alone (suc fuel) index changed p h enough =
      elim (Option-cases (get_elem? p.owned index)) [
        | inl end ↦
            rw (end, close_from)
              (
                refl,
                ap (λ l. close_each l p changed h)
                    (sym (drop_beyond index p.owned (length_of_get_elem?-none p.owned index end))),
              )
        | inr (peer, found) ↦
            let out = close_peer peer p h in
            let e : drop index p.owned ≡ peer ∷ drop (index + 1) p.owned =
              drop-get_elem? p.owned index peer found
              ∙ ap (λ k. peer ∷ drop k p.owned) (sym (add-one index)) in
            rw (found, close_from, alone peer p h, found, ==-refl peer, e)
              (close_from-close_each alone fuel (index + 1) (out.0 || changed) p out.2
                (omega arith))
      ]

  close_from-enough :
      OnlyRetires
      → (f g index : ℕ) (changed : Bool) (p : Peers) (h : H) → length p.owned - index < f
      → length p.owned - index < g
      → close_from close_peer f index changed p h ≡ close_from close_peer g index changed p h
  unfolding close_from
  close_from-enough retires zero g index changed p h hf hg = absurd (omega arith)
  close_from-enough retires (suc f) zero index changed p h hf hg = absurd (omega arith)
  close_from-enough retires (suc f) (suc g) index changed p h hf hg =
      elim (Option-cases (get_elem? p.owned index)) [
        | inl end ↦ rw (end, close_from)
        | inr (peer, found) ↦
            let (closed, p', h') = close_peer peer p h in
            let inside = get_elem?-lt p.owned index peer found in
            elim (retires peer p h) [
              | inl same ↦
                  let still =
                    ap (λ l. is_at peer (get_elem? l index)) same
                    ∙ ap (is_at peer) found
                    ∙ ==-refl peer in
                  rw (found, close_from, still)
                    (close_from-enough retires f g (index + 1) (closed || changed) p' h'
                      (omega (arith, ap length same)) (omega (arith, ap length same)))
              | inr fewer ↦ elim (Bool-cases (is_at peer (get_elem? p'.owned index))) [
                | inl still ↦
                    rw (found, close_from, still)
                      (close_from-enough retires f g (index + 1) (closed || changed) p' h'
                        (omega (arith, fewer)) (omega (arith, fewer)))
                | inr gone ↦
                    rw (found, close_from, gone)
                      (close_from-enough retires f g index (closed || changed) p' h'
                        (omega (arith, fewer)) (omega (arith, fewer)))
              ]
            ]
      ]

  -- The collection is as before, and every owned peer was closed once, in the order of ownership.
  abbrev pub ClosesEach : Peers → H → Type 0
  ClosesEach p h =
      let (changed, p', h') = close_owned_peers close_peer p h in
      (p' ≡ p) × ((changed, h') ≡ close_each p.owned (record p { closing_peers = true }) false h)

  unlocked-ClosesEach :
      (owned : List ℕ) (members : SocketSet) (h : H)
      → LeavesAlone
      → ClosesEach (record { owned = owned; members = members; closing_peers = false }) h
  unfolding close_owned_peers
  unlocked-ClosesEach owned members h alone =
      let opened : Peers = record { owned = owned; members = members; closing_peers = true } in
      let (same, closes) =
        close_from-close_each alone (suc (length owned)) 0 false opened h (omega arith) in
      (
        λ i. record { owned = (same i).owned; members = (same i).members; closing_peers = false },
        closes,
      )

  -- With handlers that leave the collection alone, `close_owned_peers` closes every owned peer once,
  -- in the order of the collection, unless it runs already. Its result says whether one of them was
  -- open, and the peers stay owned.
  pub close_owned_peers-ClosesEach :
      (p : Peers) (h : H) → LeavesAlone → p.closing_peers ≡ false → ClosesEach p h
  close_owned_peers-ClosesEach p h alone idle =
      let e : p ≡ record { owned = p.owned; members = p.members; closing_peers = false } =
        λ i. record { owned = p.owned; members = p.members; closing_peers = idle i } in
      subst (λ q. ClosesEach q h) (sym e) (unlocked-ClosesEach p.owned p.members h alone)

  -- With handlers that may retire peers, and do no more to them, the loop stops by its own test: any
  -- fuel above the number of peers gives the same result.
  pub close_from-terminates :
      (extra : ℕ) (changed : Bool) (p : Peers) (h : H)
      → OnlyRetires
      → close_from close_peer (suc (length p.owned) + extra) 0 changed p h
        ≡ close_from close_peer (suc (length p.owned)) 0 changed p h
  close_from-terminates extra changed p h retires =
      close_from-enough retires _ _ 0 changed p h (omega arith) (omega arith)
