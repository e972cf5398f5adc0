-- ===== src/SocketSet/Broadcast.antt =====
-- `broadcast` (src/socket_set.cpp) writes to every member once, in their order.
use libaeon.Prelude.{
  ℕ, ◌+◌, ◌≡◌, ap, ◌∙◌, inl, inr, some, List, [], ◌∷◌, arith, ℤ, pos, ◌==ℤ◌, if◌then◌else◌, length,
  Bool-cases, is_positive, ◌&&◌, not, is_some, take_all,
}
use native.Mathlib.Nat.{add_assoc, zero-add}
use libaeon.SocketSet.{SocketSet, deliver, broadcast}

module _ {S : Type 0} (write : ℕ → List ℕ → S → ℤ × S) where
  -- The states that the writes to the peers pass through, each with the result of the write there.
  abbrev pub writes : List ℕ → List ℕ → S → List ℤ × S
  writes bytes [] s = ([], s)
  writes bytes (peer ∷ peers) s =
      let (sent, s') = write peer bytes s in
      let (rest, s'') = writes bytes peers s' in (sent ∷ rest, s'')

  -- How many of the results equal a number.
  abbrev pub count_eq : ℤ → List ℤ → ℕ
  count_eq k [] = 0
  count_eq k (x ∷ xs) = (if x ==ℤ k then 1 else 0) + count_eq k xs

  deliver-writes :
      (bytes peers : List ℕ) (delivered : ℕ) (s : S)
      → deliver write bytes peers delivered s ≡ (
        delivered + count_eq (pos (length bytes)) (writes bytes peers s).0,
        (writes bytes peers s).1,
      )
  unfolding deliver
  deliver-writes bytes [] delivered s = ground arith
  deliver-writes bytes (peer ∷ peers) delivered s =
      let s' = (write peer bytes s).1 in
      let rest = count_eq (pos (length bytes)) (writes bytes peers s').0 in
      elim (Bool-cases ((write peer bytes s).0 ==ℤ pos (length bytes))) [
        | inl hit ↦ rw hit (
            deliver-writes bytes peers (delivered + 1) s'
            ∙ ap (λ k. (k, (writes bytes peers s').1)) (add_assoc delivered 1 rest))
        | inr miss ↦ rw (miss, zero-add) (deliver-writes bytes peers delivered s')
      ]

  -- A broadcast of the whole of some bytes writes them to every member, in the order of the set, and
  -- returns the number of members that took all of them.
  pub broadcast-writes :
      (bytes : List ℕ) (set : SocketSet) (s : S)
      → broadcast write (some bytes) (pos (length bytes)) set s ≡ (
        pos (count_eq (pos (length bytes)) (writes bytes set.sockets s).0),
        (writes bytes set.sockets s).1,
      )
  unfolding broadcast
  broadcast-writes bytes set s =
      elim (Bool-cases (is_positive (pos (length bytes)) && not (is_some (some bytes)))) [
        | inl never ↦ ground arith
        | inr fine ↦ rw (
          fine,
          broadcast,
          take_all (length bytes) bytes (omega arith),
          deliver-writes bytes set.sockets 0 s,
          zero-add,
        )
      ]
