-- ===== src/SocketSet/Removal.antt =====
-- Which members the removals of socket_set (src/socket_set.cpp) take out, and which stay.
use libaeon.Prelude.{
  ℕ, ◌+◌, ◌-◌, ◌<◌, ◌≡◌, refl, sym, ap, ◌∙◌, inl, inr, false, ◌&&◌, ◌||◌, ◌++◌, arith, ltb, leb,
  ◌==◌, leb→lt, ltb→lt, length, take, drop, drop_beyond, drop-drop, Bool-cases, if◌then◌else◌,
}
use libaeon.SocketSet.{SocketSet, u32, remove, remove_range, size}

-- For a set that an `unsigned int` can count: `remove(index, count)` succeeds exactly for a positive
-- count and an index of a member. It then takes out the members from `index` on, `count` of them or
-- all that there are, and keeps the order of the others; otherwise the members stay.
pub remove_range-erases :
    (index count : ℕ) (set : SocketSet)
    → size set < 4294967296
    → ((remove_range index count set).0 ≡ (ltb 0 count && ltb index (size set)))
      × ((remove_range index count set).1.sockets ≡ (
          if ltb 0 count && ltb index (size set)
          then take index set.sockets ++ drop (index + count) set.sockets
          else set.sockets))
unfolding remove_range
remove_range-erases index count set small =
    let n = length set.sockets in
    let e₁ : u32 n ≡ n = omega arith in
    elim (Bool-cases (ltb 0 count && ltb index n)) [
      | inr refused ↦ rw (e₁, refused, remove_range) (ground arith, ground arith)
      | inl valid ↦
          let inside : index < n = ground arith in
          let some_count : 0 < count = ground arith in
          let test : (count == 0 || leb n index) ≡ false = ground arith in
          let e₂ : u32 (n - index) ≡ n - index = omega arith in
          elim (Bool-cases (ltb (n - index) count)) [
            | inl clamped ↦
                rw (e₁, e₂, valid, test, clamped, remove_range)
                  (
                    refl,
                    ap (λ l. take index set.sockets ++ l)
                        (drop-drop (n - index) index set.sockets
                          ∙ drop_beyond (index + (n - index)) set.sockets (omega arith)
                          ∙ sym (
                              drop_beyond (index + count) set.sockets
                                (omega (arith, ltb→lt (n - index) count clamped)))),
                  )
            | inr exact ↦
                rw (e₁, e₂, valid, test, exact, remove_range)
                  (refl, ap (λ l. take index set.sockets ++ l) (drop-drop count index set.sockets))
          ]
    ]

-- `remove(index)` takes out the member at `index`, if there is one.
pub remove-eq-remove_range :
    (index : ℕ) (set : SocketSet)
    → size set < 4294967296
    → remove index set ≡ remove_range index 1 set
unfolding remove remove_range
remove-eq-remove_range index set small =
    let n = length set.sockets in
    let e₁ : u32 n ≡ n = omega arith in
    let e₂ : u32 (n - index) ≡ n - index = omega arith in
    elim (Bool-cases (leb n index)) [
      | inl beyond ↦ rw (e₁, beyond, remove, remove_range)
      | inr inside ↦
          let below = leb→lt n index inside in
          let whole : ltb (n - index) 1 ≡ false = ground arith in
          rw (e₁, inside, e₂, whole, remove, remove_range)
    ]
