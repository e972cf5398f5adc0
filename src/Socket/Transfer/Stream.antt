-- ===== src/Socket/Transfer/Stream.antt =====
-- `read_until` (src/socket.cpp) collects the stream: its loop joins what the reads deliver, in order.
use libaeon.Prelude.{
  ℕ, zero, suc, ◌+◌, ◌-◌, ◌≤◌, ◌<◌, ◌≡◌, refl, sym, ap, subst, ◌∙◌, ◌⊎◌, inl, inr, true, some, List,
  [], ◌++◌, ℤ, pos, negsuc, is_nonpos, to_ℕ, arith, length, take, drop, leb, leb→le, leb→lt,
  Bool-cases, ℤ-cases, append-nil, append_assoc, drop-drop, length-append, take-append-drop,
  take-append_length, drop-append_length,
}
use libaeon.Platform.{Platform, IsPosix, World}
use libaeon.Socket.{Socket, is_valid_socket}
use libaeon.Socket.Transfer.{overwrite, read, read_rest, read_until}
use libaeon.Socket.Transfer.Read.{delivered, ReadEnds, read-ReadEnds}

overwrite-overwrite :
    (front more start : List ℕ)
    → front ++ overwrite more (drop (length front) (overwrite front start))
      ≡ overwrite (front ++ more) start
overwrite-overwrite front more start =
    ap (λ l. front ++ (more ++ drop (length more) l))
      (drop-append_length front (drop (length front) start))
    ∙ ap (λ l. front ++ (more ++ l)) (drop-drop (length more) (length front) start)
    ∙ sym (append_assoc front more _)
    ∙ ap (λ n. (front ++ more) ++ drop n start) (sym (length-append front more))

module _ (os : Platform) (posix : IsPosix os) (start : List ℕ) (before : List ℕ) where
  -- The buffer holds the `total` bytes that came since the start, and behind them what it held.
  abbrev Holds : ℕ → List ℕ → World → Type 0
  Holds total buffer w =
      (stream : List ℕ) × (length stream ≡ total)
      × (buffer ≡ overwrite stream start)
      × (delivered os w.calls ≡ before ++ stream)

  Holds-stop :
      (total : ℕ) (buffer rest : List ℕ) (w w' : World)
      → rest ≡ drop total buffer
      → delivered os w'.calls ≡ delivered os w.calls
      → Holds total buffer w
      → Holds total (take total buffer ++ rest) w'
  Holds-stop total buffer rest w w' e d (stream, len, at, got) = (
    stream,
    len,
    ap (λ r. take total buffer ++ r) e ∙ take-append-drop total buffer ∙ at,
    d ∙ got,
  )

  Holds-more :
      (total k : ℕ) (buffer rest more : List ℕ) (w w' : World)
      → length more ≡ k
      → rest ≡ overwrite more (drop total buffer)
      → delivered os w'.calls ≡ delivered os w.calls ++ more
      → Holds total buffer w
      → Holds (total + k) (take total buffer ++ rest) w'
  Holds-more total k buffer rest more w w' h e d (stream, len, at, got) = (
    stream ++ more,
    omega (arith, length-append stream more),
    joined,
    d ∙ ap (λ l. l ++ more) got ∙ append_assoc before stream more,
  )
    where
      front : take total buffer ≡ stream
      front =
          subst (λ n. take n buffer ≡ stream) len
            (ap (take (length stream)) at ∙ take-append_length stream _)

      behind : drop total buffer ≡ drop (length stream) (overwrite stream start)
      behind =
          subst (λ n. drop n buffer ≡ drop (length stream) (overwrite stream start)) len
            (ap (drop (length stream)) at)

      joined : take total buffer ++ rest ≡ overwrite (stream ++ more) start
      joined =
          ap (λ l. l ++ rest) front
          ∙ ap (λ r. stream ++ r) (e ∙ ap (overwrite more) behind)
          ∙ overwrite-overwrite stream more start

  -- How the loop ends: with all that was asked for, or on a read that returned nothing.
  abbrev Collects : ℕ → ℕ → List ℕ → Socket → World → Type 0
  Collects size total buffer s w =
      (total ≤ size) × Holds total buffer w × ((total ≡ size) ⊎ (is_nonpos s.n ≡ true))

  read_rest-Collects :
      (fuel total : ℕ) (buffer : List ℕ) (size : ℕ) (s : Socket) (w : World)
      → size ≤ total + fuel
      → total ≤ size
      → Holds total buffer w
      → let ((total', buffer'), s', w') = read_rest os fuel total buffer size s w in
        Collects size total' buffer' s' w'
  unfolding read_rest
  read_rest-Collects zero total buffer size s w enough fits held = (fits, held, inl (omega arith))
  read_rest-Collects (suc fuel) total buffer size s w enough fits held =
      elim (Bool-cases (leb size total)) [
        | inl done ↦ rw (done, read_rest) (fits, held, inl (omega (arith, leb→le size total done)))
        | inr more ↦ elim (ℤ-cases out.0.0) [
          | inl (zero, e) ↦
              rw (more, e, read_rest)
                (let z = ends (pos 0) e in
                  (
                    fits,
                    Holds-stop total buffer out.0.1 w out.2 z.2 (z.3 ∙ append-nil _) held,
                    inr (ap is_nonpos (counted ∙ e)),
                  ))
          | inl (suc k, e) ↦
              rw (more, e, read_rest)
                (let z = ends (pos (suc k)) e in
                  let room = leb→lt size total more in
                  read_rest-Collects fuel (total + suc k) (take total buffer ++ out.0.1) size out.1
                    out.2 (omega arith) (omega (arith, z.0))
                    (Holds-more total (suc k) buffer out.0.1 (take (suc k) out.0.1) w out.2 z.1 z.2
                      z.3 held))
          | inr (k, e) ↦
              rw (more, e, read_rest)
                (let z = ends (negsuc k) e in
                  (
                    fits,
                    Holds-stop total buffer out.0.1 w out.2 z.1 z.3 held,
                    inr (ap is_nonpos (counted ∙ e)),
                  ))
        ]
      ]
    where
      out : (ℤ × List ℕ) × Socket × World
      out = read os (some (drop total buffer)) (pos (size - total)) s w

      ends :
          (v : ℤ)
          → out.0.0 ≡ v
          → ReadEnds os (size - total) (drop total buffer) s w v out.0.1 out.1 out.2
      ends v e =
          subst (λ v. ReadEnds os (size - total) (drop total buffer) s w v out.0.1 out.1 out.2) e
            (read-ReadEnds os posix (some (drop total buffer)) (pos (size - total)) s w).0

      counted : out.1.n ≡ out.0.0
      counted = (read-ReadEnds os posix (some (drop total buffer)) (pos (size - total)) s w).1

module _ (os : Platform) (posix : IsPosix os) where
  -- Given a buffer, on a valid socket, for a positive size: `read_until` always returns a count within the size. The
  -- buffer begins with that many bytes, which are exactly the bytes that arrived meanwhile, in their
  -- order, and is otherwise as it was. A count short of the size means that the last read returned
  -- end of stream, a timeout or an error.
  pub read_until-delivered :
      (buffer : List ℕ) (size : ℕ) (s : Socket) (w : World)
      → is_valid_socket s ≡ true
      → 0 < size
      → let (r, s', w') = read_until os (some buffer) (pos size) s w in
        (r.0 ≡ pos (to_ℕ r.0))
        × (to_ℕ r.0 ≤ size)
        × (length (take (to_ℕ r.0) r.1) ≡ to_ℕ r.0)
        × (r.1 ≡ overwrite (take (to_ℕ r.0) r.1) buffer)
        × (delivered os w'.calls ≡ delivered os w.calls ++ take (to_ℕ r.0) r.1)
        × ((to_ℕ r.0 ≡ size) ⊎ (is_nonpos s'.n ≡ true))
  unfolding read_until
  read_until-delivered buffer zero s w valid more = absurd (omega arith)
  read_until-delivered buffer (suc size) s w valid more =
      rw (valid, read_until)
        (let (fits, held, ended) =
            read_rest-Collects os posix buffer (delivered os w.calls) (suc size) 0 buffer (suc size)
              s w (omega arith) (omega arith) ([], refl, refl, sym (append-nil _)) in
          let out = read_rest os (suc size) 0 buffer (suc size) s w in
          let front : take out.0.0 out.0.1 ≡ held.0 =
            subst (λ n. take n out.0.1 ≡ held.0) held.1
              (ap (take (length held.0)) held.2 ∙ take-append_length held.0 _) in
          (
            refl,
            fits,
            ap length front ∙ held.1,
            held.2 ∙ ap (λ l. overwrite l buffer) (sym front),
            held.3 ∙ ap (λ l. delivered os w.calls ++ l) (sym front),
            ended,
          ))
