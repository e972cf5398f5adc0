-- ===== src/Socket/Transfer/Read.antt =====
-- What one `read` (src/socket.cpp) promises on every branch.
use libaeon.Prelude.{
  is_nonpos_of_positive, not, ◌||◌, is_some, ℕ, zero, suc, ◌≤◌, ◌≡◌, refl, sym, ap, subst, ◌∙◌, inl,
  inr, true, Option, List, [], ◌∷◌, ◌++◌, ℤ, pos, negsuc, is_neg, is_nonpos, is_positive, arith,
  length, take, drop, to_ℕ, take-append_length, ℤ-cases, Bool-cases, append-nil,
}
use libaeon.Platform.{Platform, IsPosix, reply_error-neg, World, History, Syscall}
use libaeon.Socket.{Socket, is_valid_socket}
use libaeon.Socket.Transfer.{
  overwrite, received_bytes, received_bytes_lem, received_bytes_failed, argument_error-neg,
  bytes_of, wait_for_readable, receive, read,
}

module _ (os : Platform) where
  -- The bytes that all receives so far have delivered, in their order.
  abbrev pub delivered : History → List ℕ
  delivered [] = []
  delivered (Syscall.recv fd size ∷ h) =
      delivered h ++ received_bytes (os.reply (Syscall.recv fd size ∷ h))
  delivered (_ ∷ h) = delivered h

  -- How a read of at most `size` bytes may end, by the number that it returns. A failure has a
  -- negative code and leaves the buffer and the connection alone; otherwise the first bytes of the
  -- buffer are those that the call received, and the rest of it is as it was.
  abbrev pub ReadEnds : ℕ → List ℕ → Socket → World → ℤ → List ℕ → Socket → World → Type 0
  ReadEnds size buffer s w (negsuc e) buffer' s' w' =
      (is_neg s'.error_code ≡ true)
      × (buffer' ≡ buffer)
      × (s'.connected ≡ s.connected)
      × (delivered w'.calls ≡ delivered w.calls)
  ReadEnds size buffer s w (pos k) buffer' s' w' =
      (k ≤ size)
      × (length (take k buffer') ≡ k)
      × (buffer' ≡ overwrite (take k buffer') buffer)
      × (delivered w'.calls ≡ delivered w.calls ++ take k buffer')

  overwrite_lem :
      (bytes buffer : List ℕ) (k size : ℕ) (before after : List ℕ)
      → after ≡ before ++ bytes
      → (length bytes ≡ k) × (k ≤ size)
      → (k ≤ size)
        × (length (take k (overwrite bytes buffer)) ≡ k)
        × (overwrite bytes buffer ≡ overwrite (take k (overwrite bytes buffer)) buffer)
        × (after ≡ before ++ take k (overwrite bytes buffer))
  overwrite_lem bytes buffer k size before after more (h, fits) =
      let e : take k (overwrite bytes buffer) ≡ bytes =
        subst (λ n. take n (overwrite bytes buffer) ≡ bytes) h
          (take-append_length bytes (drop (length bytes) buffer)) in
      (
        fits,
        ap length e ∙ h,
        ap (λ b. overwrite b buffer) (sym e),
        more ∙ ap (λ b. before ++ b) (sym e),
      )

  module _ (posix : IsPosix os) where
    receive-ReadEnds :
        (buffer : List ℕ) (size : ℕ) (s : Socket) (w : World)
        → let (r, s', w') = receive os buffer size s w in
          ReadEnds size buffer s w r.0 r.1 s' w' × (s'.n ≡ r.0) × (s'.sockfd ≡ s.sockfd)
    unfolding receive
    receive-ReadEnds buffer size s w =
        let r = os.reply (Syscall.recv s.sockfd size ∷ w.calls) in
        let got = λ (k : ℕ) (e : r.value ≡ pos k).
          overwrite_lem r.bytes buffer k size (delivered w.calls) _
            (ap (λ b. delivered w.calls ++ b) (received_bytes_lem r k e))
            (posix.recv_length s.sockfd size k w.calls e) in
        let nothing = λ (k : ℕ) (e : r.value ≡ negsuc k).
          ap (λ b. delivered w.calls ++ b) (received_bytes_failed r k e)
          ∙ append-nil (delivered w.calls) in
        elim (ℤ-cases r.value) [
          | inl (zero, e) ↦ rw (e, receive) (got zero e, refl, refl)
          | inl (suc k, e) ↦ rw (e, receive) (got (suc k) e, refl, refl)
          | inr (k, e) ↦
              rw (e, receive, received_bytes)
                (
                  (
                    reply_error-neg os posix (Syscall.recv s.sockfd size) w.calls (ap is_neg e),
                    refl,
                    refl,
                    nothing k e,
                  ),
                  refl,
                  refl,
                )
        ]

    -- Whatever `read` is called with, it ends in one of those ways, and `n` holds its result.
    pub read-ReadEnds :
        (buffer : Option (List ℕ)) (size : ℤ) (s : Socket) (w : World)
        → let (r, s', w') = read os buffer size s w in
          ReadEnds (to_ℕ size) (bytes_of buffer) s w r.0 r.1 s' w'
          × (s'.n ≡ r.0)
          × (s'.sockfd ≡ s.sockfd)
    unfolding read wait_for_readable
    read-ReadEnds buffer size s w =
        elim (Bool-cases (not (is_some buffer) || not (is_valid_socket s) || is_nonpos size)) [
          | inl bad ↦ rw (bad, read) ((argument_error-neg s, refl, refl, refl), refl, refl)
          | inr good ↦ elim (Bool-cases (is_positive s.read_timeout_ms)) [
            | inl wait ↦
                elim (ℤ-cases
                  (os.reply (Syscall.select_readable s.sockfd s.read_timeout_ms ∷ w.calls)).value) [
                    | inl (zero, e) ↦
                        rw (good, wait, is_nonpos_of_positive _ wait, e, read, wait_for_readable)
                          ((omega arith, refl, refl, sym (append-nil _)), refl, refl)
                    | inl (suc k, e) ↦
                        rw (good, wait, is_nonpos_of_positive _ wait, e, read, wait_for_readable)
                          (receive-ReadEnds (bytes_of buffer) (to_ℕ size) s _)
                    | inr (k, e) ↦
                        rw (good, wait, is_nonpos_of_positive _ wait, e, read, wait_for_readable)
                          (
                            (
                              reply_error-neg os posix
                                  (Syscall.select_readable s.sockfd s.read_timeout_ms) w.calls
                                  (ap is_neg e),
                              refl,
                              refl,
                              refl,
                            ),
                            refl,
                            refl,
                          )
                  ]
            | inr now ↦ rw (good, now, read) (receive-ReadEnds (bytes_of buffer) (to_ℕ size) s w)
          ]
        ]
