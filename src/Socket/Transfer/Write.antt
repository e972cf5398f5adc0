-- ===== src/Socket/Transfer/Write.antt =====
-- What the writes (src/socket.cpp) promise on every branch.
use libaeon.Prelude.{
  ℕ, zero, suc, ◌≡◌, refl, sym, ap, ◌∙◌, true, not, ◌||◌, Option, List, [], ◌∷◌, ◌++◌, ℤ, pos,
  negsuc, is_neg, is_nonpos, is_positive, is_nonpos_of_positive, is_some, to_ℕ, take, Bool-cases,
  ℤ-cases, append-nil, inl, inr,
}
use libaeon.Platform.{Platform, IsPosix, reply_error-neg, World, History, Syscall}
use libaeon.Socket.{Socket, is_valid_socket}
use libaeon.Socket.Transfer.{bytes_of, argument_error-neg, wait_for_writable, transmit, write}

module _ (os : Platform) where
  -- The bytes that all sends so far have passed to the system, in their order.
  abbrev pub sent : History → List ℕ
  sent [] = []
  sent (Syscall.send fd bytes ∷ h) =
      sent h ++ take (to_ℕ (os.reply (Syscall.send fd bytes ∷ h)).value) bytes
  sent (_ ∷ h) = sent h

  -- How a write of some bytes may end, by the number that it returns. A failure has a negative code
  -- and no byte went out; otherwise the system took exactly that many bytes from the front. Only the
  -- error code of the socket changes.
  abbrev pub WriteEnds : List ℕ → Socket → World → ℤ → Socket → World → Type 0
  WriteEnds bytes s w (negsuc e) s' w' =
      (is_neg s'.error_code ≡ true)
      × (s' ≡ record s { error_code = s'.error_code })
      × (sent w'.calls ≡ sent w.calls)
  WriteEnds bytes s w (pos k) s' w' =
      (s' ≡ record s { error_code = s'.error_code })
      × (sent w'.calls ≡ sent w.calls ++ take k bytes)

  module _ (posix : IsPosix os) where
    transmit-WriteEnds :
        (bytes : List ℕ) (s : Socket) (w : World)
        → let (r, s', w') = transmit os bytes s w in WriteEnds bytes s w r s' w'
    unfolding transmit
    transmit-WriteEnds bytes s w =
        let r = os.reply (Syscall.send s.sockfd bytes ∷ w.calls) in
        elim (ℤ-cases r.value) [
          | inl (k, e) ↦ rw (e, transmit) (refl, ap (λ v. sent w.calls ++ take (to_ℕ v) bytes) e)
          | inr (k, e) ↦
              rw (e, transmit)
                (
                  reply_error-neg os posix (Syscall.send s.sockfd bytes) w.calls (ap is_neg e),
                  refl,
                  ap (λ v. sent w.calls ++ take (to_ℕ v) bytes) e ∙ append-nil _,
                )
        ]

    -- Whatever `write` is called with, it ends in one of those ways.
    pub write-WriteEnds :
        (data_ : Option (List ℕ)) (size : ℤ) (s : Socket) (w : World)
        → let (r, s', w') = write os data_ size s w in
          WriteEnds (take (to_ℕ size) (bytes_of data_)) s w r s' w'
    unfolding write wait_for_writable
    write-WriteEnds data_ size s w =
        elim (Bool-cases (not (is_some data_) || not (is_valid_socket s) || is_nonpos size)) [
          | inl bad ↦ rw (bad, write) (argument_error-neg s, refl, refl)
          | inr good ↦ elim (Bool-cases (is_positive s.write_timeout_ms)) [
            | inl wait ↦
                elim (ℤ-cases
                  (os.reply
                    (Syscall.select_writable s.sockfd s.write_timeout_ms ∷ w.calls)).value) [
                      | inl (zero, e) ↦
                          rw (good, wait, is_nonpos_of_positive _ wait, e, write, wait_for_writable)
                            (refl, sym (append-nil _))
                      | inl (suc k, e) ↦
                          rw (good, wait, is_nonpos_of_positive _ wait, e, write, wait_for_writable)
                            (transmit-WriteEnds (take (to_ℕ size) (bytes_of data_)) s _)
                      | inr (k, e) ↦
                          rw (good, wait, is_nonpos_of_positive _ wait, e, write, wait_for_writable)
                            (
                              reply_error-neg os posix
                                  (Syscall.select_writable s.sockfd s.write_timeout_ms) w.calls
                                  (ap is_neg e),
                              refl,
                              refl,
                            )
                    ]
            | inr now ↦
                rw (good, now, write) (transmit-WriteEnds (take (to_ℕ size) (bytes_of data_)) s w)
          ]
        ]
