-- ===== src/Tls/Carriage.antt =====
-- What a write through TLS takes of its bytes, also when it has to be tried again
-- (src/ssl_event_socket.cpp, `send_tls`).
use libaeon.Prelude.{
  ℕ, zero, suc, ◌≡◌, ◌≢◌, refl, ap, subst, sym, ◌∙◌, Bool, true, false, is_positive, Option, none,
  some, not, ◌||◌, ◌&&◌, List, ◌++◌, ℤ, pos, negsuc, is_neg, arith, length, take, take-take_le,
  length-take, append-nil, Bool-cases, ℤ-cases, ◌==◌, if◌then◌else◌, inl, inr, ◌⊎◌,
}
use libaeon.Errors.{err_none}
use libaeon.Platform.{Platform}
use libaeon.WriteQueue.{queued_bytes}
use libaeon.EventSocket.{Env}
use libaeon.Tls.{TlsLibrary, TlsSocket, wants_more, is_want_read, bytes_hash, set_error}
use libaeon.Tls.Writes.{Takes, MayWrite, WritesPartially, Remembers, IsTold}
use libaeon.Tls.Stream.{nothing_pending, same_kind, write_record, send_tls, requested, differs}

module _ (os : Platform) {X : Type 0} (lib : TlsLibrary X) (law : WritesPartially lib) where
  write_record-Takes :
      (bytes : List ℕ) (queued : Bool) (t : TlsSocket) (env : Env X)
      → MayWrite bytes (law.pending env.below)
      → let (r, t', env') = write_record os lib bytes queued t env in
        Takes bytes (law.taken env.below) (law.taken env'.below) r
  unfolding write_record
  write_record-Takes bytes queued t env may =
      let out = lib.ssl_write bytes env.below in
      let takes = law.write_takes bytes env.below may in
      let by_result = λ (v : ℤ) (e : out.0 ≡ v).
        subst (Takes bytes (law.taken env.below) (law.taken out.1)) e takes in
      elim (ℤ-cases out.0) [
        | inl (zero, e) ↦ elim (Bool-cases (wants_more (lib.ssl_get_error out.0 out.1))) [
          | inl again ↦ rw (again, e, write_record) ((by_result (pos 0) e).1 ∙ append-nil _)
          | inr fatal ↦ rw (fatal, e, write_record) ((by_result (pos 0) e).1 ∙ append-nil _)
        ]
        | inl (suc k, e) ↦ rw (e, write_record) (by_result (pos (suc k)) e)
        | inr (k, e) ↦ elim (Bool-cases (wants_more (lib.ssl_get_error out.0 out.1))) [
          | inl again ↦ rw (again, e, write_record) (by_result (negsuc k) e)
          | inr fatal ↦ rw (fatal, e, write_record) (by_result (negsuc k) e)
        ]
      ]

  -- The fields of a socket that remembers a write stay what they are for the same write.
  abbrev Waits : TlsSocket → List ℕ → Type 0
  Waits t bytes = (t.pending_write_len ≡ 0) ⊎ Remembers t (some bytes)

  write_record-Remembers :
      (bytes : List ℕ) (queued : Bool) (t : TlsSocket) (env : Env X)
      → MayWrite bytes (law.pending env.below)
      → length bytes ≢ 0
      → Waits t bytes
      → let (r, t', env') = write_record os lib bytes queued t env in
        t'.ssl_failed ≡ false → Remembers t' (law.pending env'.below)
  unfolding write_record
  write_record-Remembers bytes queued t env may full waits =
      let out = lib.ssl_write bytes env.below in
      let waiting : TlsSocket = record t {
        send_need_read = is_want_read (lib.ssl_get_error out.0 out.1);
      } in
      let next : TlsSocket =
        if t.pending_write_len == 0
        then record waiting {
          pending_write_len = length bytes;
          pending_write_queued = queued;
          pending_write_hash = bytes_hash bytes;
        }
        else waiting in
      elim (Bool-cases (is_positive out.0)) [
        | inl sent ↦
            rw (sent, write_record)
              (λ h.
                subst (Remembers (set_error err_none (nothing_pending t)))
                  (sym (law.write_done bytes env.below may sent)) refl)
        | inr kept ↦ elim (Bool-cases (wants_more (lib.ssl_get_error out.0 out.1))) [
          | inr fatal ↦ rw (kept, fatal, write_record) (λ h. absurd (ground (arith, h)))
          | inl again ↦
              rw (kept, again, write_record)
                (λ h.
                  subst (Remembers next) (sym (law.write_again bytes env.below may kept again))
                    (ground (arith, full, waits)))
        ]
      ]

  -- What was taken of a part of the bytes was taken of the bytes.
  Takes-take :
      (size : ℕ) (bytes before after : List ℕ) (r : ℤ)
      → Takes (take size bytes) before after r
      → Takes bytes before after r
  Takes-take size bytes before after (pos count) (fits, e) = (
    omega (arith, fits, length-take size bytes),
    e
        ∙ ap (λ l. before ++ l)
            (take-take_le count size bytes (omega (arith, fits, length-take size bytes))),
  )
  Takes-take size bytes before after (negsuc k) e = e

  -- The first part of the bytes that `send_tls` hands over is one that SSL_write may be given.
  new-MayWrite :
      (bytes : List ℕ) (t : TlsSocket) (again : Option (List ℕ))
      → Remembers t again
      → t.pending_write_len ≡ 0
      → MayWrite bytes again
  new-MayWrite bytes t none m new = tt
  new-MayWrite bytes t (some again) m new = absurd (ground (arith, m, new))

  requested-new :
      (size : ℕ) (t : TlsSocket) → (t.pending_write_len == 0) ≡ true → requested size t ≡ size
  unfolding requested
  requested-new size t new = ground (arith, new)

  requested-again :
      (size : ℕ) (t : TlsSocket)
      → (t.pending_write_len == 0) ≡ false
      → requested size t ≡ t.pending_write_len
  unfolding requested
  requested-again size t again = ground (arith, again)

  retry-same :
      (data_ : List ℕ) (queued : Bool) (t : TlsSocket) (again : Option (List ℕ))
      → Remembers t again
      → IsTold data_ again
      → t.pending_write_len ≢ 0
      → differs data_ queued t ≡ false
      → again ≡ some (take t.pending_write_len data_)
  unfolding differs
  retry-same data_ queued t none m told old same = absurd (old m)
  retry-same data_ queued t (some again) m told old same =
      let hashed : bytes_hash (take t.pending_write_len data_) ≡ t.pending_write_hash =
        ground (arith, same) in
      ap some (sym (told (ap (λ n. bytes_hash (take n data_)) (sym m.0) ∙ hashed ∙ m.1)))
      ∙ ap (λ n. some (take n data_)) (sym m.0)

  -- A write through TLS by a socket whose session has not failed and that remembers the write which
  -- the TLS library wants to see again, if there is one, where the hash tells the bytes from those of
  -- that write. It reports exactly the first bytes that the library took of it, or fails and the
  -- library took none, be it direct or from the queue, new or tried again. Unless the session fails,
  -- the socket again remembers what the library wants to see again. A write of the other kind than the
  -- one to be tried again fails, and the library does not see it.
  pub send_tls-Takes :
      (data_ : List ℕ) (queued : Bool) (t : TlsSocket) (env : Env X)
      → t.ssl_failed ≡ false
      → Remembers t (law.pending env.below)
      → IsTold data_ (law.pending env.below)
      → let (r, t', env') = send_tls os lib data_ queued t env in
        Takes data_ (law.taken env.below) (law.taken env'.below) r
        × (t'.ssl_failed ≡ false → Remembers t' (law.pending env'.below))
        × (t.pending_write_len ≢ 0
            → same_kind queued t.pending_write_queued ≡ false
            → (is_neg r ≡ true) × (env'.below ≡ env.below))
  unfolding send_tls
  send_tls-Takes data_ queued t env good m told =
      let size = requested (length data_) t in
      let part = take size data_ in
      let sent = write_record os lib part queued t env in
      let went = λ (may : MayWrite part (law.pending env.below)).
        Takes-take size data_ (law.taken env.below) (law.taken sent.2.below) sent.0
          (write_record-Takes part queued t env may) in
      let kept = write_record-Remembers part queued t env in
      elim (Bool-cases (
        not t.tls_ready
        || not t.session
        || length data_ == 0
        || t.shutdown_requested && not queued)) [
          | inl refused ↦ rw (refused, send_tls) (refl, λ h. m, λ old mixed. (refl, refl))
          | inr fine ↦
              elim (Bool-cases
                (not queued && t.pending_write_len == 0 && not (queued_bytes t.event.out == 0))) [
                  | inl behind ↦
                      rw (fine, behind, send_tls) (refl, λ h. m, λ old mixed. (refl, refl))
                  | inr next ↦ elim (Bool-cases (t.pending_write_len == 0)) [
                    | inl new ↦
                        let none_ : t.pending_write_len ≡ 0 = ground (arith, new) in
                        let may = new-MayWrite part t (law.pending env.below) m none_ in
                        let all_ : size ≡ length data_ = requested-new (length data_) t new in
                        let full : length part ≢ 0 =
                          λ z. ground (arith, z, all_, fine, length-take size data_) in
                        rw (fine, next, new, send_tls)
                          (went may, kept may full (inl none_), λ old mixed. absurd (old none_))
                    | inr again ↦ elim (Bool-cases (same_kind queued t.pending_write_queued)) [
                      | inr mixed ↦
                          rw (fine, next, again, mixed, send_tls)
                            (refl, λ h. m, λ old mixed. (refl, refl))
                      | inl same ↦ elim (Bool-cases (differs data_ queued t)) [
                        | inl other ↦
                            rw (fine, next, again, same, other, send_tls)
                              (refl, λ h. m, λ old mixed. (refl, refl))
                        | inr retry ↦
                            let asked : size ≡ t.pending_write_len =
                              requested-again (length data_) t again in
                            let old : t.pending_write_len ≢ 0 = λ z. ground (arith, again, z) in
                            let bytes : law.pending env.below ≡ some part =
                              retry-same data_ queued t (law.pending env.below) m told old retry
                              ∙ ap (λ n. some (take n data_)) (sym asked) in
                            let remembered = subst (Remembers t) bytes m in
                            let may = subst (MayWrite part) (sym bytes) refl in
                            rw (fine, next, again, same, retry, send_tls)
                              (
                                went may,
                                kept may remembered.2 (inr remembered),
                                λ old mixed. absurd (ground (arith, mixed, same)),
                              )
                      ]
                    ]
                  ]
                ]
        ]
