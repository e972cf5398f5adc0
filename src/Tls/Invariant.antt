-- ===== src/Tls/Invariant.antt =====
-- The members of a TLS socket agree with each other (src/ssl_event_socket.cpp).
use libaeon.Prelude.{
  ◌≢◌, ◌⊎◌, length, take, length-take, ℕ, ◌≡◌, refl, Bool, true, false, not, ◌||◌, ◌&&◌, List, ℤ,
  arith, ◌==◌, Bool-cases, inl, inr,
}
use libaeon.Platform.{Platform}
use libaeon.EventSocket.{Env}
use libaeon.WriteQueue.{queued_bytes}
use libaeon.Tls.{TlsLibrary, TlsSocket}
use libaeon.Platform.{Readiness}
use libaeon.Tls.Session.{init_session, close, begin_graceful_shutdown}
use libaeon.Tls.Stream.{same_kind, differs, requested, write_record, send_tls, poll_receive}
use libaeon.Tls.Step.{poll_step, handshake_step, ready_step, shutdown_step}

-- A ready session exists, only a ready session is shut down in order or has a write pending, and
-- what waits for its retry belongs to a write.
pub record IsSession (t : TlsSocket) : Type 0 where
  pub ready_exists : (not t.tls_ready || t.session) ≡ true
  pub shutdown_ready : (not t.shutdown_requested || t.tls_ready) ≡ true
  pub pending_ready : (t.pending_write_len == 0 || t.tls_ready) ≡ true
  pub pending_kind : (not t.pending_write_queued || not (t.pending_write_len == 0)) ≡ true

-- From one state to the next, a step of the poller keeps everything but the readiness, and does not
-- end that.
abbrev Kept : TlsSocket → TlsSocket → Type 0
Kept t t' =
    (t'.session ≡ t.session)
    × (t'.pending_write_len ≡ t.pending_write_len)
    × (t'.pending_write_queued ≡ t.pending_write_queued)
    × (t'.shutdown_requested ≡ t.shutdown_requested)
    × ((not t.tls_ready || t'.tls_ready) ≡ true)

Kept-IsSession :
    (t t' : TlsSocket)
    → (not t'.tls_ready || t.session) ≡ true
    → Kept t t'
    → IsSession t
    → IsSession t'
Kept-IsSession t t' h k q = record {
  ready_exists = ground (arith, k, h);
  shutdown_ready = ground (arith, q.shutdown_ready, k);
  pending_ready = ground (arith, q.pending_ready, k);
  pending_kind = ground (arith, q.pending_kind, k);
}

module _ (os : Platform) {X : Type 0} (lib : TlsLibrary X) (t : TlsSocket) (env : Env X) where
  -- A new session begins well, and a failure to begin one leaves no session half begun.
  pub init_session-IsSession :
      (server : Bool)
      → t.tls_ready ≡ false
      → IsSession t
      → let (r, t', env') = init_session os lib server t env in IsSession t'
  unfolding init_session
  init_session-IsSession server idle q = record {
    ready_exists = ground (arith, q.ready_exists);
    shutdown_ready = ground (arith, q.shutdown_ready);
    pending_ready = ground (arith, q.pending_ready);
    pending_kind = ground (arith, q.pending_kind);
  }

  pub close-IsSession : let (r, t', env') = close os lib t env in IsSession t'
  unfolding close
  close-IsSession = record {
    ready_exists = refl;
    shutdown_ready = refl;
    pending_ready = refl;
    pending_kind = refl;
  }

  pub begin_graceful_shutdown-IsSession :
      (timeout_ms : ℤ)
      → IsSession t
      → let (r, t', env') = begin_graceful_shutdown os lib timeout_ms t env in IsSession t'
  unfolding begin_graceful_shutdown
  begin_graceful_shutdown-IsSession timeout_ms q = record {
    ready_exists = ground (arith, q.ready_exists);
    shutdown_ready = ground (arith, q.shutdown_ready);
    pending_ready = ground (arith, q.pending_ready);
    pending_kind = ground (arith, q.pending_kind);
  }

  pub poll_receive-IsSession :
      (size : ℕ) → IsSession t → let (r, t', env') = poll_receive os lib size t env in IsSession t'
  unfolding poll_receive
  poll_receive-IsSession size q = record {
    ready_exists = ground (arith, q.ready_exists);
    shutdown_ready = ground (arith, q.shutdown_ready);
    pending_ready = ground (arith, q.pending_ready);
    pending_kind = ground (arith, q.pending_kind);
  }

  handshake_step-Kept : let (_, t', env') = handshake_step os lib t env in Kept t t'
  unfolding handshake_step
  handshake_step-Kept = ground arith

  shutdown_step-Kept :
      (r : Readiness)
      → let (_, t', env') = shutdown_step os lib r t env in Kept t t' × (t'.tls_ready ≡ t.tls_ready)
  unfolding shutdown_step
  shutdown_step-Kept r = ground arith

  ready_step-Kept :
      (r : Readiness)
      → let (_, t', env') = ready_step os lib r t env in Kept t t' × (t'.tls_ready ≡ t.tls_ready)
  unfolding ready_step
  ready_step-Kept r = ground (arith, shutdown_step-Kept r)

  poll_step-Kept :
      (r : Readiness)
      → IsSession t
      → let (_, t', env') = poll_step os lib r t env in
        Kept t t' × ((not t'.tls_ready || t.session) ≡ true)
  unfolding poll_step
  poll_step-Kept r q = ground (arith, q.ready_exists, handshake_step-Kept, ready_step-Kept r)

  pub poll_step-IsSession :
      (r : Readiness) → IsSession t → let (_, t', env') = poll_step os lib r t env in IsSession t'
  poll_step-IsSession r q = Kept-IsSession t _ (poll_step-Kept r q).1 (poll_step-Kept r q).0 q

  write_record-IsSession :
      (bytes : List ℕ) (queued : Bool)
      → t.tls_ready ≡ true
      → length bytes ≢ 0
      → IsSession t
      → let (r, t', env') = write_record os lib bytes queued t env in IsSession t'
  unfolding write_record
  write_record-IsSession bytes queued ready some_bytes q = record {
    ready_exists = ground (arith, q.ready_exists);
    shutdown_ready = ground (arith, q.shutdown_ready);
    pending_ready = ground (arith, q.pending_ready);
    pending_kind = ground (arith, q.pending_kind);
  }

  requested-positive :
      (data_ : List ℕ) (queued : Bool)
      → length data_ ≢ 0
      → t.pending_write_len == 0 ≡ true ⊎ differs data_ queued t ≡ false
      → length (take (requested (length data_) t) data_) ≢ 0
  unfolding requested differs
  requested-positive data_ queued h known =
      ground (arith, length-take (requested (length data_) t) data_)

  pub send_tls-IsSession :
      (data_ : List ℕ) (queued : Bool)
      → IsSession t
      → let (r, t', env') = send_tls os lib data_ queued t env in IsSession t'
  unfolding send_tls
  send_tls-IsSession data_ queued q =
      elim (Bool-cases (
        not t.tls_ready
        || not t.session
        || length data_ == 0
        || t.shutdown_requested && not queued)) [
          | inl refused ↦
              rw (refused, send_tls)
                (record {
                  ready_exists = q.ready_exists;
                  shutdown_ready = q.shutdown_ready;
                  pending_ready = q.pending_ready;
                  pending_kind = q.pending_kind;
                })
          | inr fine ↦
              elim (Bool-cases
                (not queued && t.pending_write_len == 0 && not (queued_bytes t.event.out == 0))) [
                  | inl behind ↦ rw (fine, behind, send_tls) q
                  | inr next ↦ elim (Bool-cases (t.pending_write_len == 0)) [
                    | inl new ↦
                        rw (fine, next, new, send_tls)
                          (write_record-IsSession _ queued (ground (arith, fine))
                            (requested-positive data_ queued (ground (arith, fine)) (inl new)) q)
                    | inr again ↦
                        elim (Bool-cases (not (same_kind queued t.pending_write_queued))) [
                          | inl mixed ↦ rw (fine, next, again, mixed, send_tls) q
                          | inr same ↦ elim (Bool-cases (differs data_ queued t)) [
                            | inl other ↦
                                rw (fine, next, again, same, other, send_tls)
                                  (record {
                                    ready_exists = q.ready_exists;
                                    shutdown_ready = q.shutdown_ready;
                                    pending_ready = q.pending_ready;
                                    pending_kind = q.pending_kind;
                                  })
                            | inr retry ↦
                                rw (fine, next, again, same, retry, send_tls)
                                  (write_record-IsSession _ queued (ground (arith, fine))
                                    (requested-positive data_ queued (ground (arith, fine))
                                      (inr retry))
                                    q)
                          ]
                        ]
                  ]
                ]
        ]
