-- ===== src/Tls/Progress.antt =====
-- What each result of `poll_step` means (src/ssl_event_socket.cpp).
use libaeon.Prelude.{
  ◌≡◌, ◌≢◌, true, false, ◌||◌, ◌&&◌, ◌==ℤ◌, leb, [], ◌∷◌, ◌++◌, ℤ, pos, is_neg, arith, ◌==◌, ==ℤ→eq,
}
use libaeon.Errors.{err_none}
use libaeon.Platform.{Platform}
use libaeon.WriteQueue.{queued_bytes}
use libaeon.EventSocket.{Env, Event}
use libaeon.Tls.{TlsLibrary, TlsSocket}
use libaeon.Platform.{Readiness}
use libaeon.Tls.Step.{poll_step, handshake_step, ready_step, shutdown_step, unverified}

module _ (os : Platform) {X : Type 0} (lib : TlsLibrary X) (r : Readiness) (t : TlsSocket)
    (env : Env X) where
  handshake_step-passes : (handshake_step os lib t env).0 ≢ pos 1
  unfolding handshake_step
  handshake_step-passes e = ground arith

  handshake_step-ends : (handshake_step os lib t env).0 ≢ pos 3
  unfolding handshake_step
  handshake_step-ends e = ground arith

  -- The TLS library has completed the handshake, and what it left is what the environment holds; the
  -- session is ready, verified if it has to be, and its handler was told.
  abbrev Completed : TlsSocket → Env X → Type 0
  Completed t' env' =
      ((lib.ssl_do_handshake env.below).0 ≡ pos 1)
      × (env'.below ≡ (lib.ssl_do_handshake env.below).1)
      × (t'.tls_ready ≡ true)
      × (unverified os lib t env'.below ≡ false)
      × (t'.event.base.error_code ≡ err_none)
      × (env'.events ≡ env.events ++ Event.on_connect ∷ [])

  handshake_step-completes :
      (handshake_step os lib t env).0 ≡ pos 2
      → Completed (handshake_step os lib t env).1 (handshake_step os lib t env).2
  unfolding handshake_step
  handshake_step-completes e = ground (arith, ==ℤ→eq (lib.ssl_do_handshake env.below).0 (pos 1))

  shutdown_step-passes : (shutdown_step os lib r t env).0 ≢ pos 1
  unfolding shutdown_step
  shutdown_step-passes e = ground arith

  shutdown_step-completes : (shutdown_step os lib r t env).0 ≢ pos 2
  unfolding shutdown_step
  shutdown_step-completes e = ground arith

  shutdown_step-events : (shutdown_step os lib r t env).2.events ≡ env.events
  unfolding shutdown_step
  shutdown_step-events = ground arith

  ready_step-passes :
      (ready_step os lib r t env).0 ≡ pos 1
      → ((ready_step os lib r t env).1 ≡ t) × ((ready_step os lib r t env).2 ≡ env)
  unfolding ready_step
  ready_step-passes e = ground (arith, shutdown_step-passes)

  ready_step-completes : (ready_step os lib r t env).0 ≢ pos 2
  unfolding ready_step
  ready_step-completes e = ground (arith, shutdown_step-completes)

  shutdown_step-ends :
      (shutdown_step os lib r t env).0 ≡ pos 3
      → (t.peer_notified_close || (lib.ssl_shutdown env.below).0 ==ℤ pos 1) ≡ true
  unfolding shutdown_step
  shutdown_step-ends e = ground (arith, e)

  -- A shutdown was asked for, its time is not over, and the peer has closed first, or nothing is left to
  -- write and SSL_shutdown has completed.
  abbrev Ended : Env X → Type 0
  Ended env' =
      (t.shutdown_requested ≡ true)
      × (leb t.shutdown_deadline (lib.now env.below) ≡ false)
      × ((t.peer_notified_close
            || queued_bytes t.event.out == 0 && (lib.ssl_shutdown env.below).0 ==ℤ pos 1)
          ≡ true)
      × (env'.events ≡ env.events)

  ready_step-ends : (ready_step os lib r t env).0 ≡ pos 3 → Ended (ready_step os lib r t env).2
  unfolding ready_step
  ready_step-ends e = ground (arith, e, shutdown_step-events, shutdown_step-ends)

  handshake_step-neg :
      is_neg (handshake_step os lib t env).0 ≡ true
      → is_neg (handshake_step os lib t env).1.event.base.error_code ≡ true
  unfolding handshake_step
  handshake_step-neg e = ground arith

  shutdown_step-neg :
      is_neg (shutdown_step os lib r t env).0 ≡ true
      → is_neg (shutdown_step os lib r t env).1.event.base.error_code ≡ true
  unfolding shutdown_step
  shutdown_step-neg e = ground arith

  ready_step-neg :
      is_neg (ready_step os lib r t env).0 ≡ true
      → is_neg (ready_step os lib r t env).1.event.base.error_code ≡ true
  unfolding ready_step
  ready_step-neg e = ground (arith, shutdown_step-neg)

  -- What the results of a step mean.
  abbrev pub StepMeans : ℤ → TlsSocket → Env X → Type 0
  StepMeans result t' env' =
      (result ≡ pos 1 → (t.session ≡ true) × (t.tls_ready ≡ true) × (t' ≡ t) × (env' ≡ env))
      × (result ≡ pos 2 → (t.tls_ready ≡ false) × Completed t' env')
      × (result ≡ pos 3 → (t.tls_ready ≡ true) × Ended env')
      × (is_neg result ≡ true → is_neg t'.event.base.error_code ≡ true)

  step-passes :
      let (result, t', env') = poll_step os lib r t env in
      result ≡ pos 1 → (t.session ≡ true) × (t.tls_ready ≡ true) × (t' ≡ t) × (env' ≡ env)
  unfolding poll_step
  step-passes e = ground (arith, ready_step-passes, handshake_step-passes)

  step-completes :
      let (result, t', env') = poll_step os lib r t env in
      result ≡ pos 2 → (t.tls_ready ≡ false) × Completed t' env'
  unfolding poll_step
  step-completes e = ground (arith, ready_step-completes, handshake_step-completes)

  step-ends :
      let (result, t', env') = poll_step os lib r t env in
      result ≡ pos 3 → (t.tls_ready ≡ true) × Ended env'
  unfolding poll_step
  step-ends e = ground (arith, ready_step-ends, handshake_step-ends)

  step-neg :
      let (result, t', env') = poll_step os lib r t env in
      is_neg result ≡ true → is_neg t'.event.base.error_code ≡ true
  unfolding poll_step
  step-neg e = ground (arith, ready_step-neg, handshake_step-neg)

  -- A result of 1, which lets application data pass, comes only of a ready session, and nothing
  -- changes. A result of 2 comes only of SSL_do_handshake that returns 1 for a session that was not
  -- ready: it makes the session ready, with the certificate in order if a client verifies it, and the
  -- connect handler is told once. A result of 3 comes only of a ready session that was asked to shut down
  -- and still has time for it, when the peer has closed first, or the queue is empty and SSL_shutdown
  -- returns 1; no handler is told. A negative result leaves a negative error code.
  pub poll_step-StepMeans :
      let (result, t', env') = poll_step os lib r t env in StepMeans result t' env'
  poll_step-StepMeans = (step-passes, step-completes, step-ends, step-neg)
