-- ===== src/Tls/Lifetime.antt =====
-- The life of a TLS socket as a sequence of its operations (src/ssl_event_socket.cpp).
use libaeon.Prelude.{ℕ, ◌≡◌, Bool, false, List, ℤ}
use libaeon.Platform.{Platform}
use libaeon.EventSocket.{Env}
use libaeon.Tls.{TlsLibrary, TlsSocket}
use libaeon.Platform.{Readiness}
use libaeon.Tls.Session.{init_session, close, begin_graceful_shutdown}
use libaeon.Tls.Stream.{send_tls, poll_receive}
use libaeon.Tls.Step.{poll_step}
use libaeon.Tls.Invariant.{
  IsSession, init_session-IsSession, close-IsSession, begin_graceful_shutdown-IsSession,
  poll_receive-IsSession, poll_step-IsSession, send_tls-IsSession,
}

module _ (os : Platform) {X : Type 0} (lib : TlsLibrary X) where
  -- One operation, in whatever environment it runs. A session begins on a socket that has none ready.
  pub data Operation : TlsSocket → TlsSocket → Type 0 where
    begins :
        (server : Bool) (env : Env X) {t : TlsSocket}
        → t.tls_ready ≡ false
        → Operation t (init_session os lib server t env).1
    polls : (r : Readiness) (env : Env X) {t : TlsSocket} → Operation t (poll_step os lib r t env).1
    receives :
        (size : ℕ) (env : Env X) {t : TlsSocket} → Operation t (poll_receive os lib size t env).1
    sends :
        (bytes : List ℕ) (queued : Bool) (env : Env X) {t : TlsSocket}
        → Operation t (send_tls os lib bytes queued t env).1
    shuts :
        (timeout_ms : ℤ) (env : Env X) {t : TlsSocket}
        → Operation t (begin_graceful_shutdown os lib timeout_ms t env).1
    closes : (env : Env X) {t : TlsSocket} → Operation t (close os lib t env).1

  pub data Life : TlsSocket → TlsSocket → Type 0 where
    here : {t : TlsSocket} → Life t t
    next : {t t' t'' : TlsSocket} → Life t t' → Operation t' t'' → Life t t''

  Operation-IsSession : {t t' : TlsSocket} → Operation t t' → IsSession t → IsSession t'
  Operation-IsSession (begins server env {t} idle) q =
      init_session-IsSession os lib t env server idle q
  Operation-IsSession (polls r env {t}) q = poll_step-IsSession os lib t env r q
  Operation-IsSession (receives size env {t}) q = poll_receive-IsSession os lib t env size q
  Operation-IsSession (sends bytes queued env {t}) q =
      send_tls-IsSession os lib t env bytes queued q
  Operation-IsSession (shuts timeout_ms env {t}) q =
      begin_graceful_shutdown-IsSession os lib t env timeout_ms q
  Operation-IsSession (closes env {t}) q = close-IsSession os lib t env

  -- Whatever operations a TLS socket goes through: a ready session exists, only a ready session is
  -- being shut down or has a write to try again, and a queued write to try again is not empty.
  pub Life-IsSession : {t t' : TlsSocket} → Life t t' → IsSession t → IsSession t'
  Life-IsSession here q = q
  Life-IsSession (next life operation) q = Operation-IsSession operation (Life-IsSession life q)
