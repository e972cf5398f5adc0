-- ===== src/Tls.antt =====
-- class ssl_event_socket (src/ssl_event_socket.cpp): the TLS session of an event socket. The TLS
-- library is a parameter, `TlsLibrary`: a state that each of its functions may change, and their
-- results. `Session` begins and ends a session, `Step` moves it on at each poll, `Stream` reads and
-- writes through it; the other child modules prove what they promise.
pub mod Session
pub mod Step
pub mod Stream
pub mod Writes
pub mod Carriage
pub mod Invariant
pub mod Progress
pub mod Lifetime
use libaeon.Prelude.{ℕ, ◌*◌, ◌+◌, ◌%◌, Bool, true, false, List, [], ◌∷◌, ℤ, pos, take, Option, none}
use libaeon.Errors.{minus}
use libaeon.Platform.{Platform, World}
use libaeon.EventSocket.{EventSocket, Env}
use Prim.Native.Nat.{bit_xor}

abbrev pub ssl_error : ℤ
ssl_error = minus 131073

abbrev pub ssl_error_init : ℤ
ssl_error_init = minus 131074

abbrev pub ssl_error_cert : ℤ
ssl_error_cert = minus 131075

abbrev pub ssl_error_handshake : ℤ
ssl_error_handshake = minus 131077

abbrev pub ssl_error_io : ℤ
ssl_error_io = minus 131078

-- The results of SSL_get_error that the source tells apart.
pub data SslReason : Type 0 where
  want_read want_write zero_return other : SslReason

abbrev pub wants_more : SslReason → Bool
wants_more SslReason.want_read = true
wants_more SslReason.want_write = true
wants_more _ = false

abbrev pub is_want_read : SslReason → Bool
is_want_read SslReason.want_read = true
is_want_read _ = false

abbrev pub is_want_write : SslReason → Bool
is_want_write SslReason.want_write = true
is_want_write _ = false

abbrev pub is_zero_return : SslReason → Bool
is_zero_return SslReason.zero_return = true
is_zero_return _ = false

-- The TLS library, with the clock of the process in nanoseconds.
pub record TlsLibrary (X : Type 0) : Type 0 where
  -- SSL_new and SSL_set_fd, whether each succeeds, and the side on which the handshake starts
  pub ssl_new : (server : Bool) → X → (Bool × Bool) × X
  pub ssl_do_handshake : X → ℤ × X
  pub ssl_read : ℕ → X → (ℤ × List ℕ) × X
  pub ssl_write : List ℕ → X → ℤ × X
  pub ssl_shutdown : X → ℤ × X
  pub ssl_get_error : ℤ → X → SslReason
  -- SSL_get_shutdown() & SSL_SENT_SHUTDOWN
  pub sent_shutdown : X → Bool
  -- SSL_get_verify_result() == X509_V_OK
  pub verify_ok : X → Bool
  pub ssl_pending : X → ℤ
  -- the verification that `start_client` configures: by the certificate's name or address
  pub set_verification :
      (strict : Bool) → (allow_self_signed : Bool) → (numeric : Bool) → List ℕ → X → Bool × X
  pub set_host_name : List ℕ → X → Bool × X
  pub is_numeric_ip : List ℕ → Bool
  pub now : X → ℕ

pub data VerifyMode : Type 0 where
  strict off : VerifyMode

abbrev pub is_strict : VerifyMode → Bool
is_strict VerifyMode.strict = true
is_strict VerifyMode.off = false

pub record TlsSocket : Type 0 where
  pub event : EventSocket
  -- whether there is a context, and a session
  pub ctx : Bool
  pub session : Bool
  pub server_side : Bool
  pub tls_ready : Bool
  pub need_write : Bool
  pub send_need_read : Bool
  pub recv_need_write : Bool
  pub pending_write_len : ℕ
  pub ssl_failed : Bool
  pub peer_notified_close : Bool
  pub shutdown_requested : Bool
  pub shutdown_notify_sent : Bool
  pub shutdown_need_write : Bool
  pub shutdown_need_read : Bool
  pub shutdown_deadline : ℕ
  pub pending_write_queued : Bool
  pub pending_write_hash : ℕ
  pub handshake_timeout_ms : ℕ
  pub handshake_deadline : ℕ
  pub verify_mode : VerifyMode
  pub allow_self_signed : Bool
  pub expected_identity : List ℕ

abbrev pub ns_per_ms : ℕ
ns_per_ms = 1000000

-- A method of the class.
abbrev pub TlsMethod : Type 0 → Type 0 → Type 0
TlsMethod X A = TlsSocket → Env X → A × TlsSocket × Env X

abbrev pub set_error : ℤ → TlsSocket → TlsSocket
set_error code t = record t {
  event = record t.event { base = record t.event.base { error_code = code } };
}

-- `set_would_block`, `set_transport_error`: the native error number.
abbrev pub set_errno : {X : Type 0} → ℕ → Env X → Env X
set_errno error env = record env { world = record env.world { errno = error } }

-- `bytes_hash`, with the wrap-around of std::uint64_t
abbrev pub hash_from : ℕ → List ℕ → ℕ
hash_from hash [] = hash
hash_from hash (byte ∷ rest) =
    hash_from ((bit_xor hash byte * 1099511628211) % 18446744073709551616) rest

unfoldable pub bytes_hash : List ℕ → ℕ
bytes_hash bytes = hash_from 14695981039346656037 bytes
