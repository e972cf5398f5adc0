-- ===== src/Ssl.antt =====
-- class ssl_socket (include/ssl_socket.hpp, src/ssl_socket.cpp): TLS over a socket that blocks. OpenSSL is
-- a parameter, `OpenSsl`: a state that each of its functions may change, and their results. The
-- child modules hold the setup, the transfers, the client, and the theorems about them.
pub mod Setup
pub mod Stream
pub mod Client
pub mod ErrorQueue
pub mod Modes
pub mod Closing
pub mod Demands
pub mod Verified
pub mod Lines
use libaeon.Prelude.{
  ℕ, zero, suc, ◌==◌, ◌&&◌, not, Bool, true, false, Option, none, List, [], ◌∷◌, ℤ, pos,
  if◌then◌else◌,
}
use libaeon.Errors.{err_no_socket, minus}
use libaeon.Platform.{Platform, World, SocketType, Family}
use libaeon.Socket.{Socket, Method, is_valid_socket, create_family, adopt}
use libaeon.Socket
use libaeon.Tls.{VerifyMode}

abbrev pub ssl_error_key : ℤ
ssl_error_key = minus 131076

-- The results of SSL_get_error that the source tells apart.
pub data SslFailure : Type 0 where
  no_error syscall_error other_error : SslFailure

pub record OpenSsl (X : Type 0) : Type 0 where
  -- the queue of errors: its oldest one, zero if there is none, and how many wait
  pub err_get_error : X → ℕ × X
  pub queued_errors : X → ℕ
  pub err_reason_error_string : ℕ → Option (List ℕ)
  -- SSL_CTX_new of the method for clients; the verification and paths of a new context
  pub ssl_ctx_new : X → Bool × X
  pub ssl_ctx_defaults : X → X
  pub ssl_ctx_use_certificate_file : List ℕ → X → Bool × X
  pub ssl_ctx_use_private_key_file : List ℕ → X → Bool × X
  pub ssl_ctx_load_verify_locations : List ℕ → X → Bool × X
  pub ssl_new : X → Bool × X
  pub ssl_free : X → X
  pub ssl_set_fd : ℤ → X → Bool × X
  -- SSL_set_verify, with SSL_VERIFY_PEER or not, with `verify_self_signed_leaf` or not
  pub ssl_set_verify : (peer : Bool) → (self_signed_leaf : Bool) → X → X
  pub set_hostflags : X → X
  pub set1_ip_asc : List ℕ → X → Bool × X
  pub set1_host : List ℕ → X → Bool × X
  pub set_tlsext_host_name : List ℕ → X → Bool × X
  pub ssl_set_accept_state : X → X
  pub ssl_accept : X → ℤ × X
  pub ssl_connect : X → ℤ × X
  pub ssl_get_error : ℤ → X → SslFailure
  -- SSL_get_verify_result() == X509_V_OK
  pub verify_ok : X → Bool
  pub is_init_finished : X → Bool
  pub ssl_shutdown : X → ℤ × X
  pub ssl_read : ℕ → X → (ℤ × List ℕ) × X
  pub ssl_write : List ℕ → (size : ℤ) → X → ℤ × X

pub record SslSocket : Type 0 where
  pub base : Socket
  -- whether there is a context, and a session
  pub ctx : Bool
  pub session : Bool
  pub owns_ctx : Bool
  pub allow_self_signed : Bool
  pub verify_mode : VerifyMode
  pub cert_file : List ℕ
  pub key_file : List ℕ

-- The socket, the system and the state of the library.
pub record Stage (X : Type 0) : Type 0 where
  pub tls : SslSocket
  pub world : World
  pub below : X

abbrev pub Action : Type 0 → Type 0 → Type 0
Action X A = Stage X → A × Stage X

abbrev pub pure : {X A : Type 0} → A → Action X A
pure a g = (a, g)

infixl 5 ◌>>=◌ ◌>>◌
abbrev pub ◌>>=◌ : {X A B : Type 0} → Action X A → (A → Action X B) → Action X B
◌>>=◌ m f g = let (a, g') = m g in f a g'

abbrev pub ◌>>◌ : {X A B : Type 0} → Action X A → Action X B → Action X B
m >> k = m >>= λ _. k

-- `*this`
abbrev pub this : {X : Type 0} → Action X SslSocket
this g = (g.tls, g)

abbrev pub change : {X : Type 0} → (SslSocket → SslSocket) → Action X (Unit {0})
change f g = (tt, record g { tls = f g.tls })

-- A call of the library, and one whose result is not looked at.
abbrev pub call : {X A : Type 0} → (X → A × X) → Action X A
call f g = let (a, x) = f g.below in (a, record g { below = x })

abbrev pub effect : {X : Type 0} → (X → X) → Action X (Unit {0})
effect f g = (tt, record g { below = f g.below })

-- What the library answers without a change.
abbrev pub query : {X A : Type 0} → (X → A) → Action X A
query f g = (f g.below, g)

-- A method of the base class.
abbrev pub on_base : {X A : Type 0} → Method A → Action X A
on_base m g =
    let (a, s, w) = m g.tls.base g.world in
    (a, record g { tls = record (g.tls) { base = s }; world = w })

abbrev pub set_error : {X : Type 0} → ℤ → Action X (Unit {0})
set_error code = change (λ t. record t { base = record (t.base) { error_code = code } })

-- `set_error(code); return code;`
abbrev pub fail : {X : Type 0} → ℤ → Action X ℤ
fail code g = let (_, g') = set_error code g in (code, g')

module _ {X : Type 0} (lib : OpenSsl X) where
  -- The loop of `clear_ssl_errors`, with the rounds that are left.
  unfoldable pub pop_errors : ℕ → X → X
  pop_errors zero x = x
  pop_errors (suc fuel) x =
      let (error, x') = lib.err_get_error x in
      let rest = pop_errors fuel x' in if error == 0 then x' else rest

  -- `clear_ssl_errors`: a round for each error, and one more.
  unfoldable pub clear_ssl_errors : Action X (Unit {0})
  clear_ssl_errors = effect (λ x. pop_errors (suc (lib.queued_errors x)) x)

  module _ (os : Platform) where
    -- `ssl_socket(SSL_CTX* shared_ctx)`; it calls `socket(int family_type)` with SOCK_STREAM, which is 1.
    unfoldable pub create_ssl : Bool → World → X → Stage X
    create_ssl shared w x =
        let (s, w') = create_family os (Family.foreign 1) w in
        let t : SslSocket = record {
          base = s;
          ctx = shared;
          session = false;
          owns_ctx = false;
          allow_self_signed = false;
          verify_mode = VerifyMode.strict;
          cert_file = [];
          key_file = [];
        } in
        let (made, x') = lib.ssl_ctx_new x in
        if shared
        then record { tls = t; world = w'; below = x }
        else if not made
        then (set_error err_no_socket (record { tls = t; world = w'; below = x' })).1
        else record {
          tls = record t { ctx = true; owns_ctx = true };
          world = w';
          below = lib.ssl_ctx_defaults x';
        }

    -- `ssl_socket(socket_t accepted_fd, SSL_CTX* server_ctx)`
    unfoldable pub adopt_ssl : ℤ → Bool → World → X → Stage X
    adopt_ssl fd server_ctx w x =
        let (s, w') = adopt os fd w in
        record {
          tls = record {
            base = s;
            ctx = server_ctx;
            session = false;
            owns_ctx = false;
            allow_self_signed = false;
            verify_mode = VerifyMode.off;
            cert_file = [];
            key_file = [];
          };
          world = w';
          below = x;
        }

    -- `close()`
    unfoldable pub close : Action X Bool
    close = do
      t ← this
      finished ← query lib.is_init_finished
      if t.session
          then (do
            if is_valid_socket t.base && finished
                then clear_ssl_errors >> effect (λ x. (lib.ssl_shutdown x).1)
                else pure tt
            effect lib.ssl_free
            change (λ t. record t { session = false }))
          else pure tt
      on_base (Socket.close os)
