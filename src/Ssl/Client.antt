-- ===== src/Ssl/Client.antt =====
-- class ssl_client_socket (src/ssl_client_socket.cpp): connecting, with the identity that the server's
-- certificate must match.
use libaeon.Prelude.{
  ℕ, ◌==◌, ◌&&◌, ◌||◌, not, Bool, true, false, Option, none, some, List, ℤ, pos, ◌==ℤ◌, is_zero,
  is_nonpos, to_ℕ, if◌then◌else◌,
}
use libaeon.Errors.{err_none, err_no_socket, err_no_host, is_valid_port}
use libaeon.Platform.{Platform, Family, family_eq, Sockaddr, SocketType, Syscall}
use libaeon.Address.{is_ipv4, is_ipv6, get_port, set_port, resolve_internal}
use libaeon.Socket.{
  Method, is_valid_socket, self, modify, syscall, last_error, clear_buffers, set_remote_hostname,
}
use libaeon.Socket
use libaeon.Socket.Transfer.{bytes_of}
use libaeon.Tls.{ssl_error}
use libaeon.Ssl.{OpenSsl, Stage, Action, pure, ◌>>=◌, ◌>>◌, this, change, on_base, set_error, close}
use libaeon.Ssl.Setup.{setup_ssl, perform_handshake, is_empty}

-- The members that `ssl_client_socket` adds: the server that was asked for.
pub record SslClient (X : Type 0) : Type 0 where
  pub stage : Stage X
  pub hostname : List ℕ
  pub port_num : ℤ

abbrev pub target_family : Sockaddr → Family
target_family target = if is_ipv6 target then Family.ipv6 else Family.ipv4

module _ (os : Platform) {X : Type 0} (lib : OpenSsl X) where
  -- `connect_to`, a new descriptor
  unfoldable pub open_transport : Family → Action X Bool
  open_transport family = do
    r ← on_base (syscall os (Syscall.open_socket family SocketType.stream))
    change (λ t. record t { base = record (t.base) { sockfd = r.value } })
    t ← this
    if not (is_valid_socket t.base)
        then set_error err_no_socket >> pure false
        else change (λ t. record t { base = record (t.base) { net_family = family } }) >> pure true

  -- `connect_to`, the session over a connected descriptor
  unfoldable pub secure : List ℕ → Action X Bool
  secure identity = do
    ready ← setup_ssl os lib identity
    result ← (if ready ==ℤ err_none then perform_handshake os lib else pure ready)
    t ← this
    if result ==ℤ err_none
        then set_error err_none >> pure true
        else (close lib os >> set_error t.base.error_code) >> pure false

  -- `connect_to`, from `::connect` on
  unfoldable pub attempt : Sockaddr → List ℕ → Action X Bool
  attempt target identity = do
    t ← this
    r ← on_base (syscall os (Syscall.connect t.base.sockfd target))
    code ← on_base (last_error os)
    if not (is_zero r.value) then (set_error code >> close lib os) >> pure false else do
      change (λ t. record t { base = record (t.base) { connected = true } })
      on_base clear_buffers
      change (λ t. record t { base = record (t.base) { port = pos (get_port os target) } })
      on_base (set_remote_hostname identity)
      secure identity

  -- `connect_to`: an earlier connection is closed.
  unfoldable pub close_previous : Action X Bool
  close_previous = do t ← this; if t.session || t.base.connected then close lib os else pure false

  -- `connect_to`: a descriptor of another family is closed.
  unfoldable pub close_other : Family → Action X Bool
  close_other family = do
    t ← this
    if is_valid_socket t.base && not (family_eq family t.base.net_family)
        then on_base (Socket.close os)
        else pure false

  -- `connect_to`: without a descriptor there is a new one.
  unfoldable pub ensure_transport : Family → Action X Bool
  ensure_transport family = do
    t ← this
    if is_valid_socket t.base then pure true else open_transport family

  -- `connect_to`, before `::connect`: a descriptor of the family, without a session.
  unfoldable pub prepare : Family → Action X Bool
  prepare family = (close_previous >> close_other family) >> ensure_transport family

  -- `connect_to`
  unfoldable pub connect_to : Sockaddr → List ℕ → Action X Bool
  connect_to target identity = do
    ready ← prepare (target_family target)
    if not ready then pure false else attempt target identity

  abbrev pub at_stage : SslClient X → Bool × Stage X → Bool × SslClient X
  at_stage c (result, g) = (result, record c { stage = g })

  -- The name was resolved, or the resolver threw.
  unfoldable pub connect_resolved : Option Sockaddr → List ℕ → ℤ → SslClient X → Bool × SslClient X
  connect_resolved none requested port c =
      at_stage c ((set_error err_no_host >> pure false) c.stage)
  connect_resolved (some addr) requested port c =
      at_stage c (connect_to (set_port os (to_ℕ port) addr) requested c.stage)

  -- `connect(const char* hostname_arg, int remote_port)`
  unfoldable pub connect_name : Option (List ℕ) → ℤ → SslClient X → Bool × SslClient X
  connect_name hostname port c =
      let requested = bytes_of hostname in
      let (addr, w) = resolve_internal os requested c.stage.world in
      if is_empty requested || is_nonpos port || not (is_valid_port port)
      then at_stage c ((set_error ssl_error >> pure false) c.stage)
      else connect_resolved addr requested port
          (record { stage = record (c.stage) { world = w }; hostname = requested; port_num = port })

  -- `connect()`
  unfoldable pub connect_again : SslClient X → Bool × SslClient X
  connect_again c =
      if is_empty c.hostname || is_nonpos c.port_num
      then at_stage c ((set_error ssl_error >> pure false) c.stage)
      else connect_name (some c.hostname) c.port_num c

  -- `connect(const address& addr)`, with the text of the address
  unfoldable pub connect_address : Sockaddr → (text : List ℕ) → SslClient X → Bool × SslClient X
  connect_address addr text c =
      if not (is_ipv4 addr) && not (is_ipv6 addr) || get_port os addr == 0
      then at_stage c ((set_error ssl_error >> pure false) c.stage)
      else at_stage (record c { hostname = text; port_num = pos (get_port os addr) })
          (connect_to addr text c.stage)
