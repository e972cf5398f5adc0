-- ===== src/Socket.antt =====
-- class socket (include/socket.hpp, src/socket.cpp): its fields, the constructors, `close` and the
-- accessors. A method takes the object and the world and returns its result with both as it left
-- them. The child modules hold the other methods, and the theorems about them.
pub mod Options
pub mod Connect
pub mod Listen
pub mod Descriptors
pub mod Establish
pub mod Listening
pub mod Transfer
use libaeon.Prelude.{
  ℕ, ◌==ℤ◌, Bool, true, false, not, Option, none, some, List, [], ◌∷◌, ℤ, pos, negsuc, is_neg,
  is_zero, if◌then◌else◌, replicate,
}
use libaeon.Errors.{err_none, err_no_socket, socket_error, state_create, translate_native_error}
use libaeon.Platform.{
  Platform, World, Family, Sockaddr, SocketType, Syscall, Reply, ss_family, answer, after,
}

abbrev pub invalid_socket : ℤ
invalid_socket = negsuc 0

abbrev pub max_buffer_size : ℕ
max_buffer_size = 256

pub record Socket : Type 0 where
  pub sockfd : ℤ
  pub n : ℤ
  pub remote_addr : Sockaddr
  pub connected : Bool
  pub flags : ℤ
  pub net_family : Family
  pub token_size : ℤ
  pub blocking : Bool
  pub inbuffer : List ℕ
  pub outbuffer : List ℕ
  pub error_code : ℤ
  pub error_state : ℕ
  pub port : ℤ
  pub read_timeout_ms : ℤ
  pub write_timeout_ms : ℤ
  pub connect_timeout_ms : ℤ
  pub hostname : List ℕ
  -- an observer: the identity of the server that owns this peer
  pub parent_server : Option ℕ

abbrev pub Method : Type 0 → Type 0
Method A = Socket → World → A × Socket × World

abbrev pub pure : {A : Type 0} → A → Method A
pure a s w = (a, s, w)

infixl 5 ◌>>=◌ ◌>>◌
abbrev pub ◌>>=◌ : {A B : Type 0} → Method A → (A → Method B) → Method B
◌>>=◌ m f s w = let (a, s', w') = m s w in f a s' w'

abbrev pub ◌>>◌ : {A B : Type 0} → Method A → Method B → Method B
m >> k = m >>= λ _. k

-- `*this`
abbrev pub self : Method Socket
self s w = (s, s, w)

abbrev pub modify : (Socket → Socket) → Method (Unit {0})
modify f s w = (tt, f s, w)

abbrev pub is_valid_socket : Socket → Bool
is_valid_socket s = not (is_neg s.sockfd)

abbrev pub set_error : ℤ → Method (Unit {0})
set_error code = modify (λ s. record s { error_code = code })

-- `error_code = code; error_state = state; return a;`
abbrev pub fail : {A : Type 0} → ℤ → ℕ → A → Method A
fail code state a s w = (a, record s { error_code = code; error_state = state }, w)

abbrev pub get_error : Socket → ℤ
get_error s = s.error_code

abbrev pub get_state : Socket → ℕ
get_state s = s.error_state

abbrev pub set_remote_hostname : List ℕ → Method (Unit {0})
set_remote_hostname host = modify (λ s. record s { hostname = host })

abbrev pub set_parent_server : Option ℕ → Method (Unit {0})
set_parent_server server = modify (λ s. record s { parent_server = server })

abbrev pub cleared : List ℕ
cleared = replicate max_buffer_size 0

abbrev pub clear_buffers : Method (Unit {0})
clear_buffers = modify (λ s. record s { inbuffer = cleared; outbuffer = cleared })

-- The members as every constructor sets them before it has a descriptor.
abbrev initial : Family → Bool → Socket
initial family connected = record {
  sockfd = invalid_socket;
  n = pos 0;
  remote_addr = Sockaddr.empty;
  connected = connected;
  flags = pos 0;
  net_family = family;
  token_size = pos 0;
  blocking = true;
  inbuffer = cleared;
  outbuffer = cleared;
  error_code = err_none;
  error_state = 0;
  port = pos 0;
  read_timeout_ms = pos 0;
  write_timeout_ms = pos 0;
  connect_timeout_ms = pos 0;
  hostname = [];
  parent_server = none;
}

module _ (os : Platform) where
  abbrev pub syscall : Syscall → Method Reply
  syscall c s w = (answer os c w, s, after os c w)

  -- `GET_NET_SOCKET_ERROR()`
  abbrev pub native_error : Method ℕ
  native_error s w = (w.errno, s, w)

  -- `translate_native_error(GET_NET_SOCKET_ERROR())`
  abbrev pub last_error : Method ℤ
  last_error s w = (translate_native_error os.errnos w.errno, s, w)

  -- `flags = fcntl(sockfd, F_GETFL, 0)` in the constructors
  read_flags : Method (Unit {0})
  read_flags = do
    s ← self
    r ← syscall (Syscall.fcntl_getfl s.sockfd)
    modify (λ s. record s { flags = r.value })
    if is_neg r.value then fail err_no_socket state_create tt else pure tt

  open_descriptor : Family → SocketType → Method (Unit {0})
  unfolding read_flags
  open_descriptor family type = do
    r ← syscall (Syscall.open_socket family type)
    modify (λ s. record s { sockfd = r.value })
    s ← self
    if is_valid_socket s then read_flags else fail err_no_socket state_create tt

  -- `socket(int family, int type)`
  unfoldable pub create : Family → SocketType → World → Socket × World
  unfolding open_descriptor
  create family type w =
      let (_, s', w') = open_descriptor family type (initial family false) w in (s', w')

  -- `socket(int family_type)`
  unfoldable pub create_family : Family → World → Socket × World
  unfolding create
  create_family family = create family SocketType.stream

  -- `socket()`
  unfoldable pub create_default : World → Socket × World
  unfolding create
  create_default = create Family.ipv4 SocketType.stream

  read_peer : Method (Unit {0})
  read_peer = do
    s ← self
    r ← syscall (Syscall.getpeername s.sockfd)
    if is_zero r.value
        then modify (λ s. record s { remote_addr = r.peer; net_family = ss_family r.peer })
        else pure tt

  -- `socket(socket_t existing_fd, bool is_existing_socket)`
  unfoldable pub adopt : ℤ → World → Socket × World
  unfolding read_flags read_peer
  adopt fd w =
      let start = record (initial Family.ipv4 (not (fd ==ℤ invalid_socket))) { sockfd = fd } in
      let (_, s', w') =
        (if is_valid_socket start then read_peer >> read_flags else pure tt) start w in
      (s', w')

  unfoldable pub close : Method Bool
  close = do
    s ← self
    if not (is_valid_socket s) then pure false else do
      modify (λ s. record s { sockfd = invalid_socket; connected = false })
      r ← syscall (Syscall.close_socket s.sockfd)
      if is_zero r.value then pure true else do code ← last_error; set_error code; pure false

  -- `close(); sockfd = ::socket(family, SOCK_STREAM, 0);`
  unfoldable pub reopen : Family → Method (Unit {0})
  unfolding close
  reopen family = do
    close
    r ← syscall (Syscall.open_socket family SocketType.stream)
    modify (λ s. record s { sockfd = r.value })

  -- `~socket()`
  unfoldable pub destroy : Socket → World → World
  unfolding close
  destroy s w = if is_valid_socket s then (close s w).2 else w
