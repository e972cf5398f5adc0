-- ===== src/Platform.antt =====
-- The operating system as the library sees it: socket addresses, the native calls that the source
-- makes, and the replies to them. The system is a parameter: it answers each call as it likes from
-- all the calls made so far, so that every behaviour of a network is some platform. The calls made
-- are kept, newest first, as the record of what the code did.
use libaeon.Prelude.{
  ℕ, ◌≤◌, ◌≡◌, ◌≢◌, ◌==◌, Bool, true, false, Option, List, ◌∷◌, length, ℤ, pos, is_neg,
  if◌then◌else◌,
}
use libaeon.Errors.{Errnos, translate_native_error}
use libaeon.Errors.Translate.{translate_native_error-neg}

-- `AF_UNSPEC`, `AF_INET`, `AF_INET6` and the families that the library does not name.
pub data Family : Type 0 where
  unspec : Family
  ipv4 : Family
  ipv6 : Family
  foreign : ℕ → Family

abbrev pub family_eq : Family → Family → Bool
family_eq Family.unspec Family.unspec = true
family_eq Family.ipv4 Family.ipv4 = true
family_eq Family.ipv6 Family.ipv6 = true
family_eq (Family.foreign m) (Family.foreign n) = m == n
family_eq _ _ = false

-- A `sockaddr_storage`, tagged by `ss_family`: zeroed storage, a `sockaddr_in`, a `sockaddr_in6`, or
-- another family's. Ports stand in network byte order, addresses are lists of bytes.
pub data Sockaddr : Type 0 where
  empty : Sockaddr
  inet : ℕ → List ℕ → Sockaddr
  inet6 : ℕ → List ℕ → ℕ → Sockaddr
  opaque : ℕ → Sockaddr

abbrev pub ss_family : Sockaddr → Family
ss_family Sockaddr.empty = Family.unspec
ss_family (Sockaddr.inet _ _) = Family.ipv4
ss_family (Sockaddr.inet6 _ _ _) = Family.ipv6
ss_family (Sockaddr.opaque k) = Family.foreign k

-- `SOCK_STREAM` and `SOCK_DGRAM`
pub data SocketType : Type 0 where
  stream datagram : SocketType

-- The options that `setsockopt` is called with.
pub data Sockopt : Type 0 where
  tcp_nodelay so_reuseaddr so_linger ipv6_v6only : Sockopt

pub data Syscall : Type 0 where
  open_socket : Family → SocketType → Syscall
  close_socket : ℤ → Syscall
  getpeername : ℤ → Syscall
  fcntl_getfl : ℤ → Syscall
  -- the flags read before, with `O_NONBLOCK` set or cleared
  fcntl_setfl : ℤ → (flags : ℤ) → (nonblocking : Bool) → Syscall
  setsockopt : ℤ → Sockopt → (value : ℕ) → Syscall
  getsockopt_error : ℤ → Syscall
  select_readable : ℤ → (timeout_ms : ℤ) → Syscall
  select_writable : ℤ → (timeout_ms : ℤ) → Syscall
  send : ℤ → List ℕ → Syscall
  recv : ℤ → (size : ℕ) → Syscall
  send_to : ℤ → List ℕ → Sockaddr → Syscall
  recv_from : ℤ → (size : ℕ) → Syscall
  connect : ℤ → Sockaddr → Syscall
  bind : ℤ → Sockaddr → Syscall
  listen : ℤ → Syscall
  accept : ℤ → Syscall
  -- by name; the service is the decimal numeral of a port, or none, which asks for passive addresses
  getaddrinfo : List ℕ → (service : Option ℤ) → Syscall

-- A reply: the value that the call returns, the error number that it leaves behind when it fails,
-- the bytes that it delivers and the address or addresses that it fills in. A query for SO_ERROR
-- delivers the error number as the first of the bytes.
pub record Reply : Type 0 where
  pub value : ℤ
  pub error : ℕ
  pub bytes : List ℕ
  pub peer : Sockaddr
  pub found : List Sockaddr

-- What poll reports of a descriptor.
pub record Readiness : Type 0 where
  pub pollin : Bool
  pub pollout : Bool
  pub pollerr : Bool
  pub pollnval : Bool
  pub pollhup : Bool

-- The calls made so far, the newest first.
abbrev pub History : Type 0
History = List Syscall

pub record Platform : Type 0 where
  pub errnos : Errnos
  pub reply : History → Reply
  pub htons : ℕ → ℕ
  pub ntohs : ℕ → ℕ
  pub inet_pton : Family → List ℕ → Option (List ℕ)
  pub inet_ntop : Family → List ℕ → Option (List ℕ)

-- What the process shares between its sockets: the calls made, and `errno`.
pub record World : Type 0 where
  pub calls : History
  pub errno : ℕ

module _ (os : Platform) where
  -- A native call. `errno` changes only when the call fails.
  abbrev pub answer : Syscall → World → Reply
  answer c w = os.reply (c ∷ w.calls)

  abbrev pub after : Syscall → World → World
  after c w = record {
    calls = c ∷ w.calls;
    errno = if is_neg (answer c w).value then (answer c w).error else w.errno;
  }

-- What POSIX documents of the calls, as far as the library relies on it.
pub record IsPosix (os : Platform) : Type 0 where
  -- a call that fails says why
  pub errno_set :
      (c : Syscall) (h : History)
      → is_neg (os.reply (c ∷ h)).value ≡ true
      → (os.reply (c ∷ h)).error ≢ 0
  -- a receive delivers as many bytes as it says, and no more than asked for
  pub recv_length :
      (fd : ℤ) (size n : ℕ) (h : History)
      → (os.reply (Syscall.recv fd size ∷ h)).value ≡ pos n
      → (length (os.reply (Syscall.recv fd size ∷ h)).bytes ≡ n) × (n ≤ size)

module _ (os : Platform) (posix : IsPosix os) where
  -- After a call that failed, the public code of its error is negative.
  pub reply_error-neg :
      (c : Syscall) (h : History)
      → is_neg (os.reply (c ∷ h)).value ≡ true
      → is_neg (translate_native_error os.errnos (os.reply (c ∷ h)).error) ≡ true
  reply_error-neg c h failed =
      (translate_native_error-neg os.errnos _).1 (posix.errno_set c h failed)
