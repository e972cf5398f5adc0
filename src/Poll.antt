-- ===== src/Poll.antt =====
-- `event_socket_set::poll` (src/event_socket_set.cpp). The sockets of the set, their virtual
-- functions, the handlers and the operating system are its host: functions on a state that is left
-- open, so that a handler may do anything, remove and close sockets included. Once its
-- waits are over, the poller keeps a trace of where it touches a socket through a registration, with
-- whether that was active then.
pub mod Wait
pub mod Dispatch
pub mod Cycle
pub mod Keeps
pub mod Safety
pub mod Whole
pub mod Timeout
pub mod Waiting
pub mod Returns
use libaeon.Prelude.{ℕ, Bool, true, false, ◌&&◌, List, [], ◌∷◌, ℤ, pos, ◌==ℤ◌, if◌then◌else◌}
use libaeon.Errors.{Errnos}
use libaeon.Platform.{Readiness, Sockaddr}
use libaeon.WriteQueue.{FlushResult}
use libaeon.Registry.{Registration}

-- What a handler is told, of one socket or of the set.
pub data Report : Type 0 where
  data_received : List ℕ → Report
  connected closed listening drained : Report
  failed : ℤ → Report
  datagram : List ℕ → Sockaddr → Report

-- The handler of the socket (`s->fire_on_…`) or of the set (`fire_on_socket_…`).
pub data Audience : Type 0 where
  own_handler set_handler : Audience

-- A socket that a round of polling watches: its registration, of the TCP sockets or of the UDP
-- sockets, and its descriptor when the round began.
pub record Watch : Type 0 where
  pub is_tcp : Bool
  pub entry : Registration
  pub fd : ℤ

pub record PollDescriptor : Type 0 where
  pub fd : ℤ
  pub watch_writable : Bool

pub record Host (S : Type 0) : Type 0 where
  pub codes : Errnos
  -- the registrations: the entries of each registry, and the flags of their tokens
  pub tcp_snapshot : S → List Registration
  pub udp_snapshot : S → List Registration
  pub tcp_active : S → ℕ → Bool
  pub udp_active : S → ℕ → Bool
  -- the members of a socket
  pub is_valid_socket : ℕ → S → Bool
  pub sockfd : ℕ → S → ℤ
  pub get_error : ℕ → S → ℤ
  pub set_error : ℤ → ℕ → S → S
  pub set_n : ℤ → ℕ → S → S
  pub set_remote_addr : Sockaddr → ℕ → S → S
  pub close : ℕ → S → S
  -- the class of a socket, and its virtual functions
  pub is_listener : ℕ → Bool
  pub poll_wants_write : ℕ → S → Bool
  pub poll_has_buffered_input : ℕ → S → Bool
  pub poll_timeout_ms : ℕ → S → ℤ
  pub poll_error_terminal : ℕ → S → Bool
  pub poll_read_ready : Readiness → ℕ → S → Bool
  pub poll_queue_ready : Readiness → ℕ → S → Bool
  pub poll_step : Readiness → ℕ → S → ℤ × S
  pub poll_receive : (capacity : ℕ) → ℕ → S → (ℤ × List ℕ) × S
  pub flush_queued : (budget : ℕ) → ℕ → S → FlushResult × S
  -- the handlers
  pub fire : Audience → ℕ → Report → S → S
  -- the system: `::poll`, `::recvfrom`, the query of SO_ERROR, `errno` and the clock in nanoseconds
  pub native_poll : List PollDescriptor → (timeout_ms : ℤ) → S → (ℤ × List Readiness) × S
  pub recv_from : ℤ → (size : ℕ) → S → (ℤ × List ℕ × Sockaddr) × S
  pub pending_error : ℤ → S → (ℤ × ℕ) × S
  pub native_error : S → ℕ
  pub now : S → ℕ
  pub sleep : (ms : ℤ) → S → S

-- What the poller does through a registration.
pub data Act : Type 0 where
  asks steps receives flushes closes stores : Act
  tells : Audience → Report → Act

pub record Touch : Type 0 where
  pub watch : Watch
  pub act : Act
  pub was_active : Bool

-- The state of the host, and the touches, the last one first.
pub record Round (S : Type 0) : Type 0 where
  pub state : S
  pub trace : List Touch

abbrev pub all_active : List Touch → Bool
all_active [] = true
all_active (touch ∷ rest) = touch.was_active && all_active rest

abbrev pub Poller : Type 0 → Type 0 → Type 0
Poller S A = Round S → A × Round S

abbrev pub pure : {S A : Type 0} → A → Poller S A
pure a r = (a, r)

infixl 5 ◌>>=◌ ◌>>◌
abbrev pub ◌>>=◌ : {S A B : Type 0} → Poller S A → (A → Poller S B) → Poller S B
◌>>=◌ m f r = let (a, r') = m r in f a r'

abbrev pub ◌>>◌ : {S A B : Type 0} → Poller S A → Poller S B → Poller S B
m >> k = m >>= λ _. k

module _ {S : Type 0} (host : Host S) where
  -- `get_if_active()` of a watch
  abbrev pub is_active : Watch → S → Bool
  is_active w s =
      if w.is_tcp then host.tcp_active s w.entry.token else host.udp_active s w.entry.token

  abbrev pub check_active : Watch → Poller S Bool
  check_active w r = (is_active w r.state, r)

  abbrev pub noted : Watch → Act → Round S → List Touch
  noted w act r = record { watch = w; act = act; was_active = is_active w r.state } ∷ r.trace

  -- A query of the socket.
  abbrev pub ask : {A : Type 0} → Watch → (ℕ → S → A) → Poller S A
  ask w query r = (query w.entry.socket_ref r.state, record r { trace = noted w Act.asks r })

  -- A call on the socket that may change the state.
  abbrev pub touch : {A : Type 0} → Watch → Act → (ℕ → S → A × S) → Poller S A
  touch w act call r =
      let (a, s) = call w.entry.socket_ref r.state in
      (a, record { state = s; trace = noted w act r })

  abbrev pub update : Watch → Act → (ℕ → S → S) → Poller S (Unit {0})
  update w act call = touch w act (λ ref s. (tt, call ref s))

  -- A call of the system, which touches no socket.
  abbrev pub native : {A : Type 0} → (S → A × S) → Poller S A
  native call r = let (a, s) = call r.state in (a, record r { state = s })

  abbrev pub native_error : Poller S ℕ
  native_error r = (host.native_error r.state, r)
