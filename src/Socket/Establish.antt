-- ===== src/Socket/Establish.antt =====
-- How an attempt to connect leaves the socket (src/socket.cpp).
use libaeon.Prelude.{
  ◌≡◌, Bool, true, false, ◌||◌, ◌&&◌, ◌==◌, is_zero, is_positive, if◌then◌else◌, ℤ,
}
use libaeon.Errors.{err_none}
use libaeon.Platform.{after, answer, ss_family, Platform, World, Syscall, Sockaddr}
use libaeon.Socket.{Socket, is_valid_socket, reopen}
use libaeon.Socket.Transfer.{head_or}
use libaeon.Socket.Connect.{is_pending}
use libaeon.Socket.Options.{set_blocking}

-- A socket with a live connection: valid, connected, no error.
abbrev pub IsOpen : Socket → Type 0
IsOpen s =
    (is_valid_socket s ≡ true)
    × (s.connected ≡ true)
    × (s.error_code ≡ err_none)
    × (s.error_state ≡ 0)

-- A socket that holds no descriptor.
abbrev pub IsClosed : Socket → Type 0
IsClosed s = (is_valid_socket s ≡ false) × (s.connected ≡ false)

-- The descriptor, its family and its port are as they were.
abbrev pub Same : Socket → Socket → Type 0
Same s s' = (s'.sockfd ≡ s.sockfd) × (s'.net_family ≡ s.net_family) × (s'.port ≡ s.port)

module _ (os : Platform) where
  -- The system lets the connection succeed at once.
  abbrev connects_now : Sockaddr → ℤ → World → Bool
  connects_now target fd w = is_zero (answer os (Syscall.connect fd target) w).value

  -- The system says that the connection is in progress, reports the descriptor as writable within the
  -- time limit, and then finds no error on it.
  abbrev connects_later : Sockaddr → ℤ → ℤ → World → Bool
  connects_later target fd limit w =
      let w₁ = after os (Syscall.connect fd target) w in
      let w₂ = after os (Syscall.select_writable fd limit) w₁ in
      let r = answer os (Syscall.getsockopt_error fd) w₂ in
      is_pending os w₁.errno
      && is_positive (answer os (Syscall.select_writable fd limit) w₁).value
      && is_zero r.value
      && head_or 0 r.bytes == 0

  -- The system connects the descriptor of the socket to the address: with a time limit, at once or
  -- later, once the descriptor is made non-blocking; without one, at once.
  abbrev pub system_connects : Sockaddr → Socket → World → Bool
  system_connects target s w =
      let g = (set_blocking os false s w).2 in
      if is_positive s.connect_timeout_ms
      then connects_now target s.sockfd g || connects_later target s.sockfd s.connect_timeout_ms g
      else connects_now target s.sockfd w

  -- The state in which the attempt begins: the socket with its new descriptor, and the world then.
  abbrev pub attempt_begins : Sockaddr → Socket → World → Socket × World
  attempt_begins target s w =
      let a = reopen os (ss_family target) s w in
      (record a.1 { connected = false; net_family = ss_family target }, a.2)

  -- How `tcp_connect` to an address ends, by what it returns.
  abbrev pub ConnectEnds : Sockaddr → Socket × World → Bool → Socket → Type 0
  ConnectEnds target (s, w) r s' =
      (r ≡ true
        → IsOpen s'
          × (s'.remote_addr ≡ target)
          × (s'.net_family ≡ ss_family target)
          × (s'.sockfd ≡ s.sockfd)
          × (system_connects target s w ≡ true))
      × (r ≡ false → IsClosed s')
