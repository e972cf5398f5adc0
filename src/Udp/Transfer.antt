-- ===== src/Udp/Transfer.antt =====
-- Datagrams sent and received (src/udp_socket.cpp, `send_datagram`, `write` and `read`).
use libaeon.Prelude.{
  ℕ, ◌-◌, not, ◌&&◌, ◌||◌, Option, none, some, List, [], ◌∷◌, ◌++◌, ℤ, pos, is_neg, is_zero,
  is_nonpos, is_positive, is_some, to_ℕ, leb, if◌then◌else◌, length, take, set, replicate,
}
use libaeon.Errors.{err_none, err_timeout, err_address_not_available, socket_error, state_accept}
use libaeon.Platform.{Platform, Family, family_eq, Sockaddr, Syscall, ss_family}
use libaeon.Socket.{
  Method, pure, ◌>>=◌, ◌>>◌, self, modify, set_error, syscall, last_error, max_buffer_size,
}
use libaeon.Socket.Transfer.{bytes_of, overwrite, received_bytes, wait_for_readable}
use libaeon.Udp.{Link, is_valid, is_peer, native_of, family_of, udp_argument_error}

abbrev pub int_max : ℕ
int_max = 2147483647

-- The first 12 bytes of an IPv6 address that stands for an IPv4 address.
abbrev pub mapped_prefix : List ℕ
mapped_prefix = replicate 10 0 ++ 255 ∷ 255 ∷ []

-- The destination as a socket of the family takes it.
unfoldable pub target_address : Family → Sockaddr → Option Sockaddr
target_address family target =
    if family_eq (ss_family target) family
    then some target
    else if family_eq family Family.ipv6
    then mapped target
    else none
  where
    mapped : Sockaddr → Option Sockaddr
    mapped (Sockaddr.inet port bytes) = some (Sockaddr.inet6 port (mapped_prefix ++ bytes) 0)
    mapped _ = none

module _ (os : Platform) (link : Link) where
  -- `send_datagram`, from the choice of the destination on
  unfoldable pub send_to_target : List ℕ → Option Sockaddr → Method ℤ
  send_to_target bytes none = set_error err_address_not_available >> pure socket_error
  send_to_target bytes (some target) = do
    s ← self
    r ← syscall os (Syscall.send_to (native_of link s) bytes target)
    code ← last_error os
    modify (λ s. record s { error_code = if is_neg r.value then code else err_none; n = r.value })
    pure r.value

  unfoldable pub send_datagram : Option (List ℕ) → ℤ → Method ℤ
  send_datagram data_ size = do
    s ← self
    if not (is_valid link s) || is_neg size || is_positive size && not (is_some data_)
        then (set_error (udp_argument_error link s) >> pure socket_error)
        else send_to_target (take (to_ℕ size) (bytes_of data_))
            (target_address (family_of link s) s.remote_addr)

  -- `write(const char* data)`; the error code stays as it is when it refuses.
  unfoldable pub write_udp_cstring : Option (List ℕ) → Method ℤ
  write_udp_cstring data_ =
      if not (is_some data_) || not (leb (length (bytes_of data_)) int_max)
      then pure socket_error
      else send_datagram data_ (pos (length (bytes_of data_)))

  -- `write(const std::string& data)`
  unfoldable pub write_udp_string : List ℕ → Method ℤ
  write_udp_string data_ =
      if not (leb (length data_) int_max)
      then pure socket_error
      else send_datagram (some data_) (pos (length data_))

  -- `read(char* buffer, int size)` behind its wait
  unfoldable pub receive_datagram : List ℕ → ℕ → Method (ℤ × List ℕ)
  receive_datagram buffer size = do
    s ← self
    r ← syscall os (Syscall.recv_from s.sockfd size)
    code ← last_error os
    if is_neg r.value
        then (do
          modify (λ s. record s { n = r.value; error_code = code; error_state = state_accept })
          pure (r.value, buffer))
        else (do
          modify (λ s. record s { n = r.value; remote_addr = r.peer; error_code = err_none })
          pure (r.value, overwrite (received_bytes r) buffer))

  -- `n = result; error_code = code; return result;`
  abbrev pub stop_read : ℤ → ℤ → List ℕ → Method (ℤ × List ℕ)
  stop_read code result buffer = do
    modify (λ s. record s { error_code = code; n = result })
    pure (result, buffer)

  unfoldable pub read_udp : Option (List ℕ) → ℤ → Method (ℤ × List ℕ)
  unfolding wait_for_readable
  read_udp buffer size = do
    s ← self
    if is_peer link || not (is_some buffer) || not (is_valid link s) || is_nonpos size
        then stop_read (udp_argument_error link s) socket_error (bytes_of buffer)
        else if is_positive s.read_timeout_ms
        then (do
          ready ← wait_for_readable os s.sockfd s.read_timeout_ms
          if is_zero ready
              then stop_read err_timeout (pos 0) (bytes_of buffer)
              else if is_neg ready
              then (do
                code ← last_error os
                modify (λ s. record s { error_state = state_accept })
                stop_read code socket_error (bytes_of buffer))
              else receive_datagram (bytes_of buffer) (to_ℕ size))
        else receive_datagram (bytes_of buffer) (to_ℕ size)

  -- `read(int size)`
  unfoldable pub read_udp_string : ℤ → Method (List ℕ)
  read_udp_string size = do
    s ← self
    if not (is_valid link s) || is_nonpos size then pure [] else do
      (received, result) ← read_udp (some (replicate (to_ℕ size) 0)) size
      if is_nonpos received then pure [] else pure (take (to_ℕ received) result)

  -- `read()`, into the socket's own buffer
  unfoldable pub read_udp_internal : Method ℤ
  read_udp_internal = do
    s ← self
    (received, buffer) ← read_udp (some s.inbuffer) (pos (max_buffer_size - 1))
    modify (λ s. record s {
      inbuffer = if is_neg received then buffer else set buffer (to_ℕ received) 0;
    })
    pure received
