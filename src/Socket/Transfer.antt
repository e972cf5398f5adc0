-- ===== src/Socket/Transfer.antt =====
-- Reading and writing (src/socket.cpp). A pointer that may be null is an `Option`; a caller's buffer
-- comes back with what was written into it. `send` and `recv` get the bytes and the capacity that
-- the source passes.
pub mod Read
pub mod Stream
pub mod Write
use libaeon.Prelude.{
  ◌≡◌, ℕ, zero, suc, ◌+◌, ◌-◌, ◌%◌, min, Bool, true, false, not, ◌&&◌, ◌||◌, Option, none, some,
  List, [], ◌∷◌, ◌++◌, ℤ, pos, negsuc, ◌+ℤ◌, is_neg, is_zero, is_nonpos, is_positive, is_above,
  is_some, to_ℕ, ◌==◌, if◌then◌else◌, length, take, drop, set, replicate, leb, arith,
}
use libaeon.Errors.{err_none, err_no_socket, err_invalid_argument, err_timeout, socket_error}
use libaeon.Platform.{Platform, World, Syscall, Reply}
use libaeon.Socket.{
  Socket, Method, pure, ◌>>=◌, ◌>>◌, self, modify, is_valid_socket, set_error, syscall, last_error,
  max_buffer_size,
}

abbrev pub bytes_of : Option (List ℕ) → List ℕ
bytes_of none = []
bytes_of (some bytes) = bytes

-- What a receive leaves in a buffer: its bytes in front, the remaining capacity as it was.
abbrev pub overwrite : List ℕ → List ℕ → List ℕ
overwrite bytes buffer = bytes ++ drop (length bytes) buffer

-- The bytes that a reply delivers: none, if the call failed.
abbrev pub received_bytes : Reply → List ℕ
received_bytes r = if is_neg r.value then [] else r.bytes

abbrev pub head_or : ℕ → List ℕ → ℕ
head_or d [] = d
head_or d (x ∷ _) = x

-- `!is_valid_socket() ? err_no_socket : err_invalid_argument`
abbrev pub argument_error : Socket → ℤ
argument_error s = if not (is_valid_socket s) then err_no_socket else err_invalid_argument

pub received_bytes_lem : (r : Reply) (k : ℕ) → r.value ≡ pos k → received_bytes r ≡ r.bytes
received_bytes_lem r k e = rw e

pub received_bytes_failed : (r : Reply) (k : ℕ) → r.value ≡ negsuc k → received_bytes r ≡ []
received_bytes_failed r k e = rw e

pub argument_error-neg : (s : Socket) → is_neg (argument_error s) ≡ true
argument_error-neg s = ground arith

module _ (os : Platform) where
  unfoldable pub wait_for_readable : ℤ → ℤ → Method ℤ
  wait_for_readable fd timeout_ms =
      if is_nonpos timeout_ms
      then pure (pos 1)
      else do r ← syscall os (Syscall.select_readable fd timeout_ms); pure r.value

  unfoldable pub wait_for_writable : ℤ → ℤ → Method ℤ
  wait_for_writable fd timeout_ms =
      if is_nonpos timeout_ms
      then pure (pos 1)
      else do r ← syscall os (Syscall.select_writable fd timeout_ms); pure r.value

  -- `send` and the error code that its result leaves, as in every overload of `write`.
  unfoldable pub transmit : List ℕ → Method ℤ
  transmit bytes = do
    s ← self
    r ← syscall os (Syscall.send s.sockfd bytes)
    if is_neg r.value
        then (do code ← last_error os; set_error code; pure r.value)
        else (set_error err_none >> pure r.value)

  -- `write(char* data)`
  unfoldable pub write_cstring : Option (List ℕ) → Method ℤ
  write_cstring data_ = do
    s ← self
    if not (is_some data_) || not (is_valid_socket s)
        then (set_error (argument_error s) >> pure socket_error)
        else if length (bytes_of data_) == 0
        then pure (pos 0)
        else transmit (bytes_of data_)

  -- `write(char* data, int size)`
  unfoldable pub write : Option (List ℕ) → ℤ → Method ℤ
  unfolding wait_for_writable
  write data_ size = do
    s ← self
    if not (is_some data_) || not (is_valid_socket s) || is_nonpos size
        then (set_error (argument_error s) >> pure socket_error)
        else if is_positive s.write_timeout_ms
        then (do
          wait_result ← wait_for_writable s.sockfd s.write_timeout_ms
          if is_zero wait_result
              then (set_error err_timeout >> pure (pos 0))
              else if is_neg wait_result
              then (do code ← last_error os; set_error code; pure socket_error)
              else transmit (take (to_ℕ size) (bytes_of data_)))
        else transmit (take (to_ℕ size) (bytes_of data_))

  -- `write(const std::string& data)`. The size of the string is cast to an `int`; the model is of the
  -- strings for which that is not negative.
  unfoldable pub write_string : List ℕ → Method ℤ
  write_string data_ = do
    s ← self
    if not (is_valid_socket s) || length data_ == 0
        then (set_error (argument_error s) >> pure socket_error)
        else transmit (take (length data_ % 4294967296) data_)

  -- `read(char* buffer, int size)` behind its waits
  unfoldable pub receive : List ℕ → ℕ → Method (ℤ × List ℕ)
  receive buffer size = do
    s ← self
    r ← syscall os (Syscall.recv s.sockfd size)
    modify (λ s. record s { n = r.value })
    if is_zero r.value
        then (do
          modify (λ s. record s { connected = false; error_code = err_none })
          pure (r.value, overwrite (received_bytes r) buffer))
        else if is_neg r.value
        then (do code ← last_error os; set_error code; pure (r.value, buffer))
        else (set_error err_none >> pure (r.value, overwrite (received_bytes r) buffer))

  -- `n = result; error_code = code; return result;`
  abbrev stop_read : ℤ → ℤ → List ℕ → Method (ℤ × List ℕ)
  stop_read code result buffer = do
    modify (λ s. record s { error_code = code; n = result })
    pure (result, buffer)

  -- `read(char* buffer, int size)`
  unfoldable pub read : Option (List ℕ) → ℤ → Method (ℤ × List ℕ)
  unfolding wait_for_readable
  read buffer size = do
    s ← self
    if not (is_some buffer) || not (is_valid_socket s) || is_nonpos size
        then stop_read (argument_error s) socket_error (bytes_of buffer)
        else if is_positive s.read_timeout_ms
        then (do
          ready ← wait_for_readable s.sockfd s.read_timeout_ms
          if is_zero ready
              then stop_read err_timeout (pos 0) (bytes_of buffer)
              else if is_neg ready
              then (do code ← last_error os; stop_read code socket_error (bytes_of buffer))
              else receive (bytes_of buffer) (to_ℕ size))
        else receive (bytes_of buffer) (to_ℕ size)

  -- The loop of `read_until`. Each round reads a byte or more, so `size` rounds are enough.
  unfoldable pub read_rest : ℕ → ℕ → List ℕ → ℕ → Method (ℕ × List ℕ)
  read_rest zero total buffer size s w = ((total, buffer), s, w)
  read_rest (suc fuel) total buffer size s w =
      let (result, s', w') = read (some (drop total buffer)) (pos (size - total)) s w in
      let buffer' = take total buffer ++ result.1 in
      let stop : (ℕ × List ℕ) × Socket × World = ((total, buffer'), s', w') in
      let again = read_rest fuel (total + to_ℕ result.0) buffer' size s' w' in
      if leb size total then ((total, buffer), s, w) else if is_nonpos result.0 then stop else again

  unfoldable pub read_until : Option (List ℕ) → ℤ → Method (ℤ × List ℕ)
  read_until buffer size = do
    s ← self
    if not (is_some buffer) || not (is_valid_socket s) || is_nonpos size
        then stop_read (argument_error s) socket_error (bytes_of buffer)
        else do
          (total, buffer') ← read_rest (to_ℕ size) 0 (bytes_of buffer) (to_ℕ size)
          pure (pos total, buffer')

  -- `read()`, into the socket's own buffer
  unfoldable pub read_internal : Method ℤ
  read_internal = do
    s ← self
    (received, buffer) ← read (some s.inbuffer) (pos (max_buffer_size - 1))
    modify (λ s. record s {
      inbuffer = if is_neg received then buffer else set buffer (to_ℕ received) 0;
    })
    pure received

  -- `read(int size)`
  unfoldable pub read_string : ℤ → Method (List ℕ)
  read_string size = do
    s ← self
    if not (is_valid_socket s) || is_nonpos size then pure [] else do
      (received, result) ← read (some (replicate (to_ℕ size) 0)) size
      if is_nonpos received then pure [] else pure (take (to_ℕ received) result)

  -- The loop of `read_line`, with the rounds that are left. The flag tells a return from the loop's
  -- body, at the end of a line, from its end.
  unfoldable pub line_loop : ℕ → ℕ → Bool → Bool → ℕ → List ℕ → Method (Bool × List ℕ)
  line_loop zero i carriage linefeed safe_size buffer s w = ((false, buffer), s, w)
  line_loop (suc rounds) i carriage linefeed safe_size buffer s w =
      let (r, s₁, w₁) = syscall os (Syscall.recv s.sockfd 1) s w in
      let byte = head_or 0 (received_bytes r) in
      let s₂ = record s₁ { n = s₁.n +ℤ r.value } in
      let buffer' = set buffer i byte in
      let carriage' = carriage || byte == 13 in
      let linefeed' = linefeed || byte == 10 in
      let again = line_loop rounds (i + 1) carriage' linefeed' safe_size buffer' s₂ w₁ in
      if is_zero r.value
      then ((false, buffer), record s₁ { connected = false }, w₁)
      else if is_neg r.value
      then (let (code, s₃, w₃) = last_error os s₁ w₁ in
          ((false, buffer), record s₃ { error_code = code }, w₃))
      else if carriage' && linefeed'
      then ((true, set buffer' (min (i + 1) (safe_size - 1)) 0), s₂, w₁)
      else again

  unfoldable pub read_line : Option (List ℕ) → ℤ → Method (ℤ × List ℕ)
  read_line buffer size = do
    s ← self
    if not (is_some buffer) || not (is_valid_socket s) || is_nonpos size
        then pure (socket_error, bytes_of buffer)
        else do
          let safe_size = if is_above size max_buffer_size then max_buffer_size else to_ℕ size
          let clear = overwrite (replicate safe_size 0) (bytes_of buffer)
          modify (λ s. record s { n = pos 0 })
          (complete, line) ← line_loop (safe_size - 1) 0 false false safe_size clear
          s ← self
          pure (s.n, if complete then line else set line (safe_size - 1) 0)
