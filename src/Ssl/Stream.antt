-- ===== src/Ssl/Stream.antt =====
-- Reading and writing through a TLS session that blocks (src/ssl_socket.cpp).
use libaeon.Prelude.{
  ℕ, zero, suc, ◌+◌, ◌-◌, ◌==◌, ◌||◌, not, Bool, true, false, Option, none, some, List, [], ◌∷◌,
  ◌++◌, ℤ, pos, is_nonpos, is_some, to_ℕ, length, take, replicate, if◌then◌else◌,
}
use libaeon.Errors.{err_no_socket}
use libaeon.Socket.{max_buffer_size}
use libaeon.Socket.Transfer.{bytes_of, overwrite, head_or}
use libaeon.Tls.{ssl_error, ssl_error_io}
use libaeon.Ssl.{
  OpenSsl, SslFailure, SslSocket, Action, pure, ◌>>=◌, ◌>>◌, this, change, call, query, fail,
  clear_ssl_errors,
}

abbrev pub is_no_error : SslFailure → Bool
is_no_error SslFailure.no_error = true
is_no_error _ = false

-- `ssl == nullptr || !connected`
abbrev pub is_down : SslSocket → Bool
is_down t = not t.session || not t.base.connected

module _ {X : Type 0} (lib : OpenSsl X) where
  -- What follows a transfer that returned no bytes.
  unfoldable pub transfer_failed : ℤ → Action X ℤ
  transfer_failed result = do
    reason ← query (lib.ssl_get_error result)
    if is_no_error reason then pure ssl_error_io else fail ssl_error_io

  -- `write(char* data, int size)`
  unfoldable pub write_ssl : List ℕ → ℤ → Action X ℤ
  write_ssl bytes size = do
    t ← this
    if is_down t then fail err_no_socket else do
      clear_ssl_errors lib
      written ← call (lib.ssl_write bytes size)
      if is_nonpos written then transfer_failed written else pure written

  -- `write(char* data)`
  unfoldable pub write_ssl_cstring : Option (List ℕ) → Action X ℤ
  write_ssl_cstring none = fail ssl_error
  write_ssl_cstring (some bytes) = write_ssl bytes (pos (length bytes))

  -- `write(const std::string& data)`
  unfoldable pub write_ssl_string : List ℕ → Action X ℤ
  write_ssl_string bytes = write_ssl bytes (pos (length bytes))

  -- The overloads of `read` from SSL_read on, with the buffer as it is left.
  unfoldable pub receive_ssl : List ℕ → ℕ → Action X (ℤ × List ℕ)
  receive_ssl buffer size = do
    clear_ssl_errors lib
    (count, bytes) ← call (lib.ssl_read size)
    if is_nonpos count then (do code ← transfer_failed count; pure (code, buffer)) else (do
      change (λ t. record t { base = record (t.base) { token_size = count } })
      pure (count, overwrite bytes buffer))

  -- `read(char* buffer, int size)`
  unfoldable pub read_ssl : Option (List ℕ) → ℤ → Action X (ℤ × List ℕ)
  read_ssl buffer size = do
    t ← this
    if not (is_some buffer) || is_nonpos size
        then (do code ← fail ssl_error; pure (code, bytes_of buffer))
        else if is_down t
        then (do code ← fail err_no_socket; pure (code, bytes_of buffer))
        else receive_ssl (bytes_of buffer) (to_ℕ size)

  -- `read()`, into the socket's own buffer
  unfoldable pub read_ssl_internal : Action X ℤ
  read_ssl_internal = do
    t ← this
    if is_down t then fail err_no_socket else do
      (count, buffer) ← receive_ssl t.base.inbuffer max_buffer_size
      change (λ t. record t { base = record (t.base) { inbuffer = buffer } })
      pure count

  -- `read(int size)`
  unfoldable pub read_ssl_string : ℤ → Action X (List ℕ)
  read_ssl_string size = if is_nonpos size then pure [] else do
    (count, buffer) ← read_ssl (some (replicate (to_ℕ size + 1) 0)) size
    if is_nonpos count then pure [] else pure (take (to_ℕ count) buffer)

  -- The loop of `read_line`: the rounds that are left, and the line so far. The result is false for the
  -- return from its body, when a byte could not be read.
  unfoldable pub line_rounds : ℕ → List ℕ → Action X (Bool × List ℕ)
  line_rounds zero line g = ((true, line), g)
  line_rounds (suc rounds) line g =
      let (_, g₁) = clear_ssl_errors lib g in
      let ((count, bytes), g₂) = call (lib.ssl_read 1) g₁ in
      let line' = line ++ head_or 0 bytes ∷ [] in
      let rest = line_rounds rounds line' g₂ in
      if is_nonpos count
      then ((false, line), (fail ssl_error_io g₂).1)
      else if head_or 0 bytes == 10
      then ((true, line'), g₂)
      else rest

  -- `read_line`, and `read_until`, which is the same: the result and what was written into the buffer.
  unfoldable pub read_ssl_line : (has_buffer : Bool) → ℤ → Action X (ℤ × List ℕ)
  read_ssl_line has_buffer size = do
    t ← this
    if not has_buffer || is_nonpos size
        then (do code ← fail ssl_error; pure (code, []))
        else if is_down t
        then (do code ← fail err_no_socket; pure (code, []))
        else do
          (complete, line) ← line_rounds (to_ℕ size - 1) []
          pure (if complete then (pos (length line), line ++ 0 ∷ []) else (ssl_error_io, line))
