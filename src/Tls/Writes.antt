-- ===== src/Tls/Writes.antt =====
-- What is relied on of SSL_write, and what a socket remembers of a write that has to be tried again
-- (src/ssl_event_socket.cpp, `pending_write_len_` and `pending_write_hash_`).
use libaeon.Prelude.{
  ℕ, ◌≡◌, ◌≢◌, ◌≤◌, true, false, is_positive, Option, none, some, List, ◌++◌, ℤ, pos, negsuc,
  length, take,
}
use libaeon.Tls.{TlsLibrary, TlsSocket, wants_more, bytes_hash}

-- What a write did, by its result: the first bytes were taken, or nothing was.
abbrev pub Takes : List ℕ → List ℕ → List ℕ → ℤ → Type 0
Takes bytes before after (pos count) = (count ≤ length bytes) × (after ≡ before ++ take count bytes)
Takes bytes before after (negsuc _) = after ≡ before

-- The bytes that SSL_write may be given: any, or those that it wants to see again.
abbrev pub MayWrite : List ℕ → Option (List ℕ) → Type 0
MayWrite bytes none = Unit
MayWrite bytes (some again) = bytes ≡ again

-- What is relied on of SSL_write with partial writes enabled. `pending` are the bytes of a write that
-- has to be tried again. Given the same bytes then, or any when there are none, it takes the first
-- bytes, as many as it says, and none when it fails; and it wants the bytes again when it says so.
pub record WritesPartially {X : Type 0} (lib : TlsLibrary X) : Type 0 where
  pub taken : X → List ℕ
  pub pending : X → Option (List ℕ)
  pub write_takes :
      (bytes : List ℕ) (x : X)
      → MayWrite bytes (pending x)
      → Takes bytes (taken x) (taken (lib.ssl_write bytes x).1) (lib.ssl_write bytes x).0
  pub write_done :
      (bytes : List ℕ) (x : X)
      → MayWrite bytes (pending x)
      → is_positive (lib.ssl_write bytes x).0 ≡ true
      → pending (lib.ssl_write bytes x).1 ≡ none
  pub write_again :
      (bytes : List ℕ) (x : X)
      → MayWrite bytes (pending x)
      → is_positive (lib.ssl_write bytes x).0 ≡ false
      → wants_more (lib.ssl_get_error (lib.ssl_write bytes x).0 (lib.ssl_write bytes x).1) ≡ true
      → pending (lib.ssl_write bytes x).1 ≡ some bytes

-- The socket remembers the write that has to be tried again, by its length and its hash.
abbrev pub Remembers : TlsSocket → Option (List ℕ) → Type 0
Remembers t none = t.pending_write_len ≡ 0
Remembers t (some again) =
    (t.pending_write_len ≡ length again)
    × (t.pending_write_hash ≡ bytes_hash again)
    × (length again ≢ 0)

-- The hash tells the bytes from those that have to be written again, where they differ.
abbrev pub IsTold : List ℕ → Option (List ℕ) → Type 0
IsTold data_ none = Unit
IsTold data_ (some again) =
    bytes_hash (take (length again) data_) ≡ bytes_hash again → take (length again) data_ ≡ again
