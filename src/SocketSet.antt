-- ===== src/SocketSet.antt =====
-- class socket_set (include/socket_set.hpp, src/socket_set.cpp): an ordered list of sockets that it
-- does not own. A socket is known by its identity; a null pointer is `none`.
pub mod Removal
pub mod Broadcast
use libaeon.Prelude.{
  ℕ, ◌+◌, ◌-◌, Bool, true, false, not, ◌&&◌, ◌||◌, Option, none, some, List, [], ◌∷◌, ◌++◌, ℤ, pos,
  negsuc, ltb, leb, ◌==◌, ◌==ℤ◌, is_neg, is_positive, is_some, if◌then◌else◌, length, take, drop,
  get_elem?, to_ℕ, ◌%◌,
}
use libaeon.Socket.Transfer.{bytes_of}
use libaeon.Errors.{err_none, err_no_socket, socket_error, state_create, state_accept}

-- `static_cast<unsigned int>(size)`, for an `unsigned int` of 32 bits
abbrev pub u32 : ℕ → ℕ
u32 n = n % 4294967296

pub record SocketSet : Type 0 where
  pub sockets : List ℕ
  pub error_code : ℤ
  pub error_state : ℕ

abbrev pub empty_set : SocketSet
empty_set = record { sockets = []; error_code = err_none; error_state = 0 }

unfoldable pub add : Option ℕ → SocketSet → Bool × SocketSet
add none set = (false, record set { error_code = err_no_socket; error_state = state_create })
add (some socket_ref) set = (
  true,
  record { sockets = set.sockets ++ socket_ref ∷ []; error_code = err_none; error_state = 0 },
)

-- `erase(begin + index, begin + index + count)`
abbrev pub erase : ℕ → ℕ → List ℕ → List ℕ
erase index count sockets = take index sockets ++ drop count (drop index sockets)

unfoldable pub remove : ℕ → SocketSet → Bool × SocketSet
remove index set =
    if leb (u32 (length set.sockets)) index
    then (false, record set { error_code = err_no_socket; error_state = state_accept })
    else (
      true,
      record { sockets = erase index 1 set.sockets; error_code = err_none; error_state = 0 },
    )

-- `remove(unsigned int index, unsigned int count)`
unfoldable pub remove_range : ℕ → ℕ → SocketSet → Bool × SocketSet
remove_range index count set =
    if count == 0 || leb (u32 (length set.sockets)) index
    then (false, record set { error_code = err_no_socket; error_state = state_accept })
    else (let safe_count =
          if ltb (u32 (length set.sockets) - index) count
          then u32 (length set.sockets - index)
          else count in
        (
          true,
          record {
            sockets = erase index safe_count set.sockets;
            error_code = err_none;
            error_state = 0;
          },
        ))

abbrev pub size : SocketSet → ℕ
size set = length set.sockets

abbrev pub at : ℕ → SocketSet → Option ℕ
at index set = get_elem? set.sockets index

module _ {S : Type 0} (write : ℕ → List ℕ → S → ℤ × S) where
  -- The loop of `broadcast` over the members, with the number delivered so far.
  unfoldable pub deliver : List ℕ → List ℕ → ℕ → S → ℕ × S
  deliver bytes [] delivered s = (delivered, s)
  deliver bytes (peer ∷ peers) delivered s =
      let (sent, s') = write peer bytes s in
      deliver bytes peers (if sent ==ℤ pos (length bytes) then delivered + 1 else delivered) s'

  -- `broadcast(const char* bytes, int count)`, with `count` bytes behind the pointer
  unfoldable pub broadcast : Option (List ℕ) → ℤ → SocketSet → S → ℤ × S
  broadcast bytes count set s =
      if is_neg count || is_positive count && not (is_some bytes)
      then (socket_error, s)
      else (let (delivered, s') = deliver (take (to_ℕ count) (bytes_of bytes)) set.sockets 0 s in
          (pos delivered, s'))
