-- ===== src/WriteQueue.antt =====
-- The bounded queue of outgoing bytes (struct event_socket::state, `queue_write`, `flush_queued` and
-- the limit, src/event_socket.cpp) over any transport that may accept a part of what it is given.
-- `Contents` reads the queue as the bytes that wait; the other child modules prove that it is a
-- first-in first-out queue of them.
pub mod Contents
pub mod Accept
pub mod Flush
pub mod Fuel
pub mod Traffic
use libaeon.Prelude.{
  ℕ, zero, suc, ◌+◌, ◌-◌, ◌*◌, min, Bool, true, false, not, ◌&&◌, ◌||◌, Option, none, some, List,
  [], ◌∷◌, ◌++◌, ℤ, pos, is_neg, is_zero, is_some, to_ℕ, ltb, leb, ◌==◌, ◌==ℤ◌, if◌then◌else◌,
  length, take, drop,
}
use libaeon.Errors.{
  Errnos, translate_native_error, would_block_error, invalid_descriptor_error, err_system,
  socket_error,
}
use libaeon.Socket.Transfer.{bytes_of, head_or}

-- `std::size_t` has 64 bits; a difference below zero wraps around.
abbrev pub size_modulus : ℕ
size_modulus = 18446744073709551616

abbrev pub size_sub : ℕ → ℕ → ℕ
size_sub a b = if leb b a then a - b else a + size_modulus - b

-- `std::numeric_limits<int>::max()`
abbrev pub int_max : ℕ
int_max = 2147483647

abbrev pub coalesce_limit : ℕ
coalesce_limit = 16384

pub record Outgoing : Type 0 where
  pub chunks : List (List ℕ)
  pub front_offset : ℕ
  pub bytes : ℕ
  pub limit : ℕ

abbrev pub initial : Outgoing
initial = record { chunks = []; front_offset = 0; bytes = 0; limit = 1048576 }

-- `chunks.clear(); front_offset = 0; bytes = 0;`
abbrev pub clear : Outgoing → Outgoing
clear out = record out { chunks = []; front_offset = 0; bytes = 0 }

abbrev pub queued_bytes : Outgoing → ℕ
queued_bytes out = out.bytes

unfoldable pub set_max_queued_bytes : ℕ → Outgoing → Bool × Outgoing
set_max_queued_bytes limit out =
    if ltb limit out.bytes then (false, out) else (true, record out { limit = limit })

-- `data` joins the last chunk if both are small, and is a chunk of its own otherwise.
abbrev pub push_chunk : List ℕ → List (List ℕ) → List (List ℕ)
push_chunk new [] = new ∷ []
push_chunk new (back ∷ []) =
    if ltb (length back) coalesce_limit && leb (length new) (size_sub coalesce_limit (length back))
    then (back ++ new) ∷ []
    else back ∷ new ∷ []
push_chunk new (chunk ∷ next ∷ rest) = chunk ∷ push_chunk new (next ∷ rest)

-- `queue_write(const char* data, std::size_t size)`. `ready` stands for the tests of the socket:
-- valid, connected, not blocking, and a transport that still accepts queued writes.
unfoldable pub queue_write : Bool → Option (List ℕ) → ℕ → Outgoing → Bool × Outgoing
queue_write ready data_ size out =
    if not ready || not (size == 0) && not (is_some data_)
    then (false, out)
    else if size == 0
    then (true, out)
    else if ltb (size_sub out.limit out.bytes) size
    then (false, out)
    else (
      true,
      record out {
        chunks = push_chunk (take size (bytes_of data_)) out.chunks;
        bytes = out.bytes + size;
      },
    )

-- The transport behind the virtual `poll_send_queued`: TCP sends to a descriptor, TLS writes a
-- record. `errno` is what GET_NET_SOCKET_ERROR() reads after a call.
pub record Transport (T : Type 0) : Type 0 where
  pub poll_send_queued : List ℕ → T → ℤ × T
  pub errno : T → ℕ
  pub get_error : T → ℤ
  pub poll_error_terminal : Bool

pub record FlushResult : Type 0 where
  pub bytes : ℕ
  pub error : ℤ
  pub drained : Bool

abbrev pub no_result : FlushResult
no_result = record { bytes = 0; error = pos 0; drained = false }

abbrev pub front_of : List (List ℕ) → List ℕ
front_of [] = []
front_of (front ∷ _) = front

abbrev pub pop_front : List (List ℕ) → List (List ℕ)
pop_front [] = []
pop_front (_ ∷ rest) = rest

-- `front_offset += count; bytes -= count;` and the end of the front chunk.
abbrev pub advance : ℕ → Outgoing → Outgoing
advance count out = record out {
  chunks =
      if out.front_offset + count == length (front_of out.chunks)
      then pop_front out.chunks
      else out.chunks;
  front_offset =
      if out.front_offset + count == length (front_of out.chunks)
      then 0
      else out.front_offset + count;
  bytes = size_sub out.bytes count;
}

-- What the next send is given: the rest of the front chunk, within the budget and an `int`.
abbrev pub requested : ℕ → ℕ → Outgoing → ℕ
requested budget done out =
    min (min (size_sub (length (front_of out.chunks)) out.front_offset) (size_sub budget done))
      int_max

module _ {T : Type 0} (codes : Errnos) (transport : Transport T) where
  open transport use {poll_send_queued, errno, get_error, poll_error_terminal}

  -- The public code of a send that failed for good.
  abbrev pub flush_error : ℕ → T → ℤ
  flush_error error t =
      if poll_error_terminal && is_neg (get_error t) && not (get_error t ==ℤ socket_error)
      then get_error t
      else translate_native_error codes
          (if error == 0 then invalid_descriptor_error codes else error)

  -- The loop of `flush_queued`. A send that is interrupted is tried again four times at most, and
  -- every other round that goes on sends a byte or more: `flush_fuel` rounds are enough.
  unfoldable pub flush_loop : ℕ → ℕ → ℕ → Outgoing → FlushResult → T → Outgoing × FlushResult × T
  flush_loop zero budget interrupts out result t = (out, result, t)
  flush_loop (suc fuel) budget interrupts out result t =
      let size = requested budget result.bytes out in
      let (sent, t') =
        poll_send_queued (take size (drop out.front_offset (front_of out.chunks))) t in
      let error = if is_neg sent then errno t' else 0 in
      let interrupted = error == codes.eintr in
      let retry = flush_loop fuel budget (interrupts + 1) out result t' in
      let next =
        flush_loop fuel budget 0 (advance (to_ℕ sent) out)
          (record result { bytes = result.bytes + to_ℕ sent }) t' in
      if out.bytes == 0 || leb budget result.bytes
      then (out, result, t)
      else if is_neg sent
      then (if interrupted && ltb interrupts 4
          then retry
          else if interrupted || would_block_error codes error
          then (out, result, t')
          else (clear out, record result { error = flush_error error t' }, t'))
      else if is_zero sent
      then (out, result, t')
      else if ltb size (to_ℕ sent)
      then (clear out, record result { error = err_system }, t')
      else next

  abbrev pub flush_fuel : Outgoing → ℕ
  flush_fuel out = 5 * out.bytes + 5

  -- `flush_queued(std::size_t budget)`. `ready`: the socket is valid and not blocking.
  unfoldable pub flush_queued : Bool → ℕ → Outgoing → T → Outgoing × FlushResult × T
  flush_queued ready budget out t =
      if not ready || budget == 0
      then (out, no_result, t)
      else (let (out', result, t') = flush_loop (flush_fuel out) budget 0 out no_result t in
          (
            out',
            record result {
              drained = not (out.bytes == 0) && out'.bytes == 0 && is_zero result.error;
            },
            t',
          ))
