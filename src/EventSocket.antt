-- ===== src/EventSocket.antt =====
-- class event_socket (src/event_socket.cpp): a socket that does not block, its queue of outgoing
-- bytes, and what it reports to handlers. A handler is user code: what the socket reports is kept as
-- the list of events, in the order of the calls. The virtual functions of the transport are
-- arguments; `tcp_transport` is the default of them.
pub mod Delivery
pub mod Reports
use libaeon.Prelude.{
  ℕ, Bool, true, false, not, ◌||◌, ◌&&◌, Option, none, some, List, [], ◌∷◌, ◌++◌, ℤ, pos, is_neg,
  is_nonpos, is_some, to_ℕ, ◌==◌, ◌==ℤ◌, if◌then◌else◌, length, take, ltb,
}
use libaeon.Errors.{err_none, socket_error, translate_native_error, would_block_error}
use libaeon.Platform.{Platform, World, Syscall, answer, after}
use libaeon.Socket.{Socket, is_valid_socket, create_default, adopt}
use libaeon.Socket.Options.{set_blocking}
use libaeon.Socket.Transfer.{bytes_of, argument_error, received_bytes}
use libaeon.WriteQueue.{Outgoing, Transport, FlushResult, initial, clear, int_max}
use libaeon.Socket
use libaeon.WriteQueue

-- The calls of handlers: `fire_on_data`, `fire_on_connect` and so on.
pub data Event : Type 0 where
  on_data : List ℕ → Event
  on_connect on_close on_listen on_drain : Event
  on_error : ℤ → Event
  on_write : (bytes : List ℕ) → (requested : ℤ) → (sent : ℤ) → Event

pub record EventSocket : Type 0 where
  pub base : Socket
  pub out : Outgoing

-- The system, the state of a transport above it, and the events so far.
pub record Env (X : Type 0) : Type 0 where
  pub world : World
  pub below : X
  pub events : List Event

abbrev pub fire : {X : Type 0} → Event → Env X → Env X
fire event env = record env { events = env.events ++ event ∷ [] }

module _ (os : Platform) where
  -- The constructors: a socket that cannot be made non-blocking is closed.
  unfoldable pub settle : Socket × World → EventSocket × World
  settle (s, w) =
      let (result, s', w') = set_blocking os false s w in
      let (_, s'', w'') = Socket.close os s' w' in
      if is_valid_socket s && not (result ==ℤ pos 0)
      then (record { base = s''; out = initial }, w'')
      else if is_valid_socket s
      then (record { base = s'; out = initial }, w')
      else (record { base = s; out = initial }, w)

  -- `event_socket()`
  unfoldable pub create_event : World → EventSocket × World
  create_event w = settle (create_default os w)

  -- `event_socket(socket_t fd, bool adopt)`
  unfoldable pub adopt_event : ℤ → World → EventSocket × World
  adopt_event fd w = settle (adopt os fd w)

  -- `poll_send` and `poll_send_queued` of a TCP socket
  abbrev pub tcp_send : ℤ → List ℕ → World → ℤ × World
  tcp_send fd bytes w =
      ((answer os (Syscall.send fd bytes) w).value, after os (Syscall.send fd bytes) w)

  -- `poll_receive` of a TCP socket
  abbrev pub tcp_receive : ℤ → ℕ → World → (ℤ × List ℕ) × World
  tcp_receive fd capacity w =
      let r = answer os (Syscall.recv fd capacity) w in
      ((r.value, received_bytes r), after os (Syscall.recv fd capacity) w)

  -- The transport of a TCP socket with some descriptor and error code.
  abbrev pub tcp_transport : Socket → Transport World
  tcp_transport s = record {
    poll_send_queued = λ bytes w. tcp_send s.sockfd bytes w;
    errno = λ w. w.errno;
    get_error = λ w. s.error_code;
    poll_error_terminal = false;
  }

  -- `flush_queued` of a TCP socket
  unfoldable pub flush : ℕ → EventSocket → World → FlushResult × EventSocket × World
  flush budget e w =
      let ready = is_valid_socket e.base && not e.base.blocking in
      let (out', result, w') =
        WriteQueue.flush_queued os.errnos (tcp_transport e.base) ready budget e.out w in
      (result, record e { out = out' }, w')

  module _ {X : Type 0} where
    unfoldable pub close : EventSocket → Env X → Bool × EventSocket × Env X
    close e env =
        let (closed, s, w) = Socket.close os e.base env.world in
        let env' = record env { world = w } in
        (
          closed,
          record { base = s; out = clear e.out },
          if closed then fire Event.on_close env' else env',
        )

    -- The error code of a direct write that failed.
    abbrev pub write_error : Bool → EventSocket → Env X → ℤ
    write_error terminal e env =
        if not (would_block_error os.errnos env.world.errno)
          && terminal
          && is_neg e.base.error_code
          && not (e.base.error_code ==ℤ socket_error)
        then e.base.error_code
        else translate_native_error os.errnos env.world.errno

    -- `write(const char* data, int size)` over `poll_send` and `poll_error_terminal`
    unfoldable pub write :
        (List ℕ → EventSocket → Env X → ℤ × EventSocket × Env X)
        → Bool
        → Option (List ℕ)
        → ℤ
        → EventSocket
        → Env X
        → ℤ × EventSocket × Env X
    write poll_send terminal data_ size e env =
        let bytes = take (to_ℕ size) (bytes_of data_) in
        let (sent, e', env') = poll_send bytes e env in
        let code = write_error terminal e' env' in
        if not (is_valid_socket e.base) || not (is_some data_) || is_nonpos size
        then (
          socket_error,
          record e { base = record e.base { error_code = argument_error e.base } },
          env,
        )
        else if is_neg sent
        then (
          sent,
          record e' { base = record e'.base { error_code = code } },
          fire (Event.on_write bytes size (pos 0)) (fire (Event.on_error code) env'),
        )
        else (
          sent,
          record e' { base = record e'.base { error_code = err_none } },
          fire (Event.on_write bytes size sent) env',
        )

    -- `write(const char* data)`
    unfoldable pub write_cstring :
        (List ℕ → EventSocket → Env X → ℤ × EventSocket × Env X)
        → Bool
        → Option (List ℕ)
        → EventSocket
        → Env X
        → ℤ × EventSocket × Env X
    write_cstring poll_send terminal data_ e env =
        let size = length (bytes_of data_) in
        let sent = write poll_send terminal data_ (pos size) e env in
        if not (is_some data_) || not (is_valid_socket e.base)
        then (socket_error, e, env)
        else if size == 0
        then (pos 0, e, env)
        else if ltb int_max size
        then (socket_error, e, env)
        else sent

    -- `write(const std::string& data)`
    unfoldable pub write_string :
        (List ℕ → EventSocket → Env X → ℤ × EventSocket × Env X)
        → Bool
        → List ℕ
        → EventSocket
        → Env X
        → ℤ × EventSocket × Env X
    write_string poll_send terminal data_ e env =
        let sent = write poll_send terminal (some data_) (pos (length data_)) e env in
        if not (is_valid_socket e.base) || length data_ == 0 || ltb int_max (length data_)
        then (socket_error, e, env)
        else sent

-- `queue_write(const std::string& data)`; `accepts` is `poll_accepts_queued_write()`.
unfoldable pub queue_write : Bool → List ℕ → EventSocket → Bool × EventSocket
queue_write accepts data_ e =
    let ready = is_valid_socket e.base && e.base.connected && not e.base.blocking && accepts in
    let (accepted, out') = WriteQueue.queue_write ready (some data_) (length data_) e.out in
    (accepted, record e { out = out' })
