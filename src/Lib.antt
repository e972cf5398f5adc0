-- ===== src/Lib.antt =====
-- libaeon: sockets, socket sets, write queues and their peers.
--
-- The library wraps native sockets. A `socket` (include/socket.hpp, src/socket.cpp) owns a
-- descriptor; its methods make native calls, keep the public error code and the state in which it
-- arose, and configure time limits. A `socket_set` refers to sockets, a `peer_collection`
-- (src/socket_set.cpp) owns the peers of a server. An event socket (src/event_socket.cpp) has a
-- bounded queue of outgoing bytes, which a poller flushes through the socket's transport, TCP or TLS.
--
-- How the code corresponds to these files:
--   Prelude          names of the libraries, Boolean tests, lists over native numbers, the C `int`
--   Errors           include/aeon.hpp, src/aeon.cpp, src/native_error.hpp: codes and their translation
--   Platform         the operating system: what the native calls are given and what they reply
--   Socket           src/socket.cpp: the object, its constructors, `close`
--   Socket/Options   its configuration; Socket/Transfer: reading and writing; Socket/Connect,
--                    Socket/Listen: `tcp_connect`, `tcp_bind`, `tcp_listen`, `tcp_accept`
--   WriteQueue       src/event_socket.cpp: `queue_write`, `flush_queued` and the limit
--   SocketSet, PeerCollection   src/socket_set.cpp
--   Address          src/address.cpp, src/resolver.cpp
--   EventSocket      src/event_socket.cpp: construction, direct writes, `close`, the TCP transport
--   Tls              src/ssl_event_socket.cpp: the session, `poll_step`, reads and writes
--   Registry         src/event_socket_set.cpp: the registrations of a set; Registry/Members: the set
--   Poll             src/event_socket_set.cpp: `poll`; Poll/Wait: the native wait and its time limit;
--                    Poll/Dispatch: what one watched socket gets; Poll/Cycle: the whole call
--   Udp              src/udp_socket.cpp: the object and its peers; Udp/Transfer, Udp/Setup: its methods;
--                    Udp/Peers, Udp/Server: src/udp_server_socket.cpp; Udp/Events: the UDP
--                    event sockets
--   Ssl              src/ssl_socket.cpp: the object; Ssl/Setup, Ssl/Stream: its methods;
--                    Ssl/Client: src/ssl_client_socket.cpp
--   Server           src/server_socket.cpp: the listener and the peers that it accepted
--   Tests            witnesses of the theorems and runs of the code
--
-- A method takes the object and the world and returns its result with both as it leaves them. The
-- operating system is a parameter (`Platform`): it answers each call as it likes from the history of
-- all calls, which the world keeps, so that every behaviour of a network is one of its instances. What
-- the theorems rely on of it is the record `IsPosix`: a failing call sets an error number, and a receive
-- delivers as many bytes as it says and no more than asked for. Sockets, handlers and the
-- system as `poll` sees them are a `Host`: functions on a state of any type, so that a handler may do
-- anything to the set; `KeepsRegistrations` says that nothing but handlers changes registrations, and
-- `TimePasses` that the clock has moved when a native wait is interrupted. The transport
-- behind the write queue is a parameter too (`Transport`), with the record `Carries` for what is relied on,
-- and so is OpenSSL (`TlsLibrary` for the event sockets, `OpenSsl` for those that block), with the records
-- `WritesPartially`, `RemembersIdentity`, `DeliversInOrder` and `PopsErrors`.
--
-- Bounds and fuel. A C `int` is `ℤ`; sizes are native numbers, and where `std::size_t` could wrap
-- around, the subtraction wraps at 2 ^ 64. `read_until` has as many rounds as bytes are asked for, since
-- each round that goes on reads one or more; `flush_queued` has 5 * bytes + 5 rounds, since an interrupted
-- send is tried again four times at most before the next byte goes; `close_owned_peers` has one round more
-- than there are peers. The waits of `poll` have fuel of their own, and time moves by a
-- nanosecond at least; `clear_ssl_errors` has a round for each error that waits, and one more.
--
-- Not modelled: the mutexes and atomics (each operation is one step), the Windows branches, the
-- SO_NOSIGPIPE branches, allocation failure.
-- Handlers are user code: what the handlers of one socket are told is a list of events; those that run
-- during `poll` are functions on the whole state, and those of a peer on the collection of the server. Time
-- is read from the TLS library's state. The text of addresses, and the client and server
-- classes but `server_socket`, `ssl_client_socket` and those of UDP are not modelled; nor is `connect` of
-- `ssl_event_socket`, whose `tcp_connect` calls the overridden `close` during its attempts. A string that
-- `socket::write` gets is modelled where its size as an `int` is not negative.
pub mod Prelude
pub mod Errors
pub mod Platform
pub mod Address
pub mod EventSocket
pub mod PeerCollection
pub mod Poll
pub mod Registry
pub mod Server
pub mod Socket
pub mod SocketSet
pub mod Ssl
pub mod Tests
pub mod Tls
pub mod Udp
pub mod WriteQueue
