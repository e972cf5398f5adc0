-- ===== src/Errors.antt =====
-- Public error codes (include/aeon.hpp) and their translation from native ones (src/aeon.cpp,
-- src/native_error.hpp), for a POSIX build. The numbers behind `EBADF` and its like belong to the
-- system's headers, so they are a parameter, and two names may share a number.
pub mod Translate
use libaeon.Prelude.{ℕ, ◌-◌, Bool, false, ◌&&◌, ◌||◌, ℤ, pos, negsuc, ◌==◌, leb, if◌then◌else◌}

-- The system's error numbers that the source names.
pub record Errnos : Type 0 where
  pub ebadf : ℕ
  pub enotsock : ℕ
  pub einval : ℕ
  pub etimedout : ℕ
  pub eagain : ℕ
  pub ewouldblock : ℕ
  pub eintr : ℕ
  pub econnrefused : ℕ
  pub econnreset : ℕ
  pub econnaborted : ℕ
  pub enotconn : ℕ
  pub eaddrinuse : ℕ
  pub enetunreach : ℕ
  pub ehostunreach : ℕ
  pub eacces : ℕ
  pub eperm : ℕ
  pub emsgsize : ℕ
  pub eaddrnotavail : ℕ
  pub eisconn : ℕ
  pub einprogress : ℕ
  pub ealready : ℕ
  pub epipe : ℕ
  pub enetdown : ℕ
  pub enetreset : ℕ
  pub enobufs : ℕ
  pub emfile : ℕ
  pub enfile : ℕ
  pub enotsup : ℕ
  pub eopnotsupp : ℕ
  pub eprotonosupport : ℕ
  pub eafnosupport : ℕ
  pub eproto : ℕ

-- The integer -n, for a code that the header writes with a minus sign.
abbrev pub minus : ℕ → ℤ
minus n = negsuc (n - 1)

abbrev pub socket_error : ℤ
socket_error = minus 1

abbrev pub err_none : ℤ
err_none = pos 0

abbrev pub err_no_host : ℤ
err_no_host = minus 0x010001

abbrev pub err_no_socket : ℤ
err_no_socket = minus 0x010002

abbrev pub err_invalid_argument : ℤ
err_invalid_argument = minus 0x010003

abbrev pub err_timeout : ℤ
err_timeout = minus 0x010004

abbrev pub err_would_block : ℤ
err_would_block = minus 0x010005

abbrev pub err_interrupted : ℤ
err_interrupted = minus 0x010006

abbrev pub err_connection_refused : ℤ
err_connection_refused = minus 0x010007

abbrev pub err_connection_reset : ℤ
err_connection_reset = minus 0x010008

abbrev pub err_connection_aborted : ℤ
err_connection_aborted = minus 0x010009

abbrev pub err_not_connected : ℤ
err_not_connected = minus 0x01000a

abbrev pub err_address_in_use : ℤ
err_address_in_use = minus 0x01000b

abbrev pub err_network_unreachable : ℤ
err_network_unreachable = minus 0x01000c

abbrev pub err_host_unreachable : ℤ
err_host_unreachable = minus 0x01000d

abbrev pub err_permission_denied : ℤ
err_permission_denied = minus 0x01000e

abbrev pub err_message_too_large : ℤ
err_message_too_large = minus 0x01000f

abbrev pub err_address_not_available : ℤ
err_address_not_available = minus 0x010010

abbrev pub err_already_connected : ℤ
err_already_connected = minus 0x010011

abbrev pub err_in_progress : ℤ
err_in_progress = minus 0x010012

abbrev pub err_broken_pipe : ℤ
err_broken_pipe = minus 0x010013

abbrev pub err_network_down : ℤ
err_network_down = minus 0x010014

abbrev pub err_network_reset : ℤ
err_network_reset = minus 0x010015

abbrev pub err_no_buffers : ℤ
err_no_buffers = minus 0x010016

abbrev pub err_resource_limit : ℤ
err_resource_limit = minus 0x010017

abbrev pub err_unsupported : ℤ
err_unsupported = minus 0x010018

abbrev pub err_protocol : ℤ
err_protocol = minus 0x010019

abbrev pub err_system : ℤ
err_system = minus 0x01ffff

abbrev pub state_resolve : ℕ
state_resolve = 1

abbrev pub state_create : ℕ
state_create = 2

abbrev pub state_accept : ℕ
state_accept = 3

abbrev pub state_connect : ℕ
state_connect = 4

abbrev pub state_bind : ℕ
state_bind = 5

abbrev pub is_valid_port : ℤ → Bool
is_valid_port (pos port) = leb port 65535
is_valid_port (negsuc _) = false

module _ (codes : Errnos) where
  unfoldable pub translate_native_error : ℕ → ℤ
  translate_native_error e =
      if e == 0
      then err_none
      else if e == codes.ebadf || e == codes.enotsock
      then err_no_socket
      else if e == codes.einval
      then err_invalid_argument
      else if e == codes.etimedout
      then err_timeout
      else if e == codes.eagain || e == codes.ewouldblock
      then err_would_block
      else if e == codes.eintr
      then err_interrupted
      else if e == codes.econnrefused
      then err_connection_refused
      else if e == codes.econnreset
      then err_connection_reset
      else if e == codes.econnaborted
      then err_connection_aborted
      else if e == codes.enotconn
      then err_not_connected
      else if e == codes.eaddrinuse
      then err_address_in_use
      else if e == codes.enetunreach
      then err_network_unreachable
      else if e == codes.ehostunreach
      then err_host_unreachable
      else if e == codes.eacces || e == codes.eperm
      then err_permission_denied
      else if e == codes.emsgsize
      then err_message_too_large
      else if e == codes.eaddrnotavail
      then err_address_not_available
      else if e == codes.eisconn
      then err_already_connected
      else if e == codes.einprogress || e == codes.ealready
      then err_in_progress
      else if e == codes.epipe
      then err_broken_pipe
      else if e == codes.enetdown
      then err_network_down
      else if e == codes.enetreset
      then err_network_reset
      else if e == codes.enobufs
      then err_no_buffers
      else if e == codes.emfile || e == codes.enfile
      then err_resource_limit
      else if e == codes.enotsup
          || e == codes.eopnotsupp
          || e == codes.eprotonosupport
          || e == codes.eafnosupport
      then err_unsupported
      else if e == codes.eproto
      then err_protocol
      else err_system

  unfoldable pub would_block_error : ℕ → Bool
  would_block_error e = e == codes.eagain || e == codes.ewouldblock || e == codes.eintr

  abbrev pub invalid_descriptor_error : ℕ
  invalid_descriptor_error = codes.ebadf
