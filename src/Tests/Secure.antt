-- ===== src/Tests/Secure.antt =====
-- The theorems about TLS sockets that block, on a library that keeps what it was told, and reads from a
-- list of bytes.
use libaeon.Prelude.{
  ℕ, zero, suc, ◌-◌, refl, Bool, true, false, none, List, [], ◌∷◌, ◌++◌, ℤ, pos, arith,
}
use libaeon.Tls.{VerifyMode}
use libaeon.Ssl.{OpenSsl, SslFailure, SslSocket, Stage}
use libaeon.Ssl.Stream.{read_ssl_line}
use libaeon.Ssl.Client.{connect_to}
use libaeon.Ssl.Demands.{RemembersIdentity}
use libaeon.Ssl.Verified.{ConnectSecured, connect_to-ConnectSecured}
use libaeon.Ssl.Lines.{DeliversInOrder, Delivers, LineRead, read_ssl_line-LineRead}
use libaeon.Tests.Systems.{kind_os, fresh_world, peer_addr, sample}
use libaeon.Tests.Sockets.{open_socket}

record Notes : Type 0 where
  verifying : Bool
  expected : List ℕ
  coming : List ℕ
  read_so_far : List ℕ
  errors : ℕ

-- The next byte, of those that are coming.
abbrev next_of : List ℕ → Notes → (ℤ × List ℕ) × Notes
next_of [] x = ((pos 0, []), x)
next_of (byte ∷ rest) x =
    ((pos 1, byte ∷ []), record x { coming = rest; read_so_far = x.read_so_far ++ byte ∷ [] })

-- One byte at a time.
abbrev read_one : ℕ → Notes → (ℤ × List ℕ) × Notes
read_one zero x = ((pos 0, []), x)
read_one (suc size) x = next_of x.coming x

abbrev notes_lib : OpenSsl Notes
notes_lib = record {
  err_get_error = λ x. (x.errors, record x { errors = x.errors - 1 });
  queued_errors = λ x. x.errors;
  err_reason_error_string = λ error. none;
  ssl_ctx_new = λ x. (true, x);
  ssl_ctx_defaults = λ x. x;
  ssl_ctx_use_certificate_file = λ path x. (true, x);
  ssl_ctx_use_private_key_file = λ path x. (true, x);
  ssl_ctx_load_verify_locations = λ path x. (true, x);
  ssl_new = λ x. (true, x);
  ssl_free = λ x. x;
  ssl_set_fd = λ fd x. (true, x);
  ssl_set_verify = λ peer leaf x. record x { verifying = peer };
  set_hostflags = λ x. x;
  set1_ip_asc = λ name x. (true, record x { expected = name });
  set1_host = λ name x. (true, record x { expected = name });
  set_tlsext_host_name = λ name x. (true, x);
  ssl_set_accept_state = λ x. x;
  ssl_accept = λ x. (pos 1, x);
  ssl_connect = λ x. (pos 1, x);
  ssl_get_error = λ result x. SslFailure.no_error;
  verify_ok = λ x. true;
  is_init_finished = λ x. true;
  ssl_shutdown = λ x. (pos 1, x);
  ssl_read = read_one;
  ssl_write = λ bytes size x. (size, x);
}

notes_lib-RemembersIdentity : RemembersIdentity notes_lib
notes_lib-RemembersIdentity = record {
  verifying = λ x. x.verifying;
  expected = λ x. x.expected;
  set_verify_verifying = λ peer leaf x. refl;
  hostflags_verifying = λ x. refl;
  ip_verifying = λ name x. refl;
  host_verifying = λ name x. refl;
  name_verifying = λ name x. refl;
  error_verifying = λ x. refl;
  connect_verifying = λ x. refl;
  ip_expected = λ name x h. refl;
  host_expected = λ name x h. refl;
  name_expected = λ name x. refl;
  error_expected = λ x. refl;
  connect_expected = λ x. refl;
}

abbrev tls_socket : SslSocket
tls_socket = record {
  base = record open_socket { connected = true };
  ctx = true;
  session = true;
  owns_ctx = true;
  allow_self_signed = false;
  verify_mode = VerifyMode.strict;
  cert_file = [];
  key_file = [];
}

abbrev stage : Stage Notes
stage = record {
  tls = tls_socket;
  world = fresh_world;
  below = record {
    verifying = false;
    expected = [];
    coming = sample;
    read_so_far = [];
    errors = 2;
  };
}

connect_to-ConnectSecured_example :
    let (ok, g') = connect_to kind_os notes_lib peer_addr (97 ∷ []) stage in
    ConnectSecured kind_os notes_lib notes_lib-RemembersIdentity (97 ∷ []) ok g'
connect_to-ConnectSecured_example =
    connect_to-ConnectSecured kind_os notes_lib notes_lib-RemembersIdentity peer_addr (97 ∷ [])
      stage refl

next_of-Delivers :
    (size : ℕ) (coming : List ℕ) (x : Notes)
    → let ((count, bytes), x') = next_of coming x in
      Delivers (suc size) bytes x.read_so_far x'.read_so_far count
next_of-Delivers size [] x = refl
next_of-Delivers size (byte ∷ rest) x = (refl, omega arith, refl)

read_one-Delivers :
    (size : ℕ) (x : Notes)
    → let ((count, bytes), x') = read_one size x in
      Delivers size bytes x.read_so_far x'.read_so_far count
read_one-Delivers zero x = refl
read_one-Delivers (suc size) x = next_of-Delivers size x.coming x

notes_lib-DeliversInOrder : DeliversInOrder notes_lib
notes_lib-DeliversInOrder = record {
  delivered = λ x. x.read_so_far;
  read_delivers = read_one-Delivers;
  error_keeps = λ x. refl;
}

read_ssl_line-LineRead_example :
    let ((result, written), g') = read_ssl_line notes_lib true (pos 10) stage in
    LineRead notes_lib notes_lib-DeliversInOrder (pos 10) stage.below result written g'.below
read_ssl_line-LineRead_example =
    read_ssl_line-LineRead notes_lib notes_lib-DeliversInOrder true (pos 10) stage
