-- ===== src/Tests/Sessions.antt =====
-- The theorems about event sockets and TLS sessions at a library that takes two bytes at a time.
use libaeon.Prelude.{
  ℕ, ◌≡◌, ◌≢◌, ◌≤◌, ◌+◌, ◌++◌, ◌⊎◌, refl, true, false, Option, none, some, ℤ, is_positive, List, [],
  ◌∷◌, pos, negsuc, is_neg, arith, length, take, if◌then◌else◌,
}
use libaeon.Socket.{is_valid_socket}
use libaeon.Socket.Transfer.Write.{sent}
use libaeon.WriteQueue.{Outgoing}
use libaeon.WriteQueue.Contents.{IsQueue, contents}
use libaeon.EventSocket.{EventSocket, Env, Event, flush}
use libaeon.EventSocket
use libaeon.EventSocket.Delivery.{flush-delivers}
use libaeon.EventSocket.Reports.{close-twice}
use libaeon.Tls.{TlsLibrary, TlsSocket, SslReason, VerifyMode, bytes_hash}
use libaeon.Platform.{Readiness}
use libaeon.Tls.Stream.{send_tls, write_record, requested, differs}
use libaeon.Tls.Step.{poll_step, handshake_step}
use libaeon.Tls.Session.{init_session}
use libaeon.Tls.Writes.{WritesPartially, Takes, MayWrite, Remembers}
use libaeon.Tls.Carriage.{send_tls-Takes}
use libaeon.Tls.Progress.{StepMeans, poll_step-StepMeans}
use libaeon.Tls.Invariant.{IsSession}
use libaeon.Tls.Lifetime.{Life, here, next, begins, polls, sends, Life-IsSession}
use libaeon.Tests.Systems.{kind_os, fresh_world}
use libaeon.Tests.Sockets.{open_socket}

abbrev queue : Outgoing
queue = record { chunks = (1 ∷ 2 ∷ 3 ∷ []) ∷ []; front_offset = 1; bytes = 2; limit = 6 }

queue-IsQueue : IsQueue queue
queue-IsQueue = omega arith

abbrev event_socket : EventSocket
event_socket = record { base = open_socket; out = queue }

abbrev env : Env (List ℕ)
env = record { world = fresh_world; below = []; events = [] }

flush-delivers_example :
    let (result, e', w') = flush kind_os 9 event_socket fresh_world in
    IsQueue e'.out
    × (result.bytes ≤ 9)
    × (((result.error ≡ pos 0)
          × (sent kind_os w'.calls ++ contents e'.out
              ≡ sent kind_os fresh_world.calls ++ contents event_socket.out)
          × (e'.out.bytes + result.bytes ≡ event_socket.out.bytes))
        ⊎ ((is_neg result.error ≡ true) × (e'.out.bytes ≡ 0)))
flush-delivers_example =
    flush-delivers kind_os (omega arith) 9 event_socket fresh_world queue-IsQueue

close-twice_example :
    let (closed, e', env') = EventSocket.close kind_os event_socket env in
    (is_valid_socket e'.base ≡ false)
    × (e'.out.bytes ≡ 0)
    × (env'.events ≡ (if closed then env.events ++ Event.on_close ∷ [] else env.events))
    × (EventSocket.close kind_os e' env' ≡ (false, e', env'))
close-twice_example = close-twice kind_os event_socket env

-- A library whose handshake succeeds at once, and which takes two bytes of each write.
abbrev library : TlsLibrary (List ℕ)
library = record {
  ssl_new = λ server x. ((true, true), x);
  ssl_do_handshake = λ x. (pos 1, x);
  ssl_read = λ size x. ((negsuc 0, []), x);
  ssl_write = λ bytes x. (pos (length (take 2 bytes)), x ++ take 2 bytes);
  ssl_shutdown = λ x. (pos 1, x);
  ssl_get_error = λ result x. SslReason.want_read;
  sent_shutdown = λ x. true;
  verify_ok = λ x. true;
  ssl_pending = λ x. pos 0;
  set_verification = λ strict own numeric identity x. (true, x);
  set_host_name = λ name x. (true, x);
  is_numeric_ip = λ name. false;
  now = λ x. 0;
}

abbrev tls : TlsSocket
tls = record {
  event = event_socket;
  ctx = true;
  session = true;
  server_side = false;
  tls_ready = true;
  need_write = false;
  send_need_read = false;
  recv_need_write = false;
  pending_write_len = 0;
  ssl_failed = false;
  peer_notified_close = false;
  shutdown_requested = false;
  shutdown_notify_sent = false;
  shutdown_need_write = false;
  shutdown_need_read = false;
  shutdown_deadline = 0;
  pending_write_queued = false;
  pending_write_hash = 0;
  handshake_timeout_ms = 5000;
  handshake_deadline = 0;
  verify_mode = VerifyMode.strict;
  allow_self_signed = false;
  expected_identity = [];
}

-- A library that wants each write a second time, and then takes its first byte.
abbrev repeat : List ℕ → List ℕ × Option (List ℕ) → ℤ × (List ℕ × Option (List ℕ))
repeat [] (x, again) = (negsuc 0, (x, some []))
repeat (b ∷ bytes) (x, none) = (negsuc 0, (x, some (b ∷ bytes)))
repeat (b ∷ bytes) (x, some again) = (pos 1, (x ++ b ∷ [], none))

abbrev repeating : TlsLibrary (List ℕ × Option (List ℕ))
repeating = record {
  ssl_new = λ server x. ((true, true), x);
  ssl_do_handshake = λ x. (pos 1, x);
  ssl_read = λ size x. ((negsuc 0, []), x);
  ssl_write = repeat;
  ssl_shutdown = λ x. (pos 1, x);
  ssl_get_error = λ result x. SslReason.want_write;
  sent_shutdown = λ x. true;
  verify_ok = λ x. true;
  ssl_pending = λ x. pos 0;
  set_verification = λ strict own numeric identity x. (true, x);
  set_host_name = λ name x. (true, x);
  is_numeric_ip = λ name. false;
  now = λ x. 0;
}

repeat-Takes :
    (bytes : List ℕ) (x : List ℕ × Option (List ℕ))
    → MayWrite bytes x.1
    → Takes bytes x.0 (repeat bytes x).1.0 (repeat bytes x).0
repeat-Takes [] (x, again) may = refl
repeat-Takes (b ∷ bytes) (x, none) may = refl
repeat-Takes (b ∷ bytes) (x, some again) may = (omega arith, refl)

repeat-done :
    (bytes : List ℕ) (x : List ℕ × Option (List ℕ))
    → MayWrite bytes x.1
    → is_positive (repeat bytes x).0 ≡ true
    → (repeat bytes x).1.1 ≡ none
repeat-done [] (x, again) may h = absurd (ground (arith, h))
repeat-done (b ∷ bytes) (x, none) may h = absurd (ground (arith, h))
repeat-done (b ∷ bytes) (x, some again) may h = refl

repeat-again :
    (bytes : List ℕ) (x : List ℕ × Option (List ℕ))
    → MayWrite bytes x.1
    → is_positive (repeat bytes x).0 ≡ false
    → (repeat bytes x).1.1 ≡ some bytes
repeat-again [] (x, again) may h = refl
repeat-again (b ∷ bytes) (x, none) may h = refl
repeat-again (b ∷ bytes) (x, some again) may h = absurd (ground (arith, h))

abbrev repeating-WritesPartially : WritesPartially repeating
repeating-WritesPartially = record {
  taken = λ x. x.0;
  pending = λ x. x.1;
  write_takes = repeat-Takes;
  write_done = repeat-done;
  write_again = λ bytes x may kept more. repeat-again bytes x may kept;
}

-- A write of two bytes waits to be tried again.
abbrev waiting_tls : TlsSocket
waiting_tls = record tls {
  pending_write_len = 2;
  pending_write_queued = true;
  pending_write_hash = bytes_hash (5 ∷ 6 ∷ []);
}

abbrev waiting_env : Env (List ℕ × Option (List ℕ))
waiting_env = record { world = fresh_world; below = ([], some (5 ∷ 6 ∷ [])); events = [] }

-- It is tried again with a byte more, and a byte of it is taken.
send_tls_test : (send_tls kind_os repeating (5 ∷ 6 ∷ 7 ∷ []) true waiting_tls waiting_env).0 ≡ pos 1
unfolding send_tls write_record requested differs bytes_hash
send_tls_test = refl

send_tls-Takes_example :
    let (r, t', env') = send_tls kind_os repeating (5 ∷ 6 ∷ 7 ∷ []) true waiting_tls waiting_env in
    Takes (5 ∷ 6 ∷ 7 ∷ []) [] env'.below.0 r
    × (t'.ssl_failed ≡ false → Remembers t' env'.below.1)
    × (waiting_tls.pending_write_len ≢ 0
        → true ≡ false
        → (is_neg r ≡ true) × (env'.below ≡ waiting_env.below))
send_tls-Takes_example =
    send_tls-Takes kind_os repeating repeating-WritesPartially (5 ∷ 6 ∷ 7 ∷ []) true waiting_tls
      waiting_env refl (refl, refl, omega arith) (λ h. refl)

abbrev readable : Readiness
readable = record {
  pollin = true;
  pollout = true;
  pollerr = false;
  pollnval = false;
  pollhup = false;
}

abbrev fresh_tls : TlsSocket
fresh_tls = record tls { tls_ready = false; session = false }

abbrev begun_tls : TlsSocket
begun_tls = (init_session kind_os library false fresh_tls env).1

poll_step-StepMeans_example :
    let (result, t', env') = poll_step kind_os library readable begun_tls env in
    StepMeans kind_os library readable begun_tls env result t' env'
poll_step-StepMeans_example = poll_step-StepMeans kind_os library readable begun_tls env

-- The handshake completes at the first step.
poll_step_test : (poll_step kind_os library readable begun_tls env).0 ≡ pos 2
unfolding poll_step init_session handshake_step
poll_step_test = refl

fresh_tls-IsSession : IsSession fresh_tls
fresh_tls-IsSession = record {
  ready_exists = refl;
  shutdown_ready = refl;
  pending_ready = refl;
  pending_kind = refl;
}

abbrev sent_tls : TlsSocket
sent_tls =
    (send_tls kind_os library (5 ∷ []) false (poll_step kind_os library readable begun_tls env).1
      env).1

life : Life kind_os library fresh_tls sent_tls
life =
    next (next (next here (begins false env refl)) (polls readable env)) (sends (5 ∷ []) false env)

Life-IsSession_example : IsSession sent_tls
Life-IsSession_example = Life-IsSession kind_os library life fresh_tls-IsSession
