-- ===== src/Tests/Polling.antt =====
-- The theorems about registrations and polling, on a set with one TCP socket whose data handler
-- takes it out of the set.
use libaeon.Prelude.{
  ℕ, ◌+◌, ◌≡◌, refl, Bool, true, false, none, some, List, [], ◌∷◌, ℤ, pos, arith, is_some, length,
  ltb,
}
use libaeon.Platform.{Readiness}
use libaeon.Registry.{
  Registration, Registry, remove_socket, get_if_active, no_registrations, append_entry,
}
use libaeon.Registry.Invariant.{IsRegistry}
use libaeon.Registry.Refines.{Operation, Refines, run-Refines}
use libaeon.SocketSet.{erase}
use libaeon.Registry.Members.{EventSocketSet, remove, members, IsMembership, remove-erases}
use libaeon.Registry.Revoked.{IsEntry, run_all, remove_socket-revokes}
use libaeon.Poll.{Host, Watch, PollDescriptor, Report, Audience, Round}
use libaeon.Poll.Keeps.{KeepsRegistrations}
use libaeon.Poll.Cycle.{poll}
use libaeon.Poll.Whole.{IsSafe, poll-IsSafe}
use libaeon.Poll.Returns.{TimePasses, poll-returns}
use libaeon.Tests.Systems.{peer_addr, linux_errnos}

-- Two sockets, 5 and 7, of which the first was added first.
abbrev two_sockets : Registry
two_sockets = append_entry 7 (append_entry 5 no_registrations)

two_sockets-IsRegistry : IsRegistry two_sockets
two_sockets-IsRegistry = record {
  listed_active = refl;
  distinct = refl;
  others_revoked = λ token h. ground (arith, h);
  tokens_made = λ token h. ground (arith, h);
}

run-Refines_example : Refines (Operation.removes_at 0) two_sockets
run-Refines_example = run-Refines (Operation.removes_at 0) two_sockets two_sockets-IsRegistry

abbrev first_entry : Registration
first_entry = record { token = 0; socket_ref = 5 }

-- Socket 5 is removed and added again.
remove_socket-revokes_example :
    get_if_active
      (run_all (Operation.adds 5 ∷ []) (remove_socket (some 5) two_sockets).1).active
      first_entry
    ≡ none
remove_socket-revokes_example =
    remove_socket-revokes two_sockets first_entry (Operation.adds 5 ∷ []) two_sockets-IsRegistry
      IsEntry.first

record Demo : Type 0 where
  listed : Bool
  clock : ℕ

abbrev readable : Readiness
readable = record {
  pollin = true;
  pollout = false;
  pollerr = false;
  pollnval = false;
  pollhup = false;
}

-- Its own handler takes the socket out of the set.
abbrev demo_fire : Audience → Report → Demo → Demo
demo_fire Audience.own_handler (Report.data_received _) s = record s { listed = false }
demo_fire _ _ s = s

abbrev demo_host : Host Demo
demo_host = record {
  codes = linux_errnos;
  tcp_snapshot = λ s. first_entry ∷ [];
  udp_snapshot = λ s. [];
  tcp_active = λ s token. s.listed;
  udp_active = λ s token. false;
  is_valid_socket = λ ref s. true;
  sockfd = λ ref s. pos 3;
  get_error = λ ref s. pos 0;
  set_error = λ code ref s. s;
  set_n = λ n ref s. s;
  set_remote_addr = λ a ref s. s;
  close = λ ref s. s;
  is_listener = λ ref. false;
  poll_wants_write = λ ref s. false;
  poll_has_buffered_input = λ ref s. false;
  poll_timeout_ms = λ ref s. pos 20;
  poll_error_terminal = λ ref s. false;
  poll_read_ready = λ flags ref s. flags.pollin;
  poll_queue_ready = λ flags ref s. flags.pollout;
  poll_step = λ flags ref s. (pos 1, s);
  poll_receive = λ capacity ref s. ((pos 2, 10 ∷ 11 ∷ []), s);
  flush_queued = λ budget ref s. (record { bytes = 0; error = pos 0; drained = false }, s);
  fire = λ audience ref report s. demo_fire audience report s;
  native_poll =
      λ descriptors timeout_ms s. ((pos 1, readable ∷ []), record s { clock = s.clock + 1 });
  recv_from = λ fd size s. ((pos 0, [], peer_addr), s);
  pending_error = λ fd s. ((pos 0, 0), s);
  native_error = λ s. 0;
  now = λ s. s.clock;
  sleep = λ ms s. s;
}

demo_host-KeepsRegistrations : KeepsRegistrations demo_host
demo_host-KeepsRegistrations = record {
  set_error_keeps = λ w code ref s. refl;
  set_n_keeps = λ w n ref s. refl;
  set_remote_addr_keeps = λ w a ref s. refl;
  poll_step_keeps = λ w flags ref s h. refl;
  poll_receive_keeps = λ w size ref s. refl;
  flush_queued_keeps = λ w budget ref s. refl;
  recv_from_keeps = λ w fd size s. refl;
  pending_error_keeps = λ w fd s. refl;
}

demo_host-TimePasses : TimePasses demo_host
demo_host-TimePasses descriptors timeout_ms s h = omega arith

abbrev demo_round : Round Demo
demo_round = record { state = record { listed = true; clock = 0 }; trace = [] }

poll-IsSafe_example :
    IsSafe demo_host demo_host-KeepsRegistrations (poll demo_host 2 false (pos 0) demo_round)
poll-IsSafe_example =
    poll-IsSafe demo_host demo_host-KeepsRegistrations 2 false (pos 0) demo_round refl

poll-returns_example : is_some (poll demo_host 2000001 false (pos 1) demo_round) ≡ true
poll-returns_example =
    poll-returns demo_host demo_host-TimePasses 2000000 1 false demo_round (omega arith)

abbrev demo_watch : Watch
demo_watch = record { is_tcp = true; entry = first_entry; fd = pos 3 }

abbrev demo_descriptor : PollDescriptor
demo_descriptor = record { fd = pos 3; watch_writable = false }

abbrev demo_outcome : (ℤ × List Readiness × Bool) × Demo
demo_outcome = ((pos 1, readable ∷ [], false), record { listed = true; clock = 1 })

-- Index 1 of a set with a TCP socket is that of its first UDP socket.
abbrev mixed_set : EventSocketSet
mixed_set = record { sockets = append_entry 5 no_registrations; udp_sockets = two_sockets }

one_socket-IsRegistry : IsRegistry (append_entry 5 no_registrations)
one_socket-IsRegistry = record {
  listed_active = refl;
  distinct = refl;
  others_revoked = λ token h. ground (arith, h);
  tokens_made = λ token h. ground (arith, h);
}

remove-erases_example :
    IsMembership (remove 1 mixed_set).1
    × ((remove 1 mixed_set).0 ≡ ltb 1 (length (members mixed_set)))
    × (members (remove 1 mixed_set).1 ≡ erase 1 1 (members mixed_set))
remove-erases_example = remove-erases 1 mixed_set (one_socket-IsRegistry, two_sockets-IsRegistry)
