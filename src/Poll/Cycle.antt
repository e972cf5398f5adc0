-- ===== src/Poll/Cycle.antt =====
-- A whole call of `poll` (src/event_socket_set.cpp).
use libaeon.Prelude.{
  ℕ, ◌+◌, Bool, true, false, not, ◌&&◌, ◌||◌, Option, none, some, List, [], ◌∷◌, ◌++◌, ℤ, pos,
  ◌==ℤ◌, is_neg, is_zero, if◌then◌else◌,
}
use libaeon.Errors.{socket_error}
use libaeon.Platform.{Readiness}
use libaeon.Registry.{Registration}
use libaeon.Poll.{
  Host, Watch, PollDescriptor, Round, Poller, pure, ◌>>=◌, ask, check_active, is_active,
}
use libaeon.Poll.Dispatch.{check_current, dispatch_tcp, dispatch_udp}
use libaeon.Poll.Wait.{is_bad_timeout, wait_ready, any_buffered}

module _ {S : Type 0} (host : Host S) where
  -- The entries of a snapshot whose sockets are active and valid.
  unfoldable pub watch_entries : Bool → List Registration → S → List Watch
  watch_entries is_tcp [] s = []
  watch_entries is_tcp (entry ∷ rest) s =
      let w : Watch = record {
        is_tcp = is_tcp;
        entry = entry;
        fd = host.sockfd entry.socket_ref s;
      } in
      if is_active host w s && host.is_valid_socket entry.socket_ref s
      then w ∷ watch_entries is_tcp rest s
      else watch_entries is_tcp rest s

  abbrev pub watched_sockets : S → List Watch
  watched_sockets s =
      watch_entries true (host.tcp_snapshot s) s ++ watch_entries false (host.udp_snapshot s) s

  abbrev pub descriptors_of : List Watch → S → List PollDescriptor
  descriptors_of [] s = []
  descriptors_of (w ∷ rest) s =
      record { fd = w.fd; watch_writable = w.is_tcp && host.poll_wants_write w.entry.socket_ref s }
      ∷ descriptors_of rest s

  -- `s->poll_has_buffered_input()` of a socket that is still the one watched, after the wait
  unfoldable pub ask_buffered : Watch → Poller S Bool
  ask_buffered w = if not w.is_tcp then pure false else do
    current ← check_current host w
    if not current then pure false else ask host w host.poll_has_buffered_input

  -- `native[i].revents |= POLLIN` for the sockets with buffered input
  unfoldable pub add_buffered : List Watch → List Readiness → Poller S (List Readiness)
  add_buffered (w ∷ watches) (flags ∷ rest) r =
      let (found, r₁) = ask_buffered w r in
      let (others, r₂) = add_buffered watches rest r₁ in
      ((if found then record flags { pollin = true } else flags) ∷ others, r₂)
  add_buffered _ revents r = (revents, r)

  abbrev pub is_ready : Readiness → Bool
  is_ready flags = flags.pollin || flags.pollout || flags.pollerr || flags.pollnval || flags.pollhup

  -- `watch.tcp && watch.tcp->get_if_active() && …->poll_timeout_ms() == 0`
  unfoldable pub is_due : Watch → Poller S Bool
  is_due w = if not w.is_tcp then pure false else do
    active ← check_active host w
    if not active
        then pure false
        else do due ← ask host w host.poll_timeout_ms; pure (due ==ℤ pos 0)

  -- The readiness of the descriptor, and where there is none the deadline of the socket.
  unfoldable pub has_work : Watch → Readiness → Poller S Bool
  has_work w flags = if is_ready flags then pure true else is_due w

  unfoldable pub dispatch : Watch → Readiness → Poller S ℕ
  dispatch w flags = do
    work ← has_work w flags
    if not work
        then pure 0
        else if w.is_tcp
        then dispatch_tcp host w flags
        else dispatch_udp host w flags

  -- The loop over the watched sockets, with the number of those handled.
  unfoldable pub dispatch_all : List Watch → List Readiness → Poller S ℕ
  dispatch_all (w ∷ watches) (flags ∷ rest) r =
      let (handled, r') = dispatch w flags r in
      let (more, r'') = dispatch_all watches rest r' in (handled + more, r'')
  dispatch_all _ _ r = (0, r)

  -- What follows the wait.
  unfoldable pub dispatch_ready : Bool → List Watch → ℤ → List Readiness → Bool → Poller S ℤ
  dispatch_ready buffered watched ready revents expired r =
      if is_neg ready
      then (ready, r)
      else let (marked, r₁) = if buffered then add_buffered watched revents r else (revents, r) in
        let (handled, r₂) = dispatch_all watched marked r₁ in
        if is_zero ready && not buffered && not expired then (pos 0, r₁) else (pos handled, r₂)

  -- `poll(int timeout_ms)`. `polling` says that a call is running already, in which case the lock is
  -- not free. Nothing is returned when the fuel of the waits runs out.
  unfoldable pub poll : ℕ → Bool → ℤ → Round S → Option (ℤ × Round S)
  poll fuel polling timeout_ms r =
      let watched = watched_sockets r.state in
      let buffered = any_buffered host watched r.state in
      if is_bad_timeout timeout_ms || polling
      then some (socket_error, r)
      else (elim (wait_ready host fuel timeout_ms buffered watched (descriptors_of watched r.state)
          r.state) [
            | none ↦ none
            | some ((ready, revents, expired), s) ↦
                some
                  (dispatch_ready buffered watched ready revents expired (record r { state = s }))
          ])
