-- ===== src/Poll/Wait.antt =====
-- The native wait of a round (src/event_socket_set.cpp, `poll_readable`) and the time that it may take.
-- A wait that is interrupted is begun again: the model counts its rounds with fuel, and returns
-- nothing when the fuel runs out.
use libaeon.Prelude.{
  ℕ, zero, suc, ◌+◌, ◌-◌, Bool, true, false, not, ◌&&◌, ◌||◌, Option, none, some, List, [], ◌∷◌, ℤ,
  pos, negsuc, ◌==◌, ◌==ℤ◌, is_neg, is_zero, is_positive, to_ℕ, if◌then◌else◌, length, leb, ltb,
}
use Prim.Native.Nat.{◌/◌, ◌*◌}
use libaeon.Platform.{Readiness}
use libaeon.Poll.{Host, Watch, PollDescriptor, is_active}

abbrev pub ns_per_ms : ℕ
ns_per_ms = 1000000

abbrev pub not_ready : Readiness
not_ready = record {
  pollin = false;
  pollout = false;
  pollerr = false;
  pollnval = false;
  pollhup = false;
}

-- `entry.revents = 0` for every descriptor
abbrev pub cleared : List PollDescriptor → List Readiness
cleared [] = []
cleared (_ ∷ rest) = not_ready ∷ cleared rest

-- The integer is below -1.
abbrev pub is_bad_timeout : ℤ → Bool
is_bad_timeout (pos _) = false
is_bad_timeout (negsuc zero) = false
is_bad_timeout (negsuc (suc _)) = true

abbrev pub forever : ℤ
forever = negsuc 0

-- `due >= 0 && (effective_timeout == -1 || due < effective_timeout)`
abbrev pub sooner : ℤ → ℤ → ℤ
sooner due effective =
    if not (is_neg due) && (effective ==ℤ forever || ltb (to_ℕ due) (to_ℕ effective))
    then due
    else effective

module _ {S : Type 0} (host : Host S) where
  -- `revents` is copied only from a wait that found something.
  abbrev pub reported : List PollDescriptor → ℤ × List Readiness → ℤ × List Readiness
  reported descriptors (result, revents) =
      (result, if is_positive result then revents else cleared descriptors)

  -- `result < 0 && errno == EINTR`
  abbrev pub interrupted : ℤ → S → Bool
  interrupted result s = is_neg result && host.native_error s == host.codes.eintr

  -- The wait without a time limit.
  unfoldable pub wait_forever : ℕ → List PollDescriptor → S → Option ((ℤ × List Readiness) × S)
  wait_forever zero descriptors s = none
  wait_forever (suc fuel) descriptors s =
      let (polled, s') = host.native_poll descriptors forever s in
      let again = wait_forever fuel descriptors s' in
      if interrupted polled.0 s' then again else some (reported descriptors polled, s')

  -- The wait with a deadline, and the milliseconds that remain.
  unfoldable pub wait_until :
      ℕ → ℕ → ℤ → List PollDescriptor → S → Option ((ℤ × List Readiness) × S)
  wait_until zero deadline remaining descriptors s = none
  wait_until (suc fuel) deadline remaining descriptors s =
      let (polled, s') = host.native_poll descriptors remaining s in
      let again =
        wait_until fuel deadline (pos ((deadline - host.now s') / ns_per_ms)) descriptors s' in
      if not (interrupted polled.0 s')
      then some (reported descriptors polled, s')
      else if leb deadline (host.now s')
      then some ((pos 0, cleared descriptors), s')
      else again

  -- `poll_readable`
  unfoldable pub poll_readable : ℕ → List PollDescriptor → ℤ → S → Option ((ℤ × List Readiness) × S)
  poll_readable fuel descriptors timeout_ms s =
      if is_bad_timeout timeout_ms
      then some ((forever, cleared descriptors), s)
      else if length descriptors == 0
      then some ((pos 0, []), if is_positive timeout_ms then host.sleep timeout_ms s else s)
      else if timeout_ms ==ℤ forever
      then wait_forever fuel descriptors s
      else wait_until fuel (host.now s + to_ℕ timeout_ms * ns_per_ms) timeout_ms descriptors s

  -- The test that precedes every use of a watched socket outside the dispatch.
  abbrev pub is_current : Watch → S → Bool
  is_current w s =
      is_active host w s
      && host.is_valid_socket w.entry.socket_ref s
      && host.sockfd w.entry.socket_ref s ==ℤ w.fd

  -- The time limit of the native wait: the caller's, or that of a watched socket if it is shorter.
  unfoldable pub effective_timeout : ℤ → List Watch → S → ℤ
  effective_timeout timeout [] s = timeout
  effective_timeout timeout (w ∷ rest) s =
      effective_timeout
        (if w.is_tcp && is_current w s
          then sooner (host.poll_timeout_ms w.entry.socket_ref s) timeout
          else timeout)
        rest s

  -- Whether a socket's own deadline has come.
  unfoldable pub has_expired : List Watch → S → Bool
  has_expired [] s = false
  has_expired (w ∷ rest) s =
      w.is_tcp && is_current w s && host.poll_timeout_ms w.entry.socket_ref s ==ℤ pos 0
      || has_expired rest s

  -- Whether a transport has input that the system does not know of.
  abbrev pub has_buffered_input : Watch → S → Bool
  has_buffered_input w s =
      w.is_tcp && is_current w s && host.poll_has_buffered_input w.entry.socket_ref s

  unfoldable pub any_buffered : List Watch → S → Bool
  any_buffered [] s = false
  any_buffered (w ∷ rest) s = has_buffered_input w s || any_buffered rest s

  -- `for (;;)`: the wait goes on when it has ended before a deadline that it was shortened to. The
  -- result has the readiness and whether a deadline has come.
  unfoldable pub wait_ready :
      ℕ → ℤ → Bool → List Watch → List PollDescriptor → S → Option ((ℤ × List Readiness × Bool) × S)
  wait_ready zero timeout buffered watched descriptors s = none
  wait_ready (suc fuel) timeout buffered watched descriptors s =
      let effective = effective_timeout timeout watched s in
      elim (poll_readable fuel descriptors (if buffered then pos 0 else effective) s) [
        | none ↦ none
        | some ((ready, revents), s') ↦
            let expired = has_expired watched s' in
            let again = wait_ready fuel timeout buffered watched descriptors s' in
            if is_neg ready
            then some ((ready, revents, false), s')
            else if not (is_zero ready)
                || buffered
                || expired
                || not (timeout ==ℤ forever)
                || effective ==ℤ forever
            then some ((ready, revents, expired), s')
            else again
      ]
