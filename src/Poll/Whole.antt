-- ===== src/Poll/Whole.antt =====
-- Safety of a whole call of `poll` (src/event_socket_set.cpp).
use libaeon.Prelude.{
  ℕ, ◌≡◌, Bool, true, ◌||◌, Option, none, some, List, [], ◌∷◌, ℤ, arith, Bool-cases, Option-cases,
  inl, inr,
}
use libaeon.Platform.{Readiness}
use libaeon.Poll.{Host, Watch, Round, all_active}
use libaeon.Poll.Keeps.{KeepsRegistrations, check_current-Safe}
use libaeon.Poll.Safety.{dispatch_tcp-Safe, dispatch_udp-Safe}
use libaeon.Poll.Wait.{is_bad_timeout, wait_ready, any_buffered}
use libaeon.Poll.Cycle.{
  dispatch, dispatch_all, dispatch_ready, watched_sockets, descriptors_of, is_due, has_work,
  ask_buffered, add_buffered, poll,
}

module _ {S : Type 0} (host : Host S) (keeps : KeepsRegistrations host) where
  ask_buffered-Safe :
      (w : Watch) (r : Round S)
      → all_active r.trace ≡ true
      → all_active (ask_buffered host w r).1.trace ≡ true
  unfolding ask_buffered
  ask_buffered-Safe w r h = ground (arith, h, check_current-Safe host keeps w r)

  add_buffered-Safe :
      (watches : List Watch) (revents : List Readiness) (r : Round S)
      → all_active r.trace ≡ true
      → all_active (add_buffered host watches revents r).1.trace ≡ true
  unfolding add_buffered
  add_buffered-Safe [] revents r h = h
  add_buffered-Safe (w ∷ watches) [] r h = h
  add_buffered-Safe (w ∷ watches) (flags ∷ rest) r h =
      add_buffered-Safe watches rest (ask_buffered host w r).1 (ask_buffered-Safe w r h)

  has_work-Safe :
      (w : Watch) (flags : Readiness) (r : Round S)
      → all_active r.trace ≡ true
      → all_active (has_work host w flags r).1.trace ≡ true
  unfolding has_work is_due
  has_work-Safe w flags r h = ground (arith, h)

  dispatch-Safe :
      (w : Watch) (flags : Readiness) (r : Round S)
      → all_active r.trace ≡ true
      → all_active (dispatch host w flags r).1.trace ≡ true
  unfolding dispatch
  dispatch-Safe w flags r h =
      let r₁ = (has_work host w flags r).1 in
      ground (
        arith,
        has_work-Safe w flags r h,
        dispatch_tcp-Safe host keeps w flags r₁,
        dispatch_udp-Safe host keeps w flags r₁,
      )

  dispatch_all-Safe :
      (watches : List Watch) (revents : List Readiness) (r : Round S)
      → all_active r.trace ≡ true
      → all_active (dispatch_all host watches revents r).1.trace ≡ true
  unfolding dispatch_all
  dispatch_all-Safe [] revents r h = h
  dispatch_all-Safe (w ∷ watches) [] r h = h
  dispatch_all-Safe (w ∷ watches) (flags ∷ rest) r h =
      dispatch_all-Safe watches rest (dispatch host w flags r).1 (dispatch-Safe w flags r h)

  dispatch_ready-Safe :
      (buffered : Bool) (watched : List Watch) (ready : ℤ) (revents : List Readiness)
      (expired : Bool) (r : Round S)
      → all_active r.trace ≡ true
      → all_active (dispatch_ready host buffered watched ready revents expired r).1.trace ≡ true
  unfolding dispatch_ready
  dispatch_ready-Safe buffered watched ready revents expired r h =
      let a = add_buffered host watched revents r in
      ground (
        arith,
        h,
        add_buffered-Safe watched revents r,
        dispatch_all-Safe watched revents r h,
        dispatch_all-Safe watched a.0 a.1,
      )

  abbrev pub IsSafe : Option (ℤ × Round S) → Type 0
  IsSafe none = Unit
  IsSafe (some (result, r)) = all_active r.trace ≡ true

  -- However the handlers that run during a call of `poll` add, remove and close sockets: once its
  -- waits are over, all that the call asks of a socket (the queries for buffered input and for a
  -- deadline included), does to it and tells its handlers or those of the set goes through a
  -- registration that is active at that moment.
  pub poll-IsSafe :
      (fuel : ℕ) (polling : Bool) (timeout_ms : ℤ) (r : Round S)
      → all_active r.trace ≡ true
      → IsSafe (poll host fuel polling timeout_ms r)
  unfolding poll
  poll-IsSafe fuel polling timeout_ms r h =
      let watched = watched_sockets host r.state in
      let buffered = any_buffered host watched r.state in
      elim (Bool-cases (is_bad_timeout timeout_ms || polling)) [
        | inl refused ↦ rw (refused, poll) h
        | inr fine ↦
            elim (Option-cases (
              wait_ready host fuel timeout_ms buffered watched (descriptors_of host watched r.state)
                r.state)) [
                  | inl never ↦ rw (fine, never, poll) tt
                  | inr (((ready, revents, expired), s), e) ↦
                      rw (fine, e, poll)
                        (dispatch_ready-Safe buffered watched ready revents expired
                          (record r { state = s }) h)
                ]
      ]
