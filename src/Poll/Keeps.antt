-- ===== src/Poll/Keeps.antt =====
-- What reports keep in a round of polling (src/event_socket_set.cpp): every touch is of an active registration.
use libaeon.Prelude.{ℕ, ◌≡◌, ◌≢◌, refl, ap, ◌∙◌, true, ℤ, pos, arith, Bool-cases, inl, inr}
use libaeon.Errors.{socket_error, err_no_socket}
use libaeon.Platform.{Sockaddr, Readiness}
use libaeon.Poll.{Host, Watch, Report, Audience, Round, Poller, is_active, all_active}
use libaeon.Poll.Dispatch.{
  check_current, check_valid, tell, tell_set, tell_both, report_error, socket_pending_error,
  report_flags, dispatch_listener,
}

-- What the poller relies on of its host: only handlers change registrations, and those run where the
-- poller tells something, in `close`, and in a step that completes a handshake.
pub record KeepsRegistrations {S : Type 0} (host : Host S) : Type 0 where
  pub set_error_keeps :
      (w : Watch) (code : ℤ) (ref : ℕ) (s : S)
      → is_active host w (host.set_error code ref s) ≡ is_active host w s
  pub set_n_keeps :
      (w : Watch) (n : ℤ) (ref : ℕ) (s : S)
      → is_active host w (host.set_n n ref s) ≡ is_active host w s
  pub set_remote_addr_keeps :
      (w : Watch) (a : Sockaddr) (ref : ℕ) (s : S)
      → is_active host w (host.set_remote_addr a ref s) ≡ is_active host w s
  pub poll_step_keeps :
      (w : Watch) (flags : Readiness) (ref : ℕ) (s : S)
      → (host.poll_step flags ref s).0 ≢ pos 2
      → is_active host w (host.poll_step flags ref s).1 ≡ is_active host w s
  pub poll_receive_keeps :
      (w : Watch) (size ref : ℕ) (s : S)
      → is_active host w (host.poll_receive size ref s).1 ≡ is_active host w s
  pub flush_queued_keeps :
      (w : Watch) (budget ref : ℕ) (s : S)
      → is_active host w (host.flush_queued budget ref s).1 ≡ is_active host w s
  pub recv_from_keeps :
      (w : Watch) (fd : ℤ) (size : ℕ) (s : S)
      → is_active host w (host.recv_from fd size s).1 ≡ is_active host w s
  pub pending_error_keeps :
      (w : Watch) (fd : ℤ) (s : S)
      → is_active host w (host.pending_error fd s).1 ≡ is_active host w s

module _ {S : Type 0} (host : Host S) (keeps : KeepsRegistrations host) (w : Watch) where
  -- Whatever is found, every touch was of an active registration.
  abbrev pub Safe : {A : Type 0} → Poller S A → Type 0
  Safe m = (r : Round S) → all_active r.trace ≡ true → all_active (m r).1.trace ≡ true

  -- The same, for a method that begins with a touch.
  abbrev pub SafeActive : {A : Type 0} → Poller S A → Type 0
  SafeActive m =
      (r : Round S)
      → is_active host w r.state ≡ true
      → all_active r.trace ≡ true
      → all_active (m r).1.trace ≡ true

  pub check_current-Safe :
      (r : Round S)
      → all_active r.trace ≡ true
      → (all_active (check_current host w r).1.trace ≡ true)
        × ((check_current host w r).1.state ≡ r.state)
        × ((check_current host w r).0 ≡ true → is_active host w r.state ≡ true)
  unfolding check_current
  check_current-Safe r h = ground arith

  pub check_valid-Safe :
      (r : Round S)
      → all_active r.trace ≡ true
      → (all_active (check_valid host w r).1.trace ≡ true)
        × ((check_valid host w r).1.state ≡ r.state)
        × ((check_valid host w r).0 ≡ true → is_active host w r.state ≡ true)
  unfolding check_valid
  check_valid-Safe r h = ground arith

  pub tell_set-Safe : (report : Report) → Safe (tell_set host w report)
  unfolding tell_set
  tell_set-Safe report r h = ground arith

  pub tell_both-SafeActive : (report : Report) → SafeActive (tell_both host w report)
  unfolding tell_both
  tell_both-SafeActive report r a h =
      ground (arith, a, h, tell_set-Safe report (tell host w Audience.own_handler report r).1)

  pub report_error-SafeActive : (code : ℤ) → SafeActive (report_error host w code)
  unfolding report_error
  report_error-SafeActive code r a h =
      let s = host.set_error code w.entry.socket_ref r.state in
      tell_both-SafeActive (Report.failed code) _
        (keeps.set_n_keeps w socket_error w.entry.socket_ref s
          ∙ keeps.set_error_keeps w code w.entry.socket_ref r.state
          ∙ a)
        (ground (arith, a, h))

  socket_pending_error-keeps :
      (r : Round S)
      → (is_active host w (socket_pending_error host w r).1.state ≡ is_active host w r.state)
        × ((socket_pending_error host w r).1.trace ≡ r.trace)
  unfolding socket_pending_error
  socket_pending_error-keeps r = (keeps.pending_error_keeps w w.fd r.state, refl)

  pub report_flags-SafeActive : (flags : Readiness) → SafeActive (report_flags host w flags)
  unfolding report_flags
  report_flags-SafeActive flags r a h = elim (Bool-cases flags.pollnval) [
    | inl yes_ ↦ rw (yes_, report_flags) (report_error-SafeActive err_no_socket r a h)
    | inr no_ ↦
        rw (no_, report_flags)
          (let p = socket_pending_error-keeps r in
            report_error-SafeActive _ _ (p.0 ∙ a) (ap all_active p.1 ∙ h))
  ]

  pub dispatch_listener-SafeActive :
      (flags : Readiness) → SafeActive (dispatch_listener host w flags)
  unfolding dispatch_listener
  dispatch_listener-SafeActive flags r a h = ground (arith, a, h, report_flags-SafeActive flags r)
