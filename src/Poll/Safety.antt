-- ===== src/Poll/Safety.antt =====
-- No dead registration is used in a round of polling (src/event_socket_set.cpp).
use libaeon.Prelude.{
  ℕ, ◌≡◌, ◌≢◌, ap, ◌∙◌, true, List, ℤ, pos, arith, Bool-cases, inl, inr, ◌==ℤ◌, ==ℤ→eq, is_neg,
  is_zero, is_positive,
}
use libaeon.Errors.{translate_native_error, socket_error, would_block_error}
use libaeon.Platform.{Sockaddr, Readiness}
use libaeon.WriteQueue.{FlushResult}
use libaeon.Socket.{max_buffer_size}
use libaeon.Poll.{touch, ask, Act, Host, Watch, Report, Round, is_active, all_active}
use libaeon.Poll.Dispatch.{
  check_current, tell_both, report_error, dispatch_broken, dispatch_end, dispatch_connected,
  close_terminal, dispatch_read_error, dispatch_received, dispatch_read, dispatch_flushed,
  dispatch_queue, dispatch_data, dispatch_progress, dispatch_tcp, dispatch_datagram, dispatch_udp,
  send_budget,
}
use libaeon.Poll.Keeps.{
  KeepsRegistrations, Safe, SafeActive, check_current-Safe, check_valid-Safe, tell_set-Safe,
  tell_both-SafeActive, report_error-SafeActive, report_flags-SafeActive,
  dispatch_listener-SafeActive,
}

module _ {S : Type 0} (host : Host S) (keeps : KeepsRegistrations host) (w : Watch) where
  dispatch_broken-SafeActive : SafeActive host keeps w (dispatch_broken host w)
  unfolding dispatch_broken
  dispatch_broken-SafeActive r a h =
      let err = host.get_error w.entry.socket_ref r.state in
      let r₁ = (ask host w host.get_error r).1 in
      let r₂ = (touch host w Act.stores (λ ref s. (tt, host.set_n socket_error ref s)) r₁).1 in
      let r₃ = (tell_both host w (Report.failed err) r₂).1 in
      ground (
        arith,
        a,
        h,
        check_valid-Safe host keeps w r₃,
        tell_both-SafeActive host keeps w (Report.failed err) r₂
            (keeps.set_n_keeps w socket_error w.entry.socket_ref r.state ∙ a)
            (ground (arith, a, h)),
      )

  dispatch_end-SafeActive : SafeActive host keeps w (dispatch_end host w)
  unfolding dispatch_end
  dispatch_end-SafeActive r a h =
      tell_set-Safe host keeps w Report.closed
        (touch host w Act.closes (λ ref s. (tt, host.close ref s)) r).1 (ground (arith, a, h))

  dispatch_connected-Safe : Safe host keeps w (dispatch_connected host w)
  unfolding dispatch_connected
  dispatch_connected-Safe r h = ground (arith, h, check_current-Safe host keeps w r)

  close_terminal-Safe : Safe host keeps w (close_terminal host w)
  unfolding close_terminal
  close_terminal-Safe r h = ground (arith, h, check_current-Safe host keeps w r)

  dispatch_read_error-SafeActive :
      (err : ℕ) → SafeActive host keeps w (dispatch_read_error host w err)
  unfolding dispatch_read_error
  dispatch_read_error-SafeActive err r a h = elim (Bool-cases (would_block_error host.codes err)) [
    | inl later ↦ rw (later, dispatch_read_error) h
    | inr now ↦
        rw (now, dispatch_read_error)
          (close_terminal-Safe _
            (report_error-SafeActive host keeps w _ _ a (ground (arith, a, h))))
  ]

  dispatch_received-SafeActive :
      (bytes : ℤ) (buffer : List ℕ)
      → SafeActive host keeps w (dispatch_received host w bytes buffer)
  unfolding dispatch_received
  dispatch_received-SafeActive bytes buffer r a h = elim (Bool-cases (is_positive bytes)) [
    | inl some_ ↦
        rw (some_, dispatch_received)
          (tell_both-SafeActive host keeps w (Report.data_received buffer) _
            (keeps.set_n_keeps w bytes w.entry.socket_ref r.state ∙ a) (ground (arith, a, h)))
    | inr none_ ↦ elim (Bool-cases (is_zero bytes)) [
      | inl over ↦ rw (none_, over, dispatch_received) (dispatch_end-SafeActive r a h)
      | inr failed ↦
          rw (none_, failed, dispatch_received)
            (dispatch_read_error-SafeActive (host.native_error r.state) r a h)
    ]
  ]

  dispatch_read-SafeActive :
      (flags : Readiness) → SafeActive host keeps w (dispatch_read host w flags)
  unfolding dispatch_read
  dispatch_read-SafeActive flags r a h =
      let r₁ = (ask host w (host.poll_read_ready flags) r).1 in
      let h₁ : all_active r₁.trace ≡ true = ground (arith, a, h) in
      elim (Bool-cases (host.poll_read_ready flags w.entry.socket_ref r.state)) [
        | inl readable ↦
            rw (readable, dispatch_read)
              (dispatch_received-SafeActive _ _ _
                (keeps.poll_receive_keeps w max_buffer_size w.entry.socket_ref r.state ∙ a)
                (ground (arith, a, h)))
        | inr quiet ↦
            rw (quiet, dispatch_read)
              (ground (arith, a, h₁, report_flags-SafeActive host keeps w flags r₁))
      ]

  dispatch_flushed-SafeActive :
      (flushed : FlushResult) → SafeActive host keeps w (dispatch_flushed host w flushed)
  unfolding dispatch_flushed
  dispatch_flushed-SafeActive flushed r a h = ground (
    arith,
    a,
    h,
    report_error-SafeActive host keeps w flushed.error r,
    close_terminal-Safe (report_error host w flushed.error r).1,
    tell_both-SafeActive host keeps w Report.drained r,
  )

  dispatch_queue-Safe : (flags : Readiness) → Safe host keeps w (dispatch_queue host w flags)
  unfolding dispatch_queue
  dispatch_queue-Safe flags r h =
      let c = check_current-Safe host keeps w r in
      let r₁ = (check_current host w r).1 in
      let r₂ = (ask host w (host.poll_queue_ready flags) r₁).1 in
      elim (Bool-cases (check_current host w r).0) [
        | inr gone ↦ rw (gone, dispatch_queue) (c h).0
        | inl here_ ↦
            let a : is_active host w r₁.state ≡ true =
              ap (is_active host w) (c h).1 ∙ (c h).2 here_ in
            let h₂ : all_active r₂.trace ≡ true = ground (arith, a, (c h).0) in
            elim (Bool-cases (host.poll_queue_ready flags w.entry.socket_ref r₁.state)) [
              | inr full ↦ rw (here_, full, dispatch_queue) h₂
              | inl writable ↦
                  rw (here_, writable, dispatch_queue)
                    (dispatch_flushed-SafeActive
                      (host.flush_queued send_budget w.entry.socket_ref r₁.state).0 _
                      (keeps.flush_queued_keeps w send_budget w.entry.socket_ref r₁.state ∙ a)
                      (ground (arith, a, h₂)))
            ]
      ]

  dispatch_progress-SafeActive :
      (progress : ℤ) (flags : Readiness) (r : Round S)
      → (progress ≢ pos 2 → is_active host w r.state ≡ true)
      → all_active r.trace ≡ true
      → all_active (dispatch_progress host w progress flags r).1.trace ≡ true
  unfolding dispatch_progress dispatch_data
  dispatch_progress-SafeActive progress flags r a h = elim (Bool-cases (progress ==ℤ pos 2)) [
    | inl two ↦
        let e = ==ℤ→eq progress (pos 2) two in
        rw (e, dispatch_progress) (dispatch_connected-Safe r h)
    | inr other ↦
        let live : is_active host w r.state ≡ true = a (λ e. ground (arith, e, other)) in
        ground (
          arith,
          other,
          h,
          live,
          dispatch_broken-SafeActive r live h,
          dispatch_end-SafeActive r live h,
          dispatch_queue-Safe flags (dispatch_read host w flags r).1,
          dispatch_read-SafeActive flags r live h,
        )
  ]

  pub dispatch_tcp-Safe : (flags : Readiness) → Safe host keeps w (dispatch_tcp host w flags)
  unfolding dispatch_tcp
  dispatch_tcp-Safe flags r h =
      let c = check_current-Safe host keeps w r in
      let r₁ = (check_current host w r).1 in
      elim (Bool-cases (check_current host w r).0) [
        | inr gone ↦ rw (gone, dispatch_tcp) (c h).0
        | inl here_ ↦
            let a : is_active host w r₁.state ≡ true =
              ap (is_active host w) (c h).1 ∙ (c h).2 here_ in
            elim (Bool-cases (host.is_listener w.entry.socket_ref)) [
              | inl listener ↦
                  rw (here_, listener, dispatch_tcp)
                    (dispatch_listener-SafeActive host keeps w flags r₁ a (c h).0)
              | inr stream ↦
                  rw (here_, stream, dispatch_tcp)
                    (dispatch_progress-SafeActive _ flags _
                      (λ n. keeps.poll_step_keeps w flags w.entry.socket_ref r₁.state n ∙ a)
                      (ground (arith, a, (c h).0)))
            ]
      ]

  dispatch_datagram-SafeActive :
      (bytes : ℤ) (buffer : List ℕ) (peer : Sockaddr)
      → SafeActive host keeps w (dispatch_datagram host w bytes buffer peer)
  unfolding dispatch_datagram
  dispatch_datagram-SafeActive bytes buffer peer r a h = elim (Bool-cases (is_neg bytes)) [
    | inl failed ↦
        rw (failed, dispatch_datagram)
          (ground (
            arith,
            a,
            h,
            report_error-SafeActive host keeps w
                (translate_native_error host.codes (host.native_error r.state)) r,
          ))
    | inr came ↦
        rw (came, dispatch_datagram)
          (tell_both-SafeActive host keeps w (Report.datagram buffer peer) _
            (keeps.set_remote_addr_keeps w peer w.entry.socket_ref _
              ∙ keeps.set_n_keeps w bytes w.entry.socket_ref r.state
              ∙ a)
            (ground (arith, a, h)))
  ]

  pub dispatch_udp-Safe : (flags : Readiness) → Safe host keeps w (dispatch_udp host w flags)
  unfolding dispatch_udp
  dispatch_udp-Safe flags r h =
      let c = check_current-Safe host keeps w r in
      let r₁ = (check_current host w r).1 in
      elim (Bool-cases (check_current host w r).0) [
        | inr gone ↦ rw (gone, dispatch_udp) (c h).0
        | inl here_ ↦
            let a : is_active host w r₁.state ≡ true =
              ap (is_active host w) (c h).1 ∙ (c h).2 here_ in
            elim (Bool-cases flags.pollin) [
              | inl input ↦
                  rw (here_, input, dispatch_udp)
                    (dispatch_datagram-SafeActive _ _ _ _
                      (keeps.recv_from_keeps w w.fd max_buffer_size r₁.state ∙ a) (c h).0)
              | inr none_ ↦
                  rw (here_, none_, dispatch_udp)
                    (ground (arith, a, c, h, report_flags-SafeActive host keeps w flags r₁))
            ]
      ]
