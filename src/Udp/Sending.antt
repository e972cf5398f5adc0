-- ===== src/Udp/Sending.antt =====
-- What a UDP socket sends (src/udp_socket.cpp, `send_datagram`).
use libaeon.Prelude.{
  ℕ, ◌≡◌, ◌⊎◌, refl, true, false, not, ◌&&◌, ◌||◌, Option, none, some, List, ℤ, is_neg, is_positive,
  is_some, to_ℕ, if◌then◌else◌, take, arith, Bool-cases, inl, inr,
}
use libaeon.Errors.{err_none, socket_error, translate_native_error}
use libaeon.Platform.{Platform, IsPosix, reply_error-neg, World, Sockaddr, Syscall, answer, after}
use libaeon.Socket.{Socket}
use libaeon.Socket.Connect.{is_internet}
use libaeon.Socket.Transfer.{bytes_of}
use libaeon.Udp.{Link, is_valid, native_of, family_of, udp_argument_error}
use libaeon.Udp.Peers.{same_udp_address}
use libaeon.Udp.Endpoint.{target_address-same, target_address-is_internet}
use libaeon.Udp.Transfer.{target_address, send_to_target, send_datagram}

-- The code is negative after a failure, and none after a success.
abbrev pub IsOutcome : ℤ → ℤ → Type 0
IsOutcome result code =
    (is_neg result ≡ true → is_neg code ≡ true) × (is_neg result ≡ false → code ≡ err_none)

module _ (os : Platform) (posix : IsPosix os) (link : Link) (s : Socket) (w : World) where
  -- Nothing went out, and only the error has changed.
  abbrev pub Refused : ℤ → Socket → World → Type 0
  Refused result s' w' =
      (result ≡ socket_error)
      × (w' ≡ w)
      × (s' ≡ record s { error_code = s'.error_code })
      × (is_neg s'.error_code ≡ true)

  -- One datagram of the bytes went out, to the endpoint of the destination.
  abbrev pub Sent : List ℕ → ℤ → Socket → World → Type 0
  Sent bytes result s' w' =
      (target : Sockaddr) × (same_udp_address os s.remote_addr target ≡ true)
      × (w' ≡ after os (Syscall.send_to (native_of link s) bytes target) w)
      × (result ≡ (answer os (Syscall.send_to (native_of link s) bytes target) w).value)
      × (s' ≡ record s { n = result; error_code = s'.error_code })
      × IsOutcome result s'.error_code

  abbrev pub SendEnds : List ℕ → ℤ → Socket → World → Type 0
  SendEnds bytes result s' w' = Refused result s' w' ⊎ Sent bytes result s' w'

  sent_error-IsOutcome :
      (c : Syscall)
      → let r = answer os c w in
        IsOutcome r.value (
          if is_neg r.value
          then translate_native_error os.errnos (after os c w).errno
          else err_none)
  sent_error-IsOutcome c =
      ((λ failed. rw failed (reply_error-neg os posix c w.calls failed)), (λ fine. rw fine refl))

  send_to_target-SendEnds :
      (bytes : List ℕ) (target : Option Sockaddr)
      → ((sent : Sockaddr) → target ≡ some sent → same_udp_address os s.remote_addr sent ≡ true)
      → let (r, s', w') = send_to_target os link bytes target s w in SendEnds bytes r s' w'
  unfolding send_to_target
  send_to_target-SendEnds bytes none same = inl (refl, refl, refl, refl)
  send_to_target-SendEnds bytes (some target) same = inr (
    target,
    same target refl,
    refl,
    refl,
    refl,
    sent_error-IsOutcome (Syscall.send_to (native_of link s) bytes target),
  )

  udp_argument_error-neg : is_neg (udp_argument_error link s) ≡ true
  udp_argument_error-neg = ground arith

  -- A datagram socket or a peer of an internet family: `send_datagram` either refuses, with a negative
  -- error and without a call, or sends one datagram of the bytes, through the descriptor of the parent
  -- if it has one, to the endpoint of its destination; the error tells whether the system took it.
  pub send_datagram-SendEnds :
      (data_ : Option (List ℕ)) (size : ℤ)
      → is_internet (family_of link s) ≡ true
      → let (r, s', w') = send_datagram os link data_ size s w in
        SendEnds (take (to_ℕ size) (bytes_of data_)) r s' w'
  unfolding send_datagram
  send_datagram-SendEnds data_ size known =
      elim (Bool-cases
        (not (is_valid link s) || is_neg size || is_positive size && not (is_some data_))) [
          | inl bad ↦ rw (bad, send_datagram) (inl (refl, refl, refl, udp_argument_error-neg))
          | inr good ↦
              rw (good, send_datagram)
                (send_to_target-SendEnds (take (to_ℕ size) (bytes_of data_))
                  (target_address (family_of link s) s.remote_addr)
                  (λ sent h.
                    target_address-same os (family_of link s) s.remote_addr sent
                      (target_address-is_internet os (family_of link s) s.remote_addr sent known h)
                      h))
        ]
