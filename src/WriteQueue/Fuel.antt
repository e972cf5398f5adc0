-- ===== src/WriteQueue/Fuel.antt =====
-- The loop of `flush_queued` (src/event_socket.cpp) ends: the fuel that the model gives it is enough.
use libaeon.Prelude.{
  ℕ, zero, suc, ◌+◌, ◌-◌, ◌*◌, ◌≤◌, ◌<◌, ◌≡◌, inl, inr, Bool, true, false, ◌&&◌, ◌||◌, List, arith,
  ℤ, ℤ-cases, ◌==◌, ltb, leb, ltb→le, ltb→lt, take, drop, Bool-cases,
}
use libaeon.Errors.{Errnos, would_block_error}
use libaeon.WriteQueue.{
  Outgoing, Transport, FlushResult, requested, front_of, advance, flush_loop, flush_fuel,
}
use libaeon.WriteQueue.Contents.{IsQueue, advance_lem}
use libaeon.WriteQueue.Flush.{requested_le}

and_right : (a b : Bool) → (a && b) ≡ true → b ≡ true
and_right true b h = h
and_right false b h = cc

module _ {T : Type 0} (codes : Errnos) (transport : Transport T) (budget : ℕ) where
  -- Each round that goes on sends a byte, or is one more interruption of the four allowed.
  abbrev rounds_left : ℕ → Outgoing → ℕ
  rounds_left interrupts out = 5 * out.bytes + (4 - interrupts)

  flush_loop-enough :
      (f g interrupts : ℕ) (out : Outgoing) (result : FlushResult) (t : T)
      → IsQueue out
      → result.bytes ≤ budget
      → rounds_left interrupts out < f
      → rounds_left interrupts out < g
      → flush_loop codes transport f budget interrupts out result t
        ≡ flush_loop codes transport g budget interrupts out result t
  unfolding flush_loop
  flush_loop-enough zero g interrupts out result t q within hf hg = absurd (omega arith)
  flush_loop-enough (suc f) zero interrupts out result t q within hf hg = absurd (omega arith)
  flush_loop-enough (suc f) (suc g) interrupts out result t q within hf hg =
      elim (Bool-cases (out.bytes == 0 || leb budget result.bytes)) [
        | inl done ↦ rw (done, flush_loop)
        | inr more ↦ elim (ℤ-cases sent) [
          | inl (zero, e) ↦ rw (more, e, flush_loop)
          | inl (suc k, e) ↦ elim (Bool-cases (ltb size (suc k))) [
            | inl beyond ↦ rw (more, e, beyond, flush_loop)
            | inr fits ↦
                let limits = requested_le budget result.bytes out q within in
                let room = ltb→le size (suc k) fits in
                let (q', _, fewer) =
                  advance_lem (suc k) out q (omega arith) (omega (arith, limits.0, room)) in
                rw (more, e, fits, flush_loop)
                  (flush_loop-enough f g 0 (advance (suc k) out)
                    (record result { bytes = result.bytes + suc k }) t' q'
                    (omega (arith, limits.1, room)) (omega (arith, fewer)) (omega (arith, fewer)))
          ]
          | inr (k, e) ↦ elim (Bool-cases (transport.errno t' == codes.eintr && ltb interrupts 4)) [
            | inl again ↦
                let below =
                  ltb→lt interrupts 4
                    (and_right (transport.errno t' == codes.eintr) (ltb interrupts 4) again) in
                rw (more, e, again, flush_loop)
                  (flush_loop-enough f g (interrupts + 1) out result t' q within
                    (omega (arith, below)) (omega (arith, below)))
            | inr enough ↦
                elim (Bool-cases (
                  transport.errno t' == codes.eintr
                  || would_block_error codes (transport.errno t'))) [
                    | inl later ↦ rw (more, e, enough, later, flush_loop)
                    | inr fatal ↦ rw (more, e, enough, fatal, flush_loop)
                  ]
          ]
        ]
      ]
    where
      size : ℕ
      size = requested budget result.bytes out

      given : List ℕ
      given = take size (drop out.front_offset (front_of out.chunks))

      sent : ℤ
      sent = (transport.poll_send_queued given t).0

      t' : T
      t' = (transport.poll_send_queued given t).1

  -- On a well-formed queue the loop stops by one of its own tests: any fuel beyond `flush_fuel`
  -- gives the same result.
  pub flush_loop-terminates :
      (extra : ℕ) (out : Outgoing) (result : FlushResult) (t : T)
      → IsQueue out
      → result.bytes ≤ budget
      → flush_loop codes transport (flush_fuel codes transport out + extra) budget 0 out result t
        ≡ flush_loop codes transport (flush_fuel codes transport out) budget 0 out result t
  flush_loop-terminates extra out result t q within =
      flush_loop-enough _ _ 0 out result t q within (omega arith) (omega arith)
