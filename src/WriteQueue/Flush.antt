-- ===== src/WriteQueue/Flush.antt =====
-- What `flush_queued` (src/event_socket.cpp) sends, keeps and reports.
use libaeon.Prelude.{
  ℕ, zero, suc, ◌+◌, ◌-◌, ◌≤◌, ◌<◌, ◌≡◌, ◌≢◌, ◌↔◌, refl, ap, ◌∙◌, ◌⊎◌, inl, inr, Bool, true, not,
  ◌&&◌, ◌||◌, List, [], ◌∷◌, ◌++◌, arith, ℤ, pos, negsuc, is_neg, is_zero, ℤ-cases, ◌==◌, ltb, leb,
  ltb→le, ltb→lt, length, take, drop, length-take, Bool-cases, append_assoc, append-nil,
  take-append-drop, take_all, take-take_le,
}
use libaeon.Errors.{Errnos, would_block_error, err_system}
use libaeon.Errors.Translate.{translate_native_error-neg}
use libaeon.WriteQueue.{
  Outgoing, Transport, FlushResult, requested, front_of, advance, clear, flush_loop, flush_queued,
  flush_fuel, flush_error, no_result,
}
use libaeon.WriteQueue.Contents.{
  contents, OffsetFits, IsQueue, clear-IsQueue, front-prefix, advance_lem, size_sub_le,
}

-- What the queue relies on of a transport: it has taken some bytes so far, and each send that
-- reports `count` bytes takes the first `count` of those that it is given.
pub record Carries {T : Type 0} (transport : Transport T) : Type 0 where
  pub taken : T → List ℕ
  pub taken_sent :
      (bytes : List ℕ) (t : T) (count : ℕ)
      → (transport.poll_send_queued bytes t).0 ≡ pos count
      → taken (transport.poll_send_queued bytes t).1 ≡ taken t ++ take count bytes
  pub taken_failed :
      (bytes : List ℕ) (t : T) (e : ℕ)
      → (transport.poll_send_queued bytes t).0 ≡ negsuc e
      → taken (transport.poll_send_queued bytes t).1 ≡ taken t

OffsetFits-le :
    (offset : ℕ) (chunks : List (List ℕ))
    → OffsetFits offset chunks
    → offset ≤ length (front_of chunks)
OffsetFits-le offset [] fits = omega arith
OffsetFits-le offset (front ∷ _) fits = omega arith

-- A send is never given more than the front chunk has left, nor more than the budget leaves.
pub requested_le :
    (budget done : ℕ) (out : Outgoing)
    → IsQueue out
    → done ≤ budget
    → (requested budget done out ≤ length (front_of out.chunks) - out.front_offset)
      × (requested budget done out ≤ budget - done)
requested_le budget done out q h = omega (
  arith,
  size_sub_le (length (front_of out.chunks)) out.front_offset
      (OffsetFits-le out.front_offset out.chunks q.fits),
  size_sub_le budget done h,
)

flush_error-neg :
    {T : Type 0} (codes : Errnos) (transport : Transport T) (error : ℕ) (t : T)
    → codes.ebadf ≢ 0
    → is_neg (flush_error codes transport error t) ≡ true
flush_error-neg codes transport error t set = ground (
  arith,
  (translate_native_error-neg codes codes.ebadf).1,
  (translate_native_error-neg codes error).1,
)

module _ {T : Type 0} (codes : Errnos) (transport : Transport T) (c : Carries transport)
    (ebadf_set : codes.ebadf ≢ 0) (budget : ℕ) (all : List ℕ) (total : ℕ) where
  -- Between two sends: the bytes taken and those that wait are all the bytes there were.
  abbrev Holds : Outgoing → FlushResult → T → Type 0
  Holds out result t =
      IsQueue out
      × (c.taken t ++ contents out ≡ all)
      × (out.bytes + result.bytes ≡ total)
      × (result.bytes ≤ budget)
      × (result.error ≡ pos 0)

  -- After the loop: so it still is, or the transport failed for good and what waited is discarded.
  abbrev pub FlushEnds : Outgoing → FlushResult → T → Type 0
  FlushEnds out result t =
      IsQueue out
      × (result.bytes ≤ budget)
      × (((result.error ≡ pos 0)
            × (c.taken t ++ contents out ≡ all)
            × (out.bytes + result.bytes ≡ total))
          ⊎ ((is_neg result.error ≡ true)
              × (out.bytes ≡ 0)
              × ((lost : List ℕ) × (c.taken t ++ lost ≡ all))))

  stays :
      (out : Outgoing) (result : FlushResult) (t : T) → Holds out result t → FlushEnds out result t
  stays out result t (q, same, sum, within, fine) = (q, within, inl (fine, same, sum))

  stays_failed :
      (out : Outgoing) (result : FlushResult) (t t' : T)
      → c.taken t' ≡ c.taken t
      → Holds out result t
      → Holds out result t'
  stays_failed out result t t' e (q, same, sum, within, fine) =
      (q, ap (λ l. l ++ contents out) e ∙ same, sum, within, fine)

  module _ (out : Outgoing) (result : FlushResult) (t : T) (held : Holds out result t) where
    abbrev size : ℕ
    size = requested budget result.bytes out

    abbrev offered : List ℕ
    offered = take size (drop out.front_offset (front_of out.chunks))

    offered-contents : offered ≡ take size (contents out)
    offered-contents =
        front-prefix out.front_offset out.chunks size held.0.fits
          (requested_le budget result.bytes out held.0 held.3).0

    sends :
        (count : ℕ) (t' : T)
        → 0 < count
        → count ≤ size
        → c.taken t' ≡ c.taken t ++ take count offered
        → Holds (advance count out) (record result { bytes = result.bytes + count }) t'
    sends count t' more fits e =
        let (q, rest, sum) =
          advance_lem count out held.0 more
            (omega (arith, (requested_le budget result.bytes out held.0 held.3).0)) in
        let first : take count offered ≡ take count (contents out) =
          ap (take count) offered-contents ∙ take-take_le count size (contents out) fits in
        (
          q,
          ap (λ l. l ++ contents (advance count out)) (e ∙ ap (λ l. c.taken t ++ l) first)
              ∙ ap (λ l. (c.taken t ++ take count (contents out)) ++ l) rest
              ∙ append_assoc (c.taken t) (take count (contents out)) (drop count (contents out))
              ∙ ap (λ l. c.taken t ++ l) (take-append-drop count (contents out))
              ∙ held.1,
          omega (arith, sum, held.2),
          omega (arith, (requested_le budget result.bytes out held.0 held.3).1, held.3),
          held.4,
        )

    overruns :
        (count : ℕ) (t' : T) (error : ℤ)
        → size < count
        → is_neg error ≡ true
        → c.taken t' ≡ c.taken t ++ take count offered
        → FlushEnds (clear out) (record result { error = error }) t'
    overruns count t' error beyond failed e = (
      clear-IsQueue out held.0,
      held.3,
      inr (
        failed,
        refl,
        (
          drop size (contents out),
          ap (λ l. l ++ drop size (contents out))
                (e ∙ ap (λ l. c.taken t ++ l) (take_all count offered short ∙ offered-contents))
              ∙ append_assoc (c.taken t) (take size (contents out)) (drop size (contents out))
              ∙ ap (λ l. c.taken t ++ l) (take-append-drop size (contents out))
              ∙ held.1,
        ),
      ),
    )
      where
        short : length offered ≤ count
        short = omega (arith, length-take size (drop out.front_offset (front_of out.chunks)))

    breaks :
        (t' : T) (error : ℤ)
        → is_neg error ≡ true
        → c.taken t' ≡ c.taken t
        → FlushEnds (clear out) (record result { error = error }) t'
    breaks t' error failed e = (
      clear-IsQueue out held.0,
      held.3,
      inr (failed, refl, (contents out, ap (λ l. l ++ contents out) e ∙ held.1)),
    )

  flush_loop-FlushEnds :
      (fuel interrupts : ℕ) (out : Outgoing) (result : FlushResult) (t : T)
      → Holds out result t
      → let (out', result', t') = flush_loop codes transport fuel budget interrupts out result t in
        FlushEnds out' result' t'
  unfolding flush_loop
  flush_loop-FlushEnds zero interrupts out result t held = stays out result t held
  flush_loop-FlushEnds (suc fuel) interrupts out result t held =
      elim (Bool-cases (out.bytes == 0 || leb budget result.bytes)) [
        | inl done ↦ rw (done, flush_loop) (stays out result t held)
        | inr more ↦ elim (ℤ-cases sent) [
          | inl (zero, e) ↦
              rw (more, e, flush_loop)
                (stays out result t'
                  (stays_failed out result t t' (c.taken_sent given t 0 e ∙ append-nil _) held))
          | inl (suc k, e) ↦ elim (Bool-cases (ltb (size out result t held) (suc k))) [
            | inl beyond ↦
                rw (more, e, beyond, flush_loop)
                  (overruns out result t held (suc k) t' err_system (ltb→lt _ (suc k) beyond) refl
                    (c.taken_sent given t (suc k) e))
            | inr within ↦
                rw (more, e, within, flush_loop)
                  (flush_loop-FlushEnds fuel 0 (advance (suc k) out)
                    (record result { bytes = result.bytes + suc k }) t'
                    (sends out result t held (suc k) t' (omega arith) (ltb→le _ (suc k) within)
                      (c.taken_sent given t (suc k) e)))
          ]
          | inr (k, e) ↦ elim (Bool-cases (transport.errno t' == codes.eintr && ltb interrupts 4)) [
            | inl again ↦
                rw (more, e, again, flush_loop)
                  (flush_loop-FlushEnds fuel (interrupts + 1) out result t'
                    (stays_failed out result t t' (c.taken_failed given t k e) held))
            | inr enough ↦
                elim (Bool-cases (
                  transport.errno t' == codes.eintr
                  || would_block_error codes (transport.errno t'))) [
                    | inl later ↦
                        rw (more, e, enough, later, flush_loop)
                          (stays out result t'
                            (stays_failed out result t t' (c.taken_failed given t k e) held))
                    | inr fatal ↦
                        rw (more, e, enough, fatal, flush_loop)
                          (breaks out result t held t'
                            (flush_error codes transport (transport.errno t') t')
                            (flush_error-neg codes transport (transport.errno t') t' ebadf_set)
                            (c.taken_failed given t k e))
                  ]
          ]
        ]
      ]
    where
      given : List ℕ
      given = offered out result t held

      sent : ℤ
      sent = (transport.poll_send_queued (offered out result t held) t).0

      t' : T
      t' = (transport.poll_send_queued (offered out result t held) t).1

drained_iff :
    (before after : ℕ) (error : ℤ)
    → ((not (before == 0) && after == 0 && is_zero error) ≡ true)
      ↔ ((before ≢ 0) × (after ≡ 0) × (error ≡ pos 0))
drained_iff before after (pos zero) = (ground arith, ground arith)
drained_iff before after (pos (suc k)) = (ground arith, ground arith)
drained_iff before after (negsuc k) = (ground arith, ground arith)

-- `flush_queued` under any budget sends the waiting bytes in order. Unless it reports an error, what
-- the transport has taken followed by what still waits is what it was before, and the reported
-- number of bytes, never above the budget, has left the queue. With an error, which is negative, the
-- queue is empty, and the transport has taken no other bytes than a first part of those that waited.
-- It reports a drain exactly if bytes waited before, none wait now and there was no error.
pub flush_queued-FlushEnds :
    {T : Type 0} (codes : Errnos) (transport : Transport T) (c : Carries transport)
    (ebadf_set : codes.ebadf ≢ 0) (ready : Bool) (budget : ℕ) (out : Outgoing) (t : T)
    → IsQueue out
    → let (out', result, t') = flush_queued codes transport ready budget out t in
      FlushEnds codes transport c ebadf_set budget
        (c.taken t ++ contents out)
        out.bytes
        out'
        result
        t'
      × ((result.drained ≡ true) ↔ ((out.bytes ≢ 0) × (out'.bytes ≡ 0) × (result.error ≡ pos 0)))
unfolding flush_queued
flush_queued-FlushEnds codes transport c ebadf_set ready budget out t q =
    elim (Bool-cases (not ready || budget == 0)) [
      | inl idle ↦
          rw (idle, flush_queued)
            ((q, omega arith, inl (refl, refl, omega arith)), ((λ e. cc), (λ h. absurd (h.0 h.1))))
      | inr busy ↦
          rw (busy, flush_queued)
            (
              flush_loop-FlushEnds codes transport c ebadf_set budget (c.taken t ++ contents out)
                  out.bytes (flush_fuel codes transport out) 0 out no_result t
                  (q, refl, omega arith, omega arith, refl),
              drained_iff out.bytes _ _,
            )
    ]
