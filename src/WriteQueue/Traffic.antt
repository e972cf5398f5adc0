-- ===== src/WriteQueue/Traffic.antt =====
-- The queue (src/event_socket.cpp) over its lifetime: producers and the poller take turns in any
-- order, each call under the queue's lock.
use libaeon.Prelude.{
  ℕ, ◌≡◌, ◌≢◌, ◌<◌, refl, sym, ap, ◌∙◌, inl, inr, Bool, true, false, List, ◌++◌, pos, is_neg, some,
  length, append_assoc, if◌then◌else◌,
}
use libaeon.Errors.{Errnos}
use libaeon.WriteQueue.{
  Outgoing, Transport, queue_write, set_max_queued_bytes, flush_queued, size_modulus,
}
use libaeon.WriteQueue.Contents.{contents, IsQueue}
use libaeon.WriteQueue.Accept.{Queues, queue_write-Queues, set_max_queued_bytes-IsQueue}
use libaeon.WriteQueue.Flush.{Carries, flush_queued-FlushEnds}

-- A queue, its transport, and all bytes that `queue_write` has accepted since the start.
pub record Line (T : Type 0) : Type 0 where
  pub out : Outgoing
  pub transport_state : T
  pub accepted : List ℕ

settle :
    (taken accepted bytes : List ℕ) (out : Outgoing) (call : Bool × Outgoing)
    → Queues bytes out call
    → taken ++ contents out ≡ accepted
    → taken ++ contents call.1 ≡ (if call.0 then accepted ++ bytes else accepted)
settle taken accepted bytes out (true, out') queues same =
    ap (λ b. taken ++ b) queues.0
    ∙ sym (append_assoc taken (contents out) bytes)
    ∙ ap (λ b. b ++ bytes) same
settle taken accepted bytes out (false, out') queues same =
    ap (λ o. taken ++ contents o) queues ∙ same

module _ {T : Type 0} (codes : Errnos) (transport : Transport T) where
  -- `queue_write` by a producer
  abbrev pub produce : Bool → List ℕ → Line T → Line T
  produce ready bytes l = record {
    out = (queue_write ready (some bytes) (length bytes) l.out).1;
    transport_state = l.transport_state;
    accepted =
        if (queue_write ready (some bytes) (length bytes) l.out).0
        then l.accepted ++ bytes
        else l.accepted;
  }

  abbrev pub limit_to : ℕ → Line T → Line T
  limit_to limit l = record l { out = (set_max_queued_bytes limit l.out).1 }

  -- `flush_queued` by the poller
  abbrev pub flush : Bool → ℕ → Line T → Line T
  flush ready budget l = record l {
    out = (flush_queued codes transport ready budget l.out l.transport_state).0;
    transport_state = (flush_queued codes transport ready budget l.out l.transport_state).2;
  }

  pub data Step (l : Line T) : Line T → Type 0 where
    produces : (ready : Bool) (bytes : List ℕ) → Step l (produce ready bytes l)
    limits : (limit : ℕ) → limit < size_modulus → Step l (limit_to limit l)
    flushes :
        (ready : Bool) (budget : ℕ)
        → (flush_queued codes transport ready budget l.out l.transport_state).1.error ≡ pos 0
        → Step l (flush ready budget l)

  pub data Reach (l : Line T) : Line T → Type 0 where
    here : Reach l l
    next : {m o : Line T} → Reach l m → Step m o → Reach l o

  module _ (c : Carries transport) (ebadf_set : codes.ebadf ≢ 0) where
    -- What the transport took, then what waits, is all that was accepted.
    abbrev pub InOrder : Line T → Type 0
    InOrder l = IsQueue l.out × (c.taken l.transport_state ++ contents l.out ≡ l.accepted)

    produce-InOrder :
        (ready : Bool) (bytes : List ℕ) (l : Line T) → InOrder l → InOrder (produce ready bytes l)
    produce-InOrder ready bytes l (q, same) =
        let (q', queues, _) = queue_write-Queues ready bytes l.out q in
        (q', settle (c.taken l.transport_state) l.accepted bytes l.out _ queues same)

    limit-InOrder :
        (limit : ℕ) (l : Line T) → limit < size_modulus → InOrder l → InOrder (limit_to limit l)
    limit-InOrder limit l small (q, same) =
        let (q', unchanged, _) = set_max_queued_bytes-IsQueue limit l.out small q in
        (q', ap (λ b. c.taken l.transport_state ++ b) unchanged ∙ same)

    flush-InOrder :
        (ready : Bool) (budget : ℕ) (l : Line T)
        → (flush_queued codes transport ready budget l.out l.transport_state).1.error ≡ pos 0
        → InOrder l
        → InOrder (flush ready budget l)
    flush-InOrder ready budget l fine (q, same) =
        let (ends, _) =
          flush_queued-FlushEnds codes transport c ebadf_set ready budget l.out l.transport_state
            q in
        elim ends.2 [
          | inl kept ↦ (ends.0, kept.1 ∙ same)
          | inr lost ↦ cc (ap is_neg fine ∙ refl, lost.0)
        ]

    -- Whatever order calls of `queue_write`, changes of the limit and flushes without an error come
    -- in, the transport has taken the accepted bytes in the order of their acceptance, none twice
    -- and none left out, up to those that still wait.
    pub Reach-InOrder : {l m : Line T} → Reach l m → InOrder l → InOrder m
    Reach-InOrder here o = o
    Reach-InOrder (next r (produces ready bytes)) o =
        produce-InOrder ready bytes _ (Reach-InOrder r o)
    Reach-InOrder (next r (limits limit small)) o = limit-InOrder limit _ small (Reach-InOrder r o)
    Reach-InOrder (next r (flushes ready budget fine)) o =
        flush-InOrder ready budget _ fine (Reach-InOrder r o)
