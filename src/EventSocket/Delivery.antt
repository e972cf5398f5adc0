-- ===== src/EventSocket/Delivery.antt =====
-- The queue of a TCP event socket delivers through `send` (src/event_socket.cpp).
use libaeon.Prelude.{
  ℕ, ◌≡◌, ◌≢◌, ◌+◌, ◌≤◌, ◌++◌, ap, ◌∙◌, ◌∷◌, List, pos, negsuc, to_ℕ, take, append-nil, true,
  is_neg, ◌⊎◌, inl, inr, not, ◌&&◌,
}
use libaeon.Platform.{Platform, World, Syscall}
use libaeon.Socket.{Socket, is_valid_socket}
use libaeon.Socket.Transfer.Write.{sent}
use libaeon.WriteQueue.Contents.{contents, IsQueue}
use libaeon.WriteQueue.Flush.{Carries, flush_queued-FlushEnds}
use libaeon.EventSocket.{EventSocket, tcp_transport, flush}

module _ (os : Platform) (s : Socket) where
  pub taken_sent_lem :
      (bytes : List ℕ) (w : World) (count : ℕ)
      → (os.reply (Syscall.send s.sockfd bytes ∷ w.calls)).value ≡ pos count
      → sent os (Syscall.send s.sockfd bytes ∷ w.calls) ≡ sent os w.calls ++ take count bytes
  taken_sent_lem bytes w count e = ap (λ v. sent os w.calls ++ take (to_ℕ v) bytes) e

  pub taken_failed_lem :
      (bytes : List ℕ) (w : World) (k : ℕ)
      → (os.reply (Syscall.send s.sockfd bytes ∷ w.calls)).value ≡ negsuc k
      → sent os (Syscall.send s.sockfd bytes ∷ w.calls) ≡ sent os w.calls
  taken_failed_lem bytes w k e = ap (λ v. sent os w.calls ++ take (to_ℕ v) bytes) e ∙ append-nil _

  abbrev pub tcp-Carries : Carries (tcp_transport os s)
  tcp-Carries = record {
    taken = λ w. sent os w.calls;
    taken_sent = taken_sent_lem;
    taken_failed = taken_failed_lem;
  }

-- A flush of a TCP event socket without an error: the bytes that `send` took so far, followed by
-- those that wait, stay the same sequence; the reported number of bytes, within the budget, has left
-- the queue. With an error, nothing waits any more.
pub flush-delivers :
    (os : Platform) (ebadf_set : os.errnos.ebadf ≢ 0) (budget : ℕ) (e : EventSocket) (w : World)
    → IsQueue e.out
    → let (result, e', w') = flush os budget e w in
      IsQueue e'.out
      × (result.bytes ≤ budget)
      × (((result.error ≡ pos 0)
            × (sent os w'.calls ++ contents e'.out ≡ sent os w.calls ++ contents e.out)
            × (e'.out.bytes + result.bytes ≡ e.out.bytes))
          ⊎ ((is_neg result.error ≡ true) × (e'.out.bytes ≡ 0)))
unfolding flush
flush-delivers os ebadf_set budget e w q =
    let (ends, _) =
      flush_queued-FlushEnds os.errnos (tcp_transport os e.base) (tcp-Carries os e.base) ebadf_set
        (is_valid_socket e.base && not e.base.blocking) budget e.out w q in
    (
      ends.0,
      ends.1,
      elim ends.2 [ inl fine ↦ inl fine | inr (failed, none_left, _) ↦ inr (failed, none_left) ],
    )
