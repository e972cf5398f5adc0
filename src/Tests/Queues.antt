-- ===== src/Tests/Queues.antt =====
-- The theorems about the write queue at a queue of two chunks, the first of them begun.
use libaeon.Prelude.{
  ℕ, ◌≡◌, ◌≢◌, ◌↔◌, ◌-◌, ◌&&◌, refl, true, some, List, [], ◌∷◌, pos, arith, leb, ◌+◌,
}
use libaeon.WriteQueue.{
  Outgoing, initial, queue_write, flush_queued, flush_loop, flush_fuel, no_result,
}
use libaeon.WriteQueue.Contents.{IsQueue, initial-IsQueue}
use libaeon.WriteQueue.Accept.{Queues, queue_write-Queues}
use libaeon.WriteQueue.Flush.{FlushEnds, flush_queued-FlushEnds}
use libaeon.WriteQueue.Fuel.{flush_loop-terminates}
use libaeon.WriteQueue.Traffic.{
  Line, Reach, InOrder, produce, flush, produces, flushes, here, next, Reach-InOrder,
}
use libaeon.Tests.Systems.{linux_errnos, slow, slow-Carries}

abbrev begun : Outgoing
begun = record {
  chunks = (1 ∷ 2 ∷ 3 ∷ []) ∷ (4 ∷ 5 ∷ []) ∷ [];
  front_offset = 1;
  bytes = 4;
  limit = 6;
}

begun-IsQueue : IsQueue begun
begun-IsQueue = omega arith

queue_write-Queues_example :
    IsQueue (queue_write true (some (9 ∷ [])) 1 begun).1
    × Queues (9 ∷ []) begun (queue_write true (some (9 ∷ [])) 1 begun)
    × ((queue_write true (some (9 ∷ [])) 1 begun).0 ≡ (true && leb 1 (6 - 4)))
queue_write-Queues_example = queue_write-Queues true (9 ∷ []) begun begun-IsQueue

flush_queued-FlushEnds_example :
    let (out', result, t') = flush_queued linux_errnos slow true 3 begun [] in
    FlushEnds linux_errnos slow slow-Carries (omega arith) 3 (2 ∷ 3 ∷ 4 ∷ 5 ∷ []) 4 out' result t'
    × ((result.drained ≡ true) ↔ ((begun.bytes ≢ 0) × (out'.bytes ≡ 0) × (result.error ≡ pos 0)))
flush_queued-FlushEnds_example =
    flush_queued-FlushEnds linux_errnos slow slow-Carries (omega arith) true 3 begun []
      begun-IsQueue

-- Two bytes go with the first send and one more with the second: the budget is used up.
flush_queued_test : (flush_queued linux_errnos slow true 3 begun []).2 ≡ 2 ∷ 3 ∷ 4 ∷ []
unfolding flush_queued flush_loop
flush_queued_test = refl

flush_loop-terminates_example :
    flush_loop linux_errnos slow (flush_fuel linux_errnos slow begun + 7) 10 0 begun no_result []
    ≡ flush_loop linux_errnos slow (flush_fuel linux_errnos slow begun) 10 0 begun no_result []
flush_loop-terminates_example =
    flush_loop-terminates linux_errnos slow 10 7 begun no_result [] begun-IsQueue (omega arith)

abbrev start : Line (List ℕ)
start = record { out = initial; transport_state = []; accepted = [] }

start-InOrder : InOrder linux_errnos slow slow-Carries (omega arith) start
start-InOrder = (initial-IsQueue, refl)

abbrev later : Line (List ℕ)
later = flush linux_errnos slow true 64 (produce linux_errnos slow true (7 ∷ 8 ∷ 9 ∷ []) start)

history : Reach linux_errnos slow start later
unfolding flush_queued flush_loop queue_write
history = next (next here (produces true (7 ∷ 8 ∷ 9 ∷ []))) (flushes true 64 refl)

Reach-InOrder_example : InOrder linux_errnos slow slow-Carries (omega arith) later
Reach-InOrder_example =
    Reach-InOrder linux_errnos slow slow-Carries (omega arith) history start-InOrder
