-- ===== src/Queue/Tests.antt =====
-- The theorems on queues, on concrete ones.
use mbroker_tfs.Base.{ℕ, ◌≡◌, refl, true, Option, none, some, arith, ◌==◌, if◌then◌else◌}
use mbroker_tfs.Queue.{Queue, pcq_create, pcq_enqueue, pcq_dequeue, count_pop, store}
use mbroker_tfs.Queue.Fifo.{
  IsQueue, EnqueueResult, enqueue-EnqueueResult, DequeueResult, dequeue-DequeueResult,
}
use mbroker_tfs.Queue.Calls.{Calls, push_stores, Fifo}
use mbroker_tfs.Queue.Race.{silent, stop, IsInBounds, Run-IsInBounds}

-- A ring of three that has gone round: it holds 5 at index 2 and 6 at index 0.
abbrev round : Queue ℕ
round = record {
  pcq_buffer = λ i. if i == 0 then 6 else if i == 2 then 5 else 9;
  pcq_capacity = 3;
  pcq_current_size = 2;
  pcq_head = 2;
  pcq_tail = 1;
}

round-IsQueue : IsQueue round
round-IsQueue = record { head = ground arith; fits = ground arith; tail = refl }

three : Option ℕ
unfolding pcq_dequeue count_pop
three = elim (pcq_dequeue round) [ none ↦ none | some (x, q) ↦ some x ]

round_first : three ≡ some 5
unfolding three
round_first = refl

enqueue-EnqueueResult_example : EnqueueResult 7 round (pcq_enqueue 7 round)
enqueue-EnqueueResult_example = enqueue-EnqueueResult 7 round round-IsQueue

dequeue-DequeueResult_example : DequeueResult round (pcq_dequeue round)
dequeue-DequeueResult_example = dequeue-DequeueResult round round-IsQueue

-- Both calls between their steps: 7 is counted and not stored, 5 counted and not fetched.
abbrev busy : Calls ℕ
busy = record { queue = round; pusher = some 7; popper = true }

abbrev stored : Calls ℕ
stored = record { queue = store 7 round; pusher = none; popper = true }

Run-IsInBounds_example :
    IsInBounds stored.queue × (stored.queue.pcq_capacity ≡ busy.queue.pcq_capacity)
Run-IsInBounds_example =
    Run-IsInBounds (silent (push_stores 7 round true) stop)
      (ground arith, ground arith, ground arith)

abbrev empty : Queue ℕ
empty = pcq_create (λ i. 0) 4
