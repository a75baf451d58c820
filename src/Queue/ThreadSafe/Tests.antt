-- ===== src/Queue/ThreadSafe/Tests.antt =====
-- A thread that waits on an empty queue, and a value that is pushed: the theorems there.
use hermes_orderbook.Prelude.{ℕ, ◌+◌, ◌≡◌, ◌<◌, arith, [], ◌∷◌, ◌++◌, inl}
use hermes_orderbook.Queue.ThreadSafe.{
  ThreadSafeQueue, new_queue, push, wait_and_pop, try_pop, Reach, start, pushes, waits, tries,
}
use hermes_orderbook.Queue.ThreadSafe.Fifo.{Reach-fifo_exact}
use hermes_orderbook.Queue.ThreadSafe.Wakeups.{Reach-awake}

abbrev sleeping : ThreadSafeQueue ℕ
sleeping = record (new_queue) { sleepers = 1 }

sleeping-Reach : Reach sleeping [] []
unfolding wait_and_pop
sleeping-Reach = waits start

abbrev pushed : ThreadSafeQueue ℕ
pushed = record (new_queue) { items = 7 ∷ []; sleepers = 1; notices = 1 }

pushed-Reach : Reach pushed (7 ∷ []) []
unfolding push
pushed-Reach = pushes 7 sleeping-Reach

Reach-awake_example : 0 < 1 + 0 + 0
Reach-awake_example = Reach-awake pushed-Reach (omega arith) (inl (omega arith))

abbrev popped : ThreadSafeQueue ℕ
popped = record pushed { items = [] }

popped-Reach : Reach popped (7 ∷ []) (7 ∷ [])
unfolding try_pop
popped-Reach = tries pushed-Reach

Reach-fifo_exact_example : 7 ∷ [] ≡ (7 ∷ []) ++ popped.items
Reach-fifo_exact_example = Reach-fifo_exact popped-Reach
