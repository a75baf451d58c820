-- ===== src/Audit/Tests.antt =====
-- An audit that is given a command and an event and closed: the theorems at its states.
use hermes_orderbook.Prelude.{ℕ, ◌≡◌, ◌≤◌, refl, arith, true, false, [], ◌∷◌, ◌++◌, length}
use hermes_orderbook.Core.Messages.{cancel, order_accepted}
use hermes_orderbook.Core.FileStream.{write_buffer_to_file}
use hermes_orderbook.Core.FileStream.Tests.{memory, blank}
use hermes_orderbook.Queue.ThreadSafe.{wait_and_pop, try_pop, push}
use hermes_orderbook.Audit.{
  Audit, AuditData, command_data, event_data, Representation, new_audit, enqueue, close_queue,
  finished, run_step, flush_all, finish, route, flush_if_due, after_wait, resume, step_in, Reach,
  start, enqueues, closes, runs,
}
use hermes_orderbook.Audit.Files.{commands, Reach-written, Reach-none_lost}
use hermes_orderbook.Audit.Closing.{left, run_steps, run_steps-finished}

abbrev tags : Representation
tags = record {
  command_bytes = λ c. 1 ∷ [];
  event_bytes = λ e. 2 ∷ 3 ∷ [];
  trade_bytes = λ t. 4 ∷ [];
}

abbrev request : AuditData
request = command_data (cancel (record { client_id = 1; order_id = 5 }))

abbrev reply : AuditData
reply = event_data (order_accepted 1 5)

-- Both are accepted, and the queue is closed.
abbrev given : Audit memory
given =
    close_queue memory
      (enqueue memory reply (enqueue memory request (new_audit memory 0 blank blank blank blank)))

given-Reach : Reach memory tags 1000 given (request ∷ reply ∷ []) []
unfolding push
given-Reach =
    closes (enqueues reply (enqueues request (start 0 blank blank blank blank refl refl refl refl)))

given-closed : given.queue.is_closed ≡ true
unfolding push
given-closed = refl

given-few : left given.phase (length given.queue.items) ≤ 6
unfolding push
given-few = omega arith

run_steps-finished_example :
    (run_steps memory tags 1000 (1 ∷ 2 ∷ 3 ∷ 4 ∷ 5 ∷ 6 ∷ []) given).phase ≡ finished
run_steps-finished_example =
    run_steps-finished memory tags 1000 (1 ∷ 2 ∷ 3 ∷ 4 ∷ 5 ∷ 6 ∷ []) given given-closed
      (λ e. grind arith) given-few

abbrev step_at : ℕ → Audit memory → Audit memory
step_at now a = run_step memory tags 1000 now a

-- The thread has taken the command and the event, and ended at the third answer of the queue.
abbrev over : Audit memory
over = step_at 6 (step_at 5 (step_at 4 (step_at 3 (step_at 2 (step_at 1 given)))))

over-Reach : Reach memory tags 1000 over (request ∷ reply ∷ []) (request ∷ reply ∷ [])
unfolding push wait_and_pop try_pop step_in resume after_wait finish flush_all flush_if_due route
    write_buffer_to_file
over-Reach = runs 6 (runs 5 (runs 4 (runs 3 (runs 2 (runs 1 given-Reach)))))

over-finished : over.phase ≡ finished
unfolding push wait_and_pop try_pop step_in resume after_wait finish flush_all flush_if_due route
    write_buffer_to_file
over-finished = refl

over-good : over.commands_log.stream.good ≡ true
unfolding push wait_and_pop try_pop step_in resume after_wait finish flush_all flush_if_due route
    write_buffer_to_file
over-good = refl

over-unstopped : over.stop_requested ≡ false
unfolding push wait_and_pop try_pop step_in resume after_wait finish flush_all flush_if_due route
    write_buffer_to_file
over-unstopped = refl

Reach-written_example :
    (memory.written over.commands_log.stream ≡ 1 ∷ [])
    × (memory.stored over.commands_log.stream ≡ 1 ∷ [])
    × (request ∷ reply ∷ [] ≡ (request ∷ reply ∷ []) ++ over.queue.items)
Reach-written_example = Reach-written memory tags 1000 commands over-Reach over-finished over-good

Reach-none_lost_example :
    (memory.written over.commands_log.stream ≡ 1 ∷ [])
    × (memory.stored over.commands_log.stream ≡ 1 ∷ [])
Reach-none_lost_example =
    Reach-none_lost memory tags 1000 commands over-Reach over-finished over-unstopped over-good
