-- ===== src/Engine/Tests.antt =====
-- An engine that is sent one order and stopped: the theorems at its states.
use hermes_orderbook.Prelude.{
  ◌≡◌, ◌≢◌, refl, ap, ◌∙◌, arith, List, [], ◌∷◌, ◌++◌, map, some, ◌>>=◌, pos,
}
use hermes_orderbook.Core.Types.{TimeNs, sell}
use hermes_orderbook.Core.Messages.{Command, add}
use hermes_orderbook.Book.State.{empty_book}
use hermes_orderbook.Book.Samples.{plain, one_ask, one_ask-run}
use hermes_orderbook.Book.View.{IsValid}
use hermes_orderbook.Book.View.Uncrossed.{IsUncrossed}
use hermes_orderbook.Queue.ThreadSafe.{push}
use hermes_orderbook.Engine.{
  Engine, new_engine, send, request_stop, testing, draining, finished, run_step, Reach, start,
  sends, stops, runs,
}
use hermes_orderbook.Engine.Steps.{
  command_of, processed, run_commands, run_step-testing, run_step-draining, poll-next, poll-empty,
}
use hermes_orderbook.Engine.Sequential.{Reach-sequential, Reach-IsUncrossed_book}
use hermes_orderbook.Engine.Drain.{run_steps, ended, run_steps-ends, Reach-ends}

abbrev ask : Command
ask = add (plain 1 100 10 sell)

abbrev stopped : Engine
stopped = request_stop (send ask new_engine)

stopped-Reach : Reach stopped (ask ∷ []) []
stopped-Reach = stops (sends ask start)

abbrev last_loop : Engine
last_loop = record stopped { phase = draining }

last_loop-step : run_step (pos 0) stopped ≡ some last_loop
unfolding send push
last_loop-step = run_step-testing (pos 0) stopped refl

last_loop-Reach : Reach last_loop (ask ∷ []) []
unfolding send push
last_loop-Reach = runs (pos 0) stopped-Reach last_loop-step

abbrev drained : Engine
drained = processed last_loop [] one_ask

drained-step : run_step (pos 0) last_loop ≡ some drained
unfolding send push
drained-step =
    run_step-draining (pos 0) last_loop refl
    ∙ poll-next (pos 0) finished last_loop ask [] refl
    ∙ ap (λ x. x >>= λ b. some (processed last_loop [] b)) one_ask-run

abbrev done : List (TimeNs × Command)
done = (pos 0, ask) ∷ []

drained-Reach : Reach drained (ask ∷ []) done
unfolding send push
drained-Reach = runs (pos 0) last_loop-Reach drained-step

Reach-sequential_example :
    (ask ∷ [] ≡ map command_of done ++ drained.commands.items)
    × (run_commands done empty_book ≡ some drained.book)
Reach-sequential_example = Reach-sequential drained-Reach

Reach-IsUncrossed_book_example : IsValid drained.book × IsUncrossed drained.book
Reach-IsUncrossed_book_example = Reach-IsUncrossed_book drained-Reach (omega arith)

one_command : run_commands done empty_book ≡ some one_ask
unfolding run_commands
one_command = ap (λ x. x >>= λ b. some b) one_ask-run

stopped-commands : run_commands done stopped.book ≡ some one_ask
unfolding send
stopped-commands = one_command

stopped-items : stopped.commands.items ≡ ask ∷ []
unfolding send push
stopped-items = refl

stopped-testing : stopped.phase ≡ testing
unfolding send push
stopped-testing = refl

run_steps-ends_example :
    run_steps (pos 0 ∷ pos 0 ∷ pos 1 ∷ []) stopped ≡ some (ended one_ask stopped)
run_steps-ends_example =
    run_steps-ends done (pos 0) (pos 1) stopped one_ask stopped-testing refl stopped-items
      stopped-commands

abbrev over : Engine
over = record drained { phase = finished; commands = record (drained.commands) { items = [] } }

over-step : run_step (pos 1) drained ≡ some over
unfolding send push
over-step = run_step-draining (pos 1) drained refl ∙ poll-empty (pos 1) finished drained refl

drained-runs : drained.phase ≢ finished
unfolding send push
drained-runs e = grind arith

Reach-ends_example :
    (ask ∷ [] ≡ map command_of done) × (run_commands done empty_book ≡ some one_ask)
Reach-ends_example = Reach-ends (pos 1) drained-Reach drained-runs over-step refl
