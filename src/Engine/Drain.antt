-- ===== src/Engine/Drain.antt =====
-- The end of the engine's thread, after a stop is requested.
use hermes_orderbook.Prelude.{
  ◌≡◌, ◌≢◌, refl, sym, ap, ◌∙◌, true, List, [], ◌∷◌, ◌++◌, append-nil, map, Option, some, ◌>>=◌,
  >>=-eq-some, if◌then◌else◌, arith, Bool-cases, ◌⊎◌, inl, inr,
}
use mathlib.Core.Option.{some-injective}
use hermes_orderbook.Core.Types.{TimeNs}
use hermes_orderbook.Core.Messages.{Command}
use hermes_orderbook.Book.State.{Book, empty_book}
use hermes_orderbook.Book.Apply.{apply}
use hermes_orderbook.Engine.{
  Engine, Phase, testing, polling, draining, finished, poll, run_step, count_order, Reach,
}
use hermes_orderbook.Engine.Steps.{
  run_commands, command_of, processed, poll-empty, poll-next, run_step-testing, run_step-polling,
  run_step-draining,
}
use hermes_orderbook.Engine.Sequential.{Reach-sequential}

-- Steps of the engine's thread at the times given.
unfoldable pub run_steps : List TimeNs → Engine → Option Engine
run_steps [] e = some e
run_steps (now ∷ times) e = run_step now e >>= λ e'. run_steps times e'

abbrev pub time_of : TimeNs × Command → TimeNs
time_of p = p.0

-- The engine when its thread has ended with the book `b`.
abbrev pub ended : Book → Engine → Engine
ended b e = record e { book = b; commands = record (e.commands) { items = [] }; phase = finished }

drains :
    (cs : List (TimeNs × Command)) (now : TimeNs) (e : Engine) (b : Book)
    → e.phase ≡ draining
    → e.commands.items ≡ map command_of cs
    → run_commands cs e.book ≡ some b
    → run_steps (map time_of cs ++ (now ∷ [])) e ≡ some (ended b e)
unfolding run_steps run_commands
drains [] now e b h k r =
    rw (run_step-draining now e h, poll-empty now finished e k)
      (ap (λ x. some (ended x e)) (some-injective _ _ r))
drains ((t, c) ∷ cs) now e b h k r =
    let s = >>=-eq-some (apply t c e.book) (λ b1. run_commands cs b1) r in
    let step : run_step t e ≡ some (processed e (map command_of cs) s.value) =
      run_step-draining t e h
      ∙ poll-next t finished e c (map command_of cs) k
      ∙ ap (λ x. x >>= λ b1. some (processed e (map command_of cs) b1)) s.computed in
    rw step (
      drains cs now (processed e (map command_of cs) s.value) b h refl s.rest
      ∙ ap
          (λ phase.
            some (record (ended b e) { orders_processed = count_order phase e.orders_processed }))
          h)

-- Once a stop is requested and the thread is at its test, and no client calls, the thread ends after
-- one step for each command in the queue and two more, and has applied these commands in their order,
-- if that has a defined result.
pub run_steps-ends :
    (cs : List (TimeNs × Command)) (first last : TimeNs) (e : Engine) (b : Book)
    → e.phase ≡ testing
    → e.stop_requested ≡ true
    → e.commands.items ≡ map command_of cs
    → run_commands cs e.book ≡ some b
    → run_steps (first ∷ (map time_of cs ++ (last ∷ []))) e ≡ some (ended b e)
unfolding run_steps
run_steps-ends cs first last e b h s k r =
    let step : run_step first e ≡ some (record e { phase = draining }) =
      run_step-testing first e h
      ∙ ap (λ stop. some (record e { phase = if stop then draining else polling })) s in
    rw step (drains cs last (record e { phase = draining }) b refl k r)

module _ (now : TimeNs) (after : Phase) (e e' : Engine) (r : poll now after e ≡ some e') where
  poll-phase :
      (cs : List Command) → e.commands.items ≡ cs → (e.commands.items ≡ []) ⊎ (e'.phase ≡ e.phase)
  poll-phase [] k = inl k
  poll-phase (c ∷ cs) k =
      let s =
        >>=-eq-some (apply now c e.book) (λ b. some (processed e cs b))
          (sym (poll-next now after e c cs k) ∙ r) in
      inr (ap (λ x. x.phase) (sym (some-injective _ _ s.rest)))

finishes_in :
    (phase : Phase) (now : TimeNs) (e e' : Engine)
    → e.phase ≡ phase
    → e.phase ≢ finished
    → run_step now e ≡ some e'
    → e'.phase ≡ finished
    → e.commands.items ≡ []
finishes_in testing now e e' h ne r f =
    let same = ap (λ x. x.phase) (some-injective _ _ (sym (run_step-testing now e h) ∙ r)) in
    elim (Bool-cases e.stop_requested) [
      | inl stop ↦ absurd (ground (arith, same))
      | inr go ↦ absurd (ground (arith, same))
    ]
finishes_in polling now e e' h ne r f =
    elim (poll-phase now testing e e' (sym (run_step-polling now e h) ∙ r) e.commands.items refl) [
      | inl k ↦ k
      | inr same ↦ absurd (cc)
    ]
finishes_in draining now e e' h ne r f =
    elim (poll-phase now finished e e' (sym (run_step-draining now e h) ∙ r) e.commands.items
      refl) [ inl k ↦ k | inr same ↦ absurd (cc) ]
finishes_in finished now e e' h ne r f = absurd (ne h)

-- When the engine's thread ends, it has applied every command that was sent until then.
pub Reach-ends :
    {e e' : Engine} {sent : List Command} {done : List (TimeNs × Command)} (now : TimeNs)
    → Reach e sent done
    → e.phase ≢ finished
    → run_step now e ≡ some e'
    → e'.phase ≡ finished
    → (sent ≡ map command_of done) × (run_commands done empty_book ≡ some e.book)
Reach-ends {e = e} {e' = e'} {done = done} now r ne h f =
    let s = Reach-sequential r in
    let none_left = finishes_in e.phase now e e' refl ne h f in
    (s.0 ∙ ap (λ xs. map command_of done ++ xs) none_left ∙ append-nil (map command_of done), s.1)
