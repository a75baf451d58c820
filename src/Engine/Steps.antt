-- ===== src/Engine/Steps.antt =====
-- A step of the engine's thread, by its phase, and the commands that it applies.
use hermes_orderbook.Prelude.{
  ◌≡◌, refl, sym, ap, subst, ◌∙◌, true, false, if◌then◌else◌, List, [], ◌∷◌, ◌++◌, map, Option,
  some, ◌>>=◌, >>=-eq-some, Option-cases, inl, inr,
}
use mathlib.Core.Option.{some-injective}
use hermes_orderbook.Core.Types.{TimeNs}
use hermes_orderbook.Core.Messages.{Command}
use hermes_orderbook.Book.State.{Book}
use hermes_orderbook.Book.Apply.{apply}
use hermes_orderbook.Queue.ThreadSafe.{try_pop}
use hermes_orderbook.Engine.{
  Engine, Phase, testing, polling, draining, finished, process, poll, run_in, run_step, runs_loop,
  count_order, handled,
}

-- One command after another.
unfoldable pub run_commands : List (TimeNs × Command) → Book → Option Book
run_commands [] b = some b
run_commands ((now, c) ∷ cs) b = apply now c b >>= λ b'. run_commands cs b'

pub run_commands-append :
    (xs ys : List (TimeNs × Command)) (b : Book)
    → run_commands (xs ++ ys) b ≡ (run_commands xs b >>= λ b'. run_commands ys b')
unfolding run_commands
run_commands-append [] ys b = refl
run_commands-append ((now, c) ∷ xs) ys b = elim (Option-cases (apply now c b)) [
  | inl e ↦ rw e refl
  | inr (b', e) ↦ rw e (run_commands-append xs ys b')
]

abbrev pub command_of : TimeNs × Command → Command
command_of p = p.1

-- A step of the engine's thread applies the commands that it handles, and takes them off the queue.
pub record Handles (now : TimeNs) (e e' : Engine) : Type 0 where
  pub book : run_commands (handled now e) e.book ≡ some e'.book
  pub items : e.commands.items ≡ map command_of (handled now e) ++ e'.commands.items
  pub open_still : e'.commands.is_closed ≡ e.commands.is_closed
  pub first : e'.first ≡ e.first
  pub second : e'.second ≡ e.second
  pub first_is_active : e'.first_is_active ≡ e.first_is_active

-- The engine with the command `c` processed, and `cs` left.
abbrev pub processed : Engine → List Command → Book → Engine
processed e cs b = record e {
  book = b;
  commands = record (e.commands) { items = cs };
  orders_processed = count_order e.phase e.orders_processed;
}

module _ (now : TimeNs) (after : Phase) (e : Engine) where
  pub poll-empty :
      e.commands.items ≡ []
      → poll now after e
        ≡ some (record e { phase = after; commands = record (e.commands) { items = [] } })
  unfolding poll try_pop
  poll-empty h = rw h refl

  pub poll-next :
      (c : Command) (cs : List Command)
      → e.commands.items ≡ c ∷ cs
      → poll now after e ≡ (apply now c e.book >>= λ b. some (processed e cs b))
  unfolding poll process try_pop
  poll-next c cs h = rw h refl

  poll-Handles :
      (cs : List Command) (e' : Engine)
      → e.commands.items ≡ cs
      → runs_loop e.phase ≡ true
      → poll now after e ≡ some e'
      → Handles now e e'
  unfolding run_commands
  poll-Handles [] e' h k r =
      subst (Handles now e) (some-injective _ _ (sym (poll-empty h) ∙ r)) (record {
        book = rw (k, h) refl;
        items = rw (k, h) refl;
        open_still = refl;
        first = refl;
        second = refl;
        first_is_active = refl;
      })
  poll-Handles (c ∷ cs) e' h k r =
      let s =
        >>=-eq-some (apply now c e.book) (λ b. some (processed e cs b))
          (sym (poll-next c cs h) ∙ r) in
      subst (Handles now e) (some-injective _ _ s.rest) (record {
        book = rw (k, h, s.computed) refl;
        items = rw (k, h) refl;
        open_still = refl;
        first = refl;
        second = refl;
        first_is_active = refl;
      })

module _ (now : TimeNs) (e : Engine) where
  idle-Handles :
      (phase : Phase) → runs_loop e.phase ≡ false → Handles now e (record e { phase = phase })
  unfolding run_commands
  idle-Handles phase k = record {
    book = rw k refl;
    items = rw k refl;
    open_still = refl;
    first = refl;
    second = refl;
    first_is_active = refl;
  }

  pub run_step-testing :
      e.phase ≡ testing
      → run_step now e ≡ some (record e { phase = if e.stop_requested then draining else polling })
  unfolding run_step
  run_step-testing h = ap (λ phase. run_in phase now e) h

  pub run_step-polling : e.phase ≡ polling → run_step now e ≡ poll now testing e
  unfolding run_step
  run_step-polling h = ap (λ phase. run_in phase now e) h

  pub run_step-draining : e.phase ≡ draining → run_step now e ≡ poll now finished e
  unfolding run_step
  run_step-draining h = ap (λ phase. run_in phase now e) h

  pub run_step-finished : e.phase ≡ finished → run_step now e ≡ some e
  unfolding run_step
  run_step-finished h = ap (λ phase. run_in phase now e) h

  run_step_in :
      (phase : Phase) (e' : Engine) → e.phase ≡ phase → run_step now e ≡ some e' → Handles now e e'
  run_step_in testing e' h r =
      subst (Handles now e) (some-injective _ _ (sym (run_step-testing h) ∙ r))
        (idle-Handles _ (ap runs_loop h))
  run_step_in polling e' h r =
      poll-Handles now testing e e.commands.items e' refl (ap runs_loop h)
        (sym (run_step-polling h) ∙ r)
  run_step_in draining e' h r =
      poll-Handles now finished e e.commands.items e' refl (ap runs_loop h)
        (sym (run_step-draining h) ∙ r)
  run_step_in finished e' h r =
      subst (Handles now e) (some-injective _ _ (sym (run_step-finished h) ∙ r))
        (idle-Handles e.phase (ap runs_loop h))

  pub run_step-Handles : (e' : Engine) → run_step now e ≡ some e' → Handles now e e'
  run_step-Handles e' r = run_step_in e.phase e' refl r
