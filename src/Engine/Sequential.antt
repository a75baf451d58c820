-- ===== src/Engine/Sequential.antt =====
-- The engine's book, against the commands that are sent to it.
use hermes_orderbook.Prelude.{
  ℕ, suc, ◌+◌, ◌^◌, ◌<◌, ◌≡◌, refl, sym, ap, subst, ◌∙◌, arith, false, List, [], ◌∷◌, ◌++◌,
  append_assoc, map, some, >>=-eq-some, length, length-append,
}
use mathlib.Core.List.{map-append}
use mathlib.Core.Option.{some-injective}
use hermes_orderbook.Core.Types.{TimeNs}
use hermes_orderbook.Core.Messages.{Command, OrderBookSnapshot}
use hermes_orderbook.Book.State.{Book, empty_book}
use hermes_orderbook.Book.Apply.{apply}
use hermes_orderbook.Book.Apply.History
use hermes_orderbook.Book.Apply.History.{Reach-IsValid, Reach-IsUncrossed}
use hermes_orderbook.Book.View.{IsValid}
use hermes_orderbook.Book.View.Uncrossed.{IsUncrossed}
use hermes_orderbook.Queue.ThreadSafe.{push}
use hermes_orderbook.Engine.{
  Engine, send, update_snapshot, handled, Reach, start, sends, stops, updates, runs,
}
use hermes_orderbook.Engine.Steps.{command_of, run_commands, run_commands-append, run_step-Handles}

send-commands :
    (c : Command) (e : Engine)
    → e.commands.is_closed ≡ false
    → ((send c e).commands.items ≡ e.commands.items ++ (c ∷ []))
      × ((send c e).commands.is_closed ≡ false)
      × ((send c e).book ≡ e.book)
unfolding send push
send-commands c e h = ground arith

update_snapshot-rest :
    (read : OrderBookSnapshot) (e : Engine)
    → ((update_snapshot read e).commands ≡ e.commands) × ((update_snapshot read e).book ≡ e.book)
unfolding update_snapshot
update_snapshot-rest read e = ground arith

-- The engine's state, against the history of the calls.
record Follows (e : Engine) (sent : List Command) (done : List (TimeNs × Command)) : Type 0 where
  sequence : sent ≡ map command_of done ++ e.commands.items
  book : run_commands done empty_book ≡ some e.book
  open_still : e.commands.is_closed ≡ false

Reach-Follows :
    {e : Engine} {sent : List Command} {done : List (TimeNs × Command)}
    → Reach e sent done
    → Follows e sent done
Reach-Follows start = record {
  sequence = refl;
  book = unfold run_commands in refl;
  open_still = refl;
}
Reach-Follows (sends {e = e} {done = done} c r) =
    let f = Reach-Follows r in
    let s = send-commands c e f.open_still in
    record {
      sequence =
          ap (λ xs. xs ++ (c ∷ [])) f.sequence
          ∙ append_assoc (map command_of done) e.commands.items (c ∷ [])
          ∙ ap (λ xs. map command_of done ++ xs) (sym s.0);
      book = f.book ∙ ap some (sym s.2);
      open_still = s.1;
    }
Reach-Follows (stops r) =
    let f = Reach-Follows r in
    record { sequence = f.sequence; book = f.book; open_still = f.open_still }
Reach-Follows (updates {e = e} {done = done} read r) =
    let f = Reach-Follows r in
    let u = update_snapshot-rest read e in
    record {
      sequence = f.sequence ∙ ap (λ q. map command_of done ++ q.items) (sym u.0);
      book = f.book ∙ ap some (sym u.1);
      open_still = ap (λ q. q.is_closed) u.0 ∙ f.open_still;
    }
Reach-Follows (runs {e = e} {e' = e'} {done = done} now r h) =
    let f = Reach-Follows r in
    let s = run_step-Handles now e e' h in
    record {
      sequence =
          f.sequence
          ∙ ap (λ xs. map command_of done ++ xs) s.items
          ∙ sym (
              append_assoc (map command_of done) (map command_of (handled now e)) e'.commands.items)
          ∙ ap (λ xs. xs ++ e'.commands.items) (sym (map-append command_of done (handled now e)));
      book = run_commands-append done (handled now e) empty_book ∙ rw f.book s.book;
      open_still = s.open_still ∙ f.open_still;
    }

run_commands-Reach :
    (cs : List (TimeNs × Command)) (n : ℕ) (b b' : Book)
    → History.Reach n b
    → run_commands cs b ≡ some b'
    → History.Reach (length cs + n) b'
unfolding run_commands
run_commands-Reach [] n b b' r h =
    let same : 0 + n ≡ n = omega arith in rw (same, ← some-injective _ _ h) r
run_commands-Reach ((now, c) ∷ cs) n b b' r h =
    let s = >>=-eq-some (apply now c b) (λ b1. run_commands cs b1) h in
    let same : length cs + suc n ≡ suc (length cs) + n = omega arith in
    subst (λ k. History.Reach k b') same
      (run_commands-Reach cs (suc n) s.value b' (History.next now c r s.computed) s.rest)

length-map : (done : List (TimeNs × Command)) → length (map command_of done) ≡ length done
length-map [] = refl
length-map (d ∷ done) = ap suc (length-map done)

-- In every state that clients and the engine's thread can reach, the commands sent are those applied
-- and those in the queue, in this order, and the book is what the commands applied lead to, one after
-- another, from the empty book.
pub Reach-sequential :
    {e : Engine} {sent : List Command} {done : List (TimeNs × Command)}
    → Reach e sent done
    → (sent ≡ map command_of done ++ e.commands.items)
      × (run_commands done empty_book ≡ some e.book)
Reach-sequential r = let f = Reach-Follows r in (f.sequence, f.book)

-- If fewer than 2 ^ 64 - 2 commands are sent, the engine's book is well-formed and uncrossed.
pub Reach-IsUncrossed_book :
    {e : Engine} {sent : List Command} {done : List (TimeNs × Command)}
    → Reach e sent done
    → length sent + 2 < 2 ^ 64
    → IsValid e.book × IsUncrossed e.book
Reach-IsUncrossed_book {e} {done = done} r h =
    let f = Reach-Follows r in
    let n = run_commands-Reach done 0 empty_book e.book History.start f.book in
    let few : length done + 0 + 2 < 2 ^ 64 = omega (
      arith,
      ap length f.sequence,
      length-append (map command_of done) e.commands.items,
      length-map done,
    ) in
    (Reach-IsValid few n, Reach-IsUncrossed few n)
