-- ===== src/Book/Apply/History.antt =====
-- The books that a run of commands from the empty book can reach.
use hermes_orderbook.Prelude.{ℕ, zero, suc, ◌+◌, ◌≡◌, ◌<◌, ◌≤◌, ◌^◌, refl, some, arith}
use hermes_orderbook.Core.Types.{TimeNs, buy, sell}
use hermes_orderbook.Core.Messages.{Command}
use hermes_orderbook.Book.Levels.{find_order}
use hermes_orderbook.Book.State.{Book, empty_book, levels, lookup_entry}
use hermes_orderbook.Book.Apply.{apply}
use hermes_orderbook.Book.Apply.Valid.{apply-IsValid_of_some}
use hermes_orderbook.Book.View.{IsValid}
use hermes_orderbook.Book.View.Uncrossed.{IsUncrossed}

-- A book after `n` commands, none of which ran into undefined behaviour.
pub data Reach : ℕ → Book → Type 0 where
  start : Reach zero empty_book
  next :
      {n : ℕ} {b b' : Book} (now : TimeNs) (c : Command)
      → Reach n b
      → apply now c b ≡ some b'
      → Reach (suc n) b'

pub empty_book-IsValid : IsValid empty_book
unfolding levels find_order lookup_entry
empty_book-IsValid = record {
  side_valid = elim [ buy ↦ tt | sell ↦ tt ];
  indexed = elim [ buy ↦ λ id. refl | sell ↦ λ id. refl ];
  distinct = elim [ buy ↦ λ id. omega arith | sell ↦ λ id. omega arith ];
  fresh = elim [ buy ↦ λ id h. refl | sell ↦ λ id h. refl ];
}

-- What holds after `n` commands.
record Kept (n : ℕ) (b : Book) : Type 0 where
  valid : IsValid b
  counter : b.order_counter ≤ suc n
  uncrossed : IsUncrossed b

Reach-Kept : {n : ℕ} {b : Book} → n + 2 < 2 ^ 64 → Reach n b → Kept n b
unfolding levels
Reach-Kept h start = record { valid = empty_book-IsValid; counter = omega arith; uncrossed = tt }
Reach-Kept h (next {b = b} {b' = b'} now c r e) =
    let k = Reach-Kept (omega arith) r in
    let f = apply-IsValid_of_some now c b b' k.valid (omega (arith, k.counter)) e in
    record {
      valid = f.valid;
      counter = omega (arith, k.counter, f.counter);
      uncrossed = f.uncrossed k.uncrossed;
    }

-- Every book that fewer than 2 ^ 64 - 2 commands can reach is well-formed: its levels stand in price
-- order, none is empty, each order is in the level of its price and side, and `m_Orders` holds the
-- iterators of exactly the orders that rest.
pub Reach-IsValid : {n : ℕ} {b : Book} → n + 2 < 2 ^ 64 → Reach n b → IsValid b
Reach-IsValid h r = (Reach-Kept h r).valid

-- In every such book each bid is below each ask.
pub Reach-IsUncrossed : {n : ℕ} {b : Book} → n + 2 < 2 ^ 64 → Reach n b → IsUncrossed b
Reach-IsUncrossed h r = (Reach-Kept h r).uncrossed
