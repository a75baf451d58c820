-- ===== src/Book/View/Sides.antt =====
-- Writes to one side of the book, and to the rest of its state.
use hermes_orderbook.Prelude.{ℕ, ◌≡◌, refl, List}
use hermes_orderbook.Core.Types.{Side, buy, sell, opposite}
use hermes_orderbook.Book.Levels.{Level}
use hermes_orderbook.Book.State.{Book, OrderEntry, levels, with_levels}
use hermes_orderbook.Core.Messages.{Event}
use hermes_orderbook.Book.View.{IsValidBelow}

pub levels-with_self : (s : Side) (ls : List Level) (b : Book) → levels s (with_levels s ls b) ≡ ls
unfolding levels with_levels
levels-with_self buy ls b = refl
levels-with_self sell ls b = refl

pub levels-with_other :
    (s : Side) (ls : List Level) (b : Book)
    → levels (opposite s) (with_levels s ls b) ≡ levels (opposite s) b
unfolding levels with_levels
levels-with_other buy ls b = refl
levels-with_other sell ls b = refl

pub levels-with_opposite :
    (s : Side) (ls : List Level) (b : Book) → levels s (with_levels (opposite s) ls b) ≡ levels s b
unfolding levels with_levels
levels-with_opposite buy ls b = refl
levels-with_opposite sell ls b = refl

pub levels-index :
    (s : Side) (m : List (ℕ × OrderEntry)) (b : Book)
    → levels s (record b { index = m }) ≡ levels s b
unfolding levels
levels-index buy m b = refl
levels-index sell m b = refl

pub with_levels-twice :
    (s : Side) (ls ms : List Level) (b : Book)
    → with_levels s ms (with_levels s ls b) ≡ with_levels s ms b
unfolding with_levels
with_levels-twice buy ls ms b = refl
with_levels-twice sell ls ms b = refl

pub index-with : (s : Side) (ls : List Level) (b : Book) → (with_levels s ls b).index ≡ b.index
unfolding with_levels
index-with buy ls b = refl
index-with sell ls b = refl

-- The fields other than the sides and the index.
pub record SameRest (b b' : Book) : Type 0 where
  pub scratch : b'.scratch ≡ b.scratch
  pub order_counter : b'.order_counter ≡ b.order_counter
  pub trade_counter : b'.trade_counter ≡ b.trade_counter
  pub market_state : b'.market_state ≡ b.market_state

pub with_levels-SameRest : (s : Side) (ls : List Level) (b : Book) → SameRest b (with_levels s ls b)
unfolding with_levels
with_levels-SameRest buy ls b = record {
  scratch = refl;
  order_counter = refl;
  trade_counter = refl;
  market_state = refl;
}
with_levels-SameRest sell ls b = record {
  scratch = refl;
  order_counter = refl;
  trade_counter = refl;
  market_state = refl;
}

-- The trades recorded so far.
pub record SameLog (b b' : Book) : Type 0 where
  pub scratch : b'.scratch ≡ b.scratch
  pub trade_counter : b'.trade_counter ≡ b.trade_counter

pub SameRest-SameLog : {b b' : Book} → SameRest b b' → SameLog b b'
SameRest-SameLog e = record { scratch = e.scratch; trade_counter = e.trade_counter }

-- The sides and the index.
pub record SameOrders (b b' : Book) : Type 0 where
  pub sides : (s : Side) → levels s b' ≡ levels s b
  pub index : b'.index ≡ b.index

pub SameOrders-IsValid :
    {n : ℕ} {b b' : Book} → SameOrders b b' → IsValidBelow n b → IsValidBelow n b'
SameOrders-IsValid e v = record {
  side_valid = λ s. rw (e.sides s) (v.side_valid s);
  indexed = λ s id. rw (e.sides s, e.sides (opposite s), e.index) (v.indexed s id);
  distinct = λ s id. rw (e.sides s) (v.distinct s id);
  fresh = λ s id h. rw (e.sides s) (v.fresh s id h);
}

pub scratch-SameOrders : (es : List Event) (b : Book) → SameOrders b (record b { scratch = es })
unfolding levels
scratch-SameOrders es b = record { sides = elim [ buy ↦ refl | sell ↦ refl ]; index = refl }

pub counter-SameOrders : (n : ℕ) (b : Book) → SameOrders b (record b { order_counter = n })
unfolding levels
counter-SameOrders n b = record { sides = elim [ buy ↦ refl | sell ↦ refl ]; index = refl }
