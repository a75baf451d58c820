-- ===== src/Book/Matching/Refine.antt =====
-- The tests of the loop of `PriceTimePriority::Match`, and the comparison with `consume`.
use hermes_orderbook.Prelude.{
  ℕ, suc, ◌<◌, ◌≡◌, refl, ◌∙◌, true, false, List, [], ◌∷◌, Option, some, is_empty, arith, ◌⊎◌, inl,
  inr,
}
use hermes_orderbook.Core.Types.{Side, opposite}
use hermes_orderbook.Core.Order.{Order}
use hermes_orderbook.Book.Levels.{Level}
use hermes_orderbook.Book.State.{Book, levels}
use hermes_orderbook.Book.Matching.{best_order, stops, trade_with, match_loop}
use hermes_orderbook.Book.Matching.Round.{logged, record_trade-log}
use hermes_orderbook.Book.Matching.Consume.{consume, deals, log_deals}
use hermes_orderbook.Book.View.{orders_on, SideIsValid, IsValidBelow}
use hermes_orderbook.Book.View.Sides.{SameLog}

-- The loop, test by test.
module _ (fuel : ℕ) (order : Order) (b : Book) where
  pub loop_filled : order.remaining_quantity ≡ 0 → match_loop (suc fuel) order b ≡ some (order, b)
  unfolding match_loop
  loop_filled h = ground arith

  pub loop_empty :
      0 < order.remaining_quantity
      → levels (opposite order.side) b ≡ []
      → match_loop (suc fuel) order b ≡ some (order, b)
  unfolding match_loop best_order
  loop_empty h e = ground arith

  module _ (top : Order)
      (best : best_order (levels (opposite order.side) b) ≡ some (some top)) where
    pub loop_stops :
        0 < order.remaining_quantity
        → stops order top ≡ true
        → match_loop (suc fuel) order b ≡ some (order, b)
    unfolding match_loop
    loop_stops h e = ground arith

    pub loop_trades :
        0 < order.remaining_quantity
        → stops order top ≡ false
        → (order' : Order) (b' : Book) → trade_with order top b ≡ some (order', b')
        → match_loop (suc fuel) order b ≡ match_loop fuel order' b'
    unfolding match_loop
    loop_trades h e order' b' r = ground arith

pub log_deals-SameLog :
    (ds : List (Order × Order)) (b b' : Book)
    → SameLog b b'
    → SameLog (log_deals ds b) (log_deals ds b')
unfolding log_deals
log_deals-SameLog [] b b' e = e
log_deals-SameLog ((taker, maker) ∷ ds) b b' e =
    let next = record_trade-log _ _ _ _ _ _ b b' e in
    log_deals-SameLog ds (logged taker maker b) (logged taker maker b')
      (record { scratch = next.0; trade_counter = next.1 })

pub SameLog-trans : {a b c : Book} → SameLog a b → SameLog b c → SameLog a c
SameLog-trans p q = record {
  scratch = q.scratch ∙ p.scratch;
  trade_counter = q.trade_counter ∙ p.trade_counter;
}

-- The first order of a side, if there is one.
pub record Front (ms : List Level) : Type 0 where
  pub level : Level
  pub others : List Level
  pub top : Order
  pub behind : List Order
  pub split : ms ≡ level ∷ others
  pub orders : level.orders ≡ top ∷ behind

pub Front-cases : (s : Side) (ms : List Level) → SideIsValid s ms → (ms ≡ []) ⊎ Front ms
Front-cases s [] v = inl refl
Front-cases s (l ∷ ls) v = inr (go l.orders refl v.1)
  where
    go : (os : List Order) → l.orders ≡ os → is_empty l.orders ≡ false → Front (l ∷ ls)
    go [] e h = absurd (ground arith)
    go (o ∷ os) e h = record {
      level = l;
      others = ls;
      top = o;
      behind = os;
      split = refl;
      orders = e;
    }

-- What the match leaves.
pub record Matched (n : ℕ) (order : Order) (b : Book) (result : Option (Order × Book))
    : Type 0 where
  pub after : Book
  pub run : result ≡ some ((consume order (orders_on (opposite order.side) b)).0, after)
  pub valid : IsValidBelow n after
  pub near : levels order.side after ≡ levels order.side b
  pub far :
      orders_on (opposite order.side) after ≡ (consume order (orders_on (opposite order.side) b)).1
  pub counter : after.order_counter ≡ b.order_counter
  pub state : after.market_state ≡ b.market_state
  pub log : SameLog (log_deals (deals order (orders_on (opposite order.side) b)) b) after

-- A taker that stops at once.
pub Matched-stop :
    {n : ℕ} {b : Book} (v : IsValidBelow n b) (order : Order) (result : Option (Order × Book))
    → consume order (orders_on (opposite order.side) b) ≡ (order, orders_on (opposite order.side) b)
    → deals order (orders_on (opposite order.side) b) ≡ []
    → result ≡ some (order, b)
    → Matched n order b result
unfolding log_deals
Matched-stop {b} v order result e f r = record {
  after = b;
  run = r ∙ rw e;
  valid = v;
  near = refl;
  far = rw e;
  counter = refl;
  state = refl;
  log = rw f (record { scratch = refl; trade_counter = refl });
}
