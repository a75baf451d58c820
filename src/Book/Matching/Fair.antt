-- ===== src/Book/Matching/Fair.antt =====
-- `PriceTimePriority::Match` on the book: whom it serves, what it records, what it conserves.
use hermes_orderbook.Prelude.{
  ℕ, ◌+◌, ◌-◌, ◌≤◌, ◌<◌, ◌≡◌, ◌∙◌, true, List, [], ◌∷◌, ◌++◌, Option, some, length, take, arith,
  ◌⊎◌, inl, inr, Bool-cases,
}
use hermes_orderbook.Core.Types.{opposite, is_market}
use hermes_orderbook.Core.Order.{Order}
use hermes_orderbook.Book.State.{Book, max_events, levels}
use hermes_orderbook.Book.Matching.{match_order}
use hermes_orderbook.Book.Matching.Round.{less}
use hermes_orderbook.Book.Matching.Consume.{consume, deals}
use hermes_orderbook.Book.Matching.Facts.{consume-conserves, total_dealt, total_dealt-deals}
use hermes_orderbook.Book.Matching.Log.{trades_from, scratch-log_deals}
use hermes_orderbook.Book.Matching.Priority.{
  makers, IsDone, Serves, whole, last_part, serves, AllAllowed, deals-allowed,
}
use hermes_orderbook.Book.Matching.Refine.{Matched}
use hermes_orderbook.Book.Matching.Loop.{match_order-Matched}
use hermes_orderbook.Book.View.{orders_on, total_remaining, IsValid}

-- The makers served, out of the queue that a taker meets: a front part of it in its order, all
-- filled and gone, until the taker is done; or the last of them keeps a rest and the taker is filled.
pub data ServedInOrder (taker : Order) (served queue queue' : List Order) : Type 0 where
  all_filled :
      queue ≡ served ++ queue' → IsDone taker queue' → ServedInOrder taker served queue queue'
  last_rests :
      (front left : List Order) (m : Order) (q : ℕ)
      → served ≡ front ++ (m ∷ [])
      → queue ≡ front ++ (m ∷ left)
      → queue' ≡ less q m ∷ left
      → q < m.remaining_quantity
      → taker.remaining_quantity ≡ 0
      → ServedInOrder taker served queue queue'

ServedInOrder-of :
    (t : Order) (queue : List Order)
    → Serves t queue
    → ServedInOrder (consume t queue).0 (makers (deals t queue)) queue (consume t queue).1
ServedInOrder-of t queue (whole served left e f g h) = rw (g, f) (all_filled e h)
ServedInOrder-of t queue (last_part served left m q e f g h i) =
    last_rests served left m q g e f h i

-- The outcome of a match, in terms of the deals that it strikes.
pub record Fair (order : Order) (b : Book) (result : Option (Order × Book)) : Type 0 where
  pub taker : Order
  pub after : Book
  pub struck : List (Order × Order)
  pub run : result ≡ some (taker, after)
  pub in_order :
      ServedInOrder taker
        (makers struck)
        (orders_on (opposite order.side) b)
        (orders_on (opposite order.side) after)
  pub allowed : (is_market order.order_type ≡ true) ⊎ AllAllowed order struck
  pub filled : taker.remaining_quantity + total_dealt struck ≡ order.remaining_quantity
  pub given :
      total_dealt struck + total_remaining (orders_on (opposite order.side) after)
      ≡ total_remaining (orders_on (opposite order.side) b)
  pub own : levels order.side after ≡ levels order.side b
  pub recorded :
      after.scratch
      ≡ b.scratch ++ take (max_events - length b.scratch) (trades_from b.trade_counter struck)

-- On a well-formed book with no more than 128 events in the scratch the match serves the other side's
-- orders in price and time order, each one fully before the next, at no price beyond the taker's limit
-- unless it is a market order; what the taker gets is what the makers give; the taker's own side is
-- untouched; and the trades are recorded in this order as far as the scratch has room.
pub match_order-Fair :
    (order : Order) (b : Book)
    → IsValid b
    → length b.scratch ≤ max_events
    → Fair order b (match_order order b)
match_order-Fair order b v room =
    let queue = orders_on (opposite order.side) b in
    let m : Matched b.order_counter order b (match_order order b) = match_order-Matched order b v in
    record {
      taker = (consume order queue).0;
      after = m.after;
      struck = deals order queue;
      run = m.run;
      in_order = rw m.far (ServedInOrder-of order queue (serves order queue));
      allowed = elim (Bool-cases (is_market order.order_type)) [
        | inl market ↦ inl market
        | inr other ↦ inr (deals-allowed order queue other)
      ];
      filled = total_dealt-deals order queue;
      given =
          rw m.far (omega (arith, total_dealt-deals order queue, consume-conserves order queue));
      own = m.near;
      recorded = m.log.scratch ∙ scratch-log_deals (deals order queue) b room;
    }
