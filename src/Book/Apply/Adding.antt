-- ===== src/Book/Apply/Adding.antt =====
-- src/Engine/OrderBook.inl, `Handle` of an add: what `Apply` does with it, from the command to the
-- events.
use hermes_orderbook.Prelude.{
  ℕ, ◌≡◌, ◌<◌, ◌^◌, true, false, List, [], ◌∷◌, ◌++◌, Option, some, length, if◌then◌else◌,
}
use hermes_orderbook.Core.Types.{opposite}
use hermes_orderbook.Core.Order.{Order}
use hermes_orderbook.Core.Messages.{ErrorCode, success, Event, order_accepted, order_rejected}
use hermes_orderbook.Book.State.{Book, max_events}
use hermes_orderbook.Book.Commands.{lacks_liquidity, violates_post_only}
use hermes_orderbook.Book.Commands.Slot.{enqueue}
use hermes_orderbook.Book.Commands.Place.{place_code, stays}
use hermes_orderbook.Book.Commands.Refused.{Refused}
use hermes_orderbook.Book.Matching.Consume.{consume, deals}
use hermes_orderbook.Book.Matching.Log.{trades_from}
use hermes_orderbook.Book.View.{orders_on, IsValid}

-- The event that answers a client, for the order's number and the code.
abbrev pub answer : ℕ → ℕ → ErrorCode → Event
answer client id success = order_accepted client id
answer client id code = order_rejected client code

-- The outcome of a command that adds the order `o` of a client, on a book with no events.
pub data AddOutcome (client : ℕ) (o : Order) (b : Book) (result : Option Book) : Type 0 where
  rejected :
      (code : ErrorCode)
      → Refused o b
          (lacks_liquidity o.side o.order_type o.price o.remaining_quantity o.tif b ≡ true)
          code
      → result ≡ some (record b { scratch = order_rejected client code ∷ [] })
      → AddOutcome client o b result
  carried_out :
      (after : Book)
      → lacks_liquidity o.side o.order_type o.price o.remaining_quantity o.tif b ≡ false
      → violates_post_only o.side o.order_type o.price o.flags b ≡ false
      → result ≡ some after
      → orders_on (opposite o.side) after ≡ (consume o (orders_on (opposite o.side) b)).1
      → orders_on o.side after ≡ (
          let taker = (consume o (orders_on (opposite o.side) b)).0 in
          if stays taker then enqueue o.side taker (orders_on o.side b) else orders_on o.side b)
      → after.scratch
        ≡ trades_from b.trade_counter (deals o (orders_on (opposite o.side) b))
          ++ (answer client o.order_id (place_code (consume o (orders_on (opposite o.side) b)).0)
              ∷ [])
      → AddOutcome client o b result

module _ (client : ℕ) (o : Order) (b : Book) (v : IsValid b) (clear : b.scratch ≡ [])
    (small : length (orders_on (opposite o.side) b) < max_events) (room : o.order_id < 2 ^ 64)
    (number : b.order_counter ≡ o.order_id) where
  abbrev trades : List Event
  trades = trades_from b.trade_counter (deals o (orders_on (opposite o.side) b))
