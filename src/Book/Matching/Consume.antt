-- ===== src/Book/Matching/Consume.antt =====
-- What price-time priority means: a taker meets the orders of the other side one after another, from
-- the best price on and oldest first, until it is filled or the next price is not acceptable.
use hermes_orderbook.Prelude.{◌||◌, List, [], ◌∷◌, ◌==◌, leb, if◌then◌else◌}
use hermes_orderbook.Core.Order.{Order}
use hermes_orderbook.Book.State.{Book}
use hermes_orderbook.Book.Matching.{stops}
use hermes_orderbook.Book.Matching.Round.{less, logged}

-- The taker and what it leaves of the queue.
unfoldable pub consume : Order → List Order → Order × List Order
consume taker [] = (taker, [])
consume taker (maker ∷ queue) =
    let next = consume (less maker.remaining_quantity taker) queue in
    if taker.remaining_quantity == 0 || stops taker maker
    then (taker, maker ∷ queue)
    else if leb maker.remaining_quantity taker.remaining_quantity
    then next
    else (less taker.remaining_quantity taker, less taker.remaining_quantity maker ∷ queue)

-- The deals on the way: the taker and the maker as they meet.
unfoldable pub deals : Order → List Order → List (Order × Order)
deals taker [] = []
deals taker (maker ∷ queue) =
    let next = deals (less maker.remaining_quantity taker) queue in
    if taker.remaining_quantity == 0 || stops taker maker
    then []
    else if leb maker.remaining_quantity taker.remaining_quantity
    then (taker, maker) ∷ next
    else (taker, maker) ∷ []

-- The records of the deals.
unfoldable pub log_deals : List (Order × Order) → Book → Book
log_deals [] b = b
log_deals ((taker, maker) ∷ ds) b = log_deals ds (logged taker maker b)
