-- ===== src/Book/Matching.antt =====
-- src/Matching/Matching.cpp: `PriceTimePriority::Match`, whose two branches are one loop over the
-- side that the taker meets. `none` is undefined behaviour, or a loop that goes on past its rounds.
pub mod Round
pub mod Meets
pub mod Consume
pub mod Refine
pub mod Loop
pub mod Facts
pub mod Log
pub mod Priority
pub mod Fair
use hermes_orderbook.Prelude.{
  ℕ, zero, suc, ◌+◌, ◌≡◌, refl, Bool, true, false, List, [], ◌∷◌, Option, none, some, ◌==◌, ◌&&◌,
  not, ltb, if◌then◌else◌, length, ◌>>=◌, ◌>>◌, min, ltb_ℤ,
}
use hermes_orderbook.Core.Types.{Price, Quantity, Side, buy, sell, OrderType, is_market, opposite}
use hermes_orderbook.Core.Order.{Order, fill, is_filled}
use hermes_orderbook.Book.Levels.{Level}
use hermes_orderbook.Book.State.{Book, levels, with_levels}
use hermes_orderbook.Book.Operations.{record_fill, internal_cancel_order}

-- `price < ask` for a buyer, `price > bid` for a seller.
unfoldable pub outside : Side → Price → Price → Bool
outside buy p q = ltb_ℤ p q
outside sell p q = ltb_ℤ q p

-- `GetBestBid`, `GetBestAsk`: no order on an empty side. `front()` of an empty list is undefined.
unfoldable pub best_order : List Level → Option (Option Order)
best_order [] = some none
best_order (l ∷ ls) = elim l.orders [ [] ↦ none | o ∷ os ↦ some (some o) ]

-- A write through the pointer to the best order.
unfoldable pub set_front : Order → List Level → List Level
set_front o [] = []
set_front o (l ∷ ls) = record l { orders = elim l.orders [ [] ↦ [] | _ ∷ os ↦ o ∷ os ] } ∷ ls

-- The body of the loop, past its tests: the taker, filled, and the book.
unfoldable pub trade_with : Order → Order → Book → Option (Order × Book)
trade_with order top b =
    let quantity = min order.remaining_quantity top.remaining_quantity in
    let order' = fill quantity order in
    let top' = fill quantity top in
    let far = opposite order.side in
    let b' = with_levels far (set_front top' (levels far b)) b in
    let b'' =
      record_fill order'.client_id top'.client_id top'.price quantity top'.side order'.match_type
        b' in
    if is_filled top'
    then (internal_cancel_order top'.client_id top'.order_id b'' >>= λ r. some (order', r.1))
    else some (order', b'')

-- The tests at the head of the loop.
unfoldable pub stops : Order → Order → Bool
stops order top = not (is_market order.order_type) && outside order.side order.price top.price

unfoldable pub match_loop : ℕ → Order → Book → Option (Order × Book)
match_loop zero order b = none
match_loop (suc fuel) order b = elim (ltb 0 order.remaining_quantity) [
  | false ↦ some (order, b)
  | true ↦ do
    best ← best_order (levels (opposite order.side) b)
    elim best [
      | none ↦ some (order, b)
      | some top ↦ elim (stops order top) [
        | true ↦ some (order, b)
        | false ↦ trade_with order top b >>= λ r. match_loop fuel r.0 r.1
      ]
    ]
]

abbrev pub count_orders : List Level → ℕ
count_orders [] = 0
count_orders (l ∷ ls) = length l.orders + count_orders ls

-- Every round but the last takes an order off the book or ends the taker, so these rounds are enough.
unfoldable pub match_order : Order → Book → Option (Order × Book)
unfolding match_loop
match_order order b = match_loop (suc (count_orders (levels (opposite order.side) b))) order b
