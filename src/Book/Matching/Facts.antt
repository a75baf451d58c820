-- ===== src/Book/Matching/Facts.antt =====
-- The quantities of `consume` and of its deals.
use hermes_orderbook.Prelude.{ℕ, ◌+◌, ◌≡◌, refl, List, [], ◌∷◌, arith}
use hermes_orderbook.Core.Order.{Order}
use hermes_orderbook.Book.Matching.Round.{less, dealt}
use hermes_orderbook.Book.Matching.Consume.{consume, deals}
use hermes_orderbook.Book.View.{total_remaining}

-- Of the taker only the remaining quantity changes.
pub consume-taker :
    (t : Order) (queue : List Order)
    → (consume t queue).0 ≡ record t { remaining_quantity = (consume t queue).0.remaining_quantity }
unfolding consume
consume-taker t [] = refl
consume-taker t (m ∷ queue) = ground (arith, consume-taker (less m.remaining_quantity t) queue)

-- What the taker gets, the makers give.
pub consume-conserves :
    (t : Order) (queue : List Order)
    → t.remaining_quantity + total_remaining (consume t queue).1
      ≡ (consume t queue).0.remaining_quantity + total_remaining queue
unfolding consume
consume-conserves t [] = refl
consume-conserves t (m ∷ queue) =
    ground (arith, consume-conserves (less m.remaining_quantity t) queue)

pub total_dealt : List (Order × Order) → ℕ
total_dealt [] = 0
total_dealt ((t, m) ∷ ds) = dealt t m + total_dealt ds

-- The deals add up to what the taker gets.
pub total_dealt-deals :
    (t : Order) (queue : List Order)
    → (consume t queue).0.remaining_quantity + total_dealt (deals t queue) ≡ t.remaining_quantity
unfolding consume deals total_dealt
total_dealt-deals t [] = omega arith
total_dealt-deals t (m ∷ queue) =
    ground (arith, total_dealt-deals (less m.remaining_quantity t) queue)
