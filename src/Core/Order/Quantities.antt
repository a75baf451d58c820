-- ===== src/Core/Order/Quantities.antt =====
-- The quantities of an order under its operations.
use hermes_orderbook.Prelude.{◌+◌, ◌-◌, ◌^◌, ◌≤◌, ◌<◌, ◌≡◌, arith, ltb, ◌==◌, if◌then◌else◌}
use hermes_orderbook.Core.Types.{Price, Quantity, TimeNs}
use hermes_orderbook.Core.Order.{Order, filled_quantity, is_filled, fill, modify_order}

-- No more remains than was asked for, in 64 bits.
abbrev pub IsSound : Order → Type 0
IsSound o = (o.remaining_quantity ≤ o.initial_quantity) × (o.initial_quantity < 2 ^ 64)

pub filled_quantity-eq :
    (o : Order) → IsSound o → filled_quantity o ≡ o.initial_quantity - o.remaining_quantity
unfolding filled_quantity
filled_quantity-eq o s = omega (arith, s.0, s.1)

-- A sound order stays sound when it is filled; a fill of no more than remains raises the filled
-- quantity by just that, and a larger one changes nothing.
pub fill-IsSound :
    (q : Quantity) (o : Order)
    → IsSound o
    → IsSound (fill q o)
      × (filled_quantity (fill q o)
          ≡ (if ltb o.remaining_quantity q then filled_quantity o else filled_quantity o + q))
unfolding fill filled_quantity
fill-IsSound q o s = ground arith

-- A sound order stays sound when it is modified to a quantity of 64 bits, and what was filled of it
-- stays filled; it is filled afterwards if the new quantity is the filled one, and as before if the
-- new quantity is less.
pub modify_order-IsSound :
    (now : TimeNs) (p : Price) (q : Quantity) (o : Order)
    → IsSound o
    → q < 2 ^ 64
    → IsSound (modify_order now p q o)
      × (filled_quantity (modify_order now p q o) ≡ filled_quantity o)
      × (is_filled (modify_order now p q o)
          ≡ (if ltb q (filled_quantity o) then is_filled o else q == filled_quantity o))
unfolding modify_order filled_quantity
modify_order-IsSound now p q o s h = ground arith
