-- ===== src/Core/Order.antt =====
-- src/Core/Order.hpp: an order and what may be done to it.
pub mod Quantities
use hermes_orderbook.Prelude.{ℕ, ◌-◌, Bool, ltb, ◌==◌, ◌||◌, not, if◌then◌else◌, sub64, eqb_ℤ}
use hermes_orderbook.Core.Types.{
  Price, Quantity, TimeNs, Side, OrderType, TimeInForce, MatchType, Flags,
}

-- `m_ExecInst` and the padding, which nothing reads, are left out.
pub record Order : Type 0 where
  pub order_id : ℕ
  pub client_id : ℕ
  pub price : Price
  pub initial_quantity : Quantity
  pub remaining_quantity : Quantity
  pub timestamp : TimeNs
  pub flags : Flags
  pub side : Side
  pub order_type : OrderType
  pub tif : TimeInForce
  pub match_type : MatchType

-- The constructor; `now` is the clock's reading.
abbrev pub new_order :
    TimeNs → ℕ → ℕ → Price → Quantity → Side → OrderType → TimeInForce → MatchType → Flags → Order
new_order now id client price quantity side type tif match_type flags = record {
  order_id = id;
  client_id = client;
  price = price;
  initial_quantity = quantity;
  remaining_quantity = quantity;
  timestamp = now;
  flags = flags;
  side = side;
  order_type = type;
  tif = tif;
  match_type = match_type;
}

-- `u64` subtraction.
unfoldable pub filled_quantity : Order → Quantity
filled_quantity o = sub64 o.initial_quantity o.remaining_quantity

abbrev pub is_filled : Order → Bool
is_filled o = o.remaining_quantity == 0

unfoldable pub modify_order : TimeNs → Price → Quantity → Order → Order
unfolding filled_quantity
modify_order now new_price new_quantity o =
    if ltb new_quantity (filled_quantity o) then o else record o {
      timestamp =
          if not (eqb_ℤ new_price o.price) || ltb o.initial_quantity new_quantity
          then now
          else o.timestamp;
      price = new_price;
      remaining_quantity = sub64 new_quantity (filled_quantity o);
      initial_quantity = new_quantity;
    }

-- A fill beyond what remains is refused.
unfoldable pub fill : Quantity → Order → Order
fill quantity o =
    if ltb o.remaining_quantity quantity
    then o
    else record o { remaining_quantity = o.remaining_quantity - quantity }

-- The new order, and the difference as the source computes it: new less old, which wraps.
unfoldable pub update_quantity : Quantity → Order → Order × Quantity
update_quantity new_quantity o =
    (record o { remaining_quantity = new_quantity }, sub64 new_quantity o.remaining_quantity)
