-- ===== src/Book/Commands.antt =====
-- src/Engine/OrderBook.inl: `InternalAddOrder` and `InternalModifyOrder`. `now` is what the clock
-- reads when the order is made.
pub mod Slot
pub mod Rest
pub mod Place
pub mod Valid
pub mod Uncrossed
pub mod Modify
pub mod Refused
pub mod Liquidity
pub mod Checks
pub mod AllOrNothing
use hermes_orderbook.Prelude.{
  ℕ, zero, suc, ◌+◌, ◌≡◌, refl, Bool, true, false, List, [], ◌∷◌, ◌++◌, Option, none, some, ◌==◌,
  ◌&&◌, ◌||◌, not, ltb, leb, if◌then◌else◌, length, ◌>>=◌, ◌>>◌, ltb_ℤ, eqb_ℤ, add64, sub64,
}
use hermes_orderbook.Core.Types.{
  Price, Quantity, TimeNs, Side, buy, sell, OrderType, is_market, is_limit, TimeInForce, gtc, day,
  ioc, fok, gtd, ato, atc, is_fok, MatchType, is_standard, Flags, is_visible, is_post_only,
  opposite,
}
use hermes_orderbook.Core.Order.{Order, new_order, update_quantity}
use hermes_orderbook.Core.Messages.{
  ErrorCode, success, invalid_request, invalid_modify, insufficient_liquidity, post_only_violation,
  invalid_order_combination, not_implemented, unsupported_time_in_force, unauthorized,
}
use hermes_orderbook.Book.Levels.{Level, find_level, set_level, find_order, set_order, try_emplace}
use hermes_orderbook.Book.State.{Book, OrderEntry, levels, with_levels, lookup_entry, emplace_entry}
use hermes_orderbook.Book.Operations.{internal_cancel_order}
use hermes_orderbook.Book.Matching.{outside, match_order}

-- The loop of the fill-or-kill check: what the other side holds within the price, until it is enough.
unfoldable pub liquidity : Side → OrderType → Price → Quantity → Quantity → List Level → Quantity
liquidity s type price quantity available [] = available
liquidity s type price quantity available (l ∷ ls) =
    let total = add64 available l.volume in
    let rest = liquidity s type price quantity total ls in
    if not (is_market type) && outside s price l.price
    then available
    else if leb quantity total
    then total
    else rest

unfoldable pub lacks_liquidity : Side → OrderType → Price → Quantity → TimeInForce → Book → Bool
unfolding liquidity
lacks_liquidity s type price quantity tif b =
    is_fok tif && ltb (liquidity s type price quantity 0 (levels (opposite s) b)) quantity

-- `price >= best ask` for a buyer, `price <= best bid` for a seller, if there is one.
unfoldable pub touches : Side → Price → List Level → Bool
touches s price [] = false
touches s price (l ∷ ls) = not (outside s price l.price)

unfoldable pub violates_post_only : Side → OrderType → Price → Flags → Book → Bool
unfolding touches
violates_post_only s type price flags b =
    is_limit type && is_post_only flags && touches s price (levels (opposite s) b)

-- The end of the level's list, and the volume of an order that shows.
abbrev pub with_back : Order → Level → Level
with_back o l = record l {
  volume = if is_visible o.flags then add64 l.volume o.remaining_quantity else l.volume;
  orders = l.orders ++ (o ∷ []);
}

-- What remains of an order is put at the back of its level.
unfoldable pub rest_order : Order → Book → Option Book
rest_order o b = do
  let ls = try_emplace o.side o.price (levels o.side b)
  l ← find_level o.price ls
  some (
      with_levels o.side (set_level o.price (with_back o l) ls) (record b {
        index =
            emplace_entry o.order_id
              (record { level_side = o.side; level_price = o.price; list_it = o.order_id }) b.index;
      }))

-- What becomes of an order that is not filled: the `switch` on its time in force.
unfoldable pub settle : Order → Book → Option (ErrorCode × Book)
unfolding rest_order
settle o b = elim o.tif [
  | ioc ↦ some (success, b)
  | fok ↦ some (success, b)
  | day ↦
      if is_market o.order_type
      then some (invalid_order_combination, b)
      else (rest_order o b >>= λ b'. some (success, b'))
  | gtc ↦
      if is_market o.order_type
      then some (invalid_order_combination, b)
      else (rest_order o b >>= λ b'. some (success, b'))
  | gtd ↦ some (not_implemented, b)
  | ato ↦ some (not_implemented, b)
  | atc ↦ some (unsupported_time_in_force, b)
]

-- `InternalAddOrder` past its checks: the number, the match, the rest.
unfoldable pub place_order : Order → Book → Option (ErrorCode × Book)
unfolding settle
place_order o b = do
  (o', b') ← match_order o (record b { order_counter = add64 b.order_counter 1 })
  if o'.remaining_quantity == 0 then some (success, b') else settle o' b'

-- `InternalAddOrder`
unfoldable pub internal_add_order :
    TimeNs
    → ℕ
    → Price
    → Quantity
    → Side
    → OrderType
    → TimeInForce
    → MatchType
    → Flags
    → Book
    → Option (ErrorCode × Book)
unfolding place_order lacks_liquidity violates_post_only
internal_add_order now client price quantity side type tif match_type flags b =
    if not (is_standard match_type)
    then some (invalid_request, b)
    else if lacks_liquidity side type price quantity tif b
    then some (insufficient_liquidity, b)
    else if violates_post_only side type price flags b
    then some (post_only_violation, b)
    else place_order
        (new_order now b.order_counter client price quantity side type tif match_type flags) b

-- An order that shrinks keeps its place; the difference that `update_quantity` returns is taken
-- off the level's volume.
unfoldable pub shrink_order : ℕ → OrderEntry → Level → Order → Quantity → Book → Book
shrink_order id e l o new_quantity b =
    let (o', diff) = update_quantity new_quantity o in
    with_levels e.level_side
      (set_level e.level_price
        (record l {
          volume = if is_visible o.flags then sub64 l.volume diff else l.volume;
          orders = set_order e.list_it o' l.orders;
        })
        (levels e.level_side b))
      b

-- The code of the inner call becomes `invalid_modify`, unless it is a success.
abbrev pub as_modify : ErrorCode × Book → ErrorCode × Book
as_modify (success, b) = (success, b)
as_modify (_, b) = (invalid_modify, b)

-- An order that moves or grows is cancelled and added anew.
unfoldable pub replace_order :
    TimeNs → ℕ → ℕ → Order → Price → Quantity → Book → Option (ErrorCode × Book)
unfolding internal_add_order
replace_order now client id o new_price new_quantity b = do
  (code, b') ← internal_cancel_order client id b
  elim code [
    | success ↦ do
      r ←
          internal_add_order now client new_price new_quantity o.side o.order_type o.tif
            o.match_type o.flags b'
      some (as_modify r)
    | _ ↦ some (invalid_modify, b')
  ]

-- `InternalModifyOrder`
unfoldable pub internal_modify_order :
    TimeNs → ℕ → ℕ → Price → Quantity → Book → Option (ErrorCode × Book)
unfolding replace_order shrink_order
internal_modify_order now client id new_price new_quantity b = elim (lookup_entry id b.index) [
  | none ↦ some (invalid_modify, b)
  | some e ↦ do
    l ← find_level e.level_price (levels e.level_side b)
    o ← find_order e.list_it l.orders
    if not (o.client_id == client)
        then some (unauthorized, b)
        else if not (eqb_ℤ new_price o.price) || ltb o.remaining_quantity new_quantity
        then replace_order now client id o new_price new_quantity b
        else if ltb new_quantity o.remaining_quantity
        then some (success, shrink_order id e l o new_quantity b)
        else some (success, b)
]
