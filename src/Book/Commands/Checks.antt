-- ===== src/Book/Commands/Checks.antt =====
-- What the fill-or-kill check of `InternalAddOrder` means: an order that passes it is filled.
use hermes_orderbook.Prelude.{
  ◌+◌, ◌≡◌, ◌<◌, ◌≤◌, ◌^◌, refl, ap, subst, ◌∙◌, true, arith, Option, some, dec_lt,
}
use hermes_orderbook.Core.Types.{opposite}
use hermes_orderbook.Core.Order.{Order}
use hermes_orderbook.Core.Messages.{ErrorCode, success}
use hermes_orderbook.Book.State.{Book, levels}
use hermes_orderbook.Book.Commands.{liquidity, lacks_liquidity, place_order}
use hermes_orderbook.Book.Commands.Liquidity.{IsExact, liquidity-fills, liquidity-lacks}
use hermes_orderbook.Book.Commands.Refused.{Refused, no_such_match, too_little, would_trade}
use hermes_orderbook.Book.Commands.Place.{Placed, placed}
use hermes_orderbook.Book.Matching.Consume.{consume}
use hermes_orderbook.Book.Matching.Facts.{consume-conserves, total_dealt-deals}
use hermes_orderbook.Book.View.{orders_on, total_remaining, IsValid, IsValidBelow}

-- The outcome of the fill-or-kill order `o`: it is refused with the code of the reason and nothing
-- changed, or all of it is taken from the other side and none of it rests.
pub data AllOrNothing (o : Order) (b : Book) (result : Option (ErrorCode × Book)) : Type 0 where
  nothing :
      (code : ErrorCode)
      → Refused o b (0 < (consume o (orders_on (opposite o.side) b)).0.remaining_quantity) code
      → result ≡ some (code, b)
      → AllOrNothing o b result
  everything :
      (after : Book)
      → result ≡ some (success, after)
      → total_remaining (orders_on (opposite o.side) after) + o.remaining_quantity
        ≡ total_remaining (orders_on (opposite o.side) b)
      → orders_on o.side after ≡ orders_on o.side b
      → AllOrNothing o b result

-- The reason in the code's words is the reason in terms of the queue.
pub Refused-lacks :
    (b : Book) (o : Order) (code : ErrorCode)
    → IsValid b
    → IsExact (levels (opposite o.side) b)
    → total_remaining (orders_on (opposite o.side) b) < 2 ^ 64
    → Refused o b
        (lacks_liquidity o.side o.order_type o.price o.remaining_quantity o.tif b ≡ true)
        code
    → Refused o b (0 < (consume o (orders_on (opposite o.side) b)).0.remaining_quantity) code
Refused-lacks b o code v x small (no_such_match e) = no_such_match e
Refused-lacks b o code v x small (would_trade l p m) = would_trade l p m
Refused-lacks b o code v x small (too_little k h) = too_little k (
    liquidity-lacks (levels (opposite o.side) b) o o.remaining_quantity 0
      (v.side_valid (opposite o.side)) x (omega arith) (omega arith)
      (unfold lacks_liquidity in ground arith))

module _ (b : Book) (v : IsValid b) (o : Order) (x : IsExact (levels (opposite o.side) b))
    (small : total_remaining (orders_on (opposite o.side) b) < 2 ^ 64)
    (h : o.remaining_quantity
      ≤ liquidity o.side o.order_type o.price o.remaining_quantity 0
          (levels (opposite o.side) b)) where
  fok_filled : (consume o (orders_on (opposite o.side) b)).0.remaining_quantity ≡ 0
  fok_filled = elim (dec_lt 0 o.remaining_quantity) [
    | no none_asked ↦ omega (arith, total_dealt-deals o (orders_on (opposite o.side) b))
    | yes pos ↦
        liquidity-fills (opposite o.side) (levels (opposite o.side) b) o o.remaining_quantity 0
          (v.side_valid (opposite o.side)) x (omega arith) (omega arith) pos h
  ]

  pub fok_placed : b.order_counter ≡ o.order_id → AllOrNothing o b (place_order o b)
  fok_placed e =
      let p : Placed o b (place_order o b) = placed o b (subst (λ n. IsValidBelow n b) e v) in
      let queue = orders_on (opposite o.side) b in
      everything p.after (p.run ∙ rw fok_filled refl)
        (omega (arith, consume-conserves o queue, ap total_remaining p.far, fok_filled))
        (p.near ∙ rw fok_filled refl)
