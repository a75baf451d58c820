-- ===== src/Book/Apply/Overflow.antt =====
-- `Handle(Commands::Add)` for an order that strikes as many deals as the scratch has slots.
use hermes_orderbook.Prelude.{◌≤◌, ◌≡◌, ap, true, false, [], none, arith, length}
use hermes_orderbook.Core.Types.{TimeNs, opposite, is_post_only, is_fok, is_standard}
use hermes_orderbook.Core.Order.{Order, new_order}
use hermes_orderbook.Core.Messages.{AddCommand, add, Event}
use hermes_orderbook.Book.State.{Book, max_events}
use hermes_orderbook.Book.Operations.{push_event}
use hermes_orderbook.Book.Matching.Consume.{deals}
use hermes_orderbook.Book.Matching.Log.{length-log_deals}
use hermes_orderbook.Book.Commands.{
  internal_add_order, place_order, lacks_liquidity, violates_post_only,
}
use hermes_orderbook.Book.Commands.Place.{Placed, placed}
use hermes_orderbook.Book.Apply.{apply, handle_add}
use hermes_orderbook.Book.Apply.Valid.{cleared}
use hermes_orderbook.Book.View.{orders_of, orders_on, IsValid}
use hermes_orderbook.Book.View.Sides.{scratch-SameOrders, SameOrders-IsValid, SameOrders}

-- The order that a command makes.
abbrev pub order_of : TimeNs → AddCommand → Book → Order
order_of now c b =
    new_order now b.order_counter c.client_id c.price c.quantity c.side c.order_type c.tif
      c.match_type c.flags

push_event-full : (e : Event) (b : Book) → length b.scratch ≡ max_events → push_event e b ≡ none
unfolding push_event
push_event-full e b h = ground arith

plain-run :
    (now : TimeNs) (c : AddCommand) (b : Book)
    → is_standard c.match_type ≡ true
    → is_fok c.tif ≡ false
    → is_post_only c.flags ≡ false
    → internal_add_order now c.client_id c.price c.quantity c.side c.order_type c.tif c.match_type
        c.flags b
      ≡ place_order (order_of now c b) b
unfolding internal_add_order lacks_liquidity violates_post_only
plain-run now c b h k m = ground arith

-- On a well-formed book, an order of the standard match type that is neither fill-or-kill nor
-- post-only and that strikes 128 deals or more fills the scratch with its trades, and the event after
-- them is written past its end, which has no defined result.
pub apply-overflows :
    (now : TimeNs) (c : AddCommand) (b : Book)
    → IsValid b
    → is_standard c.match_type ≡ true
    → is_fok c.tif ≡ false
    → is_post_only c.flags ≡ false
    → max_events ≤ length (deals (order_of now c b) (orders_on (opposite c.side) b))
    → apply now (add c) b ≡ none
unfolding apply handle_add
apply-overflows now c b v h k m many =
    let o = order_of now c b in
    let same : SameOrders b (cleared b) = scratch-SameOrders [] b in
    let p : Placed o (cleared b) (place_order o (cleared b)) =
      placed o (cleared b) (SameOrders-IsValid same v) in
    let full : length p.after.scratch ≡ max_events = omega (
      arith,
      ap length p.log.scratch,
      length-log_deals (deals o (orders_on (opposite c.side) (cleared b))) (cleared b)
          (omega arith),
      ap (λ ls. length (deals o (orders_of ls))) (same.sides (opposite c.side)),
    ) in
    rw (plain-run now c (cleared b) h k m, p.run) (push_event-full _ p.after full)
