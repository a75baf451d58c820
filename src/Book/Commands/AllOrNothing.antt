-- ===== src/Book/Commands/AllOrNothing.antt =====
-- Fill-or-kill and post-only orders, from `InternalAddOrder` on.
use hermes_orderbook.Prelude.{
  ℕ, ◌≡◌, ◌<◌, ◌≤◌, ◌^◌, refl, sym, ap, subst, ◌∙◌, true, false, List, [], ◌∷◌, arith, Option, some,
  if◌then◌else◌,
}
use hermes_orderbook.Core.Types.{
  Price, Quantity, TimeNs, Side, opposite, OrderType, limit, TimeInForce, fok, MatchType, Flags,
  is_post_only,
}
use hermes_orderbook.Core.Order.{Order, new_order}
use hermes_orderbook.Core.Messages.{ErrorCode}
use hermes_orderbook.Book.Levels.{Level}
use hermes_orderbook.Book.State.{Book, levels}
use hermes_orderbook.Book.Commands.{
  liquidity, lacks_liquidity, touches, violates_post_only, place_order, internal_add_order,
}
use hermes_orderbook.Book.Commands.Refused.{Refused, add_cases}
use hermes_orderbook.Book.Commands.Slot.{enqueue}
use hermes_orderbook.Book.Commands.Checks.{AllOrNothing, nothing, fok_placed, Refused-lacks}
use hermes_orderbook.Book.Commands.Liquidity.{IsExact}
use hermes_orderbook.Book.Commands.Place.{Placed, placed, place_code, stays}
use hermes_orderbook.Book.Matching.{stops, outside}
use hermes_orderbook.Book.Matching.Consume.{consume, deals, log_deals}
use hermes_orderbook.Book.View.{orders_of, orders_on, total_remaining, SideIsValid, IsValid}

has_liquidity :
    (s : Side) (type : OrderType) (price : Price) (quantity : Quantity) (b : Book)
    → lacks_liquidity s type price quantity fok b ≡ false
    → quantity ≤ liquidity s type price quantity 0 (levels (opposite s) b)
unfolding lacks_liquidity
has_liquidity s type price quantity b h = ground arith

-- On a well-formed book whose levels on the other side state the volumes that their orders have
-- left, with a total below 2 ^ 64, a fill-or-kill order is refused with nothing changed, or it succeeds,
-- all of its quantity is taken from the other side and its own side stays as it is. The refusal has the
-- code of its reason: `invalid_request` for a match type other than standard,
-- `insufficient_liquidity` only if matching the order would leave some of it, `post_only_violation`
-- only for a post-only limit order that the other side would trade with.
pub fok-AllOrNothing :
    (now : TimeNs) (client : ℕ) (price : Price) (quantity : Quantity) (side : Side)
    (type : OrderType) (mt : MatchType) (flags : Flags) (b : Book)
    → IsValid b
    → IsExact (levels (opposite side) b)
    → total_remaining (orders_on (opposite side) b) < 2 ^ 64
    → AllOrNothing
        (new_order now b.order_counter client price quantity side type fok mt flags)
        b
        (internal_add_order now client price quantity side type fok mt flags b)
fok-AllOrNothing now client price quantity side type mt flags b v x small =
    let o = new_order now b.order_counter client price quantity side type fok mt flags in
    add_cases b v now client price quantity side type fok mt flags (AllOrNothing o b)
      (λ code why. nothing code (Refused-lacks b o code v x small why) refl)
      (λ enough _. fok_placed b v o x small (has_liquidity side type price quantity b enough) refl)

-- The outcome of the post-only order `o`: it is refused with the code of the reason and nothing
-- changed, or it meets nobody and rests if its time in force lets it.
pub data MeetsNobody (o : Order) (b : Book) (result : Option (ErrorCode × Book)) : Type 0 where
  refused :
      (code : ErrorCode)
      → Refused o b
          (lacks_liquidity o.side o.order_type o.price o.remaining_quantity o.tif b ≡ true)
          code
      → result ≡ some (code, b)
      → MeetsNobody o b result
  unmatched :
      (after : Book)
      → consume o (orders_on (opposite o.side) b) ≡ (o, orders_on (opposite o.side) b)
      → result ≡ some (place_code o, after)
      → orders_on (opposite o.side) after ≡ orders_on (opposite o.side) b
      → orders_on o.side after
        ≡ (if stays o then enqueue o.side o (orders_on o.side b) else orders_on o.side b)
      → after.scratch ≡ b.scratch
      → MeetsNobody o b result

stops_at_once :
    (t : Order) (queue : List Order)
    → ((m : Order) (rest : List Order) → queue ≡ m ∷ rest → stops t m ≡ true)
    → (consume t queue ≡ (t, queue)) × (deals t queue ≡ [])
unfolding consume deals
stops_at_once t [] h = (refl, refl)
stops_at_once t (m ∷ queue) h = let stop = h m queue refl in ground arith

untouched_stops :
    (s : Side) (t : Order) (ls : List Level)
    → SideIsValid s ls
    → t.order_type ≡ limit
    → touches t.side t.price ls ≡ false
    → (m : Order) (rest : List Order) → orders_of ls ≡ m ∷ rest
    → stops t m ≡ true
unfolding touches stops
untouched_stops s t [] v e h m rest f = absurd (cc)
untouched_stops s t (l ∷ ls) v e h m rest f = go l.orders refl
  where
    go : (os : List Order) → l.orders ≡ os → stops t m ≡ true
    go [] g = absurd (ground arith)
    go (o ∷ os) g =
        let first : o.price ≡ l.price = ground arith in
        let same : m.price ≡ o.price = ground arith in
        let at : outside t.side t.price m.price ≡ true =
          subst (λ q. outside t.side t.price q ≡ true) (sym (same ∙ first)) (ground arith) in
        rw (at, e)

untouched :
    (side : Side) (price : Price) (flags : Flags) (b : Book)
    → is_post_only flags ≡ true
    → violates_post_only side limit price flags b ≡ false
    → touches side price (levels (opposite side) b) ≡ false
unfolding violates_post_only
untouched side price flags b post free = ground arith

log_none : (b : Book) → log_deals [] b ≡ b
unfolding log_deals
log_none b = refl

-- A post-only limit order on a well-formed book trades with nobody. It is refused with nothing changed
-- and the code of the reason: `post_only_violation` only if the first order of the other side would
-- trade with it, `invalid_request` for a match type other than standard, `insufficient_liquidity` only
-- for a fill-or-kill order. Or the other side and the events stay as they are, matching would take
-- nothing, and the order joins its side's queue if its time in force lets it rest, with the code that
-- this has.
pub post_only-MeetsNobody :
    (now : TimeNs) (client : ℕ) (price : Price) (quantity : Quantity) (side : Side)
    (tif : TimeInForce) (mt : MatchType) (flags : Flags) (b : Book)
    → IsValid b
    → is_post_only flags ≡ true
    → MeetsNobody
        (new_order now b.order_counter client price quantity side limit tif mt flags)
        b
        (internal_add_order now client price quantity side limit tif mt flags b)
post_only-MeetsNobody now client price quantity side tif mt flags b v post =
    add_cases b v now client price quantity side limit tif mt flags (MeetsNobody o b)
      (λ code why. refused code why refl) (λ _ free. go free)
  where
    o : Order
    o = new_order now b.order_counter client price quantity side limit tif mt flags

    p : Placed o b (place_order o b)
    p = placed o b v

    go : violates_post_only side limit price flags b ≡ false → MeetsNobody o b (place_order o b)
    go free =
        let stop =
          untouched_stops (opposite side) o (levels (opposite side) b)
            (v.side_valid (opposite side)) refl (untouched side price flags b post free) in
        let idle = stops_at_once o (orders_on (opposite side) b) stop in
        unmatched p.after idle.0 (p.run ∙ rw idle.0 refl) (p.far ∙ ap (λ c. c.1) idle.0)
          (p.near ∙ rw idle.0 refl)
          (p.log.scratch
            ∙ ap (λ ds. (log_deals ds b).scratch) idle.1
            ∙ ap (λ c. c.scratch) (log_none b))
