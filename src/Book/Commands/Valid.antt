-- ===== src/Book/Commands/Valid.antt =====
-- `InternalAddOrder` on a well-formed book, and what a command's operation is to keep.
use hermes_orderbook.Prelude.{
  ℕ, suc, ◌+◌, ◌≡◌, ◌<◌, ◌≤◌, ◌^◌, refl, ap, subst, List, [], ◌∷◌, Option, some, arith, inl, inr,
  Bool-cases, not, length, min,
}
use hermes_orderbook.Core.Types.{
  Price, Quantity, TimeNs, Side, opposite, OrderType, TimeInForce, MatchType, is_standard, Flags,
}
use hermes_orderbook.Core.Order.{Order, new_order}
use hermes_orderbook.Core.Messages.{
  ErrorCode, invalid_request, insufficient_liquidity, post_only_violation,
}
use hermes_orderbook.Book.Levels.{erase_order}
use hermes_orderbook.Book.State.{Book, max_events}
use hermes_orderbook.Book.Commands.{
  lacks_liquidity, violates_post_only, place_order, internal_add_order,
}
use hermes_orderbook.Book.Commands.Place.{Placed, placed}
use hermes_orderbook.Book.Matching.Log.{length-deals, length-log_deals}
use hermes_orderbook.Book.Matching.Consume.{deals}
use hermes_orderbook.Book.Commands.Uncrossed.{Placed-IsUncrossed}
use hermes_orderbook.Book.View.Uncrossed.{IsUncrossed}
use hermes_orderbook.Book.View.{orders_on, IsValid, IsValidBelow}

-- A result, with a book that is well-formed and at most `k` events, as far as the scratch goes.
pub record Keeps (k : ℕ) (b : Book) (result : Option (ErrorCode × Book)) : Type 0 where
  pub code : ErrorCode
  pub after : Book
  pub run : result ≡ some (code, after)
  pub valid : IsValid after
  pub few : length after.scratch ≤ min max_events k
  pub state : after.market_state ≡ b.market_state
  pub counter : after.order_counter ≤ suc b.order_counter
  pub uncrossed : IsUncrossed b → IsUncrossed after

-- What the commands rely on: a book at the start of `Apply` with at most `k` orders on a side, and a
-- number that is not the last.
pub record Ready (k : ℕ) (b : Book) : Type 0 where
  pub valid : IsValid b
  pub clear : b.scratch ≡ []
  pub small : (s : Side) → length (orders_on s b) ≤ k
  pub room : b.order_counter + 1 < 2 ^ 64

pub length-erase_order : (id : ℕ) (os : List Order) → length (erase_order id os) ≤ length os
unfolding erase_order
length-erase_order id [] = omega arith
length-erase_order id (o ∷ os) = ground (arith, length-erase_order id os)

module _ {k : ℕ} {b : Book} (r : Ready k b) where
  pub stay :
      (code : ErrorCode) (result : Option (ErrorCode × Book))
      → result ≡ some (code, b)
      → Keeps k b result
  stay code result e = record {
    code = code;
    after = b;
    run = e;
    valid = r.valid;
    few = rw r.clear (omega arith);
    state = refl;
    counter = omega arith;
    uncrossed = λ u. u;
  }

  place-Keeps : (o : Order) → b.order_counter ≡ o.order_id → Keeps k b (place_order o b)
  place-Keeps o e =
      let p : Placed o b (place_order o b) = placed o b (subst (λ n. IsValidBelow n b) e r.valid) in
      let next : suc o.order_id ≡ p.after.order_counter = omega (arith, p.counter, r.room) in
      record {
        code = _;
        after = p.after;
        run = p.run;
        valid = subst (λ n. IsValidBelow n p.after) next p.valid;
        few = rw p.log.scratch (
            omega (
              arith,
              length-log_deals (deals o (orders_on (opposite o.side) b)) b
                  (rw r.clear (omega arith)),
              ap length r.clear,
              length-deals o (orders_on (opposite o.side) b),
              r.small (opposite o.side),
            ));
        state = p.state;
        counter = omega (arith, p.counter);
        uncrossed = Placed-IsUncrossed p;
      }

  module _ (now : TimeNs) (client : ℕ) (price : Price) (quantity : Quantity) (side : Side)
      (type : OrderType) (tif : TimeInForce) (mt : MatchType) (flags : Flags) where
    pub add-Keeps :
        Keeps k b (internal_add_order now client price quantity side type tif mt flags b)
    unfolding internal_add_order
    add-Keeps = elim (Bool-cases (not (is_standard mt))) [
      | inl e ↦ stay invalid_request _ (rw e)
      | inr e ↦ elim (Bool-cases (lacks_liquidity side type price quantity tif b)) [
        | inl e' ↦ stay insufficient_liquidity _ (rw (e, e'))
        | inr e' ↦ elim (Bool-cases (violates_post_only side type price flags b)) [
          | inl e'' ↦ stay post_only_violation _ (rw (e, e', e''))
          | inr e'' ↦
              rw (e, e', e'')
                (place-Keeps
                  (new_order now b.order_counter client price quantity side type tif mt flags) refl)
        ]
      ]
    ]
