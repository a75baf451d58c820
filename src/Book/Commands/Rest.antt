-- ===== src/Book/Commands/Rest.antt =====
-- `InternalAddOrder` and `InternalModifyOrder` on a well-formed book: an order comes to rest, or
-- shrinks where it rests.
use hermes_orderbook.Prelude.{
  ℕ, ◌≡◌, refl, sym, subst, ◌∙◌, false, List, [], ◌∷◌, ◌++◌, some, if◌then◌else◌, is_empty, sub64,
  append_assoc,
}
use hermes_orderbook.Core.Types.{Quantity, opposite, is_visible}
use hermes_orderbook.Core.Order.{Order, update_quantity}
use hermes_orderbook.Book.Levels.{Level, find_order, set_order}
use hermes_orderbook.Book.State.{Book, levels, with_levels, emplace_entry}
use hermes_orderbook.Book.Commands.{with_back, rest_order, shrink_order}
use hermes_orderbook.Book.Commands.Slot.{Slot, slot, enqueue, enqueue-slot}
use hermes_orderbook.Book.View.{orders_of, orders_on, SideIsValid, entry_of, IsValidBelow}
use hermes_orderbook.Book.View.Orders.{AllAt-snoc, AllAt-set, is_empty-set, is_empty-found}
use hermes_orderbook.Book.View.Levels.{
  Located, find_level-split, set_level-split, orders_of-append, SideIsValid-replace,
  orders_of-rewritten,
}
use hermes_orderbook.Book.View.Index.Rewrite.{Rewrites}
use hermes_orderbook.Book.View.Index.Insert.{Inserts}
use hermes_orderbook.Book.View.Sides.{
  levels-with_self, levels-with_other, levels-index, index-with, SameRest, with_levels-SameRest,
}

is_empty-snoc : (os : List Order) (o : Order) → is_empty (os ++ (o ∷ [])) ≡ false
is_empty-snoc [] o = refl
is_empty-snoc (x ∷ os) o = refl

-- An order that comes to rest.
pub record Rests (o : Order) (b : Book) : Type 0 where
  pub after : Book
  pub run : rest_order o b ≡ some after
  pub inserts : Inserts o.side o b after
  pub queue : orders_on o.side after ≡ enqueue o.side o (orders_on o.side b)
  pub rest : SameRest b after

module _ {n : ℕ} {b : Book} (v : IsValidBelow n b) (o : Order) where
  abbrev place : Slot o.side o.price (levels o.side b)
  place = slot o.side o.price (levels o.side b) (v.side_valid o.side)

  abbrev rested : Book
  rested =
      with_levels o.side (place.pre ++ (with_back o place.level ∷ place.post))
        (record b { index = emplace_entry o.order_id (entry_of o) b.index })

  rest_order-run : rest_order o b ≡ some rested
  unfolding rest_order
  rest_order-run = rw (
    place.emplaced,
    find_level-split o.price place.pre place.post place.level place.others place.price,
    set_level-split o.price place.pre place.post place.level (with_back o place.level) place.others
        place.price,
  )

  rested-view :
      orders_on o.side rested
      ≡ orders_of place.pre ++ ((place.level.orders ++ (o ∷ [])) ++ orders_of place.post)
  rested-view = rw levels-with_self (orders_of-append place.pre _)

  rested-rest : SameRest b rested
  rested-rest =
      let r =
        with_levels-SameRest o.side (place.pre ++ (with_back o place.level ∷ place.post))
          (record b { index = emplace_entry o.order_id (entry_of o) b.index }) in
      record {
        scratch = r.scratch;
        order_counter = r.order_counter;
        trade_counter = r.trade_counter;
        market_state = r.market_state;
      }

  pub rests : Rests o b
  rests = record {
    after = rested;
    run = rest_order-run;
    inserts = record {
      front = orders_of place.pre ++ place.level.orders;
      back = orders_of place.post;
      side = refl;
      near = levels-with_other o.side _ _ ∙ levels-index (opposite o.side) _ b;
      old = place.old ∙ sym (append_assoc (orders_of place.pre) place.level.orders _);
      far = rested-view ∙ simp append_assoc;
      far_valid = rw levels-with_self (
          place.valid (with_back o place.level) place.price (is_empty-snoc place.level.orders o)
            (AllAt-snoc o.side o.price place.level.orders o place.level_all refl refl));
      index = index-with o.side _ _;
    };
    queue = rested-view ∙ sym (enqueue-slot o.side o (levels o.side b) place);
    rest = rested-rest;
  }

-- An order that shrinks in its place.
pub record Shrinks (o : Order) (q : Quantity) (b after : Book) : Type 0 where
  pub rewrites : Rewrites o.side o (record o { remaining_quantity = q }) b after
  pub rest : SameRest b after

module _ {n : ℕ} {b : Book} (v : IsValidBelow n b) (o : Order) (q : Quantity)
    (r : Located o.side (levels o.side b) o.order_id o)
    (found : find_order o.order_id (orders_on o.side b) ≡ some o) where
  abbrev pub small : Order
  small = record o { remaining_quantity = q }

  abbrev pub level' : Level
  level' = record (r.level) {
    volume =
        if is_visible o.flags
        then sub64 r.level.volume (sub64 q o.remaining_quantity)
        else r.level.volume;
    orders = set_order o.order_id small r.level.orders;
  }

  pub shrink_order-eq :
      shrink_order o.order_id (entry_of o) r.level o q b
      ≡ with_levels o.side (r.pre ++ (level' ∷ r.post)) b
  unfolding shrink_order update_quantity
  shrink_order-eq =
      rw (r.split, set_level-split o.price r.pre r.post r.level level' r.others r.price)

  level'-valid : SideIsValid o.side (r.pre ++ (level' ∷ r.post))
  level'-valid =
      SideIsValid-replace o.side r.pre r.post r.level level' refl
        (is_empty-set o.order_id small r.level.orders
          ∙ is_empty-found o.order_id r.level.orders o r.held)
        (AllAt-set o.side r.level.price o.order_id small r.level.orders refl (sym r.price)
          r.level_all)
        (subst (SideIsValid o.side) r.split (v.side_valid o.side))

  pub shrinks : Shrinks o q b (shrink_order o.order_id (entry_of o) r.level o q b)
  shrinks = rw shrink_order-eq (record {
    rewrites = record {
      found = found;
      same_entry = refl;
      near = levels-with_other o.side _ b;
      far =
          rw (levels-with_self, orders_of-append r.pre (level' ∷ r.post))
            (orders_of-rewritten r small);
      far_valid = rw levels-with_self level'-valid;
      index = index-with o.side _ b;
    };
    rest = with_levels-SameRest o.side _ b;
  })
