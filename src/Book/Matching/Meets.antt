-- ===== src/Book/Matching/Meets.antt =====
-- One round of `PriceTimePriority::Match` on a well-formed book: what it leaves.
use hermes_orderbook.Prelude.{
  ℕ, ◌≡◌, refl, sym, subst, ◌∙◌, List, ◌∷◌, ◌++◌, some, if◌then◌else◌, arith, inl, inr, Bool-cases,
  ◌>>=◌, sub64,
}
use hermes_orderbook.Core.Types.{opposite}
use hermes_orderbook.Core.Order.{Order, is_filled}
use hermes_orderbook.Book.Levels.{Level, find_order, set_order, erase_order}
use hermes_orderbook.Book.State.{Book, levels}
use hermes_orderbook.Book.Operations.{internal_cancel_order}
use hermes_orderbook.Book.Operations.Cancel.{Cancels, cancels}
use hermes_orderbook.Book.Matching.{trade_with}
use hermes_orderbook.Book.Matching.Round.{
  less, fill-eq, levels-record_trade, index-record_trade, record_trade-log, dealt, filled_book,
  logged, record_fill-front,
}
use hermes_orderbook.Book.View.{orders_of, orders_on, SideIsValid, AllAt, IsValidBelow}
use hermes_orderbook.Book.View.Index.Erase.{Erases-IsValid}
use hermes_orderbook.Book.View.Index.Rewrite.{Rewrites, Rewrites-IsValid}
use hermes_orderbook.Book.View.Sides.{
  levels-with_self, levels-with_other, index-with, with_levels-SameRest, SameRest-SameLog, SameLog,
}

find_order-head : (o : Order) (os : List Order) → find_order o.order_id (o ∷ os) ≡ some o
unfolding find_order
find_order-head o os = ground arith

set_order-head : (o o' : Order) (os : List Order) → set_order o.order_id o' (o ∷ os) ≡ o' ∷ os
unfolding set_order
set_order-head o o' os = ground arith

erase_order-head : (o : Order) (os : List Order) → erase_order o.order_id (o ∷ os) ≡ os
unfolding erase_order
erase_order-head o os = ground arith

-- The book and the taker after a round with `top`, behind which `rest` waits.
pub record Met (n : ℕ) (order top : Order) (rest : List Order) (b : Book) : Type 0 where
  pub after : Book
  pub valid : IsValidBelow n after
  pub run : trade_with order top b ≡ some (less (dealt order top) order, after)
  pub near : levels (opposite top.side) after ≡ levels (opposite top.side) b
  pub far :
      orders_on top.side after
      ≡ (if is_filled (less (dealt order top) top) then rest else less (dealt order top) top ∷ rest)
  pub counter : after.order_counter ≡ b.order_counter
  pub state : after.market_state ≡ b.market_state
  pub log : SameLog (logged order top b) after

module _ {n : ℕ} {b : Book} (v : IsValidBelow n b) (order top : Order) (os : List Order) (l : Level)
    (ls : List Level) (h : l.orders ≡ top ∷ os) (f : levels top.side b ≡ l ∷ ls) where
  abbrev pub top' : Order
  top' = less (dealt order top) top

  abbrev pub filled : Book
  filled = filled_book order top os l ls b

  front_valid : SideIsValid top.side (l ∷ ls)
  front_valid = subst (SideIsValid top.side) f (v.side_valid top.side)

  pub front_all : AllAt top.side l.price (top ∷ os)
  front_all = subst (AllAt top.side l.price) h front_valid.2

  view : orders_on top.side b ≡ top ∷ (os ++ orders_of ls)
  view = rw (f, h)

  pub filled-far :
      levels top.side filled
      ≡ record l { volume = sub64 l.volume (dealt order top); orders = top' ∷ os } ∷ ls
  filled-far = levels-record_trade top.side _ _ _ _ _ _ _ ∙ levels-with_self top.side _ b

  filled-Rewrites : Rewrites top.side top top' b filled
  filled-Rewrites = record {
    found = rw view (find_order-head top (os ++ orders_of ls));
    same_entry = refl;
    near = levels-record_trade (opposite top.side) _ _ _ _ _ _ _ ∙ levels-with_other top.side _ b;
    far = rw (view, filled-far) (sym (set_order-head top top' (os ++ orders_of ls)));
    far_valid =
        rw filled-far (front_valid.0, refl, (refl, front_all.1, front_all.2), front_valid.3);
    index = (index-record_trade _ _ _ _ _ _ _).0 ∙ index-with top.side _ b;
  }

  filled-log :
      (filled.scratch ≡ (logged order top b).scratch)
      × (filled.trade_counter ≡ (logged order top b).trade_counter)
  filled-log =
      record_trade-log _ _ _ _ _ _ b _ (SameRest-SameLog (with_levels-SameRest top.side _ b))

  filled-IsValid : IsValidBelow n filled
  filled-IsValid = Rewrites-IsValid v filled-Rewrites

  pub trade_with-eq :
      opposite order.side ≡ top.side
      → trade_with order top b ≡ (
          if is_filled top'
          then (internal_cancel_order top.client_id top.order_id filled >>= λ r.
              some (less (dealt order top) order, r.1))
          else some (less (dealt order top) order, filled))
  unfolding trade_with
  trade_with-eq e = rw (
    trade_with,
    fill-eq (dealt order top) order (omega arith),
    fill-eq (dealt order top) top (omega arith),
    e,
    record_fill-front order top os l ls b h front_all.1 f,
  )

  pub met : opposite order.side ≡ top.side → Met n order top (os ++ orders_of ls) b
  met e = elim (Bool-cases (is_filled top')) [
    | inr part ↦ record {
      after = filled;
      valid = filled-IsValid;
      run = trade_with-eq e ∙ rw part;
      near = filled-Rewrites.near;
      far = rw (part, filled-far);
      counter =
          (index-record_trade _ _ _ _ _ _ _).1 ∙ (with_levels-SameRest top.side _ b).order_counter;
      state =
          (index-record_trade _ _ _ _ _ _ _).2 ∙ (with_levels-SameRest top.side _ b).market_state;
      log = record { scratch = filled-log.0; trade_counter = filled-log.1 };
    }
    | inl whole ↦
        let c : Cancels top.side top' top.client_id filled =
          cancels filled-IsValid top.side top' top.client_id
            (rw filled-far (find_order-head top' (os ++ orders_of ls))) in
        record {
          after = c.after;
          valid = Erases-IsValid filled-IsValid c.erases;
          run = trade_with-eq e ∙ rw (whole, c.owned refl);
          near = c.erases.near ∙ filled-Rewrites.near;
          far =
              rw whole (c.erases.far ∙ rw filled-far (erase_order-head top' (os ++ orders_of ls)));
          counter =
              c.rest.order_counter
              ∙ (index-record_trade _ _ _ _ _ _ _).1
              ∙ (with_levels-SameRest top.side _ b).order_counter;
          state =
              c.rest.market_state
              ∙ (index-record_trade _ _ _ _ _ _ _).2
              ∙ (with_levels-SameRest top.side _ b).market_state;
          log = record {
            scratch = c.rest.scratch ∙ filled-log.0;
            trade_counter = c.rest.trade_counter ∙ filled-log.1;
          };
        }
  ]
