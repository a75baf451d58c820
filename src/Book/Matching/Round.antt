-- ===== src/Book/Matching/Round.antt =====
-- One round of `PriceTimePriority::Match` on a well-formed book.
use hermes_orderbook.Prelude.{
  ℕ, ◌-◌, ◌≤◌, ◌≡◌, refl, sym, ap, subst, false, List, ◌∷◌, some, is_empty, arith, inl, inr,
  Bool-cases, ◌==◌, min, ◌&&◌, sub64, ltb, length, eqb_ℤ_refl,
}
use hermes_orderbook.Core.Types.{Price, Quantity, Side, buy, sell, MatchType}
use hermes_orderbook.Core.Order.{Order, fill}
use hermes_orderbook.Book.Levels.{Level, find_level, set_level}
use hermes_orderbook.Book.State.{Book, levels, with_levels, max_events}
use hermes_orderbook.Book.Operations.{charge_level, record_trade, record_fill}
use hermes_orderbook.Book.Matching.{set_front}
use hermes_orderbook.Book.View.Sides.{levels-with_self, with_levels-twice, SameLog}

-- The order after a fill that it has room for.
abbrev pub less : Quantity → Order → Order
less q o = record o { remaining_quantity = o.remaining_quantity - q }

pub fill-eq : (q : ℕ) (o : Order) → q ≤ o.remaining_quantity → fill q o ≡ less q o
unfolding fill
fill-eq q o h = ground arith

pub levels-record_trade :
    (t : Side) (maker taker : ℕ) (p : Price) (q : ℕ) (s : Side) (mt : MatchType) (b : Book)
    → levels t (record_trade maker taker p q s mt b) ≡ levels t b
unfolding levels record_trade
levels-record_trade buy maker taker p q s mt b = ground arith
levels-record_trade sell maker taker p q s mt b = ground arith

pub index-record_trade :
    (maker taker : ℕ) (p : Price) (q : ℕ) (s : Side) (mt : MatchType) (b : Book)
    → ((record_trade maker taker p q s mt b).index ≡ b.index)
      × ((record_trade maker taker p q s mt b).order_counter ≡ b.order_counter)
      × ((record_trade maker taker p q s mt b).market_state ≡ b.market_state)
unfolding record_trade
index-record_trade maker taker p q s mt b = ground arith

-- The scratch and the counter of trades do not depend on the sides.
pub record_trade-log :
    (maker taker : ℕ) (p : Price) (q : ℕ) (s : Side) (mt : MatchType) (b b' : Book)
    → SameLog b b'
    → ((record_trade maker taker p q s mt b').scratch
        ≡ (record_trade maker taker p q s mt b).scratch)
      × ((record_trade maker taker p q s mt b').trade_counter
          ≡ (record_trade maker taker p q s mt b).trade_counter)
unfolding record_trade
record_trade-log maker taker p q s mt b b' e =
    rw (e.scratch, e.trade_counter)
      (elim (Bool-cases (ltb (length b.scratch) max_events)) [
        | inl h ↦ rw h (refl, refl)
        | inr h ↦ rw h (refl, refl)
      ])

find_level-front : (l : Level) (ls : List Level) → find_level l.price (l ∷ ls) ≡ some l
unfolding find_level
find_level-front l ls = rw (eqb_ℤ_refl l.price)

set_level-front :
    (p : Price) (l l' : Level) (ls : List Level) → l.price ≡ p → set_level p l' (l ∷ ls) ≡ l' ∷ ls
unfolding set_level
set_level-front p l l' ls e = rw (e, eqb_ℤ_refl p)

charge_level-front :
    (s : Side) (q : ℕ) (l : Level) (o : Order) (os : List Order) (ls : List Level) (b : Book)
    → l.orders ≡ o ∷ os
    → charge_level s l.price q (with_levels s (l ∷ ls) b)
      ≡ with_levels s (record l { volume = sub64 l.volume q } ∷ ls) b
unfolding charge_level
charge_level-front s q l o os ls b h =
    let busy : (sub64 l.volume q == 0 && is_empty l.orders) ≡ false = ground arith in
    rw (
      charge_level,
      levels-with_self,
      find_level-front,
      busy,
      levels-with_self,
      set_level-front l.price l _ ls refl,
      with_levels-twice,
    )

set_front-cons :
    (o o' : Order) (os : List Order) (ms : List Level) (l : Level) (ls : List Level)
    → ms ≡ l ∷ ls
    → l.orders ≡ o' ∷ os
    → set_front o ms ≡ record l { orders = o ∷ os } ∷ ls
unfolding set_front
set_front-cons o o' os ms l ls f h = rw (f, set_front) (rw h refl)

module _ (order top : Order) where
  abbrev pub dealt : Quantity
  dealt = min order.remaining_quantity top.remaining_quantity

  abbrev pub logged : Book → Book
  logged = record_trade order.client_id top.client_id top.price dealt top.side order.match_type

-- A round with `top`, the first order of the first level on the other side: the book after the
-- fills and `RecordFill`.
module _ (order top : Order) (os : List Order) (l : Level) (ls : List Level) (b : Book) where
  abbrev quantity : Quantity
  quantity = dealt order top

  abbrev pub filled_book : Book
  filled_book = logged order top (
      with_levels top.side
        (record l { volume = sub64 l.volume quantity; orders = less quantity top ∷ os } ∷ ls) b)

  pub record_fill-front :
      l.orders ≡ top ∷ os
      → top.price ≡ l.price
      → levels top.side b ≡ l ∷ ls
      → record_fill order.client_id top.client_id top.price quantity top.side order.match_type
          (with_levels top.side (set_front (less quantity top) (levels top.side b)) b)
        ≡ filled_book
  unfolding record_fill
  record_fill-front h e f =
      rw (set_front-cons (less quantity top) top os (levels top.side b) l ls f h) (
        ap (logged order top) (
          subst
            (λ p.
              charge_level top.side p quantity
                (with_levels top.side (record l { orders = less quantity top ∷ os } ∷ ls) b)
              ≡ with_levels top.side
                  (record l { volume = sub64 l.volume quantity; orders = less quantity top ∷ os }
                    ∷ ls)
                  b)
            (sym e)
            (charge_level-front top.side quantity (record l { orders = less quantity top ∷ os })
              (less quantity top) os ls b refl)))
