-- ===== src/Book/Ledger/Match.antt =====
-- `PriceTimePriority::Match` and the volumes of the levels.
use hermes_orderbook.Prelude.{
  ℕ, zero, suc, ◌%◌, ◌^◌, ◌≤◌, ◌≡◌, refl, sym, ap, subst, ◌∙◌, List, ◌∷◌, sub64, OnSome, >>=-OnSome,
  OnSome-some, OnSome-weaken, if-both, Bool-cases, inl, inr, dec_lt, arith,
}
use hermes_orderbook.Core.Types.{opposite}
use hermes_orderbook.Core.Order.{Order, is_filled}
use hermes_orderbook.Book.Levels.{Level}
use hermes_orderbook.Book.State.{Book, levels}
use hermes_orderbook.Book.Operations.{internal_cancel_order}
use hermes_orderbook.Book.Matching.{trade_with, stops, match_loop, match_order, count_orders}
use hermes_orderbook.Book.Matching.Round.{less, dealt, levels-record_trade}
use hermes_orderbook.Book.Matching.Meets.{filled, trade_with-eq}
use hermes_orderbook.Book.Matching.Refine.{loop_filled, loop_empty, loop_stops, Front, Front-cases}
use hermes_orderbook.Book.Matching.Loop.{turn, best-Front, round-run}
use hermes_orderbook.Book.View.{SideIsValid, AllAt, IsValidBelow, total_remaining}
use hermes_orderbook.Book.Ledger.{
  AllShown, IsTrue, AllTrue, IsLedger, with_levels-IsLedger, internal_cancel_order-IsLedger,
}

-- The front of a level deals `q`.
deals-IsTrue :
    (q : ℕ) (top : Order) (os : List Order) (l : Level)
    → l.orders ≡ top ∷ os
    → q ≤ top.remaining_quantity
    → IsTrue l
    → IsTrue (record l { volume = sub64 l.volume q; orders = less q top ∷ os })
deals-IsTrue q top os l h few t =
    let shown : AllShown (top ∷ os) = subst AllShown h t.1 in
    let sum : l.volume ≡ total_remaining (top ∷ os) % 2 ^ 64 =
      t.0 ∙ ap (λ xs. total_remaining xs % 2 ^ 64) h in
    (omega (arith, shown.1), (shown.0, omega (arith, shown.1), shown.2))

module _ {n : ℕ} {b : Book} (v : IsValidBelow n b) (order top : Order) (os : List Order) (l : Level)
    (ls : List Level) (h : l.orders ≡ top ∷ os) (f : levels top.side b ≡ l ∷ ls)
    (k : IsLedger b) where
  filled-IsLedger : IsLedger (filled v order top os l ls h f)
  filled-IsLedger s =
      let ts : AllTrue (l ∷ ls) = subst AllTrue f (k top.side) in
      subst AllTrue (sym (levels-record_trade s _ _ _ _ _ _ _)) (
        with_levels-IsLedger top.side _ b
          (deals-IsTrue (dealt order top) top os l h (omega arith) ts.0, ts.1) k s)

  trade_with-IsLedger :
      opposite order.side ≡ top.side → OnSome (λ r. IsLedger r.1) (trade_with order top b)
  trade_with-IsLedger e = rw (trade_with-eq v order top os l ls h f e) (
      if-both (OnSome (λ r. IsLedger r.1)) (is_filled (less (dealt order top) top))
        (λ whole.
          >>=-OnSome (λ r. IsLedger r.1)
            (internal_cancel_order top.client_id top.order_id (filled v order top os l ls h f)) _
            λ r run.
              OnSome-some (λ r. IsLedger r.1) _ r
                (internal_cancel_order-IsLedger top.client_id top.order_id _ filled-IsLedger) run)
        (λ part. filled-IsLedger))

-- What the loop leaves: the ledger, and a taker that may only have less left.
abbrev pub Leaves : Order → Order × Book → Type 0
Leaves order r =
    IsLedger r.1 × (r.0.flags ≡ order.flags) × (r.0.remaining_quantity ≤ order.remaining_quantity)

module _ {n : ℕ} {b : Book} (v : IsValidBelow n b) (order : Order)
    (f : Front (levels (opposite order.side) b)) (k : IsLedger b) where
  turn-IsLedger : IsLedger (turn v order f).after
  turn-IsLedger =
      let valid : SideIsValid (opposite order.side) (f.level ∷ f.others) =
        subst (SideIsValid (opposite order.side)) f.split (v.side_valid (opposite order.side)) in
      let all : AllAt (opposite order.side) f.level.price (f.top ∷ f.behind) =
        subst (AllAt (opposite order.side) f.level.price) f.orders valid.2 in
      OnSome-some (λ r. IsLedger r.1) (trade_with order f.top b) _
        (trade_with-IsLedger v order f.top f.behind f.level f.others f.orders
          (subst (λ s. levels s b ≡ f.level ∷ f.others) (sym all.0) f.split) k (sym all.0))
        (turn v order f).run

match_loop-Leaves :
    {n : ℕ} (fuel : ℕ) (order : Order) (b : Book)
    → IsValidBelow n b
    → IsLedger b
    → OnSome (Leaves order) (match_loop fuel order b)
match_loop-Leaves zero order b v k = unfold match_loop in tt
match_loop-Leaves (suc fuel) order b v k =
    let same : Leaves order (order, b) = (k, refl, omega arith) in
    elim (dec_lt 0 order.remaining_quantity) [
      | no filled ↦ rw (loop_filled fuel order b (omega arith)) same
      | yes open' ↦
          elim (Front-cases (opposite order.side) (levels (opposite order.side) b)
            (v.side_valid (opposite order.side))) [
              | inl none_there ↦ rw (loop_empty fuel order b open' none_there) same
              | inr f ↦ elim (Bool-cases (stops order f.top)) [
                | inl stop ↦ rw (loop_stops fuel order b f.top (best-Front _ f) open' stop) same
                | inr go ↦
                    let r =
                      match_loop-Leaves fuel (less (dealt order f.top) order) (turn v order f).after
                        (turn v order f).valid (turn-IsLedger v order f k) in
                    rw (round-run v order fuel f open' go) (
                      OnSome-weaken (Leaves (less (dealt order f.top) order)) (Leaves order) _
                        (λ a x. (x.0, x.1, omega (arith, x.2))) r)
              ]
            ]
    ]

pub match_order-Leaves :
    {n : ℕ} (order : Order) (b : Book)
    → IsValidBelow n b
    → IsLedger b
    → OnSome (Leaves order) (match_order order b)
unfolding match_order
match_order-Leaves order b v k =
    match_loop-Leaves (suc (count_orders (levels (opposite order.side) b))) order b v k
