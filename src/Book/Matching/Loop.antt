-- ===== src/Book/Matching/Loop.antt =====
-- The rounds of `PriceTimePriority::Match`, by induction, against `consume`.
use hermes_orderbook.Prelude.{
  ℕ, zero, suc, ◌-◌, ◌≤◌, ◌<◌, ◌≡◌, refl, sym, ap, subst, ◌∙◌, true, false, List, [], ◌∷◌, ◌++◌,
  some, if◌then◌else◌, arith, inl, inr, Bool-cases, length, length-append, dec_lt,
}
use hermes_orderbook.Core.Types.{opposite}
use hermes_orderbook.Core.Order.{Order, is_filled}
use hermes_orderbook.Book.State.{Book, levels}
use hermes_orderbook.Book.Levels.{Level}
use hermes_orderbook.Book.Matching.{
  best_order, stops, trade_with, match_loop, count_orders, match_order,
}
use hermes_orderbook.Book.Matching.Round.{less, dealt, logged}
use hermes_orderbook.Book.Matching.Meets.{Met, met}
use hermes_orderbook.Book.Matching.Consume.{consume, deals, log_deals}
use hermes_orderbook.Book.Matching.Refine.{
  loop_filled, loop_empty, loop_stops, loop_trades, log_deals-SameLog, SameLog-trans, Front,
  Front-cases, Matched, Matched-stop,
}
use hermes_orderbook.Book.View.{orders_of, orders_on, AllAt, SideIsValid, IsValidBelow}
use hermes_orderbook.Book.View.Index.{opposite-opposite}
use hermes_orderbook.Book.View.Sides.{SameLog}

consume-filled :
    (t : Order) (queue : List Order)
    → t.remaining_quantity ≡ 0
    → (consume t queue ≡ (t, queue)) × (deals t queue ≡ [])
unfolding consume deals
consume-filled t [] h = (refl, refl)
consume-filled t (m ∷ queue) h = ground arith

module _ (t m : Order) (queue : List Order) where
  consume-stops :
      stops t m ≡ true → (consume t (m ∷ queue) ≡ (t, m ∷ queue)) × (deals t (m ∷ queue) ≡ [])
  unfolding consume deals
  consume-stops h = ground arith

  module _ (open' : 0 < t.remaining_quantity) (go : stops t m ≡ false) where
    consume-next :
        m.remaining_quantity ≤ t.remaining_quantity
        → (consume t (m ∷ queue) ≡ consume (less m.remaining_quantity t) queue)
          × (deals t (m ∷ queue) ≡ (t, m) ∷ deals (less m.remaining_quantity t) queue)
    unfolding consume deals
    consume-next h = ground arith

    consume-part :
        t.remaining_quantity < m.remaining_quantity
        → (consume t (m ∷ queue)
            ≡ (less t.remaining_quantity t, less t.remaining_quantity m ∷ queue))
          × (deals t (m ∷ queue) ≡ (t, m) ∷ [])
    unfolding consume deals
    consume-part h = ground arith

-- A round, told from the taker's side.
pub record Turn (n : ℕ) (order top : Order) (rest : List Order) (b : Book) : Type 0 where
  pub after : Book
  pub valid : IsValidBelow n after
  pub run : trade_with order top b ≡ some (less (dealt order top) order, after)
  pub near : levels order.side after ≡ levels order.side b
  pub before : orders_on (opposite order.side) b ≡ top ∷ rest
  pub far :
      orders_on (opposite order.side) after
      ≡ (if is_filled (less (dealt order top) top) then rest else less (dealt order top) top ∷ rest)
  pub counter : after.order_counter ≡ b.order_counter
  pub state : after.market_state ≡ b.market_state
  pub log : SameLog (logged order top b) after

pub turn :
    {n : ℕ} {b : Book} (v : IsValidBelow n b) (order : Order)
    (f : Front (levels (opposite order.side) b))
    → Turn n order f.top (f.behind ++ orders_of f.others) b
turn {n} {b} v order f =
    let valid : SideIsValid (opposite order.side) (f.level ∷ f.others) =
      subst (SideIsValid (opposite order.side)) f.split (v.side_valid (opposite order.side)) in
    let all : AllAt (opposite order.side) f.level.price (f.top ∷ f.behind) =
      subst (AllAt (opposite order.side) f.level.price) f.orders valid.2 in
    let m : Met n order f.top (f.behind ++ orders_of f.others) b =
      met v order f.top f.behind f.level f.others f.orders
        (subst (λ s. levels s b ≡ f.level ∷ f.others) (sym all.0) f.split) (sym all.0) in
    record {
      after = m.after;
      valid = m.valid;
      run = m.run;
      near =
          subst (λ s. levels s m.after ≡ levels s b) (opposite-opposite order.side)
            (subst (λ s. levels (opposite s) m.after ≡ levels (opposite s) b) all.0 m.near);
      before = rw (f.split, f.orders);
      far =
          subst
            (λ s. orders_on s m.after ≡ (
              if is_filled (less (dealt order f.top) f.top)
              then f.behind ++ orders_of f.others
              else less (dealt order f.top) f.top ∷ (f.behind ++ orders_of f.others)))
            all.0 m.far;
      counter = m.counter;
      state = m.state;
      log = m.log;
    }

pub best-Front : (ms : List Level) (f : Front ms) → best_order ms ≡ some (some f.top)
unfolding best_order
best-Front ms f = rw (f.split, best_order, f.orders)

module _ {n : ℕ} {b : Book} (v : IsValidBelow n b) (order : Order) (fuel : ℕ)
    (f : Front (levels (opposite order.side) b)) (open' : 0 < order.remaining_quantity)
    (go : stops order f.top ≡ false) where
  abbrev rest : List Order
  rest = f.behind ++ orders_of f.others

  pub round-run :
      match_loop (suc fuel) order b
      ≡ match_loop fuel (less (dealt order f.top) order) (turn v order f).after
  round-run =
      loop_trades fuel order b f.top (best-Front (levels (opposite order.side) b) f) open' go _ _
        (turn v order f).run

  -- The maker is filled, and the loop goes on with what is left of the taker.
  Matched-next :
      f.top.remaining_quantity ≤ order.remaining_quantity
      → (orders_on (opposite order.side) (turn v order f).after ≡ rest
          → Matched n
              (less f.top.remaining_quantity order)
              (turn v order f).after
              (match_loop fuel (less f.top.remaining_quantity order) (turn v order f).after))
      → Matched n order b (match_loop (suc fuel) order b)
  Matched-next h loop =
      let t : Turn n order f.top rest b = turn v order f in
      let all : dealt order f.top ≡ f.top.remaining_quantity = omega arith in
      let left : orders_on (opposite order.side) t.after ≡ rest = t.far ∙ ground arith in
      let r = loop left in
      let spec = consume-next order f.top rest open' go h in
      let same : consume order (orders_on (opposite order.side) b)
          ≡ consume (less f.top.remaining_quantity order)
              (orders_on (opposite order.side) t.after) =
        ap (consume order) t.before
        ∙ spec.0
        ∙ ap (consume (less f.top.remaining_quantity order)) (sym left) in
      record {
        after = r.after;
        run =
            round-run
            ∙ ap (λ q. match_loop fuel (less q order) t.after) all
            ∙ r.run
            ∙ ap (λ c. some (c.0, r.after)) (sym same);
        valid = r.valid;
        near = r.near ∙ t.near;
        far = r.far ∙ ap (λ c. c.1) (sym same);
        counter = r.counter ∙ t.counter;
        state = r.state ∙ t.state;
        log =
            rw (t.before, spec.1)
              (unfold log_deals in
                SameLog-trans
                  (log_deals-SameLog (deals (less f.top.remaining_quantity order) rest)
                    (logged order f.top b) t.after t.log)
                  (subst
                    (λ q.
                      SameLog (log_deals (deals (less f.top.remaining_quantity order) q) t.after)
                        r.after)
                    left r.log));
      }

  -- The taker is filled.
  Matched-part :
      order.remaining_quantity < f.top.remaining_quantity
      → (more : ℕ) → fuel ≡ suc more
      → Matched n order b (match_loop (suc fuel) order b)
  Matched-part h more e =
      let t : Turn n order f.top rest b = turn v order f in
      let all : dealt order f.top ≡ order.remaining_quantity = omega arith in
      let spec = consume-part order f.top rest open' go h in
      let same : consume order (orders_on (opposite order.side) b)
          ≡ (less order.remaining_quantity order, less order.remaining_quantity f.top ∷ rest) =
        ap (consume order) t.before ∙ spec.0 in
      record {
        after = t.after;
        run =
            round-run
            ∙ ap (λ q. match_loop fuel (less q order) t.after) all
            ∙ ap (λ k. match_loop k (less order.remaining_quantity order) t.after) e
            ∙ loop_filled more (less order.remaining_quantity order) t.after (omega arith)
            ∙ ap (λ c. some (c.0, t.after)) (sym same);
        valid = t.valid;
        near = t.near;
        far =
            t.far
            ∙ ap (λ q. if is_filled (less q f.top) then rest else less q f.top ∷ rest) all
            ∙ ground arith
            ∙ ap (λ c. c.1) (sym same);
        counter = t.counter;
        state = t.state;
        log = rw (t.before, spec.1) (unfold log_deals in t.log);
      }

-- Enough rounds: more than there are orders to meet.
pub match_loop-Matched :
    {n : ℕ} (fuel : ℕ) (order : Order) (b : Book)
    → IsValidBelow n b
    → length (orders_on (opposite order.side) b) < fuel
    → Matched n order b (match_loop fuel order b)
match_loop-Matched zero order b v h = absurd (omega arith)
match_loop-Matched (suc fuel) order b v h = elim (dec_lt 0 order.remaining_quantity) [
  | no filled ↦
      let none_left : order.remaining_quantity ≡ 0 = omega arith in
      let spec = consume-filled order (orders_on (opposite order.side) b) none_left in
      Matched-stop v order _ spec.0 spec.1 (loop_filled fuel order b none_left)
  | yes open' ↦
      elim (Front-cases (opposite order.side) (levels (opposite order.side) b)
        (v.side_valid (opposite order.side))) [
          | inl none_there ↦
              Matched-stop v order _ (rw none_there (unfold consume in refl))
                (rw none_there (unfold deals in refl)) (loop_empty fuel order b open' none_there)
          | inr f ↦ elim (Bool-cases (stops order f.top)) [
            | inl stop ↦
                let at = (turn v order f).before in
                let spec = consume-stops order f.top (f.behind ++ orders_of f.others) stop in
                Matched-stop v order _ (rw at spec.0) (rw at spec.1) (
                  loop_stops fuel order b f.top (best-Front (levels (opposite order.side) b) f)
                    open' stop)
            | inr go ↦
                let len = ap length (turn v order f).before in
                elim (dec_lt order.remaining_quantity f.top.remaining_quantity) [
                  | yes part ↦ Matched-part v order fuel f open' go part (fuel - 1) (omega arith)
                  | no whole ↦ Matched-next v order fuel f open' go (omega arith) λ left.
                      match_loop-Matched fuel (less f.top.remaining_quantity order)
                        (turn v order f).after (turn v order f).valid
                        (omega (arith, ap length left))
                ]
          ]
        ]
]

count_orders-length : (ls : List Level) → count_orders ls ≡ length (orders_of ls)
count_orders-length [] = refl
count_orders-length (l ∷ ls) =
    omega (arith, length-append l.orders (orders_of ls), count_orders-length ls)

-- On a book that is well-formed for the numbers below `n`, the match ends with no undefined behaviour
-- and leaves what `consume` leaves: the taker, the other side's orders, the records of the deals; the
-- book stays well-formed, and the taker's own side, the number of the next order and the market state
-- stay as they are.
pub match_order-Matched :
    {n : ℕ} (order : Order) (b : Book) → IsValidBelow n b → Matched n order b (match_order order b)
unfolding match_order
match_order-Matched order b v =
    match_loop-Matched (suc (count_orders (levels (opposite order.side) b))) order b v
      (omega (arith, count_orders-length (levels (opposite order.side) b)))
