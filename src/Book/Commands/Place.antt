-- ===== src/Book/Commands/Place.antt =====
-- `InternalAddOrder` past its checks, against a description of its outcome on the view of the book.
use hermes_orderbook.Prelude.{
  suc, ◌≡◌, ◌<◌, refl, sym, ap, subst, ◌∙◌, Bool, true, false, Option, some, if◌then◌else◌, arith,
  inl, inr, Bool-cases, ◌>>=◌, ◌==◌, ◌&&◌, not, add64, dec_lt,
}
use hermes_orderbook.Core.Types.{
  Side, opposite, TimeInForce, gtc, day, ioc, fok, gtd, ato, atc, is_market,
}
use hermes_orderbook.Core.Order.{Order}
use hermes_orderbook.Core.Messages.{
  ErrorCode, success, invalid_order_combination, not_implemented, unsupported_time_in_force,
}
use hermes_orderbook.Book.State.{Book}
use hermes_orderbook.Book.Commands.{rest_order, settle, place_order}
use hermes_orderbook.Book.Commands.Slot.{enqueue}
use hermes_orderbook.Book.Commands.Rest.{rests}
use hermes_orderbook.Book.Matching.{match_order}
use hermes_orderbook.Book.Matching.Consume.{consume, deals, log_deals}
use hermes_orderbook.Book.Matching.Refine.{Matched, SameLog-trans, log_deals-SameLog}
use hermes_orderbook.Book.Matching.Loop.{match_order-Matched}
use hermes_orderbook.Book.Matching.Facts.{consume-taker}
use hermes_orderbook.Book.View.{orders_of, orders_on, IsValidBelow}
use hermes_orderbook.Book.View.Index.{IsValidBelow-weaken}
use hermes_orderbook.Book.View.Index.Insert.{Inserts-IsValid}
use hermes_orderbook.Book.View.Sides.{
  SameLog, SameRest, SameRest-SameLog, counter-SameOrders, SameOrders-IsValid,
}

-- Whether what is left of a taker may rest: good till cancelled or for the day, with a price. The code
-- lets both rest alike.
abbrev pub may_rest : TimeInForce → Bool
may_rest gtc = true
may_rest day = true
may_rest _ = false

abbrev pub stays : Order → Bool
stays o = not (o.remaining_quantity == 0) && may_rest o.tif && not (is_market o.order_type)

-- The code that reports it.
abbrev pub rest_code : Order → ErrorCode
rest_code o = elim o.tif [
  | gtc ↦ if is_market o.order_type then invalid_order_combination else success
  | day ↦ if is_market o.order_type then invalid_order_combination else success
  | ioc ↦ success
  | fok ↦ success
  | gtd ↦ not_implemented
  | ato ↦ not_implemented
  | atc ↦ unsupported_time_in_force
]

abbrev pub place_code : Order → ErrorCode
place_code o = if o.remaining_quantity == 0 then success else rest_code o

-- The outcome for the order `o`: it consumes the other side, and what is left of it joins the queue
-- of its own side if it may.
pub record Placed (o : Order) (b : Book) (result : Option (ErrorCode × Book)) : Type 0 where
  pub after : Book
  pub run : result ≡ some (place_code (consume o (orders_on (opposite o.side) b)).0, after)
  pub valid : IsValidBelow (suc o.order_id) after
  pub far : orders_on (opposite o.side) after ≡ (consume o (orders_on (opposite o.side) b)).1
  pub near : orders_on o.side after ≡ (
      if stays (consume o (orders_on (opposite o.side) b)).0
      then enqueue o.side (consume o (orders_on (opposite o.side) b)).0 (orders_on o.side b)
      else orders_on o.side b)
  pub counter : after.order_counter ≡ add64 b.order_counter 1
  pub state : after.market_state ≡ b.market_state
  pub log : SameLog (log_deals (deals o (orders_on (opposite o.side) b)) b) after

-- The outcome of `settle`.
record Settled (t : Order) (b : Book) : Type 0 where
  after : Book
  run : settle t b ≡ some (rest_code t, after)
  valid : IsValidBelow (suc t.order_id) after
  far : orders_on (opposite t.side) after ≡ orders_on (opposite t.side) b
  near : orders_on t.side after ≡ (
      if may_rest t.tif && not (is_market t.order_type)
      then enqueue t.side t (orders_on t.side b)
      else orders_on t.side b)
  rest : SameRest b after

same_rest : (b : Book) → SameRest b b
same_rest b = record {
  scratch = refl;
  order_counter = refl;
  trade_counter = refl;
  market_state = refl;
}

module _ (t : Order) (b : Book) (v : IsValidBelow t.order_id b) where
  Settled-out :
      settle t b ≡ some (rest_code t, b)
      → (may_rest t.tif && not (is_market t.order_type)) ≡ false
      → Settled t b
  Settled-out e h = record {
    after = b;
    run = e;
    valid = IsValidBelow-weaken (omega arith) v;
    far = refl;
    near = rw h;
    rest = same_rest b;
  }

  Settled-in :
      settle t b ≡ (rest_order t b >>= λ b'. some (rest_code t, b'))
      → (may_rest t.tif && not (is_market t.order_type)) ≡ true
      → Settled t b
  Settled-in e h =
      let r = rests v t in
      record {
        after = r.after;
        run = e ∙ rw r.run;
        valid = Inserts-IsValid v refl r.inserts;
        far = ap orders_of r.inserts.near;
        near = rw h r.queue;
        rest = r.rest;
      }

  Settled-by : (tif : TimeInForce) → t.tif ≡ tif → Settled t b
  unfolding settle
  Settled-by ioc e = Settled-out (ground arith) (ground arith)
  Settled-by fok e = Settled-out (ground arith) (ground arith)
  Settled-by gtd e = Settled-out (ground arith) (ground arith)
  Settled-by ato e = Settled-out (ground arith) (ground arith)
  Settled-by atc e = Settled-out (ground arith) (ground arith)
  Settled-by gtc e = elim (Bool-cases (is_market t.order_type)) [
    | inl m ↦ Settled-out (ground arith) (ground arith)
    | inr m ↦ Settled-in (ground arith) (ground arith)
  ]
  Settled-by day e = elim (Bool-cases (is_market t.order_type)) [
    | inl m ↦ Settled-out (ground arith) (ground arith)
    | inr m ↦ Settled-in (ground arith) (ground arith)
  ]

  settled : Settled t b
  settled = Settled-by t.tif refl

place_order-eq :
    (o t : Order) (b b' : Book)
    → match_order o (record b { order_counter = add64 b.order_counter 1 }) ≡ some (t, b')
    → place_order o b ≡ (if t.remaining_quantity == 0 then some (success, b') else settle t b')
unfolding place_order
place_order-eq o t b b' e = rw (place_order, e)

module _ (o : Order) (b : Book) (v : IsValidBelow o.order_id b) where
  abbrev numbered : Book
  numbered = record b { order_counter = add64 b.order_counter 1 }

  same_view : (s : Side) → orders_on s numbered ≡ orders_on s b
  same_view s = ap orders_of ((counter-SameOrders (add64 b.order_counter 1) b).sides s)

  matched : Matched o.order_id o numbered (match_order o numbered)
  matched =
      match_order-Matched o numbered
        (SameOrders-IsValid (counter-SameOrders (add64 b.order_counter 1) b) v)

  log_same : SameLog (log_deals (deals o (orders_on (opposite o.side) b)) b) matched.after
  log_same =
      SameLog-trans
        (log_deals-SameLog (deals o (orders_on (opposite o.side) b)) b numbered
          (record { scratch = refl; trade_counter = refl }))
        (subst (λ f. SameLog (log_deals (deals o f) numbered) matched.after)
          (same_view (opposite o.side)) matched.log)

  matched-run :
      match_order o numbered ≡ some ((consume o (orders_on (opposite o.side) b)).0, matched.after)
  matched-run =
      matched.run ∙ ap (λ f. some ((consume o f).0, matched.after)) (same_view (opposite o.side))

  matched-far :
      orders_on (opposite o.side) matched.after ≡ (consume o (orders_on (opposite o.side) b)).1
  matched-far = matched.far ∙ ap (λ f. (consume o f).1) (same_view (opposite o.side))

  matched-near : orders_on o.side matched.after ≡ orders_on o.side b
  matched-near = ap orders_of matched.near ∙ same_view o.side

  -- What is left of the taker.
  module _ (t : Order) (e : (consume o (orders_on (opposite o.side) b)).0 ≡ t)
      (id : t.order_id ≡ o.order_id) (side : t.side ≡ o.side) where
    Placed-filled : t.remaining_quantity ≡ 0 → Placed o b (place_order o b)
    Placed-filled h = record {
      after = matched.after;
      run = place_order-eq o t b matched.after (rw (← e) matched-run) ∙ rw e (ground arith);
      valid = IsValidBelow-weaken (omega arith) matched.valid;
      far = matched-far;
      near = rw e (matched-near ∙ ground arith);
      counter = matched.counter;
      state = matched.state;
      log = log_same;
    }

    Placed-settled : 0 < t.remaining_quantity → Placed o b (place_order o b)
    Placed-settled h =
        let s : Settled t matched.after =
          settled t matched.after
            (subst (λ k. IsValidBelow k matched.after) (sym id) matched.valid) in
        record {
          after = s.after;
          run =
              place_order-eq o t b matched.after (rw (← e) matched-run)
              ∙ rw e (ground (arith, s.run));
          valid = subst (λ k. IsValidBelow (suc k) s.after) id s.valid;
          far =
              subst (λ k. orders_on (opposite k) s.after ≡ orders_on (opposite k) matched.after)
                side s.far
              ∙ matched-far;
          near = rw e (
              subst
                (λ k. orders_on k s.after ≡ (
                  if may_rest t.tif && not (is_market t.order_type)
                  then enqueue k t (orders_on k matched.after)
                  else orders_on k matched.after))
                side s.near
              ∙ rw matched-near (ground arith));
          counter = s.rest.order_counter ∙ matched.counter;
          state = s.rest.market_state ∙ matched.state;
          log = SameLog-trans log_same (SameRest-SameLog s.rest);
        }

  -- On a book that is well-formed for the numbers below the order's, `InternalAddOrder` past its
  -- checks ends: the order consumes the other side, and what is left of it joins the queue of its own
  -- side behind the orders of its price if it may rest, and is dropped otherwise; the code is that of
  -- its time in force and type; the number of the next order goes up by one, modulo 2 ^ 64. An order
  -- for the day rests and succeeds like one that is good till cancelled, with nothing that makes it
  -- expire: the comment in src/Core/globals.hpp says that it expires, and that it is not supported.
  pub placed : Placed o b (place_order o b)
  placed =
      let queue = orders_on (opposite o.side) b in
      let r = (consume o queue).0.remaining_quantity in
      let e : (consume o queue).0 ≡ record o { remaining_quantity = r } = consume-taker o queue in
      elim (dec_lt 0 r) [
        | yes h ↦ Placed-settled (record o { remaining_quantity = r }) e refl refl h
        | no h ↦ Placed-filled (record o { remaining_quantity = r }) e refl refl (omega arith)
      ]
