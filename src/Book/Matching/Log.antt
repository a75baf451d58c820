-- ===== src/Book/Matching/Log.antt =====
-- The records of the deals: how many there are, and how many fit in the scratch.
use hermes_orderbook.Prelude.{
  ℕ, ◌+◌, ◌-◌, ◌≤◌, ◌<◌, ◌≡◌, refl, ap, ◌∙◌, List, [], ◌∷◌, ◌++◌, arith, min, length, length-append,
  take, add64, append_assoc, append-nil, dec_lt, take-suc, take_none, take-nil,
}
use hermes_orderbook.Core.Order.{Order}
use hermes_orderbook.Core.Messages.{Event, trade}
use hermes_orderbook.Book.State.{Book, max_events}
use hermes_orderbook.Book.Operations.{record_trade}
use hermes_orderbook.Book.Matching.Round.{less, dealt, logged}
use hermes_orderbook.Book.Matching.Consume.{deals, log_deals}

pub length-deals : (t : Order) (queue : List Order) → length (deals t queue) ≤ length queue
unfolding deals
length-deals t [] = omega arith
length-deals t (m ∷ queue) = ground (arith, length-deals (less m.remaining_quantity t) queue)

length-logged :
    (t m : Order) (b : Book)
    → length b.scratch ≤ max_events
    → length (logged t m b).scratch ≡ min max_events (length b.scratch + 1)
unfolding record_trade
length-logged t m b h = ground (
  arith,
  length-append b.scratch (
      trade (record {
        trade_id = b.trade_counter;
        maker_order_id = t.client_id;
        taker_order_id = m.client_id;
        price = m.price;
        quantity = dealt t m;
        taker_side = m.side;
        match_type = t.match_type;
      })
      ∷ []),
)

-- The scratch takes the deals until it is full.
pub length-log_deals :
    (ds : List (Order × Order)) (b : Book)
    → length b.scratch ≤ max_events
    → length (log_deals ds b).scratch ≡ min max_events (length b.scratch + length ds)
unfolding log_deals
length-log_deals [] b h = omega arith
length-log_deals ((t, m) ∷ ds) b h = omega (
  arith,
  length-logged t m b h,
  length-log_deals ds (logged t m b) (omega (arith, length-logged t m b h)),
)

-- The trade of a deal, as `RecordFill` is called for it.
abbrev pub trade_of : ℕ → Order → Order → Event
trade_of id t m = trade (record {
  trade_id = id;
  maker_order_id = t.client_id;
  taker_order_id = m.client_id;
  price = m.price;
  quantity = dealt t m;
  taker_side = m.side;
  match_type = t.match_type;
})

-- The trades of the deals, numbered on from `id`.
abbrev pub trades_from : ℕ → List (Order × Order) → List Event
trades_from id [] = []
trades_from id ((t, m) ∷ ds) = trade_of id t m ∷ trades_from (add64 id 1) ds

log_deals_full :
    (ds : List (Order × Order)) (b : Book) → length b.scratch ≡ max_events → log_deals ds b ≡ b
unfolding log_deals record_trade
log_deals_full [] b h = refl
log_deals_full ((t, m) ∷ ds) b h =
    let kept : logged t m b ≡ b = ground arith in rw kept (log_deals_full ds b h)

logged-room :
    (t m : Order) (b : Book)
    → length b.scratch < max_events
    → ((logged t m b).scratch ≡ b.scratch ++ (trade_of b.trade_counter t m ∷ []))
      × ((logged t m b).trade_counter ≡ add64 b.trade_counter 1)
unfolding record_trade
logged-room t m b h = ground arith

log_deals-cons :
    (t m : Order) (ds : List (Order × Order)) (b : Book)
    → log_deals ((t, m) ∷ ds) b ≡ log_deals ds (logged t m b)
unfolding log_deals
log_deals-cons t m ds b = refl

-- The scratch holds the trades in the order of the deals, the first ones up to its capacity.
pub scratch-log_deals :
    (ds : List (Order × Order)) (b : Book)
    → length b.scratch ≤ max_events
    → (log_deals ds b).scratch
      ≡ b.scratch ++ take (max_events - length b.scratch) (trades_from b.trade_counter ds)
scratch-log_deals [] b h =
    rw (take-nil (max_events - length b.scratch), append-nil) (unfold log_deals in refl)
scratch-log_deals ((t, m) ∷ ds) b h = elim (dec_lt (length b.scratch) max_events) [
  | no full ↦ rw (
    log_deals_full ((t, m) ∷ ds) b (omega arith),
    take_none (max_events - length b.scratch) (trades_from b.trade_counter ((t, m) ∷ ds))
        (omega arith),
    append-nil,
  )
  | yes room ↦
      let e : Event = trade_of b.trade_counter t m in
      let new = logged-room t m b room in
      let grown : length (logged t m b).scratch ≡ length b.scratch + 1 =
        omega (arith, length-logged t m b h) in
      ap (λ k. k.scratch) (log_deals-cons t m ds b)
      ∙ scratch-log_deals ds (logged t m b) (omega (arith, grown))
      ∙ rw
          (
            new.0,
            new.1,
            append_assoc,
            length-append b.scratch (e ∷ []),
            take-suc (max_events - length b.scratch) e (trades_from (add64 b.trade_counter 1) ds)
                (omega arith),
          )
          (ap (λ k. b.scratch ++ (e ∷ take k (trades_from (add64 b.trade_counter 1) ds)))
            (omega arith))
]
