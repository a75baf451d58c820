-- ===== src/Book/Commands/Liquidity.antt =====
-- The fill-or-kill check of `InternalAddOrder`: its count of the liquidity, against what matching takes.
use hermes_orderbook.Prelude.{
  ℕ, ◌+◌, ◌≡◌, ◌<◌, ◌≤◌, ◌^◌, refl, ap, true, false, List, [], ◌∷◌, ◌++◌, arith, inl, inr,
  Bool-cases, not, ◌&&◌, leb, add64, dec_lt, is_empty,
}
use hermes_orderbook.Core.Types.{Price, Quantity, Side, opposite, OrderType, is_market}
use hermes_orderbook.Core.Order.{Order}
use hermes_orderbook.Book.Levels.{Level}
use hermes_orderbook.Book.Commands.{liquidity}
use hermes_orderbook.Book.Matching.{stops, outside}
use hermes_orderbook.Book.Matching.Round.{less}
use hermes_orderbook.Book.Matching.Consume.{consume}
use hermes_orderbook.Book.Matching.Facts.{total_dealt-deals}
use hermes_orderbook.Book.View.{orders_of, total_remaining, AllAt, SideIsValid}
use hermes_orderbook.Book.View.Orders.{total_remaining-append}

-- The volumes that the levels state are what their orders have left.
abbrev pub IsExact : List Level → Type 0
IsExact [] = Unit {0}
IsExact (l ∷ ls) = (l.volume ≡ total_remaining l.orders) × IsExact ls

stops-at :
    (t m : Order) (p : Price)
    → m.price ≡ p
    → stops t m ≡ (not (is_market t.order_type) && outside t.side t.price p)
unfolding stops
stops-at t m p e = rw e refl

-- A taker meets the orders of one acceptable price: it is filled there, or takes them all.
module _ (s : Side) (p : Price) (rest : List Order) where
  consume_filled_at :
      (t : Order) (os : List Order)
      → AllAt s p os
      → (not (is_market t.order_type) && outside t.side t.price p) ≡ false
      → t.remaining_quantity ≤ total_remaining os
      → (consume t (os ++ rest)).0.remaining_quantity ≡ 0
  unfolding consume
  consume_filled_at t [] a g h = omega (arith, total_dealt-deals t rest)
  consume_filled_at t (m ∷ os) a g h =
      ground (arith, stops-at t m p a.1, consume_filled_at (less m.remaining_quantity t) os a.2 g)

  consume-AllAt :
      (t : Order) (os : List Order)
      → AllAt s p os
      → (not (is_market t.order_type) && outside t.side t.price p) ≡ false
      → total_remaining os < t.remaining_quantity
      → consume t (os ++ rest) ≡ consume (less (total_remaining os) t) rest
  unfolding consume
  consume-AllAt t [] a g h =
      ap (λ q. consume (record t { remaining_quantity = q }) rest) (omega arith)
  consume-AllAt t (m ∷ os) a g h =
      ground (arith, stops-at t m p a.1, consume-AllAt (less m.remaining_quantity t) os a.2 g)

module _ (s : Side) (type : OrderType) (price : Price) (quantity acc : Quantity) (l : Level)
    (ls : List Level) where
  liquidity-stop :
      (not (is_market type) && outside s price l.price) ≡ true
      → liquidity s type price quantity acc (l ∷ ls) ≡ acc
  unfolding liquidity
  liquidity-stop h = rw h

  liquidity-more :
      (not (is_market type) && outside s price l.price) ≡ false
      → add64 acc l.volume < quantity
      → liquidity s type price quantity acc (l ∷ ls)
        ≡ liquidity s type price quantity (add64 acc l.volume) ls
  unfolding liquidity
  liquidity-more h k =
      let more : leb quantity (add64 acc l.volume) ≡ false = ground arith in rw (h, more)

-- Where the volumes are exact and do not overflow, enough liquidity fills the taker.
pub liquidity-fills :
    (s : Side) (ls : List Level) (t : Order) (quantity acc : ℕ)
    → SideIsValid s ls
    → IsExact ls
    → acc + total_remaining (orders_of ls) < 2 ^ 64
    → quantity ≡ acc + t.remaining_quantity
    → 0 < t.remaining_quantity
    → quantity ≤ liquidity t.side t.order_type t.price quantity acc ls
    → (consume t (orders_of ls)).0.remaining_quantity ≡ 0
liquidity-fills s [] t quantity acc v x small e pos h = absurd (unfold liquidity in omega arith)
liquidity-fills s (l ∷ ls) t quantity acc v x small e pos h =
    let parts = total_remaining-append l.orders (orders_of ls) in
    let sum : add64 acc l.volume ≡ acc + total_remaining l.orders = omega (arith, x.0) in
    elim (Bool-cases (not (is_market t.order_type) && outside t.side t.price l.price)) [
      | inl stop ↦
          absurd (omega (arith, liquidity-stop t.side t.order_type t.price quantity acc l ls stop))
      | inr go ↦ elim (dec_lt (total_remaining l.orders) t.remaining_quantity) [
        | no enough ↦ consume_filled_at s l.price (orders_of ls) t l.orders v.2 go (omega arith)
        | yes more ↦
            let next =
              liquidity-more t.side t.order_type t.price quantity acc l ls go
                (omega (arith, sum)) in
            rw (consume-AllAt s l.price (orders_of ls) t l.orders v.2 go more) (
              liquidity-fills s ls (less (total_remaining l.orders) t) quantity (add64 acc l.volume)
                v.3 x.1 (omega (arith, sum, parts)) (omega (arith, sum)) (omega arith)
                (omega (arith, next)))
      ]
    ]

-- And where the loop stops short of the quantity, the taker is not filled.
module _ (s : Side) (type : OrderType) (price : Price) (quantity acc : Quantity) (l : Level)
    (ls : List Level) where
  liquidity-enough :
      (not (is_market type) && outside s price l.price) ≡ false
      → quantity ≤ add64 acc l.volume
      → quantity ≤ liquidity s type price quantity acc (l ∷ ls)
  unfolding liquidity
  liquidity-enough h k =
      let done : leb quantity (add64 acc l.volume) ≡ true = ground arith in rw (h, done) k

consume-stop :
    (t : Order) (l : Level) (ls : List Level)
    → AllAt (opposite t.side) l.price l.orders
    → is_empty l.orders ≡ false
    → (not (is_market t.order_type) && outside t.side t.price l.price) ≡ true
    → consume t (orders_of (l ∷ ls)) ≡ (t, orders_of (l ∷ ls))
unfolding consume
consume-stop t l ls a n h = go l.orders a n
  where
    go :
        (os : List Order)
        → AllAt (opposite t.side) l.price os
        → is_empty os ≡ false
        → consume t (os ++ orders_of ls) ≡ (t, os ++ orders_of ls)
    go [] a n = absurd (cc)
    go (m ∷ os) a n = ground (arith, stops-at t m l.price a.1)

pub liquidity-lacks :
    (ls : List Level) (t : Order) (quantity acc : ℕ)
    → SideIsValid (opposite t.side) ls
    → IsExact ls
    → acc + total_remaining (orders_of ls) < 2 ^ 64
    → quantity ≡ acc + t.remaining_quantity
    → liquidity t.side t.order_type t.price quantity acc ls < quantity
    → 0 < (consume t (orders_of ls)).0.remaining_quantity
liquidity-lacks [] t quantity acc v x small e h = unfold liquidity consume in omega arith
liquidity-lacks (l ∷ ls) t quantity acc v x small e h =
    let parts = total_remaining-append l.orders (orders_of ls) in
    let sum : add64 acc l.volume ≡ acc + total_remaining l.orders = omega (arith, x.0) in
    elim (Bool-cases (not (is_market t.order_type) && outside t.side t.price l.price)) [
      | inl stop ↦
          let none_taken = consume-stop t l ls v.2 v.1 stop in
          rw none_taken
            (omega (arith, liquidity-stop t.side t.order_type t.price quantity acc l ls stop))
      | inr go ↦ elim (dec_lt (total_remaining l.orders) t.remaining_quantity) [
        | no enough ↦ absurd (
            omega (
              arith,
              liquidity-enough t.side t.order_type t.price quantity acc l ls go
                  (omega (arith, sum)),
            ))
        | yes more ↦
            let next =
              liquidity-more t.side t.order_type t.price quantity acc l ls go
                (omega (arith, sum)) in
            rw (consume-AllAt (opposite t.side) l.price (orders_of ls) t l.orders v.2 go more) (
              liquidity-lacks ls (less (total_remaining l.orders) t) quantity (add64 acc l.volume)
                v.3 x.1 (omega (arith, sum, parts)) (omega (arith, sum)) (omega (arith, next)))
      ]
    ]
