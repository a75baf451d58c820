-- ===== src/Book/Commands/Uncrossed.antt =====
-- `InternalAddOrder` past its checks, and the prices of the two sides.
use hermes_orderbook.Prelude.{
  ◌≡◌, refl, sym, ap, subst, ◌∙◌, true, List, [], ◌∷◌, arith, inl, inr, Bool-cases, Option,
}
use hermes_orderbook.Core.Types.{Price, Side, buy, sell, opposite}
use hermes_orderbook.Core.Order.{Order}
use hermes_orderbook.Core.Messages.{ErrorCode}
use hermes_orderbook.Book.Levels.{Level, before}
use hermes_orderbook.Book.State.{Book, levels}
use hermes_orderbook.Book.Commands.Place.{Placed, stays}
use hermes_orderbook.Book.Commands.Slot.{Worse, Worse-orders_of, AllAfter-weaken}
use hermes_orderbook.Book.Matching.{stops, outside}
use hermes_orderbook.Book.Matching.Consume.{consume}
use hermes_orderbook.Book.Matching.Facts.{consume-taker}
use hermes_orderbook.Book.Matching.Priority.{Serves, whole, last_part, serves, IsDone}
use hermes_orderbook.Book.View.{orders_of, orders_on, SideIsValid}
use hermes_orderbook.Book.View.Index.{opposite-opposite}
use hermes_orderbook.Book.View.Uncrossed.{
  Apart, IsUncrossed, Apart-swap, IsUncrossed-Apart, Apart-IsUncrossed, Apart-later, Apart-enqueue,
}

Apart-back : (s : Side) (near far : List Order) → Apart (opposite s) far near → Apart s near far
Apart-back s near far a =
    subst (λ t. Apart t near far) (opposite-opposite s) (Apart-swap (opposite s) far near a)

-- What the match leaves of the other side is as far off as it was.
Apart-consume :
    (s : Side) (t : Order) (near queue : List Order)
    → Serves t queue
    → Apart s near queue
    → Apart s near (consume t queue).1
Apart-consume s t near queue (whole served left e f g h) a = rw f (
    Apart-back s near left (
      Apart-later (opposite s) served left near
        (subst (λ q. Apart (opposite s) q near) e (Apart-swap s near queue a))))
Apart-consume s t near queue (last_part served left m q e f g h i) a = rw f (
    Apart-back s near _ (
      Apart-later (opposite s) served (m ∷ left) near
        (subst (λ q. Apart (opposite s) q near) e (Apart-swap s near queue a))))

outside-before : (s : Side) (p q : Price) → outside s p q ≡ before (opposite s) p q
unfolding outside before
outside-before buy p q = refl
outside-before sell p q = refl

Worse-of_head :
    (s : Side) (p : Price) (ls : List Level) (m : Order) (rest : List Order)
    → SideIsValid s ls
    → orders_of ls ≡ m ∷ rest
    → before s p m.price ≡ true
    → Worse s p (orders_of ls)
Worse-of_head s p [] m rest v e h = absurd (cc)
Worse-of_head s p (l ∷ ls) m rest v e h = go l.orders refl
  where
    go : (os : List Order) → l.orders ≡ os → Worse s p (orders_of (l ∷ ls))
    go [] f = absurd (ground arith)
    go (o ∷ os) f =
        let first : o.price ≡ l.price = ground arith in
        let same : m.price ≡ o.price = ground arith in
        let here : before s p l.price ≡ true = subst (λ q. before s p q ≡ true) (same ∙ first) h in
        Worse-orders_of s p (l ∷ ls) v (here, AllAfter-weaken s p l.price ls here v.0)

stopped_by_price :
    (t m : Order) (rest : List Order)
    → stays t ≡ true
    → IsDone t (m ∷ rest)
    → outside t.side t.price m.price ≡ true
unfolding stops
stopped_by_price t m rest k h = ground arith

module _ {o : Order} {b : Book} {result : Option (ErrorCode × Book)} (p : Placed o b result) where
  abbrev queue : List Order
  queue = orders_on (opposite o.side) b

  abbrev left : Order
  left = (consume o queue).0

  -- A taker that stays is stopped by its price, or nobody is left.
  stays-Worse :
      Serves o queue
      → stays left ≡ true
      → Worse (opposite o.side) left.price (orders_on (opposite o.side) p.after)
  stays-Worse (last_part served rest m q e f g h i) k = absurd (ground arith)
  stays-Worse (whole served rest e f g h) k = go rest f h
    where
      go :
          (rest : List Order)
          → (consume o queue).1 ≡ rest
          → IsDone left rest
          → Worse (opposite o.side) left.price (orders_on (opposite o.side) p.after)
      go [] f h = rw (p.far, f) tt
      go (m ∷ rest) f h =
          let side : left.side ≡ o.side = ap (λ t. t.side) (consume-taker o queue) in
          let stopped : outside left.side left.price m.price ≡ true =
            stopped_by_price left m rest k h in
          Worse-of_head (opposite o.side) left.price (levels (opposite o.side) p.after) m rest
            (p.valid.side_valid (opposite o.side)) (p.far ∙ f)
            (subst (λ s. before (opposite s) left.price m.price ≡ true) side
              (sym (outside-before left.side left.price m.price) ∙ stopped))

  pub Placed-IsUncrossed : IsUncrossed b → IsUncrossed p.after
  Placed-IsUncrossed u =
      let a : Apart o.side (orders_on o.side b) (orders_on (opposite o.side) p.after) = rw p.far (
        Apart-consume o.side o (orders_on o.side b) queue (serves o queue)
          (IsUncrossed-Apart o.side b u)) in
      Apart-IsUncrossed o.side p.after (elim (Bool-cases (stays left)) [
        | inl k ↦
            rw (p.near, k)
              (Apart-enqueue o.side left (orders_on o.side b) (orders_on (opposite o.side) p.after)
                (stays-Worse (serves o queue) k) a)
        | inr k ↦ rw (p.near, k) a
      ])
