-- ===== src/Book/View/Uncrossed.antt =====
-- Bids below asks: the relation of the two sides, and writes to one of them.
use hermes_orderbook.Prelude.{
  ℕ, ◌≡◌, refl, sym, ap, subst, ◌∙◌, List, [], ◌∷◌, ◌++◌, arith, Bool-cases, inl, inr, some, ◌==◌,
}
use hermes_orderbook.Core.Types.{Price, Side, buy, sell, opposite}
use hermes_orderbook.Core.Order.{Order}
use hermes_orderbook.Book.Levels.{before, find_order, set_order, erase_order}
use hermes_orderbook.Book.State.{Book}
use hermes_orderbook.Book.Commands.Slot.{Worse, enqueue}
use hermes_orderbook.Book.View.{orders_on}
use hermes_orderbook.Book.View.Index.{opposite-opposite}
use hermes_orderbook.Book.View.Index.Erase.{Erases}
use hermes_orderbook.Book.View.Index.Rewrite.{Rewrites}

-- Every price of `far` is beyond every price of `near`, which are the orders of the side `s`.
abbrev pub Apart : Side → List Order → List Order → Type 0
Apart s [] far = Unit {0}
Apart s (x ∷ near) far = Worse (opposite s) x.price far × Apart s near far

abbrev pub IsUncrossed : Book → Type 0
IsUncrossed b = Apart buy (orders_on buy b) (orders_on sell b)

before-swap : (s : Side) (p q : Price) → before (opposite s) p q ≡ before s q p
unfolding before
before-swap buy p q = refl
before-swap sell p q = refl

pub Apart-nil : (s : Side) (near : List Order) → Apart s near []
Apart-nil s [] = tt
Apart-nil s (x ∷ near) = (tt, Apart-nil s near)

Apart-cons :
    (s : Side) (y : Order) (near far : List Order)
    → Worse s y.price near
    → Apart s near far
    → Apart s near (y ∷ far)
Apart-cons s y [] far w a = tt
Apart-cons s y (x ∷ near) far w a =
    ((before-swap s x.price y.price ∙ w.0, a.0), Apart-cons s y near far w.1 a.1)

Apart-head :
    (s : Side) (y : Order) (near far : List Order)
    → Apart s near (y ∷ far)
    → Worse s y.price near × Apart s near far
Apart-head s y [] far a = (tt, tt)
Apart-head s y (x ∷ near) far a =
    let r = Apart-head s y near far a.1 in
    ((sym (before-swap s x.price y.price) ∙ a.0.0, r.0), (a.0.1, r.1))

pub Apart-swap : (s : Side) (near far : List Order) → Apart s near far → Apart (opposite s) far near
Apart-swap s near [] a = tt
Apart-swap s near (y ∷ far) a =
    let r = Apart-head s y near far a in
    (subst (λ t. Worse t y.price near) (sym (opposite-opposite s)) r.0, Apart-swap s near far r.1)

pub IsUncrossed-Apart :
    (s : Side) (b : Book) → IsUncrossed b → Apart s (orders_on s b) (orders_on (opposite s) b)
IsUncrossed-Apart buy b u = u
IsUncrossed-Apart sell b u = Apart-swap buy (orders_on buy b) (orders_on sell b) u

pub Apart-IsUncrossed :
    (s : Side) (b : Book) → Apart s (orders_on s b) (orders_on (opposite s) b) → IsUncrossed b
Apart-IsUncrossed buy b u = u
Apart-IsUncrossed sell b u = Apart-swap sell (orders_on sell b) (orders_on buy b) u

-- Orders may go, or change with their price kept.

Apart-erase :
    (s : Side) (id : ℕ) (near far : List Order)
    → Apart s near far
    → Apart s (erase_order id near) far
unfolding erase_order
Apart-erase s id [] far a = tt
Apart-erase s id (x ∷ near) far a = ground (arith, Apart-erase s id near far a.1)

Apart-set :
    (s : Side) (o o' : Order) (near far : List Order)
    → o'.price ≡ o.price
    → find_order o.order_id near ≡ some o
    → Apart s near far
    → Apart s (set_order o.order_id o' near) far
unfolding set_order find_order
Apart-set s o o' [] far e w a = tt
Apart-set s o o' (x ∷ near) far e w a = elim (Bool-cases (x.order_id == o.order_id)) [
  | inl hit ↦
      let same : x.price ≡ o'.price = ground arith in
      rw hit (subst (λ p. Worse (opposite s) p far) same a.0, a.1)
  | inr miss ↦ rw miss (a.0, Apart-set s o o' near far e (ground arith) a.1)
]

pub Erases-IsUncrossed :
    {s : Side} {o : Order} {b b' : Book} → Erases s o b b' → IsUncrossed b → IsUncrossed b'
Erases-IsUncrossed {s} {o} {b} {b'} e u = Apart-IsUncrossed s b' (
    rw (e.far, e.near)
      (Apart-erase s o.order_id (orders_on s b) (orders_on (opposite s) b)
        (IsUncrossed-Apart s b u)))

pub Rewrites-IsUncrossed :
    {s : Side} {o o' : Order} {b b' : Book} → Rewrites s o o' b b' → IsUncrossed b → IsUncrossed b'
Rewrites-IsUncrossed {s} {o} {o'} {b} {b'} e u = Apart-IsUncrossed s b' (
    rw (e.far, e.near)
      (Apart-set s o o' (orders_on s b) (orders_on (opposite s) b)
        (ap (λ d. d.level_price) e.same_entry) e.found (IsUncrossed-Apart s b u)))

pub Apart-later :
    (s : Side) (served left far : List Order) → Apart s (served ++ left) far → Apart s left far
Apart-later s [] left far a = a
Apart-later s (x ∷ served) left far a = Apart-later s served left far a.1

pub Apart-enqueue :
    (s : Side) (o : Order) (near far : List Order)
    → Worse (opposite s) o.price far
    → Apart s near far
    → Apart s (enqueue s o near) far
unfolding enqueue
Apart-enqueue s o [] far w a = (w, tt)
Apart-enqueue s o (x ∷ near) far w a = ground (arith, Apart-enqueue s o near far w a.1)
