-- ===== src/Book/View/Levels.antt =====
-- Where an order stands among the levels of a side, and what a write to its level does.
use hermes_orderbook.Prelude.{
  ℕ, ◌≡◌, refl, sym, ap, subst, ◌∙◌, true, false, List, [], ◌∷◌, ◌++◌, none, some, is_empty, arith,
  inl, inr, Option-cases, append_assoc, eqb_ℤ, eqb_ℤ_refl, ltb_ℤ_trans, ltb_ℤ,
}
use hermes_orderbook.Core.Types.{Price, Side, buy, sell}
use hermes_orderbook.Core.Order.{Order}
use hermes_orderbook.Book.Levels.{
  Level, before, find_level, set_level, erase_level, find_order, set_order, erase_order,
}
use hermes_orderbook.Book.View.{orders_of, AllAfter, AllAt, SideIsValid}
use hermes_orderbook.Book.View.Orders.{
  find_order-append, find_order-append_left, AllAt-find, erase_order-append,
  erase_order-append_left, set_order-append, set_order-append_left,
}

-- The comparators are strict total orders.

pub before-eqb : (s : Side) (p q : Price) → before s p q ≡ true → eqb_ℤ p q ≡ false
unfolding before ltb_ℤ eqb_ℤ
before-eqb buy p q h = ground arith
before-eqb sell p q h = ground arith

pub before_trans :
    (s : Side) (p q r : Price) → before s p q ≡ true → before s q r ≡ true → before s p r ≡ true
unfolding before
before_trans buy p q r h k = ltb_ℤ_trans r q p k h
before_trans sell p q r h k = ltb_ℤ_trans p q r h k

pub before_connex :
    (s : Side) (p q : Price) → eqb_ℤ q p ≡ false → before s p q ≡ false → before s q p ≡ true
unfolding before ltb_ℤ eqb_ℤ
before_connex buy p q h k = ground arith
before_connex sell p q h k = ground arith

-- No level of `ls` has the price `p`.
abbrev pub NoPrice : Price → List Level → Type 0
NoPrice p [] = Unit {0}
NoPrice p (l ∷ ls) = (eqb_ℤ l.price p ≡ false) × NoPrice p ls

pub find_level-split :
    (p : Price) (pre post : List Level) (l : Level)
    → NoPrice p pre
    → l.price ≡ p
    → find_level p (pre ++ (l ∷ post)) ≡ some l
unfolding find_level
find_level-split p [] post l n e = ground (arith, eqb_ℤ_refl p)
find_level-split p (x ∷ pre) post l n e = ground (arith, find_level-split p pre post l n.1)

pub set_level-split :
    (p : Price) (pre post : List Level) (l l' : Level)
    → NoPrice p pre
    → l.price ≡ p
    → set_level p l' (pre ++ (l ∷ post)) ≡ pre ++ (l' ∷ post)
unfolding set_level
set_level-split p [] post l l' n e = ground (arith, eqb_ℤ_refl p)
set_level-split p (x ∷ pre) post l l' n e = ground (arith, set_level-split p pre post l l' n.1)

pub erase_level-split :
    (p : Price) (pre post : List Level) (l : Level)
    → NoPrice p pre
    → l.price ≡ p
    → erase_level p (pre ++ (l ∷ post)) ≡ pre ++ post
unfolding erase_level
erase_level-split p [] post l n e = ground (arith, eqb_ℤ_refl p)
erase_level-split p (x ∷ pre) post l n e = ground (arith, erase_level-split p pre post l n.1)

pub orders_of-append : (xs ys : List Level) → orders_of (xs ++ ys) ≡ orders_of xs ++ orders_of ys
orders_of-append [] ys = refl
orders_of-append (x ∷ xs) ys = rw (orders_of-append xs ys, append_assoc)

-- A level may be rewritten, if it keeps its price and is not emptied, or dropped.

AllAfter-replace :
    (s : Side) (p : Price) (pre post : List Level) (l l' : Level)
    → l'.price ≡ l.price
    → AllAfter s p (pre ++ (l ∷ post))
    → AllAfter s p (pre ++ (l' ∷ post))
AllAfter-replace s p [] post l l' e a = (rw e a.0, a.1)
AllAfter-replace s p (x ∷ pre) post l l' e a = (a.0, AllAfter-replace s p pre post l l' e a.1)

AllAfter-remove :
    (s : Side) (p : Price) (pre post : List Level) (l : Level)
    → AllAfter s p (pre ++ (l ∷ post))
    → AllAfter s p (pre ++ post)
AllAfter-remove s p [] post l a = a.1
AllAfter-remove s p (x ∷ pre) post l a = (a.0, AllAfter-remove s p pre post l a.1)

pub SideIsValid-replace :
    (s : Side) (pre post : List Level) (l l' : Level)
    → l'.price ≡ l.price
    → is_empty l'.orders ≡ false
    → AllAt s l.price l'.orders
    → SideIsValid s (pre ++ (l ∷ post))
    → SideIsValid s (pre ++ (l' ∷ post))
SideIsValid-replace s [] post l l' e f g v = (rw e v.0, f, rw e g, v.3)
SideIsValid-replace s (x ∷ pre) post l l' e f g v = (
  AllAfter-replace s x.price pre post l l' e v.0,
  v.1,
  v.2,
  SideIsValid-replace s pre post l l' e f g v.3,
)

pub SideIsValid-remove :
    (s : Side) (pre post : List Level) (l : Level)
    → SideIsValid s (pre ++ (l ∷ post))
    → SideIsValid s (pre ++ post)
SideIsValid-remove s [] post l v = v.3
SideIsValid-remove s (x ∷ pre) post l v =
    (AllAfter-remove s x.price pre post l v.0, v.1, v.2, SideIsValid-remove s pre post l v.3)

-- The level that holds the order found first under `id`.
pub record Located (s : Side) (ls : List Level) (id : ℕ) (o : Order) : Type 0 where
  pub pre : List Level
  pub post : List Level
  pub level : Level
  pub split : ls ≡ pre ++ (level ∷ post)
  pub others : NoPrice o.price pre
  pub not_before : find_order id (orders_of pre) ≡ none
  pub held : find_order id level.orders ≡ some o
  pub price : level.price ≡ o.price
  pub side : o.side ≡ s
  pub level_all : AllAt s level.price level.orders

AllAfter-mid :
    (s : Side) (p : Price) (pre post : List Level) (l : Level)
    → AllAfter s p (pre ++ (l ∷ post))
    → before s p l.price ≡ true
AllAfter-mid s p [] post l a = a.0
AllAfter-mid s p (x ∷ pre) post l a = AllAfter-mid s p pre post l a.1

Located-later :
    (s : Side) (l : Level) (ls : List Level) (id : ℕ) (o : Order)
    → SideIsValid s (l ∷ ls)
    → find_order id l.orders ≡ none
    → Located s ls id o
    → Located s (l ∷ ls) id o
Located-later s l ls id o v h r = record {
  pre = l ∷ r.pre;
  post = r.post;
  level = r.level;
  split = ap (◌∷◌ l) r.split;
  others = (
    before-eqb s l.price o.price (
        rw (← r.price)
          (AllAfter-mid s l.price r.pre r.post r.level (subst (AllAfter s l.price) r.split v.0))),
    r.others,
  );
  not_before = find_order-append id l.orders (orders_of r.pre) h ∙ r.not_before;
  held = r.held;
  price = r.price;
  side = r.side;
  level_all = r.level_all;
}

pub locate :
    (s : Side) (ls : List Level) (id : ℕ) (o : Order)
    → SideIsValid s ls
    → find_order id (orders_of ls) ≡ some o
    → Located s ls id o
unfolding find_order
locate s [] id o v h = absurd (cc)
locate s (l ∷ ls) id o v h = elim (Option-cases (find_order id l.orders)) [
  | inl miss ↦
      Located-later s l ls id o v miss
        (locate s ls id o v.3 (sym (find_order-append id l.orders (orders_of ls) miss) ∙ h))
  | inr (o', hit) ↦
      let same : some o' ≡ some o =
        sym (find_order-append_left id l.orders (orders_of ls) o' hit) ∙ h in
      let at = AllAt-find s l.price id l.orders o (v.2) (hit ∙ same) in
      record {
        pre = [];
        post = ls;
        level = l;
        split = refl;
        others = tt;
        not_before = refl;
        held = hit ∙ same;
        price = sym at.1;
        side = at.0;
        level_all = v.2;
      }
]

-- The view after the order is erased from its level, or rewritten there.
module _ {s : Side} {ls : List Level} {id : ℕ} {o : Order} (r : Located s ls id o) where
  pub orders_of-erased :
      orders_of r.pre ++ (erase_order id r.level.orders ++ orders_of r.post)
      ≡ erase_order id (orders_of ls)
  orders_of-erased = rw (
    r.split,
    orders_of-append r.pre (r.level ∷ r.post),
    erase_order-append id (orders_of r.pre) (r.level.orders ++ orders_of r.post) r.not_before,
    erase_order-append_left id r.level.orders (orders_of r.post) o r.held,
  )

  pub orders_of-rewritten :
      (o' : Order)
      → orders_of r.pre ++ (set_order id o' r.level.orders ++ orders_of r.post)
        ≡ set_order id o' (orders_of ls)
  orders_of-rewritten o' = rw (
    r.split,
    orders_of-append r.pre (r.level ∷ r.post),
    set_order-append id o' (orders_of r.pre) (r.level.orders ++ orders_of r.post) r.not_before,
    set_order-append_left id o' r.level.orders (orders_of r.post) o r.held,
  )
