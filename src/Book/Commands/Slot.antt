-- ===== src/Book/Commands/Slot.antt =====
-- Where `try_emplace` puts a level, and where an order that comes to rest stands among the others.
use hermes_orderbook.Prelude.{
  ◌≡◌, refl, sym, ap, subst, ◌∙◌, true, false, List, [], ◌∷◌, ◌++◌, if◌then◌else◌, is_empty, arith,
  inl, inr, Bool-cases, append_assoc, eqb_ℤ, eqb_ℤ_iff, ltb_ℤ,
}
use hermes_orderbook.Core.Types.{Price, Side, buy, sell}
use hermes_orderbook.Core.Order.{Order}
use hermes_orderbook.Book.Levels.{Level, before, empty_level, try_emplace}
use hermes_orderbook.Book.View.{orders_of, AllAfter, AllAt, SideIsValid}
use hermes_orderbook.Book.View.Levels.{NoPrice, before_trans, before_connex}

-- Price and time priority of a new order: behind all that are not worse.
unfoldable pub enqueue : Side → Order → List Order → List Order
enqueue s o [] = o ∷ []
enqueue s o (m ∷ ms) = if before s o.price m.price then o ∷ m ∷ ms else m ∷ enqueue s o ms

-- No price in the list is worse than `p`; all prices in the list are.
abbrev pub NotWorse : Side → Price → List Order → Type 0
NotWorse s p [] = Unit {0}
NotWorse s p (m ∷ ms) = (before s p m.price ≡ false) × NotWorse s p ms

abbrev pub Worse : Side → Price → List Order → Type 0
Worse s p [] = Unit {0}
Worse s p (m ∷ ms) = (before s p m.price ≡ true) × Worse s p ms

pub enqueue-append :
    (s : Side) (o : Order) (xs ys : List Order)
    → NotWorse s o.price xs
    → Worse s o.price ys
    → enqueue s o (xs ++ ys) ≡ xs ++ (o ∷ ys)
unfolding enqueue
enqueue-append s o [] [] h k = refl
enqueue-append s o [] (y ∷ ys) h k = rw k.0
enqueue-append s o (x ∷ xs) ys h k = rw (h.0, enqueue-append s o xs ys h.1 k)

pub NotWorse-append :
    (s : Side) (p : Price) (xs ys : List Order)
    → NotWorse s p xs
    → NotWorse s p ys
    → NotWorse s p (xs ++ ys)
NotWorse-append s p [] ys h k = k
NotWorse-append s p (x ∷ xs) ys h k = (h.0, NotWorse-append s p xs ys h.1 k)

Worse-append :
    (s : Side) (p : Price) (xs ys : List Order) → Worse s p xs → Worse s p ys → Worse s p (xs ++ ys)
Worse-append s p [] ys h k = k
Worse-append s p (x ∷ xs) ys h k = (h.0, Worse-append s p xs ys h.1 k)

before_irrefl : (s : Side) (p : Price) → before s p p ≡ false
unfolding before ltb_ℤ
before_irrefl buy p = ground arith
before_irrefl sell p = ground arith

before_asymm : (s : Side) (p q : Price) → before s q p ≡ true → before s p q ≡ false
unfolding before ltb_ℤ
before_asymm buy p q h = ground arith
before_asymm sell p q h = ground arith

NotWorse-at :
    (s t : Side) (p q : Price) (os : List Order)
    → AllAt t q os
    → before s p q ≡ false
    → NotWorse s p os
NotWorse-at s t p q [] a h = tt
NotWorse-at s t p q (o ∷ os) a h = (rw a.1 h, NotWorse-at s t p q os a.2 h)

Worse-at :
    (s t : Side) (p q : Price) (os : List Order) → AllAt t q os → before s p q ≡ true → Worse s p os
Worse-at s t p q [] a h = tt
Worse-at s t p q (o ∷ os) a h = (rw a.1 h, Worse-at s t p q os a.2 h)

pub Worse-orders_of :
    (s : Side) (p : Price) (ls : List Level)
    → SideIsValid s ls
    → AllAfter s p ls
    → Worse s p (orders_of ls)
Worse-orders_of s p [] v a = tt
Worse-orders_of s p (l ∷ ls) v a =
    Worse-append s p l.orders (orders_of ls) (Worse-at s s p l.price l.orders v.2 a.0)
      (Worse-orders_of s p ls v.3 a.1)

pub AllAfter-weaken :
    (s : Side) (p q : Price) (ls : List Level)
    → before s p q ≡ true
    → AllAfter s q ls
    → AllAfter s p ls
AllAfter-weaken s p q [] h a = tt
AllAfter-weaken s p q (l ∷ ls) h a =
    (before_trans s p q l.price h a.0, AllAfter-weaken s p q ls h a.1)

-- The level that `try_emplace` finds or makes.
pub record Slot (s : Side) (p : Price) (ls : List Level) : Type 0 where
  pub pre : List Level
  pub level : Level
  pub post : List Level
  pub emplaced : try_emplace s p ls ≡ pre ++ (level ∷ post)
  pub others : NoPrice p pre
  pub price : level.price ≡ p
  pub old : orders_of ls ≡ orders_of pre ++ (level.orders ++ orders_of post)
  pub level_all : AllAt s p level.orders
  pub not_worse : NotWorse s p (orders_of pre)
  pub worse : Worse s p (orders_of post)
  pub after :
      (q : Price)
      → AllAfter s q ls
      → before s q p ≡ true
      → (l : Level) → l.price ≡ p
      → AllAfter s q (pre ++ (l ∷ post))
  pub valid :
      (l : Level)
      → l.price ≡ p
      → is_empty l.orders ≡ false
      → AllAt s p l.orders
      → SideIsValid s (pre ++ (l ∷ post))

module _ (s : Side) (p : Price) where
  slot_end : Slot s p []
  unfolding try_emplace
  slot_end = record {
    pre = [];
    level = empty_level p;
    post = [];
    emplaced = refl;
    others = tt;
    price = refl;
    old = refl;
    level_all = tt;
    not_worse = tt;
    worse = tt;
    after = λ q a h l e. (rw e h, tt);
    valid = λ l e f g. (tt, f, rw e g, tt);
  }

  module _ (l : Level) (ls : List Level) (v : SideIsValid s (l ∷ ls)) where
    slot_here : eqb_ℤ l.price p ≡ true → Slot s p (l ∷ ls)
    unfolding try_emplace
    slot_here h =
        let e : l.price ≡ p = (eqb_ℤ_iff l.price p).0 h in
        record {
          pre = [];
          level = l;
          post = ls;
          emplaced = rw h;
          others = tt;
          price = e;
          old = refl;
          level_all = subst (λ q. AllAt s q l.orders) e v.2;
          not_worse = tt;
          worse = Worse-orders_of s p ls v.3 (subst (λ q. AllAfter s q ls) e v.0);
          after = λ q a k l' e'. (rw e' k, a.1);
          valid = λ l' e' f g. (subst (λ q. AllAfter s q ls) (e ∙ sym e') v.0, f, rw e' g, v.3);
        }

    slot_before : eqb_ℤ l.price p ≡ false → before s p l.price ≡ true → Slot s p (l ∷ ls)
    unfolding try_emplace
    slot_before h k =
        let all : AllAfter s p (l ∷ ls) = (k, AllAfter-weaken s p l.price ls k v.0) in
        record {
          pre = [];
          level = empty_level p;
          post = l ∷ ls;
          emplaced = rw (h, k);
          others = tt;
          price = refl;
          old = refl;
          level_all = tt;
          not_worse = tt;
          worse = Worse-orders_of s p (l ∷ ls) v all;
          after = λ q a h' l' e'. (rw e' h', a);
          valid = λ l' e' f g. (subst (λ q. AllAfter s q (l ∷ ls)) (sym e') all, f, rw e' g, v);
        }

    slot_later :
        eqb_ℤ l.price p ≡ false → before s p l.price ≡ false → Slot s p ls → Slot s p (l ∷ ls)
    unfolding try_emplace
    slot_later h k r =
        let first : before s l.price p ≡ true = before_connex s p l.price h k in
        record {
          pre = l ∷ r.pre;
          level = r.level;
          post = r.post;
          emplaced = rw (h, k) (ap (◌∷◌ l) r.emplaced);
          others = (h, r.others);
          price = r.price;
          old = ap (◌++◌ l.orders) r.old ∙ sym (append_assoc l.orders (orders_of r.pre) _);
          level_all = r.level_all;
          not_worse =
              NotWorse-append s p l.orders (orders_of r.pre)
                (NotWorse-at s s p l.price l.orders v.2 k) r.not_worse;
          worse = r.worse;
          after = λ q a h' l' e'. (a.0, r.after q a.1 h' l' e');
          valid = λ l' e' f g. (r.after l.price v.0 first l' e', v.1, v.2, r.valid l' e' f g);
        }

pub slot : (s : Side) (p : Price) (ls : List Level) → SideIsValid s ls → Slot s p ls
slot s p [] v = slot_end s p
slot s p (l ∷ ls) v = elim (Bool-cases (eqb_ℤ l.price p)) [
  | inl e ↦ slot_here s p l ls v e
  | inr ne ↦ elim (Bool-cases (before s p l.price)) [
    | inl b ↦ slot_before s p l ls v ne b
    | inr nb ↦ slot_later s p l ls v ne nb (slot s p ls v.3)
  ]
]

-- The back of the slot's level is the order's place.
pub enqueue-slot :
    (s : Side) (o : Order) (ls : List Level) (r : Slot s o.price ls)
    → enqueue s o (orders_of ls)
      ≡ orders_of r.pre ++ ((r.level.orders ++ (o ∷ [])) ++ orders_of r.post)
enqueue-slot s o ls r =
    rw (r.old, ← append_assoc (orders_of r.pre) r.level.orders (orders_of r.post))
      (enqueue-append s o (orders_of r.pre ++ r.level.orders) (orders_of r.post)
          (NotWorse-append s o.price (orders_of r.pre) r.level.orders r.not_worse
            (NotWorse-at s s o.price o.price r.level.orders r.level_all (before_irrefl s o.price)))
          r.worse
        ∙ simp append_assoc)
