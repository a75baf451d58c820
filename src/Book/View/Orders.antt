-- ===== src/Book/View/Orders.antt =====
-- Finding, erasing, rewriting and inserting in a list of orders.
use hermes_orderbook.Prelude.{
  ℕ, ◌+◌, ◌-◌, ◌≡◌, ◌≢◌, refl, false, List, [], ◌∷◌, ◌++◌, none, some, is_empty, arith,
}
use hermes_orderbook.Core.Types.{Price, Side}
use hermes_orderbook.Core.Order.{Order}
use hermes_orderbook.Book.Levels.{find_order, set_order, erase_order}
use hermes_orderbook.Book.View.{occurs, total_remaining, AllAt}

pub find_order-id :
    (id : ℕ) (os : List Order) (o : Order) → find_order id os ≡ some o → o.order_id ≡ id
unfolding find_order
find_order-id id [] o h = absurd (cc)
find_order-id id (x ∷ os) o h = ground (arith, find_order-id id os o)

pub occurs-eq-zero : (id : ℕ) (os : List Order) → find_order id os ≡ none → occurs id os ≡ 0
unfolding find_order
occurs-eq-zero id [] h = refl
occurs-eq-zero id (x ∷ os) h = ground (arith, occurs-eq-zero id os)

pub find_order-eq-none : (id : ℕ) (os : List Order) → occurs id os ≡ 0 → find_order id os ≡ none
unfolding find_order
find_order-eq-none id [] h = refl
find_order-eq-none id (x ∷ os) h = ground (arith, find_order-eq-none id os)

pub find_order-append :
    (id : ℕ) (xs ys : List Order)
    → find_order id xs ≡ none
    → find_order id (xs ++ ys) ≡ find_order id ys
unfolding find_order
find_order-append id [] ys h = refl
find_order-append id (x ∷ xs) ys h = ground (arith, find_order-append id xs ys)

pub find_order-append_left :
    (id : ℕ) (xs ys : List Order) (o : Order)
    → find_order id xs ≡ some o
    → find_order id (xs ++ ys) ≡ some o
unfolding find_order
find_order-append_left id [] ys o h = absurd (cc)
find_order-append_left id (x ∷ xs) ys o h = ground (arith, find_order-append_left id xs ys o)

pub occurs-append :
    (id : ℕ) (xs ys : List Order) → occurs id (xs ++ ys) ≡ occurs id xs + occurs id ys
occurs-append id [] ys = omega arith
occurs-append id (x ∷ xs) ys = ground (arith, occurs-append id xs ys)

pub total_remaining-append :
    (xs ys : List Order) → total_remaining (xs ++ ys) ≡ total_remaining xs + total_remaining ys
total_remaining-append [] ys = omega arith
total_remaining-append (x ∷ xs) ys = omega (arith, total_remaining-append xs ys)

-- Erasing.

pub erase_order-append :
    (id : ℕ) (xs ys : List Order)
    → find_order id xs ≡ none
    → erase_order id (xs ++ ys) ≡ xs ++ erase_order id ys
unfolding find_order erase_order
erase_order-append id [] ys h = refl
erase_order-append id (x ∷ xs) ys h = ground (arith, erase_order-append id xs ys)

pub erase_order-append_left :
    (id : ℕ) (xs ys : List Order) (o : Order)
    → find_order id xs ≡ some o
    → erase_order id (xs ++ ys) ≡ erase_order id xs ++ ys
unfolding find_order erase_order
erase_order-append_left id [] ys o h = absurd (cc)
erase_order-append_left id (x ∷ xs) ys o h = ground (arith, erase_order-append_left id xs ys o)

pub find_order-erase_ne :
    (id x : ℕ) (os : List Order) → x ≢ id → find_order id (erase_order x os) ≡ find_order id os
unfolding find_order erase_order
find_order-erase_ne id x [] h = refl
find_order-erase_ne id x (o ∷ os) h = ground (arith, find_order-erase_ne id x os h)

pub occurs-erase_ne :
    (id x : ℕ) (os : List Order) → x ≢ id → occurs id (erase_order x os) ≡ occurs id os
unfolding erase_order
occurs-erase_ne id x [] h = refl
occurs-erase_ne id x (o ∷ os) h = ground (arith, occurs-erase_ne id x os h)

pub occurs-erase_self :
    (id : ℕ) (os : List Order) → occurs id (erase_order id os) ≡ occurs id os - 1
unfolding erase_order
occurs-erase_self id [] = omega arith
occurs-erase_self id (o ∷ os) = ground (arith, occurs-erase_self id os)

pub AllAt-erase :
    (s : Side) (p : Price) (id : ℕ) (os : List Order) → AllAt s p os → AllAt s p (erase_order id os)
unfolding erase_order
AllAt-erase s p id [] a = tt
AllAt-erase s p id (o ∷ os) a = ground (arith, AllAt-erase s p id os a.2)

-- Rewriting, by an order with the same number.

module _ (id : ℕ) (o' : Order) (same : o'.order_id ≡ id) where
  pub find_order-set_self :
      (os : List Order) (o : Order)
      → find_order id os ≡ some o
      → find_order id (set_order id o' os) ≡ some o'
  unfolding find_order set_order
  find_order-set_self [] o h = absurd (cc)
  find_order-set_self (x ∷ os) o h = ground (arith, find_order-set_self os o)

  pub find_order-set_ne :
      (x : ℕ) (os : List Order) → id ≢ x → find_order x (set_order id o' os) ≡ find_order x os
  unfolding find_order set_order
  find_order-set_ne x [] h = refl
  find_order-set_ne x (y ∷ os) h = ground (arith, find_order-set_ne x os h)

  pub occurs-set : (x : ℕ) (os : List Order) → occurs x (set_order id o' os) ≡ occurs x os
  unfolding set_order
  occurs-set x [] = refl
  occurs-set x (y ∷ os) = ground (arith, occurs-set x os)

pub set_order-append :
    (id : ℕ) (o' : Order) (xs ys : List Order)
    → find_order id xs ≡ none
    → set_order id o' (xs ++ ys) ≡ xs ++ set_order id o' ys
unfolding find_order set_order
set_order-append id o' [] ys h = refl
set_order-append id o' (x ∷ xs) ys h = ground (arith, set_order-append id o' xs ys)

pub set_order-append_left :
    (id : ℕ) (o' : Order) (xs ys : List Order) (o : Order)
    → find_order id xs ≡ some o
    → set_order id o' (xs ++ ys) ≡ set_order id o' xs ++ ys
unfolding find_order set_order
set_order-append_left id o' [] ys o h = absurd (cc)
set_order-append_left id o' (x ∷ xs) ys o h = ground (arith, set_order-append_left id o' xs ys o)

pub AllAt-set :
    (s : Side) (p : Price) (id : ℕ) (o' : Order) (os : List Order)
    → o'.side ≡ s
    → o'.price ≡ p
    → AllAt s p os
    → AllAt s p (set_order id o' os)
unfolding set_order
AllAt-set s p id o' [] e f a = tt
AllAt-set s p id o' (o ∷ os) e f a = ground (arith, AllAt-set s p id o' os e f a.2)

pub is_empty-set :
    (id : ℕ) (o' : Order) (os : List Order) → is_empty (set_order id o' os) ≡ is_empty os
unfolding set_order
is_empty-set id o' [] = refl
is_empty-set id o' (o ∷ os) = ground arith

-- Appending one order.

pub AllAt-snoc :
    (s : Side) (p : Price) (os : List Order) (o : Order)
    → AllAt s p os
    → o.side ≡ s
    → o.price ≡ p
    → AllAt s p (os ++ (o ∷ []))
AllAt-snoc s p [] o a e f = (e, f, tt)
AllAt-snoc s p (x ∷ os) o a e f = (a.0, a.1, AllAt-snoc s p os o a.2 e f)

pub AllAt-find :
    (s : Side) (p : Price) (id : ℕ) (os : List Order) (o : Order)
    → AllAt s p os
    → find_order id os ≡ some o
    → (o.side ≡ s) × (o.price ≡ p)
unfolding find_order
AllAt-find s p id [] o a h = absurd (cc)
AllAt-find s p id (x ∷ os) o a h = ground (arith, AllAt-find s p id os o a.2)

pub is_empty-found :
    (id : ℕ) (os : List Order) (o : Order) → find_order id os ≡ some o → is_empty os ≡ false
unfolding find_order
is_empty-found id [] o h = absurd (cc)
is_empty-found id (x ∷ os) o h = refl
