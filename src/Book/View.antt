-- ===== src/Book/View.antt =====
-- The abstract view of a side of the book: its orders from the best price on, oldest first at each
-- price; and what a well-formed book is.
pub mod Orders
pub mod Levels
pub mod Index
pub mod Sides
pub mod Uncrossed
use hermes_orderbook.Prelude.{
  ℕ, suc, ◌+◌, ◌≤◌, ◌<◌, ◌≡◌, Bool, true, false, List, [], ◌∷◌, ◌++◌, Option, none, some, ◌==◌,
  if◌then◌else◌, is_empty, ltb_ℤ,
}
use hermes_orderbook.Core.Types.{Price, Quantity, Side, opposite}
use hermes_orderbook.Core.Order.{Order}
use hermes_orderbook.Book.Levels.{Level, before, find_order}
use hermes_orderbook.Book.State.{Book, OrderEntry, levels, lookup_entry}

abbrev pub orders_of : List Level → List Order
orders_of [] = []
orders_of (l ∷ ls) = l.orders ++ orders_of ls

-- How many orders have the number `id`.
abbrev pub occurs : ℕ → List Order → ℕ
occurs id [] = 0
occurs id (o ∷ os) = if o.order_id == id then suc (occurs id os) else occurs id os

-- What remains to be filled, over a list of orders.
abbrev pub total_remaining : List Order → ℕ
total_remaining [] = 0
total_remaining (o ∷ os) = o.remaining_quantity + total_remaining os

-- All prices of `ls` come after `p`.
abbrev pub AllAfter : Side → Price → List Level → Type 0
AllAfter s p [] = Unit {0}
AllAfter s p (l ∷ ls) = (before s p l.price ≡ true) × AllAfter s p ls

abbrev pub AllAt : Side → Price → List Order → Type 0
AllAt s p [] = Unit {0}
AllAt s p (o ∷ os) = (o.side ≡ s) × (o.price ≡ p) × AllAt s p os

-- The prices stand in the map's order, no level is empty, and each holds orders of its own price.
abbrev pub SideIsValid : Side → List Level → Type 0
SideIsValid s [] = Unit {0}
SideIsValid s (l ∷ ls) =
    AllAfter s l.price ls
    × (is_empty l.orders ≡ false)
    × AllAt s l.price l.orders
    × SideIsValid s ls

-- The iterators of an order.
abbrev pub entry_of : Order → OrderEntry
entry_of o = record { level_side = o.side; level_price = o.price; list_it = o.order_id }

abbrev pub entry_from : Option Order → Option Order → Option OrderEntry
entry_from (some o) other = some (entry_of o)
entry_from none (some o) = some (entry_of o)
entry_from none none = none

abbrev pub orders_on : Side → Book → List Order
orders_on s b = orders_of (levels s b)

-- `m_Orders` holds the iterators of exactly the orders that rest, no two with one number, and the
-- numbers from `n` on are free.
pub record IsValidBelow (n : ℕ) (b : Book) : Type 0 where
  pub side_valid : (s : Side) → SideIsValid s (levels s b)
  pub indexed :
      (s : Side) (id : ℕ)
      → lookup_entry id b.index
        ≡ entry_from (find_order id (orders_on s b)) (find_order id (orders_on (opposite s) b))
  pub distinct : (s : Side) (id : ℕ) → occurs id (orders_on s b) ≤ 1
  pub fresh : (s : Side) (id : ℕ) → n ≤ id → occurs id (orders_on s b) ≡ 0

-- A well-formed book: the next number is free.
abbrev pub IsValid : Book → Type 0
IsValid b = IsValidBelow b.order_counter b
