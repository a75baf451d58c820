-- ===== src/Book/Levels.antt =====
-- src/Engine/OrderBook.hpp: the price levels of one side, `std::pmr::map<Price, LevelData, ...>`, as
-- a list in the map's order, whose head is `begin()`, and the lists of orders in the levels.
use hermes_orderbook.Prelude.{
  ℕ, Bool, List, [], ◌∷◌, Option, none, some, ◌==◌, if◌then◌else◌, ltb_ℤ, eqb_ℤ,
}
use hermes_orderbook.Core.Types.{Price, Quantity, Side, buy, sell}
use hermes_orderbook.Core.Order.{Order}

-- A map node: its key and the fields of `LevelData`.
pub record Level : Type 0 where
  pub price : Price
  pub volume : Quantity
  pub orders : List Order

-- The comparators: `std::greater` for the bids, `std::less` for the asks.
unfoldable pub before : Side → Price → Price → Bool
before buy p q = ltb_ℤ q p
before sell p q = ltb_ℤ p q

-- `find(price)`
unfoldable pub find_level : Price → List Level → Option Level
find_level p [] = none
find_level p (l ∷ ls) = if eqb_ℤ l.price p then some l else find_level p ls

-- A write through an iterator to the node with key `p`.
unfoldable pub set_level : Price → Level → List Level → List Level
set_level p l' [] = []
set_level p l' (l ∷ ls) = if eqb_ℤ l.price p then l' ∷ ls else l ∷ set_level p l' ls

-- `erase(it)` at the node with key `p`.
unfoldable pub erase_level : Price → List Level → List Level
erase_level p [] = []
erase_level p (l ∷ ls) = if eqb_ℤ l.price p then ls else l ∷ erase_level p ls

abbrev pub empty_level : Price → Level
empty_level p = record { price = p; volume = 0; orders = [] }

-- `try_emplace(price, LevelData{...})`: a new node goes in front of the first that comes after it.
unfoldable pub try_emplace : Side → Price → List Level → List Level
try_emplace s p [] = empty_level p ∷ []
try_emplace s p (l ∷ ls) =
    if eqb_ℤ l.price p
    then l ∷ ls
    else if before s p l.price
    then empty_level p ∷ l ∷ ls
    else l ∷ try_emplace s p ls

-- The list node that holds the order `id`.
unfoldable pub find_order : ℕ → List Order → Option Order
find_order id [] = none
find_order id (o ∷ os) = if o.order_id == id then some o else find_order id os

-- A write through a list iterator.
unfoldable pub set_order : ℕ → Order → List Order → List Order
set_order id o' [] = []
set_order id o' (o ∷ os) = if o.order_id == id then o' ∷ os else o ∷ set_order id o' os

-- `orders.erase(list_it)`
unfoldable pub erase_order : ℕ → List Order → List Order
erase_order id [] = []
erase_order id (o ∷ os) = if o.order_id == id then os else o ∷ erase_order id os
