-- ===== src/Book/State.antt =====
-- src/Engine/OrderBook.hpp: the state of `OrderBook`. The memory pool has no state that the code
-- reads. `m_ExpiryWatchlist` is never used.
use hermes_orderbook.Prelude.{ℕ, List, [], ◌∷◌, Option, none, some, ◌==◌, if◌then◌else◌}
use hermes_orderbook.Core.Types.{Price, Side, buy, sell}
use hermes_orderbook.Core.Messages.{Event}
use hermes_orderbook.Book.Levels.{Level}

-- `MaxEventsPerCommand`
abbrev pub max_events : ℕ
max_events = 128

pub data MarketState : Type 0 where
  closed pre_open in_auction continuous : MarketState

-- The two iterators: the map node by its map and key, the list node by the order that it holds.
pub record OrderEntry : Type 0 where
  pub level_side : Side
  pub level_price : Price
  pub list_it : ℕ

-- `scratch` is the part of `t_EventScratch` below `m_ScratchCounter`.
pub record Book : Type 0 where
  pub bids : List Level
  pub asks : List Level
  pub index : List (ℕ × OrderEntry)
  pub scratch : List Event
  pub order_counter : ℕ
  pub trade_counter : ℕ
  pub market_state : MarketState

-- The constructor.
abbrev pub empty_book : Book
empty_book = record {
  bids = [];
  asks = [];
  index = [];
  scratch = [];
  order_counter = 1;
  trade_counter = 1;
  market_state = closed;
}

-- `m_Bids` or `m_Asks`.
unfoldable pub levels : Side → Book → List Level
levels buy b = b.bids
levels sell b = b.asks

unfoldable pub with_levels : Side → List Level → Book → Book
with_levels buy ls b = record b { bids = ls }
with_levels sell ls b = record b { asks = ls }

-- `m_Orders.find(id)`
unfoldable pub lookup_entry : ℕ → List (ℕ × OrderEntry) → Option OrderEntry
lookup_entry id [] = none
lookup_entry id ((k, e) ∷ m) = if k == id then some e else lookup_entry id m

-- `m_Orders.erase(it)`: the entry of `id`, whose keys are distinct.
unfoldable pub erase_entry : ℕ → List (ℕ × OrderEntry) → List (ℕ × OrderEntry)
erase_entry id [] = []
erase_entry id ((k, e) ∷ m) = let rest = erase_entry id m in if k == id then rest else (k, e) ∷ rest

-- `m_Orders.emplace(id, entry)`, which leaves an entry that is there.
unfoldable pub emplace_entry : ℕ → OrderEntry → List (ℕ × OrderEntry) → List (ℕ × OrderEntry)
emplace_entry id e [] = (id, e) ∷ []
emplace_entry id e ((k, d) ∷ m) = if k == id then (k, d) ∷ m else (k, d) ∷ emplace_entry id e m
