-- ===== src/Book/Apply.antt =====
-- src/Engine/OrderBook.hpp and OrderBook.inl: `Apply`, the three `Handle`s, and the queries.
pub mod Valid
pub mod History
pub mod Find
pub mod Shrink
pub mod Modify
pub mod Overflow
pub mod Adding
pub mod Snapshot
use hermes_orderbook.Prelude.{
  ℕ, zero, suc, ◌+◌, ◌-◌, ◌≡◌, refl, Bool, true, false, List, [], ◌∷◌, ◌++◌, map, Option, none,
  some, ltb, if◌then◌else◌, ◌>>=◌, ◌>>◌, sub64,
}
use hermes_orderbook.Core.Types.{Price, Quantity, TimeNs, Side, buy, sell}
use hermes_orderbook.Core.Order.{Order}
use hermes_orderbook.Core.Messages.{
  AddCommand, ModifyCommand, CancelCommand, Command, no_command, add, modify, cancel, ErrorCode,
  success, Event, order_accepted, order_rejected, modify_accepted, modify_rejected, cancel_accepted,
  cancel_rejected, SnapshotLevel, OrderBookSnapshot,
}
use hermes_orderbook.Book.Levels.{Level, find_level, find_order}
use hermes_orderbook.Book.State.{Book, MarketState, levels, lookup_entry}
use hermes_orderbook.Book.Operations.{push_event, internal_cancel_order}
use hermes_orderbook.Book.Matching.{best_order}
use hermes_orderbook.Book.Commands.{internal_add_order, internal_modify_order}

-- The event that a `Handle` writes last.
abbrev pub add_event : ℕ → ErrorCode → Book → Event
add_event client success b = order_accepted client (sub64 b.order_counter 1)
add_event client code b = order_rejected client code

abbrev pub modify_event : ℕ → ℕ → ErrorCode → Event
modify_event client id success = modify_accepted client id id
modify_event client id code = modify_rejected client id code

abbrev pub cancel_event : ℕ → ℕ → ErrorCode → Event
cancel_event client id success = cancel_accepted client id
cancel_event client id code = cancel_rejected client id code

unfoldable pub handle_add : TimeNs → AddCommand → Book → Option Book
handle_add now c b = do
  (code, b') ←
      internal_add_order now c.client_id c.price c.quantity c.side c.order_type c.tif c.match_type
        c.flags b
  push_event (add_event c.client_id code b') b'

unfoldable pub handle_modify : TimeNs → ModifyCommand → Book → Option Book
handle_modify now c b = do
  (code, b') ← internal_modify_order now c.client_id c.order_id c.new_price c.new_quantity b
  push_event (modify_event c.client_id c.order_id code) b'

unfoldable pub handle_cancel : CancelCommand → Book → Option Book
handle_cancel c b = do
  (code, b') ← internal_cancel_order c.client_id c.order_id b
  push_event (cancel_event c.client_id c.order_id code) b'

-- `Apply`: the book after the command; the span that it returns is the new `scratch`.
unfoldable pub apply : TimeNs → Command → Book → Option Book
unfolding handle_add handle_modify handle_cancel
apply now no_command b = some (record b { scratch = [] })
apply now (add c) b = handle_add now c (record b { scratch = [] })
apply now (modify c) b = handle_modify now c (record b { scratch = [] })
apply now (cancel c) b = handle_cancel c (record b { scratch = [] })

-- `FindOrder`: `some none` is the null pointer.
unfoldable pub find_order_by_id : ℕ → Book → Option (Option Order)
find_order_by_id id b = elim (lookup_entry id b.index) [
  | none ↦ some none
  | some e ↦ do
    l ← find_level e.level_price (levels e.level_side b)
    o ← find_order e.list_it l.orders
    some (some o)
]

-- `GetBidVolumeAtPrice` and `GetAskVolumeAtPrice`.
unfoldable pub volume_at_price : Side → Price → Book → Quantity
volume_at_price s p b = elim (find_level p (levels s b)) [ none ↦ 0 | some l ↦ l.volume ]

abbrev pub snapshot_level : Level → SnapshotLevel
snapshot_level l = record { price = l.price; quantity = l.volume }

-- `GetSnapshot`: a loop that stops when its counter passes `depth`. Both are `u32`: the model's counter
-- is the code's on a side of fewer than 2 ^ 32 levels, and the depth is below 2 ^ 32.
unfoldable pub snapshot_side : ℕ → ℕ → List Level → List SnapshotLevel
snapshot_side curr depth [] = []
snapshot_side curr depth (l ∷ ls) =
    let rest = snapshot_side (curr + 1) depth ls in
    if ltb depth (curr + 1) then [] else snapshot_level l ∷ rest

unfoldable pub get_snapshot : ℕ → Book → OrderBookSnapshot
unfolding snapshot_side
get_snapshot depth b = record {
  bids = snapshot_side 0 depth b.bids;
  asks = snapshot_side 0 depth b.asks;
  trades = [];
}

abbrev pub get_market_state : Book → MarketState
get_market_state b = b.market_state
