-- ===== src/Book/Operations.antt =====
-- src/Engine/OrderBook.inl: `RecordFill`, `InternalCancelOrder`, and the writes of the scratch.
-- `none` stands for undefined behaviour: an iterator that points nowhere, or a write out of bounds.
pub mod Cancel
use hermes_orderbook.Prelude.{
  ℕ, ◌+◌, ◌%◌, ◌^◌, ◌≡◌, refl, Bool, true, false, List, [], ◌∷◌, ◌++◌, Option, none, some, ◌==◌,
  ◌&&◌, ltb, if◌then◌else◌, length, is_empty, sub64, add64, ◌>>=◌, ◌>>◌,
}
use hermes_orderbook.Core.Types.{Price, Quantity, Side, MatchType, is_visible}
use hermes_orderbook.Core.Order.{Order}
use hermes_orderbook.Core.Messages.{
  ErrorCode, success, invalid_cancel, unauthorized, Event, trade, Trade,
}
use hermes_orderbook.Book.Levels.{
  Level, find_level, set_level, erase_level, find_order, erase_order,
}
use hermes_orderbook.Book.State.{
  Book, OrderEntry, max_events, levels, with_levels, lookup_entry, erase_entry,
}

-- `t_EventScratch[m_ScratchCounter++] = event`, with no test of the bound.
unfoldable pub push_event : Event → Book → Option Book
push_event e b =
    if ltb (length b.scratch) max_events
    then some (record b { scratch = b.scratch ++ (e ∷ []) })
    else none

-- The first half of `RecordFill`: the level's volume.
unfoldable pub charge_level : Side → Price → Quantity → Book → Book
charge_level s p q b = elim (find_level p (levels s b)) [
  | none ↦ b
  | some l ↦
      if sub64 l.volume q == 0 && is_empty l.orders
      then with_levels s (erase_level p (levels s b)) b
      else with_levels s (set_level p (record l { volume = sub64 l.volume q }) (levels s b)) b
]

-- The second half: the trade, unless the scratch is full.
unfoldable pub record_trade : ℕ → ℕ → Price → Quantity → Side → MatchType → Book → Book
record_trade maker taker p q taker_side mt b =
    if ltb (length b.scratch) max_events
    then record b {
      scratch =
          b.scratch
          ++ (trade (record {
            trade_id = b.trade_counter;
            maker_order_id = maker;
            taker_order_id = taker;
            price = p;
            quantity = q;
            taker_side = taker_side;
            match_type = mt;
          })
              ∷ []);
      trade_counter = add64 b.trade_counter 1;
    }
    else b

unfoldable pub record_fill : ℕ → ℕ → Price → Quantity → Side → MatchType → Book → Book
unfolding charge_level record_trade
record_fill maker taker p q taker_side mt b =
    record_trade maker taker p q taker_side mt (charge_level taker_side p q b)

-- What a cancellation leaves of the order's level.
abbrev pub without : Order → Level → Level
without o l = record l {
  volume = if is_visible o.flags then sub64 l.volume o.remaining_quantity else l.volume;
  orders = erase_order o.order_id l.orders;
}

-- The writes of `InternalCancelOrder`, once its entry, level and order are found. The emptied level
-- is erased from the map of the order's side.
unfoldable pub unlink : ℕ → OrderEntry → Level → Order → Book → Book
unlink id e l o b =
    let b' =
      with_levels e.level_side (set_level e.level_price (without o l) (levels e.level_side b))
        (record b { index = erase_entry id b.index }) in
    if is_empty (erase_order o.order_id l.orders)
    then with_levels o.side (erase_level e.level_price (levels o.side b')) b'
    else b'

-- `InternalCancelOrder`
unfoldable pub internal_cancel_order : ℕ → ℕ → Book → Option (ErrorCode × Book)
unfolding unlink
internal_cancel_order client id b = elim (lookup_entry id b.index) [
  | none ↦ some (invalid_cancel, b)
  | some e ↦ do
    l ← find_level e.level_price (levels e.level_side b)
    o ← find_order e.list_it l.orders
    if o.client_id == client then some (success, unlink id e l o b) else some (unauthorized, b)
]
