-- ===== src/Core/Messages.antt =====
-- src/Core/Commands.hpp, src/Core/Events.hpp, src/Core/Trade.hpp and src/Core/OrderBookSnapshot.hpp:
-- what goes into the engine and what comes out.
use hermes_orderbook.Prelude.{ℕ, List}
use hermes_orderbook.Core.Types.{Price, Quantity, Side, OrderType, TimeInForce, MatchType, Flags}

pub record AddCommand : Type 0 where
  pub client_id : ℕ
  pub price : Price
  pub quantity : Quantity
  pub flags : Flags
  pub side : Side
  pub order_type : OrderType
  pub tif : TimeInForce
  pub match_type : MatchType

pub record ModifyCommand : Type 0 where
  pub client_id : ℕ
  pub order_id : ℕ
  pub new_price : Price
  pub new_quantity : Quantity

pub record CancelCommand : Type 0 where
  pub client_id : ℕ
  pub order_id : ℕ

-- `CommandPayload`, a tagged union.
pub data Command : Type 0 where
  no_command : Command
  add : AddCommand → Command
  modify : ModifyCommand → Command
  cancel : CancelCommand → Command

pub data ErrorCode : Type 0 where
  no_code success invalid_request invalid_modify invalid_cancel insufficient_liquidity : ErrorCode
  post_only_violation invalid_order_combination not_implemented : ErrorCode
  unsupported_time_in_force unauthorized : ErrorCode

-- `m_Timestamp`, which the constructor leaves unset, is left out.
pub record Trade : Type 0 where
  pub trade_id : ℕ
  pub maker_order_id : ℕ
  pub taker_order_id : ℕ
  pub price : Price
  pub quantity : Quantity
  pub taker_side : Side
  pub match_type : MatchType

-- `EventPayload`, a tagged union. `order_accepted client order`, `order_rejected client code`,
-- `modify_accepted client old new`, `modify_rejected client order code`, and so on.
pub data Event : Type 0 where
  no_event : Event
  order_accepted : ℕ → ℕ → Event
  order_rejected : ℕ → ErrorCode → Event
  modify_accepted : ℕ → ℕ → ℕ → Event
  modify_rejected : ℕ → ℕ → ErrorCode → Event
  cancel_accepted : ℕ → ℕ → Event
  cancel_rejected : ℕ → ℕ → ErrorCode → Event
  trade : Trade → Event

pub record SnapshotLevel : Type 0 where
  pub price : Price
  pub quantity : Quantity

-- The source never fills the snapshot's `trades`.
pub record OrderBookSnapshot : Type 0 where
  pub bids : List SnapshotLevel
  pub asks : List SnapshotLevel
  pub trades : List Trade
