-- ===== src/Core/Types.antt =====
-- src/Core/globals.hpp: identifiers, prices and the enumerations of an order.
use hermes_orderbook.Prelude.{ℕ, ◌%◌, Bool, true, false, bit_and, bit_or, ◌==◌, ℤ, not}

-- `i64` in the source; the engine only compares prices.
abbrev pub Price : Type 0
Price = ℤ

-- `u64` in the source.
abbrev pub Quantity : Type 0
Quantity = ℕ

-- `i64` in the source.
abbrev pub TimeNs : Type 0
TimeNs = ℤ

pub data Side : Type 0 where
  buy sell : Side

pub data OrderType : Type 0 where
  limit market complex stop stop_limit market_if_touched limit_if_touched pegged : OrderType

pub data TimeInForce : Type 0 where
  gtc day ioc fok gtd ato atc : TimeInForce

pub data MatchType : Type 0 where
  standard midpoint hidden_liquidity auction : MatchType

-- The sixteen bits of `Flags`.
abbrev pub Flags : Type 0
Flags = ℕ

abbrev pub no_flags : Flags
no_flags = 0

abbrev pub hidden : Flags
hidden = 1

abbrev pub iceberg : Flags
iceberg = 2

abbrev pub post_only : Flags
post_only = 4

-- `operator|` and `operator&` cast both sides to `uint8_t`.
unfoldable pub flags_or : Flags → Flags → Flags
flags_or a b = bit_or (a % 256) (b % 256)

unfoldable pub flags_and : Flags → Flags → Flags
flags_and a b = bit_and (a % 256) (b % 256)

unfoldable pub has_flag : Flags → Flags → Bool
has_flag value flag = not (bit_and value flag == 0)

-- `(flags & Flags::Hidden) == Flags::None`
unfoldable pub is_visible : Flags → Bool
unfolding flags_and
is_visible f = flags_and f hidden == no_flags

-- `(flags & Flags::PostOnly) == Flags::PostOnly`
unfoldable pub is_post_only : Flags → Bool
unfolding flags_and
is_post_only f = flags_and f post_only == post_only

abbrev pub is_market : OrderType → Bool
is_market market = true
is_market _ = false

abbrev pub is_limit : OrderType → Bool
is_limit limit = true
is_limit _ = false

abbrev pub is_standard : MatchType → Bool
is_standard standard = true
is_standard _ = false

abbrev pub is_fok : TimeInForce → Bool
is_fok fok = true
is_fok _ = false

abbrev pub opposite : Side → Side
opposite buy = sell
opposite sell = buy
