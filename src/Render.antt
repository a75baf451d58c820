-- ===== src/Render.antt =====
-- src/Renderer/Renderer.cpp: what `Render` computes from a snapshot. Laying the rows out and formatting
-- numbers are FTXUI's and the standard library's: a row holds what they are given. The arithmetic of
-- `float` is a parameter.
pub mod Bounds
pub mod Spread
mod Tests
use hermes_orderbook.Prelude.{
  ℕ, ◌==◌, ◌≡◌, ◌≤◌, ◌<◌, ◌^◌, max, Bool, true, false, if◌then◌else◌, List, [], ◌∷◌, map, Option,
  none, some, ℤ, pos, sub_ℤ, fits_i64, ◌>>=◌,
}
use hermes_orderbook.Core.Types.{Price, Quantity}
use hermes_orderbook.Core.Messages.{SnapshotLevel, OrderBookSnapshot}

-- A loop over one side of the snapshot.
abbrev pub max_over : Quantity → List SnapshotLevel → Quantity
max_over m [] = m
max_over m (p ∷ ps) = max_over (max m p.quantity) ps

unfoldable pub max_volume : OrderBookSnapshot → Quantity
max_volume s = let m = max_over (max_over 0 s.bids) s.asks in if m == 0 then 1 else m

-- What `Render` uses of `float`: the conversion of a `u64`, and the division, with what rounding to
-- nearest keeps. `AtMost` is `<=`, which does not hold of a NaN.
pub record Floats : Type 1 where
  pub Float : Type 0
  pub AtMost : Float → Float → Type 0
  pub of_u64 : ℕ → Float
  pub divide : Float → Float → Float
  pub of_u64-AtMost : (m n : ℕ) → m ≤ n → n < 2 ^ 64 → AtMost (of_u64 m) (of_u64 n)
  pub divide-AtMost :
      (x y : Float) (n : ℕ)
      → AtMost x y
      → 0 < n
      → n < 2 ^ 64
      → AtMost (divide x (of_u64 n)) (divide y (of_u64 n))
  pub divide-self : (n : ℕ) → 0 < n → n < 2 ^ 64 → divide (of_u64 n) (of_u64 n) ≡ of_u64 1
  pub divide-zero : (n : ℕ) → 0 < n → n < 2 ^ 64 → divide (of_u64 0) (of_u64 n) ≡ of_u64 0

-- The arguments of a row's elements: its bar is filled to the fraction.
pub record Row (F : Floats) : Type 0 where
  pub price : Price
  pub volume : Quantity
  pub fraction : F.Float
  pub is_bid : Bool

module _ (F : Floats) where
  unfoldable pub make_row : Quantity → Bool → SnapshotLevel → Row F
  make_row max_vol is_bid p = record {
    price = p.price;
    volume = p.quantity;
    fraction = F.divide (F.of_u64 p.quantity) (F.of_u64 max_vol);
    is_bid = is_bid;
  }

-- The price at the front of a side, or 0 if it is empty.
abbrev pub best_price : List SnapshotLevel → Price
best_price [] = pos 0
best_price (p ∷ ps) = p.price

-- `best_ask - best_bid` in `i64`; an overflow is undefined.
unfoldable pub spread : OrderBookSnapshot → Option Price
spread s =
    let d = sub_ℤ (best_price s.asks) (best_price s.bids) in if fits_i64 d then some d else none

pub record Frame (F : Floats) : Type 0 where
  pub bid_rows : List (Row F)
  pub ask_rows : List (Row F)
  pub spread_val : Price

module _ (F : Floats) where
  abbrev pub frame_of : OrderBookSnapshot → Price → Frame F
  frame_of s d = record {
    bid_rows = map (make_row F (max_volume s) true) s.bids;
    ask_rows = map (make_row F (max_volume s) false) s.asks;
    spread_val = d;
  }

  -- `Render`, up to the drawing.
  unfoldable pub render : OrderBookSnapshot → Option (Frame F)
  render s = spread s >>= λ d. some (frame_of s d)
