-- ===== src/Simulation.antt =====
-- src/main.cpp: the numbers and the orders of the simulation.
pub mod Distinct
mod Tests
use hermes_orderbook.Prelude.{ℕ, ◌+◌, ◌*◌, ◌/◌, ◌%◌, ◌^◌, bit_xor, List, [], ◌∷◌, pos}
use hermes_orderbook.Core.Types.{Side, buy, sell, limit, gtc, standard, no_flags}
use hermes_orderbook.Core.Messages.{AddCommand, Command, add}

-- `fast_rand`, on numbers of 32 bits.
unfoldable pub fast_rand : ℕ → ℕ → ℕ
fast_rand i seed =
    let a = bit_xor i seed in
    let b = a * 747796405 % 2 ^ 32 in
    let c = bit_xor b (b / 2 ^ 16) in let d = c * 2891336453 % 2 ^ 32 in bit_xor d (d / 2 ^ 16)

-- `fast_rand(cnt, seed) % 1000 + 1`
abbrev pub draw : ℕ → ℕ → ℕ
draw cnt seed = fast_rand cnt seed % 1000 + 1

abbrev pub limit_order : ℕ → Side → ℕ → ℕ → AddCommand
limit_order client side price quantity = record {
  client_id = client;
  price = pos price;
  quantity = quantity;
  flags = no_flags;
  side = side;
  order_type = limit;
  tif = gtc;
  match_type = standard;
}

-- The two calls of `AddOrder` in one round of the loop; `cnt` has 32 bits.
abbrev pub bid_at : ℕ → AddCommand
bid_at cnt = limit_order 1 buy (draw cnt 3) (draw cnt 4)

abbrev pub ask_at : ℕ → AddCommand
ask_at cnt = let next = (cnt + 1) % 2 ^ 32 in limit_order 2 sell (draw next 5) (draw next 6)
