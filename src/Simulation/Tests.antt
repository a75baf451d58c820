-- ===== src/Simulation/Tests.antt =====
-- `fast_rand` at two counts.
use hermes_orderbook.Prelude.{◌+◌, ◌≡◌, refl, arith}
use hermes_orderbook.Simulation.{fast_rand}
use hermes_orderbook.Simulation.Distinct.{fast_rand-distinct}

same_number : fast_rand (3 + 4) 3 ≡ fast_rand 7 3
same_number = refl

fast_rand-distinct_example : 3 + 4 ≡ 7
fast_rand-distinct_example =
    fast_rand-distinct (3 + 4) 7 3 (omega arith) (omega arith) (omega arith) same_number
