-- ===== src/Book/Ledger/Tests.antt =====
-- The volumes of a book that three orders lead to.
use hermes_orderbook.Prelude.{◌%◌, ◌^◌, ◌≡◌, refl, true, pos, arith}
use hermes_orderbook.Core.Types.{sell, is_visible}
use hermes_orderbook.Book.Samples.{both_sides, one_ask-run, two_asks-run, both_sides-run}
use hermes_orderbook.Book.Apply.{volume_at_price}
use hermes_orderbook.Book.View.{orders_on}
use hermes_orderbook.Book.Ledger.Volume.{Reach, start, next, total_at, Reach-volume}

zero-is_visible : is_visible 0 ≡ true
unfolding is_visible
zero-is_visible = refl

both_sides-Reach_plain : Reach 3 both_sides
both_sides-Reach_plain =
    next _ _
      (next _ _ (next _ _ start (zero-is_visible, omega arith) one_ask-run)
        (zero-is_visible, omega arith) two_asks-run)
      (zero-is_visible, omega arith) both_sides-run

Reach-volume_example :
    volume_at_price sell (pos 100) both_sides
    ≡ total_at (pos 100) (orders_on sell both_sides) % 2 ^ 64
Reach-volume_example = Reach-volume sell (pos 100) (omega arith) both_sides-Reach_plain
