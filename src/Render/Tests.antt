-- ===== src/Render/Tests.antt =====
-- Numbers in quarters for `float`, and the theorems on frames at a book with both sides.
use hermes_orderbook.Prelude.{
  ℕ, ◌+◌, ◌*◌, ◌≤◌, ◌^◌, leb, if◌then◌else◌, ◌≡◌, ◌<◌, refl, arith, [], ◌∷◌, some, pos, sub_ℤ,
}
use hermes_orderbook.Core.Types.{buy, sell}
use hermes_orderbook.Core.Messages.{OrderBookSnapshot}
use hermes_orderbook.Book.State.{levels}
use hermes_orderbook.Book.Samples.{level, resting, both_sides, both_sides-IsValid, both_sides-Reach}
use hermes_orderbook.Book.Apply.{get_snapshot}
use hermes_orderbook.Book.Apply.History.{Reach-IsUncrossed}
use hermes_orderbook.Book.View.Uncrossed.{IsUncrossed}
use hermes_orderbook.Render.{Floats, max_volume, render, frame_of, spread}
use hermes_orderbook.Render.Bounds.{Draws, render-Draws}
use hermes_orderbook.Render.Spread.{render-spread}

abbrev two_levels : OrderBookSnapshot
two_levels = record {
  bids = record { price = pos 98; quantity = 4 } ∷ [];
  asks = record { price = pos 100; quantity = 15 } ∷ [];
  trades = [];
}

-- One more quarter, if `x` is at least `k` quarters of `y`.
abbrev reaches : ℕ → ℕ → ℕ → ℕ
reaches k x y = if leb (k * y) (4 * x) then 1 else 0

-- The quarters in the quotient, at most four.
abbrev quarters_of : ℕ → ℕ → ℕ
quarters_of x y = reaches 1 x y + reaches 2 x y + reaches 3 x y + reaches 4 x y

reaches-monotone : (k x z y : ℕ) → x ≤ z → reaches k x y ≤ reaches k z y
reaches-monotone k x z y h = ground arith

quarters_of_self : (n : ℕ) → 0 < n → quarters_of n n ≡ 4
quarters_of_self n positive = ground arith

quarters_of-zero : (n : ℕ) → 0 < n → quarters_of 0 n ≡ 0
quarters_of-zero n positive = ground arith

-- A number is itself, but 1 is four quarters.
abbrev in_quarters : ℕ → ℕ
in_quarters n = 4 * n

quarters_of-monotone : (x z n : ℕ) → x ≤ z → quarters_of x n ≤ quarters_of z n
quarters_of-monotone x z n h = omega (
  arith,
  reaches-monotone 1 x z n h,
  reaches-monotone 2 x z n h,
  reaches-monotone 3 x z n h,
  reaches-monotone 4 x z n h,
)

abbrev quarters : Floats
quarters = record {
  Float = ℕ;
  AtMost = λ x y. x ≤ y;
  of_u64 = in_quarters;
  divide = quarters_of;
  of_u64-AtMost = λ m n h fits. omega arith;
  divide-AtMost = λ x y n h positive fits. quarters_of-monotone x y (in_quarters n) h;
  divide-self = λ n positive fits. quarters_of_self (in_quarters n) (omega arith);
  divide-zero = λ n positive fits. quarters_of-zero (in_quarters n) (omega arith);
}

two_levels-small : max_volume two_levels < 2 ^ 64
unfolding max_volume
two_levels-small = omega arith

two_levels-frame : render quarters two_levels ≡ some (frame_of quarters two_levels (pos 2))
unfolding render spread sub_ℤ
two_levels-frame = refl

render-Draws_example : Draws quarters two_levels (frame_of quarters two_levels (pos 2))
render-Draws_example =
    render-Draws quarters two_levels (frame_of quarters two_levels (pos 2)) two_levels-small
      two_levels-frame

both_sides-IsUncrossed : IsUncrossed both_sides
both_sides-IsUncrossed = Reach-IsUncrossed (omega arith) both_sides-Reach

bids-there : levels buy both_sides ≡ level 98 4 (resting 3 2 98 4 buy ∷ []) ∷ []
unfolding levels
bids-there = refl

asks-there :
    levels sell both_sides
    ≡ level 100 15 (resting 1 1 100 10 sell ∷ resting 2 1 100 5 sell ∷ []) ∷ []
unfolding levels
asks-there = refl

render-spread_example :
    (98 < 100)
    × (render quarters (get_snapshot 2 both_sides)
        ≡ some (frame_of quarters (get_snapshot 2 both_sides) (pos 2)))
render-spread_example =
    render-spread quarters both_sides 1 98 100 (level 98 4 (resting 3 2 98 4 buy ∷ []))
      (level 100 15 (resting 1 1 100 10 sell ∷ resting 2 1 100 5 sell ∷ [])) [] []
      both_sides-IsValid both_sides-IsUncrossed bids-there asks-there refl refl (omega arith)
