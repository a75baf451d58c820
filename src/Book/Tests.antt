-- ===== src/Book/Tests.antt =====
-- The theorems at concrete books, and runs of the code.
use hermes_orderbook.Prelude.{
  ◌≡◌, ◌≤◌, ◌<◌, ◌^◌, eqb_ℤ, true, refl, none, some, length, ltb, ◌==◌, ◌+◌, if◌then◌else◌, ltb_ℤ,
  pos, arith,
}
use hermes_orderbook.Core.Types.{buy, sell, limit, gtc, standard, is_visible, is_post_only, fok}
use hermes_orderbook.Core.Order.{Order, new_order}
use hermes_orderbook.Core.Messages.{AddCommand, add}
use hermes_orderbook.Book.Samples.{plain, resting, both_sides, both_sides-IsValid, both_sides-Reach}
use hermes_orderbook.Book.State.{levels}
use hermes_orderbook.Book.Matching.{match_order}
use hermes_orderbook.Book.Matching.Refine.{Matched}
use hermes_orderbook.Book.Matching.Loop.{match_order-Matched}
use hermes_orderbook.Book.Apply.{apply}
use hermes_orderbook.Book.Apply.Valid.{Applies, IsModest, apply-IsValid}
use hermes_orderbook.Book.Apply.History.{Reach-IsValid, Reach-IsUncrossed}
use hermes_orderbook.Book.Apply.Find.{
  find_order_by_id-either, CancelOutcome, internal_cancel_order-outcome, either, held,
}
use hermes_orderbook.Book.Apply.Shrink.{ShrinkOutcome, modify-shrink}
use hermes_orderbook.Book.Apply.Snapshot.{SideQuoted, get_snapshot-quoted}
use hermes_orderbook.Book.Apply.{find_order_by_id, volume_at_price, get_snapshot}
use hermes_orderbook.Book.Operations.{internal_cancel_order}
use hermes_orderbook.Book.Commands.{internal_add_order, internal_modify_order, place_order}
use hermes_orderbook.Book.Commands.Place.{Placed, placed}
use hermes_orderbook.Book.Commands.Checks.{AllOrNothing}
use hermes_orderbook.Book.Commands.Liquidity.{IsExact}
use hermes_orderbook.Book.Commands.AllOrNothing.{
  fok-AllOrNothing, MeetsNobody, post_only-MeetsNobody,
}
use hermes_orderbook.Book.Levels.{find_level, find_order}
use hermes_orderbook.Book.Matching.Fair.{Fair, match_order-Fair}
use hermes_orderbook.Core.Order.{fill, filled_quantity, modify_order, is_filled}
use hermes_orderbook.Core.Order.Quantities.{IsSound, fill-IsSound, modify_order-IsSound}
use hermes_orderbook.Book.Apply.Modify.{ModifyOutcome, internal_modify_order-outcome}
use hermes_orderbook.Book.Apply.Overflow.{order_of, apply-overflows}
use hermes_orderbook.Book.Crowd.{crowd, Crowd, crowd_of}
use hermes_orderbook.Book.Matching.{stops, outside}
use hermes_orderbook.Book.Matching.Consume.{deals}
use hermes_orderbook.Book.State.{max_events}
use hermes_orderbook.Book.View.{IsValid, orders_on, total_remaining}
use hermes_orderbook.Book.View.Uncrossed.{IsUncrossed}

abbrev taker : Order
taker = resting 4 3 100 12 buy

match_order-Matched_example : Matched 4 taker both_sides (match_order taker both_sides)
match_order-Matched_example = match_order-Matched taker both_sides both_sides-IsValid

both_sides-IsModest : IsModest both_sides
unfolding levels
both_sides-IsModest = record {
  small = elim [ buy ↦ omega arith | sell ↦ omega arith ];
  room = omega arith;
}

apply-IsValid_example : Applies both_sides (apply (pos 9) (add (plain 3 100 12 buy)) both_sides)
apply-IsValid_example =
    apply-IsValid (pos 9) (add (plain 3 100 12 buy)) both_sides both_sides-IsValid
      both_sides-IsModest

Reach-IsValid_example : IsValid both_sides
Reach-IsValid_example = Reach-IsValid (omega arith) both_sides-Reach

Reach-IsUncrossed_example : IsUncrossed both_sides
Reach-IsUncrossed_example = Reach-IsUncrossed (omega arith) both_sides-Reach

match_order-Fair_example : Fair taker both_sides (match_order taker both_sides)
match_order-Fair_example = match_order-Fair taker both_sides both_sides-IsValid (omega arith)

placed_example : Placed taker both_sides (place_order taker both_sides)
placed_example = placed taker both_sides both_sides-IsValid

asks-IsExact : IsExact (levels sell both_sides)
unfolding levels is_visible
asks-IsExact = (refl, tt)

asks-few : total_remaining (orders_on sell both_sides) < 2 ^ 64
unfolding levels
asks-few = omega arith

fok-AllOrNothing_example :
    AllOrNothing
      (new_order (pos 9) both_sides.order_counter 3 (pos 100) 12 buy limit fok standard 0)
      both_sides
      (internal_add_order (pos 9) 3 (pos 100) 12 buy limit fok standard 0 both_sides)
fok-AllOrNothing_example =
    fok-AllOrNothing (pos 9) 3 (pos 100) 12 buy limit standard 0 both_sides both_sides-IsValid
      asks-IsExact asks-few

four-is_post_only : is_post_only 4 ≡ true
unfolding is_post_only
four-is_post_only = refl

post_only-MeetsNobody_example :
    MeetsNobody
      (new_order (pos 9) both_sides.order_counter 3 (pos 99) 12 buy limit gtc standard 4)
      both_sides
      (internal_add_order (pos 9) 3 (pos 99) 12 buy limit gtc standard 4 both_sides)
post_only-MeetsNobody_example =
    post_only-MeetsNobody (pos 9) 3 (pos 99) 12 buy gtc standard 4 both_sides both_sides-IsValid
      four-is_post_only

find_order_by_id-either_example :
    find_order_by_id 2 both_sides ≡ some (either (held buy 2 both_sides) (held sell 2 both_sides))
find_order_by_id-either_example = find_order_by_id-either both_sides 2 both_sides-IsValid

internal_cancel_order-outcome_example :
    CancelOutcome 1 2 both_sides (internal_cancel_order 1 2 both_sides)
internal_cancel_order-outcome_example =
    internal_cancel_order-outcome 1 2 both_sides both_sides-IsValid

abbrev first_ask : Order
first_ask = resting 1 1 100 10 sell

first_ask-found : find_order 1 (orders_on sell both_sides) ≡ some first_ask
unfolding levels find_order
first_ask-found = refl

first_ask-is_visible : is_visible first_ask.flags ≡ true
unfolding is_visible
first_ask-is_visible = refl

first_ask-volume : volume_at_price sell (pos 100) both_sides < 2 ^ 64
unfolding volume_at_price levels find_level eqb_ℤ
first_ask-volume = omega arith

modify-shrink_example :
    ShrinkOutcome first_ask 4 both_sides (internal_modify_order (pos 9) 1 1 (pos 100) 4 both_sides)
modify-shrink_example =
    modify-shrink both_sides first_ask (pos 9) 4 both_sides-IsValid first_ask-found
      first_ask-is_visible (omega arith) (omega arith) first_ask-volume

get_snapshot-quoted_example :
    SideQuoted buy 1 both_sides (get_snapshot 1 both_sides).bids
    × SideQuoted sell 1 both_sides (get_snapshot 1 both_sides).asks
get_snapshot-quoted_example = get_snapshot-quoted 1 both_sides both_sides-IsValid

abbrev crowded : Crowd 128
crowded = crowd_of 128 (omega arith)

abbrev sweep : AddCommand
sweep = plain 3 100 128 buy

crowd-deals : length (deals (resting 129 3 100 128 buy) (crowd 128)) ≡ 128
unfolding deals stops outside ltb_ℤ
crowd-deals = refl

crowded-deals :
    max_events ≤ length (deals (order_of (pos 0) sweep crowded.book) (orders_on sell crowded.book))
crowded-deals = rw (crowded.counter, crowded.asks) (omega (arith, crowd-deals))

apply-overflows_example : apply (pos 0) (add sweep) crowded.book ≡ none
apply-overflows_example =
    apply-overflows (pos 0) sweep crowded.book crowded.valid refl refl (unfold is_post_only in refl)
      crowded-deals

internal_modify_order-outcome_example :
    ModifyOutcome
      (pos 9)
      1
      1
      (pos 101)
      4
      both_sides
      (internal_modify_order (pos 9) 1 1 (pos 101) 4 both_sides)
internal_modify_order-outcome_example =
    internal_modify_order-outcome (pos 9) 1 1 (pos 101) 4 both_sides both_sides-IsValid

-- Six of ten are filled.
abbrev part_filled : Order
part_filled = record (resting 1 1 100 10 sell) { remaining_quantity = 4 }

fill-IsSound_example :
    IsSound (fill 3 part_filled)
    × (filled_quantity (fill 3 part_filled)
        ≡ (if ltb 4 3 then filled_quantity part_filled else filled_quantity part_filled + 3))
fill-IsSound_example = fill-IsSound 3 part_filled (omega arith, omega arith)

modify_order-IsSound_example :
    IsSound (modify_order (pos 9) (pos 99) 8 part_filled)
    × (filled_quantity (modify_order (pos 9) (pos 99) 8 part_filled) ≡ filled_quantity part_filled)
    × (is_filled (modify_order (pos 9) (pos 99) 8 part_filled) ≡ (
        if ltb 8 (filled_quantity part_filled)
        then is_filled part_filled
        else 8 == filled_quantity part_filled))
modify_order-IsSound_example =
    modify_order-IsSound (pos 9) (pos 99) 8 part_filled (omega arith, omega arith) (omega arith)
