-- ===== src/Book/Ledger/Apply.antt =====
-- The commands and the volumes of the levels.
use hermes_orderbook.Prelude.{
  ℕ, ◌+◌, ◌^◌, ◌<◌, ◌≡◌, refl, sym, ap, subst, ◌∙◌, true, not, List, [], ◌∷◌, ◌++◌, some, ◌==◌,
  ◌>>=◌, add64, OnSome, >>=-OnSome, OnSome-some, if-both, arith,
}
use hermes_orderbook.Core.Types.{
  Price, Quantity, TimeNs, Side, OrderType, is_market, TimeInForce, gtc, day, ioc, fok, gtd, ato,
  atc, MatchType, is_standard, Flags, is_visible,
}
use hermes_orderbook.Core.Order.{Order, new_order}
use hermes_orderbook.Core.Messages.{ErrorCode, success}
use hermes_orderbook.Book.Levels.{Level, find_level, try_emplace}
use hermes_orderbook.Book.State.{Book, levels}
use hermes_orderbook.Book.Matching.{match_order}
use hermes_orderbook.Book.Commands.{
  with_back, rest_order, settle, place_order, internal_add_order, lacks_liquidity,
  violates_post_only,
}
use hermes_orderbook.Book.View.{IsValidBelow, total_remaining}
use hermes_orderbook.Book.View.Sides.{
  levels-index, SameOrders, counter-SameOrders, SameOrders-IsValid,
}
use hermes_orderbook.Book.Ledger.{
  AllShown, IsTrue, AllTrue, IsLedger, with_levels-IsLedger, find_level-IsTrue, set_level-AllTrue,
  try_emplace-AllTrue,
}
use hermes_orderbook.Book.Ledger.Match.{Leaves, match_order-Leaves}

AllShown-snoc :
    (o : Order) (os : List Order)
    → is_visible o.flags ≡ true
    → o.remaining_quantity < 2 ^ 64
    → AllShown os
    → AllShown (os ++ (o ∷ []))
      × (total_remaining (os ++ (o ∷ [])) ≡ total_remaining os + o.remaining_quantity)
AllShown-snoc o [] s small a = ((s, small, tt), omega arith)
AllShown-snoc o (x ∷ os) s small a =
    let r = AllShown-snoc o os s small a.2 in ((a.0, a.1, r.0), omega (arith, r.1))

with_back-IsTrue :
    (o : Order) (l : Level)
    → is_visible o.flags ≡ true
    → o.remaining_quantity < 2 ^ 64
    → IsTrue l
    → IsTrue (with_back o l)
with_back-IsTrue o l s small t =
    let r = AllShown-snoc o l.orders s small t.1 in (rw s (omega (arith, t.0, r.1)), r.0)

rest_order-IsLedger :
    (o : Order) (b : Book)
    → is_visible o.flags ≡ true
    → o.remaining_quantity < 2 ^ 64
    → IsLedger b
    → OnSome IsLedger (rest_order o b)
unfolding rest_order
rest_order-IsLedger o b s small k =
    let ls = try_emplace o.side o.price (levels o.side b) in
    let ts = try_emplace-AllTrue o.side o.price (levels o.side b) (k o.side) in
    >>=-OnSome IsLedger (find_level o.price ls) _ λ l at.
      with_levels-IsLedger o.side _ _
        (set_level-AllTrue o.price (with_back o l) ls
          (with_back-IsTrue o l s small (find_level-IsTrue o.price ls l ts at)) ts)
        (λ s. subst AllTrue (sym (levels-index s _ b)) (k s))

abbrev pub KeepsLedger : ErrorCode × Book → Type 0
KeepsLedger r = IsLedger r.1

settle-IsLedger :
    (o : Order) (b : Book)
    → is_visible o.flags ≡ true
    → o.remaining_quantity < 2 ^ 64
    → IsLedger b
    → OnSome KeepsLedger (settle o b)
unfolding settle
settle-IsLedger o b s small k = go o.tif refl
  where
    rests : OnSome KeepsLedger (rest_order o b >>= λ b'. some (success, b'))
    rests =
        >>=-OnSome KeepsLedger (rest_order o b) _
          λ b' run. OnSome-some IsLedger (rest_order o b) b' (rest_order-IsLedger o b s small k) run

    go : (t : TimeInForce) → o.tif ≡ t → OnSome KeepsLedger (settle o b)
    go ioc e = rw (settle, e) k
    go fok e = rw (settle, e) k
    go day e =
        rw (settle, e) (if-both (OnSome KeepsLedger) (is_market o.order_type) (λ m. k) (λ l. rests))
    go gtc e =
        rw (settle, e) (if-both (OnSome KeepsLedger) (is_market o.order_type) (λ m. k) (λ l. rests))
    go gtd e = rw (settle, e) k
    go ato e = rw (settle, e) k
    go atc e = rw (settle, e) k

pub SameOrders-IsLedger : {b b' : Book} → SameOrders b b' → IsLedger b → IsLedger b'
SameOrders-IsLedger x k s = subst AllTrue (sym (x.sides s)) (k s)

place_order-IsLedger :
    {n : ℕ} (o : Order) (b : Book)
    → IsValidBelow n b
    → is_visible o.flags ≡ true
    → o.remaining_quantity < 2 ^ 64
    → IsLedger b
    → OnSome KeepsLedger (place_order o b)
unfolding place_order
place_order-IsLedger o b v s small k =
    let b1 = record b { order_counter = add64 b.order_counter 1 } in
    let same = counter-SameOrders (add64 b.order_counter 1) b in
    let left = match_order-Leaves o b1 (SameOrders-IsValid same v) (SameOrders-IsLedger same k) in
    >>=-OnSome KeepsLedger (match_order o b1) _ λ r run.
      let x : Leaves o r = OnSome-some (Leaves o) (match_order o b1) r left run in
      if-both (OnSome KeepsLedger) (r.0.remaining_quantity == 0) (λ filled. x.0)
        (λ open'. settle-IsLedger r.0 r.1 (ap is_visible x.1 ∙ s) (omega (arith, x.2)) x.0)

pub internal_add_order-IsLedger :
    {n : ℕ} (now : TimeNs) (client : ℕ) (price : Price) (quantity : Quantity) (side : Side)
    (type : OrderType) (tif : TimeInForce) (match_type : MatchType) (flags : Flags) (b : Book)
    → IsValidBelow n b
    → is_visible flags ≡ true
    → quantity < 2 ^ 64
    → IsLedger b
    → OnSome KeepsLedger
        (internal_add_order now client price quantity side type tif match_type flags b)
unfolding internal_add_order
internal_add_order-IsLedger now client price quantity side type tif match_type flags b v s small k =
    if-both (OnSome KeepsLedger) (not (is_standard match_type)) (λ other. k)
      (λ standard.
        if-both (OnSome KeepsLedger) (lacks_liquidity side type price quantity tif b) (λ lacks. k)
          (λ enough.
            if-both (OnSome KeepsLedger) (violates_post_only side type price flags b) (λ crosses. k)
              (λ apart.
                place_order-IsLedger
                  (new_order now b.order_counter client price quantity side type tif match_type
                    flags)
                  b v s small k)))
