-- ===== src/Render/Spread.antt =====
-- The spread of a frame of the book.
use hermes_orderbook.Prelude.{
  ℕ, suc, ◌-◌, ◌^◌, ◌<◌, ◌≡◌, refl, sym, ap, ap₂, subst, ◌∙◌, arith, true, List, [], ◌∷◌, ◌++◌, map,
  take, some, pos, sub_ℤ, ltb_ℤ,
}
use hermes_orderbook.Core.Types.{Side, buy, sell}
use hermes_orderbook.Core.Order.{Order}
use hermes_orderbook.Core.Messages.{OrderBookSnapshot}
use hermes_orderbook.Book.Levels.{Level, before}
use hermes_orderbook.Book.State.{Book, levels}
use hermes_orderbook.Book.Apply.{get_snapshot, snapshot_level}
use hermes_orderbook.Book.Apply.Snapshot.{get_snapshot-quoted}
use hermes_orderbook.Book.View.{orders_of, orders_on, SideIsValid, IsValid}
use hermes_orderbook.Book.View.Uncrossed.{Apart, IsUncrossed}
use hermes_orderbook.Render.{Floats, best_price, spread, render, frame_of}

-- The first order of a side has the first level's price.
record Top (s : Side) (l : Level) (ls : List Level) : Type 0 where
  order : Order
  others : List Order
  split : orders_of (l ∷ ls) ≡ order ∷ others
  price : order.price ≡ l.price

top : (s : Side) (l : Level) (ls : List Level) → SideIsValid s (l ∷ ls) → Top s l ls
top s l ls v = go l.orders refl
  where
    go : (os : List Order) → l.orders ≡ os → Top s l ls
    go [] e = absurd (ground arith)
    go (o ∷ os) e = record {
      order = o;
      others = os ++ orders_of ls;
      split = rw e refl;
      price = ground arith;
    }

-- The best bid is below the best ask.
best-before :
    (b : Book) (l m : Level) (ls ms : List Level)
    → IsValid b
    → IsUncrossed b
    → levels buy b ≡ l ∷ ls
    → levels sell b ≡ m ∷ ms
    → ltb_ℤ l.price m.price ≡ true
unfolding before
best-before b l m ls ms v u h k =
    let t = top buy l ls (subst (SideIsValid buy) h (v.side_valid buy)) in
    let w = top sell m ms (subst (SideIsValid sell) k (v.side_valid sell)) in
    let near : orders_on buy b ≡ t.order ∷ t.others = ap orders_of h ∙ t.split in
    let far : orders_on sell b ≡ w.order ∷ w.others = ap orders_of k ∙ w.split in
    let apart : Apart buy (t.order ∷ t.others) (w.order ∷ w.others) =
      subst (λ xs. Apart buy xs (w.order ∷ w.others)) near
        (subst (Apart buy (orders_on buy b)) far u) in
    sym (ap₂ ltb_ℤ t.price w.price) ∙ apart.0.0

best_price-snapshot :
    (b : Book) (depth : ℕ) (l m : Level) (ls ms : List Level)
    → IsValid b
    → levels buy b ≡ l ∷ ls
    → levels sell b ≡ m ∷ ms
    → (best_price (get_snapshot (suc depth) b).bids ≡ l.price)
      × (best_price (get_snapshot (suc depth) b).asks ≡ m.price)
best_price-snapshot b depth l m ls ms v h k =
    let q = get_snapshot-quoted (suc depth) b v in
    (
      ap best_price (q.0.best ∙ ap (λ xs. take (suc depth) (map snapshot_level xs)) h),
      ap best_price (q.1.best ∙ ap (λ xs. take (suc depth) (map snapshot_level xs)) k),
    )

spread-pos :
    (s : OrderBookSnapshot) (x y : ℕ)
    → best_price s.bids ≡ pos x
    → best_price s.asks ≡ pos y
    → x < y
    → y < 2 ^ 63
    → spread s ≡ some (pos (y - x))
unfolding spread sub_ℤ
spread-pos s x y h k lt small = rw (h, k) (ground arith)

-- For a well-formed uncrossed book with orders on both sides, whose best bid `x` and best ask `y` are
-- not negative and fit 64 bits, the best bid is below the best ask, and a frame of its snapshot to a
-- depth of at least 1 shows the difference.
pub render-spread :
    (F : Floats) (b : Book) (depth x y : ℕ) (l m : Level) (ls ms : List Level)
    → IsValid b
    → IsUncrossed b
    → levels buy b ≡ l ∷ ls
    → levels sell b ≡ m ∷ ms
    → l.price ≡ pos x
    → m.price ≡ pos y
    → y < 2 ^ 63
    → (x < y)
      × (render F (get_snapshot (suc depth) b)
          ≡ some (frame_of F (get_snapshot (suc depth) b) (pos (y - x))))
unfolding render ltb_ℤ
render-spread F b depth x y l m ls ms v u h k p q small =
    let lt : x < y = ground (arith, sym (ap₂ ltb_ℤ p q) ∙ best-before b l m ls ms v u h k) in
    let best = best_price-snapshot b depth l m ls ms v h k in
    let s = get_snapshot (suc depth) b in
    (lt, rw (spread-pos s x y (best.0 ∙ p) (best.1 ∙ q) lt small) refl)
