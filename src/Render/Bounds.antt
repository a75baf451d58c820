-- ===== src/Render/Bounds.antt =====
-- The bars of a frame.
use hermes_orderbook.Prelude.{
  ◌≤◌, ◌<◌, ◌^◌, ◌≡◌, ◌∙◌, refl, ap, arith, Bool, true, false, max, List, [], ◌∷◌, map, some, subst,
  >>=-eq-some,
}
use mathlib.Core.Option.{some-injective}
use hermes_orderbook.Core.Types.{Price, Quantity}
use hermes_orderbook.Core.Messages.{SnapshotLevel, OrderBookSnapshot}
use hermes_orderbook.Render.{
  Floats, max_over, max_volume, Row, make_row, spread, Frame, frame_of, render,
}

abbrev AllUpTo : Quantity → List SnapshotLevel → Type 0
AllUpTo m [] = Unit {0}
AllUpTo m (p ∷ ps) = (p.quantity ≤ m) × AllUpTo m ps

max_over-ge : (m : Quantity) (ps : List SnapshotLevel) → m ≤ max_over m ps
max_over-ge m [] = omega arith
max_over-ge m (p ∷ ps) = omega (arith, max_over-ge (max m p.quantity) ps)

max_over-AllUpTo : (m : Quantity) (ps : List SnapshotLevel) → AllUpTo (max_over m ps) ps
max_over-AllUpTo m [] = tt
max_over-AllUpTo m (p ∷ ps) =
    (omega (arith, max_over-ge (max m p.quantity) ps), max_over-AllUpTo (max m p.quantity) ps)

AllUpTo-weaken : (m n : Quantity) (ps : List SnapshotLevel) → m ≤ n → AllUpTo m ps → AllUpTo n ps
AllUpTo-weaken m n [] h a = tt
AllUpTo-weaken m n (p ∷ ps) h a = (omega arith, AllUpTo-weaken m n ps h a.1)

max_over-least :
    (m k : Quantity) (ps : List SnapshotLevel) → m ≤ k → AllUpTo k ps → max_over m ps ≤ k
max_over-least m k [] h a = h
max_over-least m k (p ∷ ps) h a = max_over-least (max m p.quantity) k ps (omega (arith, a.0)) a.1

max_volume-pos : (s : OrderBookSnapshot) → 0 < max_volume s
unfolding max_volume
max_volume-pos s = ground arith

max_volume-ge : (s : OrderBookSnapshot) → max_over (max_over 0 s.bids) s.asks ≤ max_volume s
unfolding max_volume
max_volume-ge s = ground arith

max_volume-AllUpTo :
    (s : OrderBookSnapshot) → AllUpTo (max_volume s) s.bids × AllUpTo (max_volume s) s.asks
max_volume-AllUpTo s =
    let of_bids = max_over 0 s.bids in
    (
      AllUpTo-weaken of_bids (max_volume s) s.bids
          (omega (arith, max_over-ge of_bids s.asks, max_volume-ge s)) (max_over-AllUpTo 0 s.bids),
      AllUpTo-weaken (max_over of_bids s.asks) (max_volume s) s.asks (max_volume-ge s)
          (max_over-AllUpTo of_bids s.asks),
    )

-- A positive bound of all volumes bounds the divisor of the bars.
max_volume-least :
    (s : OrderBookSnapshot) (k : Quantity)
    → 0 < k
    → AllUpTo k s.bids
    → AllUpTo k s.asks
    → max_volume s ≤ k
unfolding max_volume
max_volume-least s k pos bids asks =
    let least =
      max_over-least (max_over 0 s.bids) k s.asks (max_over-least 0 k s.bids (omega arith) bids)
        asks in
    ground arith

module _ (F : Floats) where
  abbrev pub level_of : Row F → SnapshotLevel
  level_of r = record { price = r.price; quantity = r.volume }

  levels_of_rows :
      (m : Quantity) (b : Bool) (ps : List SnapshotLevel)
      → map level_of (map (make_row F m b) ps) ≡ ps
  unfolding make_row
  levels_of_rows m b [] = refl
  levels_of_rows m b (p ∷ ps) = ap (λ qs. p ∷ qs) (levels_of_rows m b ps)

  abbrev pub EachRow : (Row F → Type 0) → List (Row F) → Type 0
  EachRow P [] = Unit {0}
  EachRow P (r ∷ rs) = P r × EachRow P rs

  -- Both sides of a frame.
  abbrev pub InFrame : (Row F → Type 0) → Frame F → Type 0
  InFrame P f = EachRow P f.bid_rows × EachRow P f.ask_rows

  EachRow-rows :
      (P : Row F → Type 0) (m : Quantity) (b : Bool) (ps : List SnapshotLevel)
      → AllUpTo m ps
      → ((p : SnapshotLevel) → p.quantity ≤ m → P (make_row F m b p))
      → EachRow P (map (make_row F m b) ps)
  EachRow-rows P m b [] a h = tt
  EachRow-rows P m b (p ∷ ps) a h = (h p a.0, EachRow-rows P m b ps a.1 h)

  InFrame-frame_of :
      (P : Row F → Type 0) (s : OrderBookSnapshot) (d : Price)
      → ((b : Bool) (p : SnapshotLevel)
          → p.quantity ≤ max_volume s
          → P (make_row F (max_volume s) b p))
      → InFrame P (frame_of F s d)
  InFrame-frame_of P s d h =
      let fit = max_volume-AllUpTo s in
      (
        EachRow-rows P (max_volume s) true s.bids fit.0 (h true),
        EachRow-rows P (max_volume s) false s.asks fit.1 (h false),
      )

  -- What the rows have at most, the levels have.
  EachRow-AllUpTo :
      (k m : Quantity) (b : Bool) (ps : List SnapshotLevel)
      → EachRow (λ r. r.volume ≤ k) (map (make_row F m b) ps)
      → AllUpTo k ps
  unfolding make_row
  EachRow-AllUpTo k m b [] a = tt
  EachRow-AllUpTo k m b (p ∷ ps) a = (a.0, EachRow-AllUpTo k m b ps a.1)

  -- A frame draws the levels of the snapshot, with bars that compare as the volumes do.
  pub record Draws (s : OrderBookSnapshot) (f : Frame F) : Type 0 where
    pub bids : map level_of f.bid_rows ≡ s.bids
    pub asks : map level_of f.ask_rows ≡ s.asks
    pub bars : InFrame (λ r. F.AtMost (F.of_u64 0) r.fraction × F.AtMost r.fraction (F.of_u64 1)) f
    pub compare :
        InFrame (λ r. InFrame (λ q. r.volume ≤ q.volume → F.AtMost r.fraction q.fraction) f) f
    pub empty : InFrame (λ r. r.volume ≡ 0 → r.fraction ≡ F.of_u64 0) f
    pub full :
        InFrame
          (λ r. 0 < r.volume → InFrame (λ q. q.volume ≤ r.volume) f → r.fraction ≡ F.of_u64 1)
          f

  module _ (s : OrderBookSnapshot) (d : Price) (small : max_volume s < 2 ^ 64) where
    abbrev bar : Bool → SnapshotLevel → Row F
    bar b p = make_row F (max_volume s) b p

    bar-compare :
        (b c : Bool) (p q : SnapshotLevel)
        → q.quantity ≤ max_volume s
        → (bar b p).volume ≤ (bar c q).volume
        → F.AtMost (bar b p).fraction (bar c q).fraction
    unfolding make_row
    bar-compare b c p q fits h =
        F.divide-AtMost (F.of_u64 p.quantity) (F.of_u64 q.quantity) (max_volume s)
          (F.of_u64-AtMost p.quantity q.quantity h (omega arith)) (max_volume-pos s) small

    bar-empty :
        (b : Bool) (p : SnapshotLevel) → (bar b p).volume ≡ 0 → (bar b p).fraction ≡ F.of_u64 0
    unfolding make_row
    bar-empty b p e =
        ap (λ v. F.divide (F.of_u64 v) (F.of_u64 (max_volume s))) e
        ∙ F.divide-zero (max_volume s) (max_volume-pos s) small

    bar-full :
        (b : Bool) (p : SnapshotLevel)
        → (bar b p).volume ≡ max_volume s
        → (bar b p).fraction ≡ F.of_u64 1
    unfolding make_row
    bar-full b p e =
        ap (λ v. F.divide (F.of_u64 v) (F.of_u64 (max_volume s))) e
        ∙ F.divide-self (max_volume s) (max_volume-pos s) small

    bar-between :
        (b : Bool) (p : SnapshotLevel)
        → p.quantity ≤ max_volume s
        → F.AtMost (F.of_u64 0) (bar b p).fraction × F.AtMost (bar b p).fraction (F.of_u64 1)
    unfolding make_row
    bar-between b p fits =
        let v = F.of_u64 p.quantity in
        let most = F.of_u64 (max_volume s) in
        (
          subst (λ x. F.AtMost x (F.divide v most))
              (F.divide-zero (max_volume s) (max_volume-pos s) small)
              (F.divide-AtMost (F.of_u64 0) v (max_volume s)
                (F.of_u64-AtMost 0 p.quantity (omega arith) (omega arith)) (max_volume-pos s)
                small),
          subst (λ x. F.AtMost (F.divide v most) x)
              (F.divide-self (max_volume s) (max_volume-pos s) small)
              (F.divide-AtMost v most (max_volume s)
                (F.of_u64-AtMost p.quantity (max_volume s) fits small) (max_volume-pos s) small),
        )

    -- A volume that no other exceeds is what the bars are divided by.
    greatest :
        (b : Bool) (p : SnapshotLevel)
        → p.quantity ≤ max_volume s
        → 0 < (bar b p).volume
        → InFrame (λ q. q.volume ≤ (bar b p).volume) (frame_of F s d)
        → (bar b p).volume ≡ max_volume s
    unfolding make_row
    greatest b p fits pos most = omega (
      arith,
      max_volume-least s p.quantity pos
          (EachRow-AllUpTo p.quantity (max_volume s) true s.bids most.0)
          (EachRow-AllUpTo p.quantity (max_volume s) false s.asks most.1),
    )

    frame_of-Draws : Draws s (frame_of F s d)
    frame_of-Draws = record {
      bids = levels_of_rows (max_volume s) true s.bids;
      asks = levels_of_rows (max_volume s) false s.asks;
      bars =
          InFrame-frame_of
            (λ r. F.AtMost (F.of_u64 0) r.fraction × F.AtMost r.fraction (F.of_u64 1)) s d
            bar-between;
      compare =
          InFrame-frame_of
            (λ r.
              InFrame (λ q. r.volume ≤ q.volume → F.AtMost r.fraction q.fraction) (frame_of F s d))
            s d
            (λ b p _.
              InFrame-frame_of
                (λ q. (bar b p).volume ≤ q.volume → F.AtMost (bar b p).fraction q.fraction) s d
                (λ c q fits h. bar-compare b c p q fits h));
      empty =
          InFrame-frame_of (λ r. r.volume ≡ 0 → r.fraction ≡ F.of_u64 0) s d
            (λ b p _ e. bar-empty b p e);
      full =
          InFrame-frame_of
            (λ r.
              0 < r.volume
              → InFrame (λ q. q.volume ≤ r.volume) (frame_of F s d)
              → r.fraction ≡ F.of_u64 1)
            s d (λ b p fits pos most. bar-full b p (greatest b p fits pos most));
    }

  -- If all volumes are below 2 ^ 64, a frame draws each level of the snapshot in its order, with its
  -- price and its volume. The fraction of each bar that is filled is between 0 and 1, no larger than
  -- that of a level with at least its volume, 0 for the volume 0, and 1 for the largest volume of both
  -- sides unless that is 0. Of `float` this needs that conversion and division by a positive number
  -- keep the order, and the quotients of a number by itself and of 0.
  pub render-Draws :
      (s : OrderBookSnapshot) (f : Frame F)
      → max_volume s < 2 ^ 64
      → render F s ≡ some f
      → Draws s f
  unfolding render
  render-Draws s f small h =
      let r = >>=-eq-some (spread s) (λ d. some (frame_of F s d)) h in
      subst (Draws s) (some-injective _ _ r.rest) (frame_of-Draws s r.value small)
