-- ===== src/Book/Matching/Priority.antt =====
-- `PriceTimePriority::Match`: who is served, at which price, and when it stops.
use hermes_orderbook.Prelude.{
  ℕ, ◌+◌, ◌≤◌, ◌<◌, ◌≡◌, refl, sym, ap, subst, ◌∙◌, true, false, List, [], ◌∷◌, ◌++◌, arith, ◌⊎◌,
  inl, inr, Bool-cases, ◌==◌, ◌||◌, leb, pos_part, neg_part, ltb_ℤ,
}
use hermes_orderbook.Core.Types.{Side, buy, sell, Price, is_market}
use hermes_orderbook.Core.Order.{Order}
use hermes_orderbook.Book.Matching.{stops, outside}
use hermes_orderbook.Book.Matching.Round.{less}
use hermes_orderbook.Book.Matching.Consume.{consume, deals}

abbrev pub makers : List (Order × Order) → List Order
makers [] = []
makers ((t, m) ∷ ds) = m ∷ makers ds

-- Why a taker meets nobody further: it is filled, or nobody is left, or the next price is refused.
abbrev pub IsDone : Order → List Order → Type 0
IsDone t [] = Unit {0}
IsDone t (m ∷ queue) = (t.remaining_quantity ≡ 0) ⊎ (stops t m ≡ true)

-- The makers served are a front part of the queue, in its order; all of them are used up, but for
-- the last, which may keep a rest only if it fills the taker.
pub data Serves (t : Order) (queue : List Order) : Type 0 where
  whole :
      (served left : List Order)
      → queue ≡ served ++ left
      → (consume t queue).1 ≡ left
      → makers (deals t queue) ≡ served
      → IsDone (consume t queue).0 left
      → Serves t queue
  last_part :
      (served left : List Order) (m : Order) (q : ℕ)
      → queue ≡ served ++ (m ∷ left)
      → (consume t queue).1 ≡ less q m ∷ left
      → makers (deals t queue) ≡ served ++ (m ∷ [])
      → q < m.remaining_quantity
      → (consume t queue).0.remaining_quantity ≡ 0
      → Serves t queue

module _ (t m : Order) (queue : List Order) where
  Serves-later :
      consume t (m ∷ queue) ≡ consume (less m.remaining_quantity t) queue
      → deals t (m ∷ queue) ≡ (t, m) ∷ deals (less m.remaining_quantity t) queue
      → Serves (less m.remaining_quantity t) queue
      → Serves t (m ∷ queue)
  Serves-later c d (whole served left e f g h) =
      whole (m ∷ served) left (ap (◌∷◌ m) e) (ap (λ r. r.1) c ∙ f) (ap makers d ∙ ap (◌∷◌ m) g)
        (subst (λ r. IsDone r.0 left) (sym c) h)
  Serves-later c d (last_part served left k q e f g h i) =
      last_part (m ∷ served) left k q (ap (◌∷◌ m) e) (ap (λ r. r.1) c ∙ f)
        (ap makers d ∙ ap (◌∷◌ m) g) h (ap (λ r. r.0.remaining_quantity) c ∙ i)

  Serves-stop : (t.remaining_quantity == 0 || stops t m) ≡ true → Serves t (m ∷ queue)
  unfolding consume deals
  Serves-stop h = whole [] (m ∷ queue) refl (rw h refl) (rw h refl) (rw h (ground arith))

  Serves-part :
      (t.remaining_quantity == 0 || stops t m) ≡ false
      → leb m.remaining_quantity t.remaining_quantity ≡ false
      → Serves t (m ∷ queue)
  unfolding consume deals
  Serves-part h k =
      last_part [] queue m t.remaining_quantity refl (rw (h, k) refl) (rw (h, k) refl)
        (ground arith) (rw (h, k) (omega arith))

  Serves-whole :
      (t.remaining_quantity == 0 || stops t m) ≡ false
      → leb m.remaining_quantity t.remaining_quantity ≡ true
      → Serves (less m.remaining_quantity t) queue
      → Serves t (m ∷ queue)
  unfolding consume deals
  Serves-whole h k s = Serves-later (rw (h, k) refl) (rw (h, k) refl) s

pub serves : (t : Order) (queue : List Order) → Serves t queue
serves t [] = whole [] [] refl (unfold consume in refl) (unfold deals in refl) tt
serves t (m ∷ queue) = elim (Bool-cases (t.remaining_quantity == 0 || stops t m)) [
  | inl h ↦ Serves-stop t m queue h
  | inr h ↦ elim (Bool-cases (leb m.remaining_quantity t.remaining_quantity)) [
    | inl k ↦ Serves-whole t m queue h k (serves (less m.remaining_quantity t) queue)
    | inr k ↦ Serves-part t m queue h k
  ]
]

-- A price that a taker's limit allows: not above a buyer's, not below a seller's.
abbrev pub Allows : Side → Price → Price → Type 0
Allows buy limit p = pos_part p + neg_part limit ≤ pos_part limit + neg_part p
Allows sell limit p = pos_part limit + neg_part p ≤ pos_part p + neg_part limit

abbrev pub AllAllowed : Order → List (Order × Order) → Type 0
AllAllowed t [] = Unit {0}
AllAllowed t ((_, m) ∷ ds) = Allows t.side t.price m.price × AllAllowed t ds

Allows-of_outside : (s : Side) (p q : Price) → outside s p q ≡ false → Allows s p q
unfolding outside ltb_ℤ
Allows-of_outside buy p q h = ground arith
Allows-of_outside sell p q h = ground arith

-- A taker with a limit trades at no price beyond it.
pub deals-allowed :
    (t : Order) (queue : List Order) → is_market t.order_type ≡ false → AllAllowed t (deals t queue)
unfolding deals stops
deals-allowed t [] h = tt
deals-allowed t (m ∷ queue) h = ground (
  arith,
  deals-allowed (less m.remaining_quantity t) queue h,
  Allows-of_outside t.side t.price m.price,
)
