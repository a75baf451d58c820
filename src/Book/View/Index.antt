-- ===== src/Book/View/Index.antt =====
-- `m_Orders` and the two sides.
pub mod Erase
pub mod Rewrite
pub mod Insert
use hermes_orderbook.Prelude.{
  ℕ, suc, ◌≤◌, ◌≡◌, ◌≢◌, refl, sym, ap, subst, ◌∙◌, List, [], ◌∷◌, ◌++◌, Option, none, some,
  if◌then◌else◌, arith, ◌⊎◌, inl, inr, Option-cases, Bool-cases, ◌==◌, ==_iff,
}
use hermes_orderbook.Core.Types.{Side, buy, sell, opposite}
use hermes_orderbook.Core.Order.{Order}
use hermes_orderbook.Book.Levels.{find_order, set_order, erase_order}
use hermes_orderbook.Book.State.{Book, OrderEntry, levels, lookup_entry, erase_entry, emplace_entry}
use hermes_orderbook.Book.View.{orders_on, occurs, SideIsValid, entry_of, entry_from, IsValidBelow}
use hermes_orderbook.Book.View.Levels.{locate}
use hermes_orderbook.Book.View.Orders.{
  find_order-id, find_order-eq-none, occurs-append, find_order-erase_ne, occurs-erase_ne,
  occurs-erase_self, find_order-set_self, find_order-set_ne, occurs-set,
}

pub lookup-erase :
    (x id : ℕ) (m : List (ℕ × OrderEntry))
    → lookup_entry x (erase_entry id m) ≡ (if id == x then none else lookup_entry x m)
unfolding lookup_entry erase_entry
lookup-erase x id [] = ground arith
lookup-erase x id ((k, e) ∷ m) = ground (arith, lookup-erase x id m)

pub lookup-emplace :
    (x id : ℕ) (e : OrderEntry) (m : List (ℕ × OrderEntry))
    → lookup_entry id m ≡ none
    → lookup_entry x (emplace_entry id e m) ≡ (if id == x then some e else lookup_entry x m)
unfolding lookup_entry emplace_entry
lookup-emplace x id e [] h = refl
lookup-emplace x id e ((k, d) ∷ m) h = ground (arith, lookup-emplace x id e m)

-- A book's two sides, once with `m_Bids` and once with `m_Asks` in front.

pub by_side {ℓ} : (P : Side → Type ℓ) (s : Side) → P s → P (opposite s) → (t : Side) → P t
by_side P buy p q buy = p
by_side P buy p q sell = q
by_side P sell p q buy = q
by_side P sell p q sell = p

pub opposite-opposite : (s : Side) → opposite (opposite s) ≡ s
opposite-opposite buy = refl
opposite-opposite sell = refl

opposite-ne : (s : Side) → s ≢ opposite s
opposite-ne buy e = cc
opposite-ne sell e = cc

entry_from_swap : (x y : Option Order) → (x ≡ none) ⊎ (y ≡ none) → entry_from x y ≡ entry_from y x
entry_from_swap (some a) (some b) (inl e) = absurd (cc)
entry_from_swap (some a) (some b) (inr e) = absurd (cc)
entry_from_swap (some a) none h = refl
entry_from_swap none (some b) h = refl
entry_from_swap none none h = refl

-- No number stands on both sides.
module _ {n : ℕ} {b : Book} (v : IsValidBelow n b) where
  not_both :
      (s : Side) (id : ℕ) (o o' : Order)
      → find_order id (orders_on s b) ≡ some o
      → find_order id (orders_on (opposite s) b) ≡ some o'
      → ⊥
  not_both s id o o' e e' = opposite-ne s (
      sym (locate s (levels s b) id o (v.side_valid s) e).side
      ∙ cc
          (v.indexed s id, v.indexed (opposite s) id, ap (λ t. orders_on t b) (opposite-opposite s))
      ∙ (locate (opposite s) (levels (opposite s) b) id o' (v.side_valid (opposite s)) e').side)

  pub one_side :
      (s : Side) (id : ℕ)
      → (find_order id (orders_on s b) ≡ none) ⊎ (find_order id (orders_on (opposite s) b) ≡ none)
  one_side s id = elim (Option-cases (find_order id (orders_on s b))) [
    | inl e ↦ inl e
    | inr (o, e) ↦ elim (Option-cases (find_order id (orders_on (opposite s) b))) [
      | inl e' ↦ inr e'
      | inr (o', e') ↦ absurd (not_both s id o o' e e')
    ]
  ]

-- To check the index from one side, where the sides share no number.
pub indexed_from :
    (s : Side) (b : Book)
    → ((id : ℕ)
        → (lookup_entry id b.index
            ≡ entry_from (find_order id (orders_on s b)) (find_order id (orders_on (opposite s) b)))
          × ((find_order id (orders_on s b) ≡ none)
              ⊎ (find_order id (orders_on (opposite s) b) ≡ none)))
    → (t : Side) (id : ℕ)
    → lookup_entry id b.index
      ≡ entry_from (find_order id (orders_on t b)) (find_order id (orders_on (opposite t) b))
indexed_from s b h t id =
    by_side
      (λ t.
        lookup_entry id b.index
        ≡ entry_from (find_order id (orders_on t b)) (find_order id (orders_on (opposite t) b)))
      s (h id).0 (rw (opposite-opposite s) ((h id).0 ∙ entry_from_swap _ _ (h id).1)) t

-- More numbers may be free than are said to be, and the counters do not matter.
pub IsValidBelow-weaken : {n m : ℕ} {b : Book} → n ≤ m → IsValidBelow n b → IsValidBelow m b
IsValidBelow-weaken h v = record {
  side_valid = v.side_valid;
  indexed = v.indexed;
  distinct = v.distinct;
  fresh = λ s id k. v.fresh s id (omega arith);
}

-- An order that rests under a number.
pub record RestsAt (id : ℕ) (b : Book) : Type 0 where
  pub order : Order
  pub number : order.order_id ≡ id
  pub found : find_order order.order_id (orders_on order.side b) ≡ some order

rests_on :
    {n : ℕ} {b : Book} (v : IsValidBelow n b) (s : Side) (id : ℕ) (o : Order)
    → find_order id (orders_on s b) ≡ some o
    → RestsAt id b
rests_on {b = b} v s id o e =
    let same = find_order-id id (orders_on s b) o e in
    record {
      order = o;
      number = same;
      found =
          subst (λ t. find_order o.order_id (orders_on t b) ≡ some o)
            (sym (locate s (levels s b) id o (v.side_valid s) e).side)
            (subst (λ i. find_order i (orders_on s b) ≡ some o) (sym same) e);
    }

-- Under a number one order rests, or none.
pub rests_or_not :
    {n : ℕ} {b : Book} (v : IsValidBelow n b) (id : ℕ)
    → RestsAt id b
      ⊎ ((find_order id (orders_on buy b) ≡ none) × (find_order id (orders_on sell b) ≡ none))
rests_or_not {b = b} v id = elim (Option-cases (find_order id (orders_on buy b))) [
  | inr (o, e) ↦ inl (rests_on v buy id o e)
  | inl e ↦ elim (Option-cases (find_order id (orders_on sell b))) [
    | inr (o, e') ↦ inl (rests_on v sell id o e')
    | inl e' ↦ inr (e, e')
  ]
]
