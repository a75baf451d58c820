-- ===== src/Book/View/Index/Insert.antt =====
-- `m_Orders` and the two sides: adding one order.
use hermes_orderbook.Prelude.{
  ℕ, suc, ◌≤◌, ◌≡◌, refl, ap, List, [], ◌∷◌, ◌++◌, none, some, if◌then◌else◌, arith, ◌⊎◌, inl, inr,
  Bool-cases, ◌==◌, ==_iff,
}
use hermes_orderbook.Core.Types.{Side, opposite}
use hermes_orderbook.Core.Order.{Order}
use hermes_orderbook.Book.Levels.{find_order}
use hermes_orderbook.Book.State.{Book, levels, lookup_entry, emplace_entry}
use hermes_orderbook.Book.View.{orders_on, occurs, SideIsValid, entry_of, entry_from, IsValidBelow}
use hermes_orderbook.Book.View.Orders.{find_order-eq-none, occurs-append}
use hermes_orderbook.Book.View.Index.{lookup-emplace, by_side, one_side, indexed_from}

-- One order more, under the first free number.
pub record Inserts (s : Side) (o : Order) (b b' : Book) : Type 0 where
  pub front : List Order
  pub back : List Order
  pub side : o.side ≡ s
  pub near : levels (opposite s) b' ≡ levels (opposite s) b
  pub old : orders_on s b ≡ front ++ back
  pub far : orders_on s b' ≡ front ++ (o ∷ back)
  pub far_valid : SideIsValid s (levels s b')
  pub index : b'.index ≡ emplace_entry o.order_id (entry_of o) b.index

find_order-insert :
    (id : ℕ) (o : Order) (xs ys : List Order)
    → occurs o.order_id xs ≡ 0
    → find_order id (xs ++ (o ∷ ys))
      ≡ (if o.order_id == id then some o else find_order id (xs ++ ys))
unfolding find_order
find_order-insert id o [] ys h = refl
find_order-insert id o (x ∷ xs) ys h = ground (arith, find_order-insert id o xs ys)

module _ {n : ℕ} {s : Side} {o : Order} {b b' : Book} (v : IsValidBelow n b) (free : n ≡ o.order_id)
    (e : Inserts s o b b') where
  counts :
      (id : ℕ)
      → occurs id (orders_on s b')
        ≡ (if o.order_id == id then suc (occurs id (orders_on s b)) else occurs id (orders_on s b))
  counts id =
      ground (
        arith,
        e.far,
        e.old,
        occurs-append id e.front e.back,
        occurs-append id e.front (o ∷ e.back),
      )

  absent : (t : Side) → find_order o.order_id (orders_on t b) ≡ none
  absent t = find_order-eq-none o.order_id (orders_on t b) (v.fresh t o.order_id (omega arith))

  inserted_index :
      (id : ℕ)
      → (lookup_entry id b'.index
          ≡ entry_from (find_order id (orders_on s b')) (find_order id (orders_on (opposite s) b')))
        × ((find_order id (orders_on s b') ≡ none)
            ⊎ (find_order id (orders_on (opposite s) b') ≡ none))
  inserted_index id =
      rw
        (
          e.near,
          e.far,
          e.index,
          lookup-emplace id o.order_id (entry_of o) b.index
              (ground (arith, v.indexed s o.order_id, absent s, absent (opposite s))),
          find_order-insert id o e.front e.back (
              omega (
                arith,
                v.fresh s o.order_id,
                occurs-append o.order_id e.front e.back,
                ap (occurs o.order_id) e.old,
              )),
          ← e.old,
        )
        (elim (Bool-cases (o.order_id == id)) [
          | inl same ↦
              let here : o.order_id ≡ id = (==_iff _ _).0 same in
              rw same (refl, inr (rw (← here) (absent (opposite s))))
          | inr other ↦ rw other (v.indexed s id, one_side v s id)
        ])

  pub Inserts-IsValid : IsValidBelow (suc n) b'
  Inserts-IsValid = record {
    side_valid =
        by_side (λ t. SideIsValid t (levels t b')) s e.far_valid
          (rw e.near (v.side_valid (opposite s)));
    indexed = indexed_from s b' inserted_index;
    distinct =
        by_side (λ t. (id : ℕ) → occurs id (orders_on t b') ≤ 1) s
          (λ id. ground (arith, counts id, v.distinct s id, v.fresh s id))
          (λ id. rw e.near (v.distinct (opposite s) id));
    fresh =
        by_side (λ t. (id : ℕ) → suc n ≤ id → occurs id (orders_on t b') ≡ 0) s
          (λ id h. ground (arith, counts id, v.fresh s id))
          (λ id h. rw e.near (v.fresh (opposite s) id (omega arith)));
  }
