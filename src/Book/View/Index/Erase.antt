-- ===== src/Book/View/Index/Erase.antt =====
-- `m_Orders` and the two sides: taking one order out.
use hermes_orderbook.Prelude.{
  ℕ, ◌≤◌, ◌≡◌, none, some, arith, ◌⊎◌, inl, inr, Bool-cases, ◌==◌, ==_iff,
}
use hermes_orderbook.Core.Types.{Side, opposite}
use hermes_orderbook.Core.Order.{Order}
use hermes_orderbook.Book.Levels.{find_order, erase_order}
use hermes_orderbook.Book.State.{Book, levels, lookup_entry, erase_entry}
use hermes_orderbook.Book.View.{orders_on, occurs, SideIsValid, entry_from, IsValidBelow}
use hermes_orderbook.Book.View.Orders.{
  find_order-eq-none, find_order-erase_ne, occurs-erase_ne, occurs-erase_self,
}
use hermes_orderbook.Book.View.Index.{lookup-erase, by_side, one_side, indexed_from}

-- One order less.
pub record Erases (s : Side) (o : Order) (b b' : Book) : Type 0 where
  pub found : find_order o.order_id (orders_on s b) ≡ some o
  pub near : levels (opposite s) b' ≡ levels (opposite s) b
  pub far : orders_on s b' ≡ erase_order o.order_id (orders_on s b)
  pub far_valid : SideIsValid s (levels s b')
  pub index : b'.index ≡ erase_entry o.order_id b.index

module _ {n : ℕ} {s : Side} {o : Order} {b b' : Book} (v : IsValidBelow n b)
    (e : Erases s o b b') where
  erased_index :
      (id : ℕ)
      → (lookup_entry id b'.index
          ≡ entry_from (find_order id (orders_on s b')) (find_order id (orders_on (opposite s) b')))
        × ((find_order id (orders_on s b') ≡ none)
            ⊎ (find_order id (orders_on (opposite s) b') ≡ none))
  erased_index id =
      rw (e.near, e.far, e.index, lookup-erase id o.order_id b.index)
        (elim (Bool-cases (o.order_id == id)) [
          | inl same ↦
              let here : o.order_id ≡ id = (==_iff _ _).0 same in
              let gone : find_order id (erase_order o.order_id (orders_on s b)) ≡ none =
                rw (← here) (
                  find_order-eq-none _ _ (
                    omega (
                      arith,
                      occurs-erase_self o.order_id (orders_on s b),
                      v.distinct s o.order_id,
                    ))) in
              ground (arith, gone, one_side v s id, e.found)
          | inr other ↦
              let kept = find_order-erase_ne id o.order_id (orders_on s b) (λ p. ground arith) in
              rw (other, kept) (v.indexed s id, one_side v s id)
        ])

  pub Erases-IsValid : IsValidBelow n b'
  Erases-IsValid = record {
    side_valid =
        by_side (λ t. SideIsValid t (levels t b')) s e.far_valid
          (rw e.near (v.side_valid (opposite s)));
    indexed = indexed_from s b' erased_index;
    distinct = λ t id. omega (arith, fewer t id, v.distinct t id);
    fresh = λ t id h. omega (arith, fewer t id, v.fresh t id h);
  }
    where
      fewer : (t : Side) (id : ℕ) → occurs id (orders_on t b') ≤ occurs id (orders_on t b)
      fewer t id =
          by_side (λ t. occurs id (orders_on t b') ≤ occurs id (orders_on t b)) s
            (rw e.far (
              ground (
                arith,
                occurs-erase_self o.order_id (orders_on s b),
                occurs-erase_ne id o.order_id (orders_on s b),
                ==_iff o.order_id id,
              )))
            (rw e.near (omega arith)) t
