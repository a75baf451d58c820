-- ===== src/Book/View/Index/Rewrite.antt =====
-- `m_Orders` and the two sides: rewriting one order at its place.
use hermes_orderbook.Prelude.{
  ℕ, ◌≡◌, ap, none, some, arith, ◌⊎◌, inl, inr, Bool-cases, ◌==◌, ==_iff,
}
use hermes_orderbook.Core.Types.{Side, opposite}
use hermes_orderbook.Core.Order.{Order}
use hermes_orderbook.Book.Levels.{find_order, set_order}
use hermes_orderbook.Book.State.{Book, levels, lookup_entry}
use hermes_orderbook.Book.View.{orders_on, occurs, SideIsValid, entry_of, entry_from, IsValidBelow}
use hermes_orderbook.Book.View.Orders.{find_order-set_self, find_order-set_ne, occurs-set}
use hermes_orderbook.Book.View.Index.{by_side, one_side, indexed_from}

-- One order with new content under its old number, at its old place.
pub record Rewrites (s : Side) (o o' : Order) (b b' : Book) : Type 0 where
  pub found : find_order o.order_id (orders_on s b) ≡ some o
  pub same_entry : entry_of o' ≡ entry_of o
  pub near : levels (opposite s) b' ≡ levels (opposite s) b
  pub far : orders_on s b' ≡ set_order o.order_id o' (orders_on s b)
  pub far_valid : SideIsValid s (levels s b')
  pub index : b'.index ≡ b.index

module _ {n : ℕ} {s : Side} {o o' : Order} {b b' : Book} (v : IsValidBelow n b)
    (e : Rewrites s o o' b b') where
  rewritten_index :
      (id : ℕ)
      → (lookup_entry id b'.index
          ≡ entry_from (find_order id (orders_on s b')) (find_order id (orders_on (opposite s) b')))
        × ((find_order id (orders_on s b') ≡ none)
            ⊎ (find_order id (orders_on (opposite s) b') ≡ none))
  rewritten_index id =
      rw (e.near, e.far, e.index)
        (elim (Bool-cases (o.order_id == id)) [
          | inl same ↦
              let here : o.order_id ≡ id = (==_iff _ _).0 same in
              let new : find_order id (set_order o.order_id o' (orders_on s b)) ≡ some o' =
                rw (← here) (
                  find_order-set_self o.order_id o' (ap (λ d. d.list_it) e.same_entry) _ o
                    e.found) in
              ground (arith, new, one_side v s id, e.found, e.same_entry, v.indexed s id)
          | inr other ↦
              let kept =
                find_order-set_ne o.order_id o' (ap (λ d. d.list_it) e.same_entry) id
                  (orders_on s b) (λ p. ground arith) in
              rw kept (v.indexed s id, one_side v s id)
        ])

  pub Rewrites-IsValid : IsValidBelow n b'
  Rewrites-IsValid = record {
    side_valid =
        by_side (λ t. SideIsValid t (levels t b')) s e.far_valid
          (rw e.near (v.side_valid (opposite s)));
    indexed = indexed_from s b' rewritten_index;
    distinct = λ t id. omega (arith, as_many t id, v.distinct t id);
    fresh = λ t id h. omega (arith, as_many t id, v.fresh t id h);
  }
    where
      as_many : (t : Side) (id : ℕ) → occurs id (orders_on t b') ≡ occurs id (orders_on t b)
      as_many t id =
          by_side (λ t. occurs id (orders_on t b') ≡ occurs id (orders_on t b)) s
            (rw e.far
              (occurs-set o.order_id o' (ap (λ d. d.list_it) e.same_entry) id (orders_on s b)))
            (rw e.near) t
