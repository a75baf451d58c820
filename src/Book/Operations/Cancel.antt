-- ===== src/Book/Operations/Cancel.antt =====
-- `InternalCancelOrder` on a well-formed book.
use hermes_orderbook.Prelude.{
  ℕ, ◌≡◌, ◌≢◌, refl, sym, subst, ◌∙◌, List, ◌∷◌, ◌++◌, none, some, if◌then◌else◌, is_empty, arith,
  inl, inr, Bool-cases, eq-nil_of_is_empty, ◌==◌,
}
use hermes_orderbook.Core.Types.{Side, buy, sell}
use hermes_orderbook.Core.Order.{Order}
use hermes_orderbook.Core.Messages.{success, invalid_cancel, unauthorized}
use hermes_orderbook.Book.Levels.{Level, find_level, find_order, erase_order}
use hermes_orderbook.Book.State.{Book, OrderEntry, levels, with_levels, lookup_entry, erase_entry}
use hermes_orderbook.Book.Operations.{without, unlink, internal_cancel_order}
use hermes_orderbook.Book.View.{orders_of, orders_on, SideIsValid, entry_of, IsValidBelow}
use hermes_orderbook.Book.View.Orders.{AllAt-erase}
use hermes_orderbook.Book.View.Levels.{
  Located, locate, find_level-split, set_level-split, erase_level-split, orders_of-append,
  SideIsValid-replace, SideIsValid-remove, orders_of-erased,
}
use hermes_orderbook.Book.View.Index.Erase.{Erases}
use hermes_orderbook.Book.View.Sides.{
  levels-with_self, levels-with_other, levels-index, with_levels-twice, index-with, SameRest,
  with_levels-SameRest,
}

-- The levels of the order's side after the cancellation.
abbrev shrunk : Order → Level → List Level → List Level → List Level
shrunk o l pre post =
    if is_empty (erase_order o.order_id l.orders) then pre ++ post else pre ++ (without o l ∷ post)

module _ {n : ℕ} {b : Book} (v : IsValidBelow n b) (o : Order)
    (r : Located o.side (levels o.side b) o.order_id o) where
  unlink-eq :
      unlink o.order_id (entry_of o) r.level o b
      ≡ with_levels o.side
          (shrunk o r.level r.pre r.post)
          (record b { index = erase_entry o.order_id b.index })
  unfolding unlink
  unlink-eq = elim (Bool-cases (is_empty (erase_order o.order_id r.level.orders))) [
    | inl e ↦ rw (
      e,
      levels-with_self,
      r.split,
      set_level-split o.price r.pre r.post r.level (without o r.level) r.others r.price,
      erase_level-split o.price r.pre r.post (without o r.level) r.others r.price,
      with_levels-twice,
    )
    | inr e ↦ rw (
      e,
      r.split,
      set_level-split o.price r.pre r.post r.level (without o r.level) r.others r.price,
    )
  ]

  shrunk-valid : SideIsValid o.side (shrunk o r.level r.pre r.post)
  shrunk-valid =
      let valid : SideIsValid o.side (r.pre ++ (r.level ∷ r.post)) =
        subst (SideIsValid o.side) r.split (v.side_valid o.side) in
      elim (Bool-cases (is_empty (erase_order o.order_id r.level.orders))) [
        | inl e ↦ rw e (SideIsValid-remove o.side r.pre r.post r.level valid)
        | inr e ↦ rw e (
            SideIsValid-replace o.side r.pre r.post r.level (without o r.level) refl e
              (AllAt-erase o.side r.level.price o.order_id r.level.orders r.level_all) valid)
      ]

  orders_of-shrunk :
      orders_of (shrunk o r.level r.pre r.post)
      ≡ erase_order o.order_id (orders_of (levels o.side b))
  orders_of-shrunk = elim (Bool-cases (is_empty (erase_order o.order_id r.level.orders))) [
    | inl e ↦
        rw (e, orders_of-append r.pre r.post)
          (subst
              (λ os.
                orders_of r.pre ++ orders_of r.post ≡ orders_of r.pre ++ (os ++ orders_of r.post))
              (sym (eq-nil_of_is_empty (erase_order o.order_id r.level.orders) e)) refl
            ∙ orders_of-erased r)
    | inr e ↦ rw (e, orders_of-append r.pre (without o r.level ∷ r.post)) (orders_of-erased r)
  ]

  unlink-Erases :
      find_order o.order_id (orders_on o.side b) ≡ some o
      → Erases o.side o b (unlink o.order_id (entry_of o) r.level o b)
  unlink-Erases found = rw unlink-eq (record {
    found = found;
    near = rw (levels-with_other, levels-index);
    far = rw levels-with_self orders_of-shrunk;
    far_valid = rw levels-with_self shrunk-valid;
    index = index-with o.side _ _;
  })

  unlink-SameRest : SameRest b (unlink o.order_id (entry_of o) r.level o b)
  unlink-SameRest = rw unlink-eq (
      let rest =
        with_levels-SameRest o.side (shrunk o r.level r.pre r.post)
          (record b { index = erase_entry o.order_id b.index }) in
      record {
        scratch = rest.scratch;
        order_counter = rest.order_counter;
        trade_counter = rest.trade_counter;
        market_state = rest.market_state;
      })

cancel-found :
    (client id : ℕ) (b : Book) (e : OrderEntry) (l : Level) (o : Order)
    → lookup_entry id b.index ≡ some e
    → find_level e.level_price (levels e.level_side b) ≡ some l
    → find_order e.list_it l.orders ≡ some o
    → internal_cancel_order client id b ≡ (
        if o.client_id == client then some (success, unlink id e l o b) else some (unauthorized, b))
unfolding internal_cancel_order
cancel-found client id b e l o h k m = rw (h, internal_cancel_order, k, m)

-- What `InternalCancelOrder` does with an order that rests on side `s`.
pub record Cancels (s : Side) (o : Order) (client : ℕ) (b : Book) : Type 0 where
  pub after : Book
  pub erases : Erases s o b after
  pub rest : SameRest b after
  pub owned :
      o.client_id ≡ client → internal_cancel_order client o.order_id b ≡ some (success, after)
  pub foreign :
      o.client_id ≢ client → internal_cancel_order client o.order_id b ≡ some (unauthorized, b)

module _ {n : ℕ} {b : Book} (v : IsValidBelow n b) where
  pub found_entry :
      (s : Side) (id : ℕ) (o : Order)
      → find_order id (orders_on s b) ≡ some o
      → lookup_entry id b.index ≡ some (entry_of o)
  found_entry s id o h = ground (arith, v.indexed s id)

  cancels_found :
      (o : Order) (client : ℕ)
      → find_order o.order_id (orders_on o.side b) ≡ some o
      → Cancels o.side o client b
  cancels_found o client h =
      let r = locate o.side (levels o.side b) o.order_id o (v.side_valid o.side) h in
      let at : find_level o.price (levels o.side b) ≡ some r.level =
        rw r.split (find_level-split o.price r.pre r.post r.level r.others r.price) in
      let run =
        cancel-found client o.order_id b (entry_of o) r.level o (found_entry o.side o.order_id o h)
          at r.held in
      record {
        after = unlink o.order_id (entry_of o) r.level o b;
        erases = unlink-Erases v o r h;
        rest = unlink-SameRest v o r;
        owned = λ e. run ∙ ground arith;
        foreign = λ e. run ∙ ground arith;
      }

  pub cancels :
      (s : Side) (o : Order) (client : ℕ)
      → find_order o.order_id (orders_on s b) ≡ some o
      → Cancels s o client b
  cancels s o client h =
      let e = (locate s (levels s b) o.order_id o (v.side_valid s) h).side in
      subst (λ t. Cancels t o client b) e
        (cancels_found o client
          (subst (λ t. find_order o.order_id (orders_on t b) ≡ some o) (sym e) h))

  -- A number that nothing rests under.
  pub cancel-missing :
      (client id : ℕ)
      → find_order id (orders_on buy b) ≡ none
      → find_order id (orders_on sell b) ≡ none
      → internal_cancel_order client id b ≡ some (invalid_cancel, b)
  unfolding internal_cancel_order
  cancel-missing client id h k =
      let absent : lookup_entry id b.index ≡ none = ground (arith, v.indexed buy id) in
      rw (absent, internal_cancel_order)
