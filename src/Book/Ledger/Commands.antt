-- ===== src/Book/Ledger/Commands.antt =====
-- `InternalModifyOrder`, `Apply`, and the volumes of the levels.
use hermes_orderbook.Prelude.{
  ℕ, ◌+◌, ◌^◌, ◌<◌, ◌≤◌, ◌≡◌, refl, true, not, ◌||◌, ltb, eqb_ℤ, [], ◌∷◌, ◌++◌, Option, some, ◌==◌,
  ◌>>=◌, OnSome, >>=-OnSome, OnSome-some, if-both, Option-cases, inl, inr, arith, length,
}
use hermes_orderbook.Core.Types.{Price, Quantity, TimeNs, buy, sell, is_visible}
use hermes_orderbook.Core.Order.{Order}
use hermes_orderbook.Core.Messages.{
  ErrorCode, success, Event, Command, no_command, add, modify, cancel,
}
use hermes_orderbook.Book.Levels.{find_level, find_order}
use hermes_orderbook.Book.State.{Book, levels, lookup_entry, max_events}
use hermes_orderbook.Book.Operations.{push_event, internal_cancel_order}
use hermes_orderbook.Book.Commands.{as_modify, replace_order, internal_modify_order}
use hermes_orderbook.Book.Commands.Valid.{Ready}
use hermes_orderbook.Book.Apply.{
  apply, handle_add, handle_modify, handle_cancel, add_event, modify_event, cancel_event,
  find_order_by_id,
}
use hermes_orderbook.Book.Commands.Modify.{replace-owned}
use hermes_orderbook.Book.Apply.Valid.{cancel-Keeps, cleared, cleared-Ready, most}
use hermes_orderbook.Book.View.{IsValid}
use hermes_orderbook.Book.View.Sides.{scratch-SameOrders, SameOrders-IsValid}
use hermes_orderbook.Book.Ledger.{
  IsLedger, find_level-IsTrue, find_order-Taken, internal_cancel_order-IsLedger,
}
use hermes_orderbook.Book.Ledger.Apply.{
  KeepsLedger, SameOrders-IsLedger, internal_add_order-IsLedger,
}

as_modify-KeepsLedger : (r : ErrorCode × Book) → KeepsLedger r → KeepsLedger (as_modify r)
as_modify-KeepsLedger (success, b) k = k
as_modify-KeepsLedger (_, b) k = k

module _ {m : ℕ} {b : Book} (r : Ready m b) (k : IsLedger b) (now : TimeNs) (client id : ℕ) where
  replaced :
      (o : Order) (price : Price) (quantity : Quantity) (code : ErrorCode) (b' : Book)
      → is_visible o.flags ≡ true
      → quantity < 2 ^ 64
      → IsValid b'
      → IsLedger b'
      → internal_cancel_order client id b ≡ some (code, b')
      → OnSome KeepsLedger (replace_order now client id o price quantity b)
  unfolding replace_order
  replaced o price quantity success b' s small v kept e =
      rw (replace-owned now client id o price quantity b b' e) (
        >>=-OnSome KeepsLedger _ _ λ x run. as_modify-KeepsLedger x (
          OnSome-some KeepsLedger _ x
            (internal_add_order-IsLedger now client price quantity o.side o.order_type o.tif
              o.match_type o.flags b' v s small kept)
            run))
  replaced o price quantity _ b' s small v kept e = rw (replace_order, e) kept

  replace_order-IsLedger :
      (o : Order) (price : Price) (quantity : Quantity)
      → is_visible o.flags ≡ true
      → quantity < 2 ^ 64
      → OnSome KeepsLedger (replace_order now client id o price quantity b)
  replace_order-IsLedger o price quantity s small =
      let c = cancel-Keeps r client id in
      replaced o price quantity c.code c.after s small c.valid
        (OnSome-some KeepsLedger (internal_cancel_order client id b) _
          (internal_cancel_order-IsLedger client id b k) c.run)
        c.run

  -- A modification that does not shrink the order.
  internal_modify_order-IsLedger :
      (price : Price) (quantity : Quantity)
      → quantity < 2 ^ 64
      → ((o : Order)
          → find_order_by_id id b ≡ some (some o)
          → (o.client_id == client) ≡ true
          → eqb_ℤ price o.price ≡ true
          → o.remaining_quantity ≤ quantity)
      → OnSome KeepsLedger (internal_modify_order now client id price quantity b)
  unfolding internal_modify_order find_order_by_id
  internal_modify_order-IsLedger price quantity small grows =
      elim (Option-cases (lookup_entry id b.index)) [
        | inl unknown ↦ rw (internal_modify_order, unknown) k
        | inr (e, known) ↦
            rw (internal_modify_order, known)
              (>>=-OnSome KeepsLedger (find_level e.level_price (levels e.level_side b)) _ λ l at.
                >>=-OnSome KeepsLedger (find_order e.list_it l.orders) _ λ o found.
                  let t =
                    find_level-IsTrue e.level_price (levels e.level_side b) l (k e.level_side) at in
                  let shown = (find_order-Taken e.list_it l.orders o t.1 found).shown in
                  let is_there : find_order_by_id id b ≡ some (some o) =
                    rw (find_order_by_id, known, at, found) refl in
                  if-both (OnSome KeepsLedger) (not (o.client_id == client)) (λ other. k)
                    (λ own.
                      if-both (OnSome KeepsLedger)
                        (not (eqb_ℤ price o.price) || ltb o.remaining_quantity quantity)
                        (λ moves. replace_order-IsLedger o price quantity shown small)
                        (λ stays.
                          if-both (OnSome KeepsLedger) (ltb quantity o.remaining_quantity)
                            (λ shrinks.
                              let large = grows o is_there (ground arith) (ground arith) in
                              absurd (ground (arith, large)))
                            (λ same. k))))
      ]

push_event-IsLedger : (e : Event) (b : Book) → IsLedger b → OnSome IsLedger (push_event e b)
unfolding push_event
push_event-IsLedger e b k =
    if-both (OnSome IsLedger) (ltb (length b.scratch) max_events)
      (λ room. SameOrders-IsLedger (scratch-SameOrders (b.scratch ++ (e ∷ [])) b) k) (λ full. tt)

handled-IsLedger :
    (result : Option (ErrorCode × Book)) (event : ErrorCode → Book → Event)
    → OnSome KeepsLedger result
    → OnSome IsLedger (result >>= λ r. push_event (event r.0 r.1) r.1)
handled-IsLedger result event k =
    >>=-OnSome IsLedger result _
      λ r run. push_event-IsLedger (event r.0 r.1) r.1 (OnSome-some KeepsLedger result r k run)

-- A command for which the ledger is kept: an added order shows, a modification of an order to its own
-- price does not shrink it, and the quantities fit 64 bits.
abbrev pub Fits : Book → Command → Type 0
Fits b no_command = Unit
Fits b (add c) = (is_visible c.flags ≡ true) × (c.quantity < 2 ^ 64)
Fits b (modify c) =
    (c.new_quantity < 2 ^ 64)
    × ((o : Order)
        → find_order_by_id c.order_id (cleared b) ≡ some (some o)
        → (o.client_id == c.client_id) ≡ true
        → eqb_ℤ c.new_price o.price ≡ true
        → o.remaining_quantity ≤ c.new_quantity)
Fits b (cancel c) = Unit

-- On a well-formed book whose next number is below 2 ^ 64 - 1, whose orders all show, and each of
-- whose levels states the sum of what its orders have left, modulo 2 ^ 64, a command that adds an
-- order that shows, that cancels, or that modifies without shrinking an order at its price leaves such
-- a ledger, if it has a defined result.
pub apply-IsLedger :
    (now : TimeNs) (c : Command) (b : Book)
    → IsValid b
    → b.order_counter + 1 < 2 ^ 64
    → IsLedger b
    → Fits b c
    → OnSome IsLedger (apply now c b)
unfolding apply handle_add handle_modify handle_cancel
apply-IsLedger now no_command b v room k f = SameOrders-IsLedger (scratch-SameOrders [] b) k
apply-IsLedger now (add c) b v room k f = handled-IsLedger _ (add_event c.client_id) (
    internal_add_order-IsLedger now c.client_id c.price c.quantity c.side c.order_type c.tif
      c.match_type c.flags (cleared b) (SameOrders-IsValid (scratch-SameOrders [] b) v) f.0 f.1
      (SameOrders-IsLedger (scratch-SameOrders [] b) k))
apply-IsLedger now (modify c) b v room k f =
    handled-IsLedger _ (λ code b'. modify_event c.client_id c.order_id code)
      (internal_modify_order-IsLedger
        (cleared-Ready (most b v room) b v (elim [ buy ↦ omega arith | sell ↦ omega arith ]) room)
        (SameOrders-IsLedger (scratch-SameOrders [] b) k) now c.client_id c.order_id c.new_price
        c.new_quantity f.0 f.1)
apply-IsLedger now (cancel c) b v room k f =
    handled-IsLedger _ (λ code b'. cancel_event c.client_id c.order_id code)
      (internal_cancel_order-IsLedger c.client_id c.order_id (cleared b)
        (SameOrders-IsLedger (scratch-SameOrders [] b) k))
