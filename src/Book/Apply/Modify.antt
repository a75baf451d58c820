-- ===== src/Book/Apply/Modify.antt =====
-- `InternalModifyOrder` by cases of the order that rests under the number.
use hermes_orderbook.Prelude.{
  ℕ, ◌≡◌, ◌≢◌, ◌<◌, ◌≤◌, refl, ap, subst, true, false, Option, none, some, arith, ◌⊎◌, inl, inr,
  Bool-cases, ◌>>=◌, ◌==◌, ==_iff, not, ◌||◌, ltb, eqb_ℤ, eqb_ℤ_iff,
}
use hermes_orderbook.Core.Types.{Price, Quantity, TimeNs, opposite}
use hermes_orderbook.Core.Order.{Order}
use hermes_orderbook.Core.Messages.{ErrorCode, success, invalid_modify, unauthorized}
use hermes_orderbook.Book.Levels.{find_order, set_order, erase_order}
use hermes_orderbook.Book.State.{Book}
use hermes_orderbook.Book.Operations.Cancel.{Cancels, cancels}
use hermes_orderbook.Book.Commands.{
  internal_add_order, internal_modify_order, replace_order, shrink_order, as_modify,
}
use hermes_orderbook.Book.Commands.Modify.{modify-run, modify-missing, replace-owned, home}
use hermes_orderbook.Book.Commands.Rest.{shrinks}
use hermes_orderbook.Book.Apply.{find_order_by_id}
use hermes_orderbook.Book.Apply.Find.{find_order_by_id-found, find_order_by_id-missing}
use hermes_orderbook.Book.View.{orders_of, orders_on, entry_of, IsValid}
use hermes_orderbook.Book.View.Index.{rests_or_not}

-- What a modification comes to.
pub data ModifyOutcome (now : TimeNs) (client id : ℕ) (p : Price) (q : Quantity) (b : Book)
    (result : Option (ErrorCode × Book)) : Type 0 where
  unknown :
      find_order_by_id id b ≡ some none
      → result ≡ some (invalid_modify, b)
      → ModifyOutcome now client id p q b result
  foreign :
      (o : Order)
      → find_order_by_id id b ≡ some (some o)
      → o.client_id ≢ client
      → result ≡ some (unauthorized, b)
      → ModifyOutcome now client id p q b result
  replaced :
      (o : Order) (cancelled : Book)
      → find_order_by_id id b ≡ some (some o)
      → o.client_id ≡ client
      → (p ≢ o.price) ⊎ (o.remaining_quantity < q)
      → orders_on o.side cancelled ≡ erase_order id (orders_on o.side b)
      → orders_on (opposite o.side) cancelled ≡ orders_on (opposite o.side) b
      → result ≡ (
          internal_add_order now client p q o.side o.order_type o.tif o.match_type o.flags cancelled
          >>= λ r. some (as_modify r))
      → ModifyOutcome now client id p q b result
  shrunk :
      (o : Order) (after : Book)
      → find_order_by_id id b ≡ some (some o)
      → o.client_id ≡ client
      → p ≡ o.price
      → q < o.remaining_quantity
      → result ≡ some (success, after)
      → orders_on o.side after
        ≡ set_order id (record o { remaining_quantity = q }) (orders_on o.side b)
      → orders_on (opposite o.side) after ≡ orders_on (opposite o.side) b
      → ModifyOutcome now client id p q b result
  unchanged :
      (o : Order)
      → find_order_by_id id b ≡ some (some o)
      → o.client_id ≡ client
      → p ≡ o.price
      → q ≡ o.remaining_quantity
      → result ≡ some (success, b)
      → ModifyOutcome now client id p q b result

module _ (b : Book) (v : IsValid b) (now : TimeNs) (client : ℕ) (p : Price) (q : Quantity)
    (o : Order) (found : find_order o.order_id (orders_on o.side b) ≡ some o) where
  there : find_order_by_id o.order_id b ≡ some (some o)
  there = find_order_by_id-found v o found

  ModifyOutcome-replaced :
      o.client_id ≡ client
      → (p ≢ o.price) ⊎ (o.remaining_quantity < q)
      → ModifyOutcome now client o.order_id p q b (replace_order now client o.order_id o p q b)
  ModifyOutcome-replaced own why =
      let c : Cancels o.side o client b = cancels v o.side o client found in
      replaced o c.after there own why c.erases.far (ap orders_of c.erases.near)
        (replace-owned now client o.order_id o p q b c.after (c.owned own))

  ModifyOutcome-shrunk :
      o.client_id ≡ client
      → p ≡ o.price
      → q < o.remaining_quantity
      → ModifyOutcome now client o.order_id p q b (
          some (
            success,
            shrink_order o.order_id (entry_of o) (home v o found now client p q).level o q b,
          ))
  ModifyOutcome-shrunk own e less =
      let s = shrinks v o q (home v o found now client p q) found in
      shrunk o _ there own e less refl s.rewrites.far (ap orders_of s.rewrites.near)

  moves_or_grows :
      (not (eqb_ℤ p o.price) || ltb o.remaining_quantity q) ≡ true
      → (p ≢ o.price) ⊎ (o.remaining_quantity < q)
  moves_or_grows h = elim (Bool-cases (eqb_ℤ p o.price)) [
    | inr ne ↦ inl (λ e. ground (arith, (eqb_ℤ_iff p o.price).1 e))
    | inl e ↦ inr (ground arith)
  ]

  stays_put :
      (not (eqb_ℤ p o.price) || ltb o.remaining_quantity q) ≡ false
      → (p ≡ o.price) × (q ≤ o.remaining_quantity)
  stays_put h =
      let same : eqb_ℤ p o.price ≡ true = ground arith in
      ((eqb_ℤ_iff p o.price).0 same, ground arith)

  modify_found-outcome :
      ModifyOutcome now client o.order_id p q b (internal_modify_order now client o.order_id p q b)
  modify_found-outcome =
      rw (modify-run v o found now client p q) (elim (Bool-cases (o.client_id == client)) [
        | inr ne ↦ rw ne (foreign o there (λ e. ground arith) refl)
        | inl own ↦
            let mine = (==_iff _ _).0 own in
            rw own (elim (Bool-cases (not (eqb_ℤ p o.price) || ltb o.remaining_quantity q)) [
              | inl move ↦ rw move (ModifyOutcome-replaced mine (moves_or_grows move))
              | inr keep ↦ rw keep (elim (Bool-cases (ltb q o.remaining_quantity)) [
                | inl less ↦ rw less (ModifyOutcome-shrunk mine (stays_put keep).0 (ground arith))
                | inr same ↦ rw same (
                    unchanged o there mine (stays_put keep).0 (ground (arith, (stays_put keep).1))
                      refl)
              ])
            ])
      ])

-- On a well-formed book a modification of an unknown number or of somebody else's order is refused
-- and changes nothing. One that moves or grows the order takes it out of its queue and adds a new
-- order in its place, whose refusal leaves it taken out; one that shrinks it keeps its place; one to
-- the same price and quantity changes nothing.
pub internal_modify_order-outcome :
    (now : TimeNs) (client id : ℕ) (p : Price) (q : Quantity) (b : Book)
    → IsValid b
    → ModifyOutcome now client id p q b (internal_modify_order now client id p q b)
internal_modify_order-outcome now client id p q b v = elim (rests_or_not v id) [
  | inl at ↦
      subst (λ i. ModifyOutcome now client i p q b (internal_modify_order now client i p q b))
        at.number (modify_found-outcome b v now client p q at.order at.found)
  | inr (e, e') ↦
      unknown (find_order_by_id-missing v id e e') (modify-missing v now client id p q e e')
]
