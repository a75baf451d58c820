-- ===== src/Book/Apply/Find.antt =====
-- `FindOrder`, and `InternalCancelOrder` seen through it.
use hermes_orderbook.Prelude.{
  ℕ, ◌≡◌, ◌≢◌, sym, ap, subst, ◌∙◌, arith, inl, inr, Bool-cases, Option, some, none, ◌==◌, ==_iff,
  Option-cases,
}
use hermes_orderbook.Core.Types.{Side, buy, sell, opposite}
use hermes_orderbook.Core.Order.{Order}
use hermes_orderbook.Core.Messages.{ErrorCode, success, invalid_cancel, unauthorized}
use hermes_orderbook.Book.Levels.{Level, find_level, find_order, erase_order}
use hermes_orderbook.Book.State.{Book, OrderEntry, levels, lookup_entry}
use hermes_orderbook.Book.Operations.{internal_cancel_order}
use hermes_orderbook.Book.Operations.Cancel.{Cancels, cancels, cancel-missing, found_entry}
use hermes_orderbook.Book.Apply.{find_order_by_id}
use hermes_orderbook.Book.View.{orders_of, orders_on, entry_of, IsValid, IsValidBelow}
use hermes_orderbook.Book.View.Orders.{
  find_order-erase_ne, find_order-id, find_order-eq-none, occurs-erase_self,
}
use hermes_orderbook.Book.View.Levels.{locate, find_level-split}
use hermes_orderbook.Book.View.Index.{rests_or_not, by_side, one_side}
use hermes_orderbook.Book.View.Index.Erase.{Erases-IsValid}

find_order_by_id-at :
    (id : ℕ) (b : Book) (e : OrderEntry) (l : Level) (o : Order)
    → lookup_entry id b.index ≡ some e
    → find_level e.level_price (levels e.level_side b) ≡ some l
    → find_order e.list_it l.orders ≡ some o
    → find_order_by_id id b ≡ some (some o)
unfolding find_order_by_id
find_order_by_id-at id b e l o h k m = rw (h, find_order_by_id, k, m)

module _ {n : ℕ} {b : Book} (v : IsValidBelow n b) where
  pub find_order_by_id-found :
      (o : Order)
      → find_order o.order_id (orders_on o.side b) ≡ some o
      → find_order_by_id o.order_id b ≡ some (some o)
  find_order_by_id-found o h =
      let r = locate o.side (levels o.side b) o.order_id o (v.side_valid o.side) h in
      find_order_by_id-at o.order_id b (entry_of o) r.level o (found_entry v o.side o.order_id o h)
        (rw r.split (find_level-split o.price r.pre r.post r.level r.others r.price)) r.held

  pub find_order_by_id-missing :
      (id : ℕ)
      → find_order id (orders_on buy b) ≡ none
      → find_order id (orders_on sell b) ≡ none
      → find_order_by_id id b ≡ some none
  unfolding find_order_by_id
  find_order_by_id-missing id h k =
      let absent : lookup_entry id b.index ≡ none = ground (arith, v.indexed buy id) in
      rw (absent, find_order_by_id)

-- What the two sides hold under a number.
abbrev pub held : Side → ℕ → Book → Option Order
held s id b = find_order id (orders_on s b)

abbrev pub either : Option Order → Option Order → Option Order
either (some o) x = some o
either none x = x

-- On a well-formed book `FindOrder` follows no iterator that points nowhere, and finds the order
-- that rests under the number, on whichever side.
pub find_order_by_id-either :
    (b : Book) (id : ℕ)
    → IsValid b
    → find_order_by_id id b ≡ some (either (held buy id b) (held sell id b))
find_order_by_id-either b id v = elim (Option-cases (held buy id b)) [
  | inr (o, e) ↦ rw e (found buy o e)
  | inl e ↦ elim (Option-cases (held sell id b)) [
    | inr (o, e') ↦ rw (e, e') (found sell o e')
    | inl e' ↦ rw (e, e') (find_order_by_id-missing v id e e')
  ]
]
  where
    found : (s : Side) (o : Order) → held s id b ≡ some o → find_order_by_id id b ≡ some (some o)
    found s o e =
        let number = find_order-id id (orders_on s b) o e in
        let side = (locate s (levels s b) id o (v.side_valid s) e).side in
        subst (λ i. find_order_by_id i b ≡ some (some o)) number
          (find_order_by_id-found v o (
            subst (λ t. find_order o.order_id (orders_on t b) ≡ some o) (sym side)
              (subst (λ i. find_order i (orders_on s b) ≡ some o) (sym number) e)))

-- What a cancellation comes to.
pub data CancelOutcome (client id : ℕ) (b : Book) : Option (ErrorCode × Book) → Type 0 where
  unknown : find_order_by_id id b ≡ some none → CancelOutcome client id b (some (invalid_cancel, b))
  foreign :
      (o : Order)
      → find_order_by_id id b ≡ some (some o)
      → o.client_id ≢ client
      → CancelOutcome client id b (some (unauthorized, b))
  removed :
      (o : Order) (after : Book)
      → find_order_by_id id b ≡ some (some o)
      → o.client_id ≡ client
      → find_order_by_id id after ≡ some none
      → ((x : ℕ) → x ≢ id → find_order_by_id x after ≡ find_order_by_id x b)
      → orders_on o.side after ≡ erase_order id (orders_on o.side b)
      → orders_on (opposite o.side) after ≡ orders_on (opposite o.side) b
      → CancelOutcome client id b (some (success, after))

both_sides_same :
    (b after : Book) (x : ℕ)
    → IsValid b
    → IsValid after
    → ((s : Side) → held s x after ≡ held s x b)
    → find_order_by_id x after ≡ find_order_by_id x b
both_sides_same b after x v w h =
    find_order_by_id-either after x w ∙ rw (h buy, h sell) (sym (find_order_by_id-either b x v))

module _ (b : Book) (v : IsValid b) (client : ℕ) (o : Order)
    (found : find_order o.order_id (orders_on o.side b) ≡ some o) where
  c : Cancels o.side o client b
  c = cancels v o.side o client found

  after-IsValid : IsValid c.after
  after-IsValid =
      subst (λ n. IsValidBelow n c.after) (sym c.rest.order_counter) (Erases-IsValid v c.erases)

  others_kept : (x : ℕ) → x ≢ o.order_id → (s : Side) → held s x c.after ≡ held s x b
  others_kept x ne =
      by_side (λ s. held s x c.after ≡ held s x b) o.side
        (rw c.erases.far (find_order-erase_ne x o.order_id (orders_on o.side b) (λ e. ne (sym e))))
        (rw c.erases.near)

  nowhere : (s : Side) → held s o.order_id c.after ≡ none
  nowhere =
      by_side (λ s. held s o.order_id c.after ≡ none) o.side
        (rw c.erases.far (
          find_order-eq-none o.order_id _ (
            omega (
              arith,
              occurs-erase_self o.order_id (orders_on o.side b),
              v.distinct o.side o.order_id,
            ))))
        (rw c.erases.near (ground (arith, one_side v o.side o.order_id, found)))

  gone : find_order_by_id o.order_id c.after ≡ some none
  gone = find_order_by_id-missing after-IsValid o.order_id (nowhere buy) (nowhere sell)

  cancel_found-outcome :
      CancelOutcome client o.order_id b (internal_cancel_order client o.order_id b)
  cancel_found-outcome = elim (Bool-cases (o.client_id == client)) [
    | inl own ↦
        let mine = (==_iff _ _).0 own in
        rw (c.owned mine) (
          removed o c.after (find_order_by_id-found v o found) mine gone
            (λ x ne. both_sides_same b c.after x v after-IsValid (others_kept x ne)) c.erases.far
            (ap orders_of c.erases.near))
    | inr other ↦
        rw (c.foreign (λ e. ground arith))
          (foreign o (find_order_by_id-found v o found) (λ e. ground arith))
  ]

-- On a well-formed book a cancellation of an unknown number or of somebody else's order is refused
-- and changes nothing; any other takes that order out of its queue, leaves the other side's queue,
-- and `FindOrder` finds all other orders as before.
pub internal_cancel_order-outcome :
    (client id : ℕ) (b : Book)
    → IsValid b
    → CancelOutcome client id b (internal_cancel_order client id b)
internal_cancel_order-outcome client id b v = elim (rests_or_not v id) [
  | inl at ↦
      subst (λ i. CancelOutcome client i b (internal_cancel_order client i b)) at.number
        (cancel_found-outcome b v client at.order at.found)
  | inr (e, e') ↦
      rw (cancel-missing v client id e e') (unknown (find_order_by_id-missing v id e e'))
]
