-- ===== src/Book/Commands/Modify.antt =====
-- `InternalModifyOrder` on a well-formed book, by the order that rests under the number.
use hermes_orderbook.Prelude.{
  ℕ, ◌≡◌, ◌≤◌, refl, sym, subst, ◌∙◌, Option, none, some, if◌then◌else◌, arith, inl, inr,
  Bool-cases, ◌>>=◌, ◌==◌, ◌||◌, not, length, ltb, eqb_ℤ, ==_iff,
}
use hermes_orderbook.Core.Types.{Price, Quantity, TimeNs, buy, sell, opposite}
use hermes_orderbook.Core.Order.{Order}
use hermes_orderbook.Core.Messages.{ErrorCode, success, invalid_modify, unauthorized}
use hermes_orderbook.Book.Levels.{Level, find_level, find_order}
use hermes_orderbook.Book.State.{Book, OrderEntry, levels, lookup_entry}
use hermes_orderbook.Book.Operations.{internal_cancel_order}
use hermes_orderbook.Book.Operations.Cancel.{Cancels, cancels, found_entry}
use hermes_orderbook.Book.Commands.{
  internal_add_order, shrink_order, as_modify, replace_order, internal_modify_order,
}
use hermes_orderbook.Book.Commands.Rest.{shrinks}
use hermes_orderbook.Book.Commands.Valid.{Keeps, Ready, stay, add-Keeps, length-erase_order}
use hermes_orderbook.Book.View.{orders_on, entry_of, IsValidBelow}
use hermes_orderbook.Book.View.Uncrossed.{IsUncrossed, Erases-IsUncrossed, Rewrites-IsUncrossed}
use hermes_orderbook.Book.View.Levels.{Located, locate, find_level-split}
use hermes_orderbook.Book.View.Index.{by_side, rests_or_not}
use hermes_orderbook.Book.View.Index.Erase.{Erases-IsValid}
use hermes_orderbook.Book.View.Index.Rewrite.{Rewrites-IsValid}

pub modify-found :
    (now : TimeNs) (client id : ℕ) (p : Price) (q : Quantity) (b : Book) (e : OrderEntry)
    (l : Level) (o : Order)
    → lookup_entry id b.index ≡ some e
    → find_level e.level_price (levels e.level_side b) ≡ some l
    → find_order e.list_it l.orders ≡ some o
    → internal_modify_order now client id p q b ≡ (
        if not (o.client_id == client)
        then some (unauthorized, b)
        else if not (eqb_ℤ p o.price) || ltb o.remaining_quantity q
        then replace_order now client id o p q b
        else if ltb q o.remaining_quantity
        then some (success, shrink_order id e l o q b)
        else some (success, b))
unfolding internal_modify_order
modify-found now client id p q b e l o h k m = rw (h, internal_modify_order, k, m)

pub replace-owned :
    (now : TimeNs) (client id : ℕ) (o : Order) (p : Price) (q : Quantity) (b b' : Book)
    → internal_cancel_order client id b ≡ some (success, b')
    → replace_order now client id o p q b ≡ (
        internal_add_order now client p q o.side o.order_type o.tif o.match_type o.flags b' >>= λ r.
        some (as_modify r))
unfolding replace_order
replace-owned now client id o p q b b' e = rw (replace_order, e)

-- The three fates of a modification of the order `o`, which rests on its side.
module _ {n : ℕ} {b : Book} (v : IsValidBelow n b) (o : Order)
    (found : find_order o.order_id (orders_on o.side b) ≡ some o) (now : TimeNs) (client : ℕ)
    (p : Price) (q : Quantity) where
  pub home : Located o.side (levels o.side b) o.order_id o
  home = locate o.side (levels o.side b) o.order_id o (v.side_valid o.side) found

  pub modify-run : internal_modify_order now client o.order_id p q b ≡ (
      if not (o.client_id == client)
      then some (unauthorized, b)
      else if not (eqb_ℤ p o.price) || ltb o.remaining_quantity q
      then replace_order now client o.order_id o p q b
      else if ltb q o.remaining_quantity
      then some (success, shrink_order o.order_id (entry_of o) home.level o q b)
      else some (success, b))
  modify-run =
      modify-found now client o.order_id p q b (entry_of o) home.level o
        (found_entry v o.side o.order_id o found)
        (rw (home.split)
          (find_level-split o.price home.pre home.post home.level home.others home.price))
        home.held

pub modify-missing :
    {n : ℕ} {b : Book} (v : IsValidBelow n b) (now : TimeNs) (client id : ℕ) (p : Price)
    (q : Quantity)
    → find_order id (orders_on buy b) ≡ none
    → find_order id (orders_on sell b) ≡ none
    → internal_modify_order now client id p q b ≡ some (invalid_modify, b)
unfolding internal_modify_order
modify-missing {b = b} v now client id p q h k =
    let absent : lookup_entry id b.index ≡ none = ground (arith, v.indexed buy id) in
    rw (absent, internal_modify_order)

module _ {k : ℕ} {b : Book} (r : Ready k b) (now : TimeNs) (client : ℕ) (p : Price)
    (q : Quantity) where
  -- The book without the order is ready for the new one.
  Ready-cancelled : (o : Order) (c : Cancels o.side o client b) → Ready k c.after
  Ready-cancelled o c = record {
    valid =
        subst (λ n. IsValidBelow n c.after) (sym c.rest.order_counter)
          (Erases-IsValid r.valid c.erases);
    clear = c.rest.scratch ∙ r.clear;
    small =
        by_side (λ s. length (orders_on s c.after) ≤ k) o.side
          (rw c.erases.far
            (omega (arith, length-erase_order o.order_id (orders_on o.side b), r.small o.side)))
          (rw c.erases.near (r.small (opposite o.side)));
    room = omega (arith, c.rest.order_counter, r.room);
  }

  as_modify-Keeps :
      (b' : Book) (result : Option (ErrorCode × Book)) (s : Keeps k b' result)
      → b'.market_state ≡ b.market_state
      → b'.order_counter ≡ b.order_counter
      → (IsUncrossed b → IsUncrossed b')
      → Keeps k b (result >>= λ x. some (as_modify x))
  as_modify-Keeps b' result s e c f = record {
    code = (as_modify (s.code, s.after)).0;
    after = s.after;
    run = rw (s.run) (ground arith);
    valid = s.valid;
    few = s.few;
    state = s.state ∙ e;
    counter = omega (arith, s.counter);
    uncrossed = λ u. s.uncrossed (f u);
  }

  module _ (o : Order) (found : find_order o.order_id (orders_on o.side b) ≡ some o) where
    replace-Keeps : o.client_id ≡ client → Keeps k b (replace_order now client o.order_id o p q b)
    replace-Keeps own =
        let c : Cancels o.side o client b = cancels r.valid o.side o client found in
        rw (replace-owned now client o.order_id o p q b c.after (c.owned own)) (
          as_modify-Keeps c.after _
            (add-Keeps (Ready-cancelled o c) now client p q o.side o.order_type o.tif o.match_type
              o.flags)
            c.rest.market_state c.rest.order_counter (Erases-IsUncrossed c.erases))

    shrink-Keeps : Keeps k b (
        some (
          success,
          shrink_order o.order_id (entry_of o) (home r.valid o found now client p q).level o q b,
        ))
    shrink-Keeps =
        let s = shrinks r.valid o q (home r.valid o found now client p q) found in
        record {
          code = success;
          after =
              shrink_order o.order_id (entry_of o) (home r.valid o found now client p q).level o q
                b;
          run = refl;
          valid =
              subst
                (λ n. IsValidBelow n (
                  shrink_order o.order_id (entry_of o) (home r.valid o found now client p q).level o
                    q b))
                (sym s.rest.order_counter) (Rewrites-IsValid r.valid s.rewrites);
          few = rw (s.rest.scratch, r.clear) (omega arith);
          state = s.rest.market_state;
          counter = omega (arith, s.rest.order_counter);
          uncrossed = Rewrites-IsUncrossed s.rewrites;
        }

    modify_found-Keeps : Keeps k b (internal_modify_order now client o.order_id p q b)
    modify_found-Keeps =
        rw (modify-run r.valid o found now client p q) (elim (Bool-cases (o.client_id == client)) [
          | inr ne ↦ rw ne (stay r unauthorized _ refl)
          | inl own ↦
              rw own (elim (Bool-cases (not (eqb_ℤ p o.price) || ltb o.remaining_quantity q)) [
                | inl move ↦ rw move (replace-Keeps ((==_iff _ _).0 own))
                | inr keep ↦ rw keep (elim (Bool-cases (ltb q o.remaining_quantity)) [
                  | inl less ↦ rw less shrink-Keeps
                  | inr same ↦ rw same (stay r success _ refl)
                ])
              ])
        ])

  pub modify-Keeps : (id : ℕ) → Keeps k b (internal_modify_order now client id p q b)
  modify-Keeps id = elim (rests_or_not r.valid id) [
    | inl at ↦
        subst (λ i. Keeps k b (internal_modify_order now client i p q b)) at.number
          (modify_found-Keeps at.order at.found)
    | inr (e, e') ↦ stay r invalid_modify _ (modify-missing r.valid now client id p q e e')
  ]
