-- ===== src/Book/Apply/Valid.antt =====
-- `Apply` on a well-formed book, command by command.
use hermes_orderbook.Prelude.{
  ℕ, suc, ◌+◌, ◌≡◌, ◌<◌, ◌≤◌, ◌^◌, refl, sym, subst, ◌∙◌, [], ◌∷◌, ◌++◌, Option, some, arith, inl,
  inr, Bool-cases, ◌>>=◌, ◌==◌, length, length-append, ltb, ==_iff,
}
use mathlib.Core.Option.{some-injective}
use hermes_orderbook.Core.Types.{TimeNs, Side, buy, sell}
use hermes_orderbook.Core.Messages.{
  Command, no_command, add, modify, cancel, ErrorCode, success, invalid_cancel, unauthorized, Event,
}
use hermes_orderbook.Book.State.{Book, max_events}
use hermes_orderbook.Book.Operations.{push_event, internal_cancel_order}
use hermes_orderbook.Book.Operations.Cancel.{Cancels, cancels, cancel-missing}
use hermes_orderbook.Book.Commands.{internal_add_order, internal_modify_order}
use hermes_orderbook.Book.Commands.Valid.{Keeps, Ready, stay, add-Keeps}
use hermes_orderbook.Book.Commands.Modify.{modify-Keeps}
use hermes_orderbook.Book.Apply.{apply, add_event, modify_event, cancel_event}
use hermes_orderbook.Book.View.{orders_on, IsValid, IsValidBelow}
use hermes_orderbook.Book.View.Uncrossed.{IsUncrossed, Erases-IsUncrossed}
use hermes_orderbook.Book.View.Index.{rests_or_not}
use hermes_orderbook.Book.View.Index.Erase.{Erases-IsValid}
use hermes_orderbook.Book.View.Sides.{scratch-SameOrders, SameOrders-IsValid, SameOrders}

-- A command's result: a well-formed book with no more events than fit.
pub record Applies (b : Book) (result : Option Book) : Type 0 where
  pub after : Book
  pub run : result ≡ some after
  pub valid : IsValid after
  pub fits : length after.scratch ≤ max_events
  pub state : after.market_state ≡ b.market_state

-- What a command that is carried out keeps.
pub record Follows (b b' : Book) : Type 0 where
  pub valid : IsValid b'
  pub counter : b'.order_counter ≤ suc b.order_counter
  pub uncrossed : IsUncrossed b → IsUncrossed b'

SameOrders-IsUncrossed : {b b' : Book} → SameOrders b b' → IsUncrossed b → IsUncrossed b'
SameOrders-IsUncrossed e u = rw (e.sides buy, e.sides sell) u

pub push_event-room :
    (e : Event) (b : Book)
    → length b.scratch < max_events
    → push_event e b ≡ some (record b { scratch = b.scratch ++ (e ∷ []) })
unfolding push_event
push_event-room e b h = ground arith

push_event-some :
    (e : Event) (b b' : Book)
    → push_event e b ≡ some b'
    → record b { scratch = b.scratch ++ (e ∷ []) } ≡ b'
unfolding push_event
push_event-some e b b' h = elim (Bool-cases (ltb (length b.scratch) max_events)) [
  | inl room ↦ some-injective _ _ (sym (push_event-room e b (ground arith)) ∙ h)
  | inr full ↦ absurd (ground arith)
]

module _ {k : ℕ} {b : Book} (r : Ready k b) where
  pub cancel-Keeps : (client id : ℕ) → Keeps k b (internal_cancel_order client id b)
  cancel-Keeps client id = elim (rests_or_not r.valid id) [
    | inr (e, e') ↦ stay r invalid_cancel _ (cancel-missing r.valid client id e e')
    | inl at ↦
        let c : Cancels at.order.side at.order client b =
          cancels r.valid at.order.side at.order client at.found in
        elim (Bool-cases (at.order.client_id == client)) [
          | inl own ↦ record {
            code = success;
            after = c.after;
            run = rw (← at.number) (c.owned ((==_iff _ _).0 own));
            valid =
                subst (λ n. IsValidBelow n c.after) (sym c.rest.order_counter)
                  (Erases-IsValid r.valid c.erases);
            few = rw (c.rest.scratch, r.clear) (omega arith);
            state = c.rest.market_state;
            counter = omega (arith, c.rest.order_counter);
            uncrossed = Erases-IsUncrossed c.erases;
          }
          | inr other ↦ stay r unauthorized _ (rw (← at.number) (c.foreign (λ e. ground arith)))
        ]
  ]

  -- Then the event is written, if the scratch has room for it.
  module _ (result : Option (ErrorCode × Book)) (event : ErrorCode → Book → Event)
      (s : Keeps k b result) where
    abbrev written : Book
    written = record (s.after) { scratch = s.after.scratch ++ (event s.code s.after ∷ []) }

    written-IsValid : IsValid written
    written-IsValid =
        SameOrders-IsValid
          (scratch-SameOrders (s.after.scratch ++ (event s.code s.after ∷ [])) s.after) s.valid

    written-IsUncrossed : IsUncrossed b → IsUncrossed written
    written-IsUncrossed u =
        SameOrders-IsUncrossed
          (scratch-SameOrders (s.after.scratch ++ (event s.code s.after ∷ [])) s.after)
          (s.uncrossed u)

    pushed : k < max_events → Applies b (result >>= λ r. push_event (event r.0 r.1) r.1)
    pushed few = record {
      after = written;
      run = rw s.run (push_event-room (event s.code s.after) s.after (omega (arith, s.few)));
      valid = written-IsValid;
      fits = omega (arith, length-append s.after.scratch (event s.code s.after ∷ []), s.few);
      state = s.state;
    }

    pushed_any :
        (b' : Book) → (result >>= λ r. push_event (event r.0 r.1) r.1) ≡ some b' → Follows b b'
    pushed_any b' e =
        subst (Follows b)
          (push_event-some (event s.code s.after) s.after b'
            (subst (λ x. (x >>= λ r. push_event (event r.0 r.1) r.1) ≡ some b') s.run e))
          (record { valid = written-IsValid; counter = s.counter; uncrossed = written-IsUncrossed })

-- A book with at most 127 orders on a side, whose next number is not the last of 64 bits.
pub record IsModest (b : Book) : Type 0 where
  pub small : (s : Side) → length (orders_on s b) < max_events
  pub room : b.order_counter + 1 < 2 ^ 64

abbrev pub cleared : Book → Book
cleared b = record b { scratch = [] }

pub cleared-Ready :
    (k : ℕ) (b : Book)
    → IsValid b
    → ((s : Side) → length (orders_on s b) ≤ k)
    → b.order_counter + 1 < 2 ^ 64
    → Ready k (cleared b)
cleared-Ready k b v small room =
    let same : SameOrders b (cleared b) = scratch-SameOrders [] b in
    record {
      valid = SameOrders-IsValid same v;
      clear = refl;
      small = λ s. rw (same.sides s) (small s);
      room = room;
    }

few_enough : 127 < max_events
few_enough = omega arith

module _ (b : Book) (v : IsValid b) (m : IsModest b) where
  -- The result of a command's operation, and the event.
  handled :
      (result : Option (ErrorCode × Book)) (event : ErrorCode → Book → Event)
      → (Ready 127 (cleared b) → Keeps 127 (cleared b) result)
      → Applies b (result >>= λ r. push_event (event r.0 r.1) r.1)
  handled result event keeps =
      let r = cleared-Ready 127 b v (λ s. omega (arith, m.small s)) m.room in
      let a = pushed r result event (keeps r) few_enough in
      record { after = a.after; run = a.run; valid = a.valid; fits = a.fits; state = a.state }

-- On a well-formed book with at most 127 orders on each side and a next number below 2 ^ 64 - 1, every
-- command is carried out with no undefined behaviour, and leaves a well-formed book with its events
-- within the scratch and the same market state.
pub apply-IsValid :
    (now : TimeNs) (c : Command) (b : Book) → IsValid b → IsModest b → Applies b (apply now c b)
unfolding apply
apply-IsValid now no_command b v m = record {
  after = record b { scratch = [] };
  run = refl;
  valid = SameOrders-IsValid (scratch-SameOrders [] b) v;
  fits = omega arith;
  state = refl;
}
apply-IsValid now (add c) b v m =
    handled b v m
      (internal_add_order now c.client_id c.price c.quantity c.side c.order_type c.tif c.match_type
        c.flags (cleared b))
      (add_event c.client_id)
      (λ r.
        add-Keeps r now c.client_id c.price c.quantity c.side c.order_type c.tif c.match_type
          c.flags)
apply-IsValid now (modify c) b v m =
    handled b v m
      (internal_modify_order now c.client_id c.order_id c.new_price c.new_quantity (cleared b))
      (λ code b'. modify_event c.client_id c.order_id code)
      (λ r. modify-Keeps r now c.client_id c.new_price c.new_quantity c.order_id)
apply-IsValid now (cancel c) b v m =
    handled b v m (internal_cancel_order c.client_id c.order_id (cleared b))
      (λ code b'. cancel_event c.client_id c.order_id code)
      (λ r. cancel-Keeps r c.client_id c.order_id)

module _ (b : Book) (v : IsValid b) (room : b.order_counter + 1 < 2 ^ 64) where
  abbrev pub most : ℕ
  most = length (orders_on buy b) + length (orders_on sell b)

  handled_any :
      (result : Option (ErrorCode × Book)) (event : ErrorCode → Book → Event)
      → (Ready most (cleared b) → Keeps most (cleared b) result)
      → (b' : Book) → (result >>= λ r. push_event (event r.0 r.1) r.1) ≡ some b'
      → Follows b b'
  handled_any result event keeps b' e =
      let r = cleared-Ready most b v (elim [ buy ↦ omega arith | sell ↦ omega arith ]) room in
      let f = pushed_any r result event (keeps r) b' e in
      record {
        valid = f.valid;
        counter = f.counter;
        uncrossed = λ u. f.uncrossed (SameOrders-IsUncrossed (scratch-SameOrders [] b) u);
      }

-- Without the bound on the orders: if a command is carried out at all, its book is well-formed, at
-- most one number is used, and a book that was uncrossed is uncrossed.
pub apply-IsValid_of_some :
    (now : TimeNs) (c : Command) (b b' : Book)
    → IsValid b
    → b.order_counter + 1 < 2 ^ 64
    → apply now c b ≡ some b'
    → Follows b b'
unfolding apply
apply-IsValid_of_some now no_command b b' v room e =
    subst (Follows b) (some-injective _ _ e) (record {
      valid = SameOrders-IsValid (scratch-SameOrders [] b) v;
      counter = omega arith;
      uncrossed = SameOrders-IsUncrossed (scratch-SameOrders [] b);
    })
apply-IsValid_of_some now (add c) b b' v room e =
    handled_any b v room
      (internal_add_order now c.client_id c.price c.quantity c.side c.order_type c.tif c.match_type
        c.flags (cleared b))
      (add_event c.client_id)
      (λ r.
        add-Keeps r now c.client_id c.price c.quantity c.side c.order_type c.tif c.match_type
          c.flags)
      b' e
apply-IsValid_of_some now (modify c) b b' v room e =
    handled_any b v room
      (internal_modify_order now c.client_id c.order_id c.new_price c.new_quantity (cleared b))
      (λ code b'. modify_event c.client_id c.order_id code)
      (λ r. modify-Keeps r now c.client_id c.new_price c.new_quantity c.order_id) b' e
apply-IsValid_of_some now (cancel c) b b' v room e =
    handled_any b v room (internal_cancel_order c.client_id c.order_id (cleared b))
      (λ code b'. cancel_event c.client_id c.order_id code)
      (λ r. cancel-Keeps r c.client_id c.order_id) b' e
