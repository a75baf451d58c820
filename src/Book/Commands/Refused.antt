-- ===== src/Book/Commands/Refused.antt =====
-- The refusals of `InternalAddOrder`, each with its code and its reason, and what follows its checks.
use hermes_orderbook.Prelude.{
  ℕ, ◌≡◌, refl, sym, subst, true, false, List, [], ◌∷◌, ◌++◌, arith, inl, inr, Bool-cases, Option,
  some,
}
use hermes_orderbook.Core.Types.{
  Price, Quantity, TimeNs, Side, opposite, OrderType, limit, TimeInForce, fok, MatchType,
  is_standard, Flags, is_post_only,
}
use hermes_orderbook.Core.Order.{Order, new_order}
use hermes_orderbook.Core.Messages.{
  ErrorCode, invalid_request, insufficient_liquidity, post_only_violation,
}
use hermes_orderbook.Book.Levels.{Level}
use hermes_orderbook.Book.State.{Book, levels}
use hermes_orderbook.Book.Commands.{
  lacks_liquidity, touches, violates_post_only, place_order, internal_add_order,
}
use hermes_orderbook.Book.Matching.{stops, outside}
use hermes_orderbook.Book.View.{orders_of, orders_on, SideIsValid, IsValid}

-- The first order of a queue, which the order `o` may trade with.
pub record Meets (o : Order) (queue : List Order) : Type 0 where
  pub maker : Order
  pub others : List Order
  pub split : queue ≡ maker ∷ others
  pub acceptable : stops o maker ≡ false

-- Why the order `o` is refused, and the code that says so. `Short` is what it means that the other side
-- cannot fill it.
pub data Refused (o : Order) (b : Book) (Short : Type 0) : ErrorCode → Type 0 where
  no_such_match : is_standard o.match_type ≡ false → Refused o b Short invalid_request
  too_little : o.tif ≡ fok → Short → Refused o b Short insufficient_liquidity
  would_trade :
      o.order_type ≡ limit
      → is_post_only o.flags ≡ true
      → Meets o (orders_on (opposite o.side) b)
      → Refused o b Short post_only_violation

-- An order that touches the best level may trade with its first order.
touches-Meets :
    (s : Side) (o : Order) (ls : List Level)
    → SideIsValid s ls
    → touches o.side o.price ls ≡ true
    → Meets o (orders_of ls)
unfolding touches
touches-Meets s o [] v e = absurd (cc)
touches-Meets s o (l ∷ ls) v e = go l.orders refl
  where
    go : (os : List Order) → l.orders ≡ os → Meets o (orders_of (l ∷ ls))
    go [] f = absurd (ground arith)
    go (m ∷ os) f =
        let first : m.price ≡ l.price = ground arith in
        let at : outside o.side o.price m.price ≡ false =
          subst (λ q. outside o.side o.price q ≡ false) (sym first) (ground arith) in
        record {
          maker = m;
          others = os ++ orders_of ls;
          split = rw f refl;
          acceptable = unfold stops in rw at (ground arith);
        }

is_fok-lacks :
    (s : Side) (type : OrderType) (price : Price) (quantity : Quantity) (tif : TimeInForce)
    (b : Book)
    → lacks_liquidity s type price quantity tif b ≡ true
    → tif ≡ fok
unfolding lacks_liquidity
is_fok-lacks s type price quantity fok b h = refl
is_fok-lacks s type price quantity _ b h = absurd (cc)

post_only-violates :
    (s : Side) (type : OrderType) (price : Price) (flags : Flags) (b : Book)
    → violates_post_only s type price flags b ≡ true
    → (type ≡ limit)
      × (is_post_only flags ≡ true)
      × (touches s price (levels (opposite s) b) ≡ true)
unfolding violates_post_only
post_only-violates s limit price flags b h = (refl, ground arith, ground arith)
post_only-violates s _ price flags b h = absurd (cc)

module _ (b : Book) (v : IsValid b) (now : TimeNs) (client : ℕ) (price : Price)
    (quantity : Quantity) (side : Side) (type : OrderType) (tif : TimeInForce) (mt : MatchType)
    (flags : Flags) where
  abbrev order : Order
  order = new_order now b.order_counter client price quantity side type tif mt flags

  -- The checks in their order, and what follows them.
  pub add_cases {ℓ} :
      (P : Option (ErrorCode × Book) → Type ℓ)
      → ((code : ErrorCode)
          → Refused order b (lacks_liquidity side type price quantity tif b ≡ true) code
          → P (some (code, b)))
      → (lacks_liquidity side type price quantity tif b ≡ false
          → violates_post_only side type price flags b ≡ false
          → P (place_order order b))
      → P (internal_add_order now client price quantity side type tif mt flags b)
  unfolding internal_add_order
  add_cases P refused passed = elim (Bool-cases (is_standard mt)) [
    | inr e ↦ rw e (refused invalid_request (no_such_match e))
    | inl e ↦ elim (Bool-cases (lacks_liquidity side type price quantity tif b)) [
      | inl e' ↦
          rw (e, e')
            (refused insufficient_liquidity
              (too_little (is_fok-lacks side type price quantity tif b e') e'))
      | inr e' ↦ elim (Bool-cases (violates_post_only side type price flags b)) [
        | inl e'' ↦
            let r = post_only-violates side type price flags b e'' in
            rw (e, e', e'')
              (refused post_only_violation (
                would_trade r.0 r.1 (
                  touches-Meets (opposite side) order (levels (opposite side) b)
                    (v.side_valid (opposite side)) r.2)))
        | inr e'' ↦ rw (e, e', e'') (passed e' e'')
      ]
    ]
  ]
