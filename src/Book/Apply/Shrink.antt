-- ===== src/Book/Apply/Shrink.antt =====
-- `InternalModifyOrder` for an order that shrinks: its place, and its level's volume.
use hermes_orderbook.Prelude.{
  ℕ, ◌-◌, ◌≡◌, ◌<◌, ◌^◌, refl, sym, ap, ◌∙◌, true, ◌∷◌, ◌++◌, arith, Option, some, add64, sub64,
  eqb_ℤ_refl,
}
use hermes_orderbook.Core.Types.{Quantity, TimeNs, opposite, is_visible}
use hermes_orderbook.Core.Order.{Order}
use hermes_orderbook.Core.Messages.{ErrorCode, success}
use hermes_orderbook.Book.Levels.{Level, find_order, set_order}
use hermes_orderbook.Book.State.{Book, levels}
use hermes_orderbook.Book.Commands.{internal_modify_order, shrink_order}
use hermes_orderbook.Book.Commands.Modify.{modify-run, home}
use hermes_orderbook.Book.Commands.Rest.{shrinks, level', shrink_order-eq}
use hermes_orderbook.Book.Apply.{volume_at_price}
use hermes_orderbook.Book.View.{orders_of, orders_on, entry_of, IsValid}
use hermes_orderbook.Book.View.Levels.{Located, find_level-split}
use hermes_orderbook.Book.View.Sides.{levels-with_self}

-- A modification to the same price and a smaller quantity leaves the order in its place, changes
-- nothing else of the queues, and adds the difference to the volume of the order's level.
pub record ShrinkOutcome (o : Order) (q : Quantity) (b : Book) (result : Option (ErrorCode × Book))
    : Type 0 where
  pub after : Book
  pub run : result ≡ some (success, after)
  pub queue :
      orders_on o.side after
      ≡ set_order o.order_id (record o { remaining_quantity = q }) (orders_on o.side b)
  pub other : orders_on (opposite o.side) after ≡ orders_on (opposite o.side) b
  pub volume :
      volume_at_price o.side o.price after
      ≡ add64 (volume_at_price o.side o.price b) (o.remaining_quantity - q)

module _ (b : Book) (v : IsValid b) (o : Order) (q : Quantity)
    (r : Located o.side (levels o.side b) o.order_id o)
    (found : find_order o.order_id (orders_on o.side b) ≡ some o) where
  at_level :
      (l : Level) (c : Book)
      → levels o.side c ≡ r.pre ++ (l ∷ r.post)
      → l.price ≡ o.price
      → volume_at_price o.side o.price c ≡ l.volume
  unfolding volume_at_price
  at_level l c e p = rw (e, find_level-split o.price r.pre r.post l r.others p, volume_at_price)

  abbrev after : Book
  after = shrink_order o.order_id (entry_of o) r.level o q b

  after-levels : levels o.side after ≡ r.pre ++ (level' v o q r found ∷ r.post)
  after-levels = ap (levels o.side) (shrink_order-eq v o q r found) ∙ levels-with_self o.side _ b

  shrunk-volume :
      is_visible o.flags ≡ true
      → volume_at_price o.side o.price after
        ≡ sub64 (volume_at_price o.side o.price b) (sub64 q o.remaining_quantity)
  shrunk-volume h =
      at_level (level' v o q r found) after after-levels r.price
      ∙ rw h refl
      ∙ ap (λ x. sub64 x (sub64 q o.remaining_quantity)) (sym (at_level r.level b r.split r.price))

-- The difference that comes back from `update_quantity`, taken off modulo `2 ^ 64`.
sub64-sub64 :
    (x q old : ℕ) → x < 2 ^ 64 → q < old → old < 2 ^ 64 → sub64 x (sub64 q old) ≡ add64 x (old - q)
sub64-sub64 x q old h k m = omega arith

-- On a well-formed book where the order's quantity and its level's volume fit 64 bits, the owner's
-- modification of a visible order to the same price and a smaller quantity is accepted: the order
-- keeps its place with the new quantity, the other orders stay as they are, and the volume of its
-- level grows by the difference, modulo 2 ^ 64.
pub modify-shrink :
    (b : Book) (o : Order) (now : TimeNs) (q : Quantity)
    → IsValid b
    → find_order o.order_id (orders_on o.side b) ≡ some o
    → is_visible o.flags ≡ true
    → q < o.remaining_quantity
    → o.remaining_quantity < 2 ^ 64
    → volume_at_price o.side o.price b < 2 ^ 64
    → ShrinkOutcome o q b (internal_modify_order now o.client_id o.order_id o.price q b)
modify-shrink b o now q v found h less room wide =
    let r = home v o found now o.client_id o.price q in
    let s = shrinks v o q r found in
    record {
      after = after b v o q r found;
      run = modify-run v o found now o.client_id o.price q ∙ rw eqb_ℤ_refl (ground arith);
      queue = s.rewrites.far;
      other = ap orders_of s.rewrites.near;
      volume = shrunk-volume b v o q r found h ∙ sub64-sub64 _ q _ wide less room;
    }
