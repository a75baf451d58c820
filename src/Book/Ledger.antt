-- ===== src/Book/Ledger.antt =====
-- The volumes that the levels state, against what their orders have left, on books whose orders all
-- show.
pub mod Match
pub mod Apply
pub mod Commands
pub mod Volume
mod Tests
use hermes_orderbook.Prelude.{
  ℕ, ◌+◌, ◌-◌, ◌%◌, ◌^◌, ◌<◌, ◌≡◌, refl, sym, ap, subst, ◌∙◌, Bool, true, false, if◌then◌else◌,
  ◌==◌, ==_iff, eqb_ℤ, List, [], ◌∷◌, ◌++◌, Option, none, some, sub64, add64, ◌>>=◌, OnSome,
  >>=-OnSome, is_empty, if-both, Bool-cases, Option-cases, inl, inr, ◌⊎◌, arith,
}
use mathlib.Core.Option.{some-injective}
use hermes_orderbook.Core.Types.{Price, Side, buy, sell, is_visible}
use hermes_orderbook.Core.Messages.{ErrorCode}
use hermes_orderbook.Core.Order.{Order}
use hermes_orderbook.Book.Levels.{
  Level, find_level, set_level, erase_level, empty_level, try_emplace, find_order, erase_order,
  before,
}
use hermes_orderbook.Book.State.{Book, OrderEntry, levels, with_levels, lookup_entry, erase_entry}
use hermes_orderbook.Book.Operations.{without, unlink, internal_cancel_order}
use hermes_orderbook.Book.View.{total_remaining}

-- The orders show, and what each has left fits 64 bits.
abbrev pub AllShown : List Order → Type 0
AllShown [] = Unit {0}
AllShown (o ∷ os) = (is_visible o.flags ≡ true) × (o.remaining_quantity < 2 ^ 64) × AllShown os

-- A level states the sum of what its orders have left, modulo 2 ^ 64.
abbrev pub IsTrue : Level → Type 0
IsTrue l = (l.volume ≡ total_remaining l.orders % 2 ^ 64) × AllShown l.orders

abbrev pub AllTrue : List Level → Type 0
AllTrue [] = Unit {0}
AllTrue (l ∷ ls) = IsTrue l × AllTrue ls

abbrev pub IsLedger : Book → Type 0
IsLedger b = (s : Side) → AllTrue (levels s b)

pub find_level-IsTrue :
    (p : Price) (ls : List Level) (l : Level) → AllTrue ls → find_level p ls ≡ some l → IsTrue l
unfolding find_level
find_level-IsTrue p [] l t h = absurd (grind arith)
find_level-IsTrue p (m ∷ ls) l t h = elim (Bool-cases (eqb_ℤ m.price p)) [
  | inl here ↦ subst IsTrue {x = m} (some-injective _ _ (sym (rw here refl) ∙ h)) t.0
  | inr there ↦ find_level-IsTrue p ls l t.1 (sym (rw there refl) ∙ h)
]

pub set_level-AllTrue :
    (p : Price) (l : Level) (ls : List Level) → IsTrue l → AllTrue ls → AllTrue (set_level p l ls)
unfolding set_level
set_level-AllTrue p l [] t ts = tt
set_level-AllTrue p l (m ∷ ls) t ts =
    if-both AllTrue (eqb_ℤ m.price p) (λ here. (t, ts.1))
      (λ there. (ts.0, set_level-AllTrue p l ls t ts.1))

erase_level-AllTrue : (p : Price) (ls : List Level) → AllTrue ls → AllTrue (erase_level p ls)
unfolding erase_level
erase_level-AllTrue p [] ts = tt
erase_level-AllTrue p (m ∷ ls) ts =
    if-both AllTrue (eqb_ℤ m.price p) (λ here. ts.1)
      (λ there. (ts.0, erase_level-AllTrue p ls ts.1))

pub try_emplace-AllTrue :
    (s : Side) (p : Price) (ls : List Level) → AllTrue ls → AllTrue (try_emplace s p ls)
unfolding try_emplace
try_emplace-AllTrue s p [] ts = ((refl, tt), tt)
try_emplace-AllTrue s p (m ∷ ls) ts =
    if-both AllTrue (eqb_ℤ m.price p) (λ here. ts)
      (λ other.
        if-both AllTrue (before s p m.price) (λ front. ((refl, tt), ts))
          (λ behind. (ts.0, try_emplace-AllTrue s p ls ts.1)))

pub with_levels-IsLedger :
    (s : Side) (ls : List Level) (b : Book)
    → AllTrue ls
    → IsLedger b
    → IsLedger (with_levels s ls b)
unfolding levels with_levels
with_levels-IsLedger buy ls b t k = elim [ buy ↦ t | sell ↦ k sell ]
with_levels-IsLedger sell ls b t k = elim [ buy ↦ k buy | sell ↦ t ]

-- Taking a found order out of its level takes what it has left off the sum.
pub record Taken (o : Order) (id : ℕ) (os : List Order) : Type 0 where
  pub id_is : o.order_id ≡ id
  pub shown : is_visible o.flags ≡ true
  pub small : o.remaining_quantity < 2 ^ 64
  pub sum : total_remaining os ≡ o.remaining_quantity + total_remaining (erase_order id os)
  pub others : AllShown (erase_order id os)

pub find_order-Taken :
    (id : ℕ) (os : List Order) (o : Order) → AllShown os → find_order id os ≡ some o → Taken o id os
unfolding find_order erase_order
find_order-Taken id [] o a h = absurd (grind arith)
find_order-Taken id (x ∷ os) o a h = elim (Bool-cases (x.order_id == id)) [
  | inl here ↦
      let same : x ≡ o = some-injective _ _ (sym (rw here refl) ∙ h) in
      subst (λ z. Taken z id (x ∷ os)) same
        (record {
          id_is = (==_iff x.order_id id).0 here;
          shown = a.0;
          small = a.1;
          sum = rw here refl;
          others = rw here a.2;
        })
  | inr there ↦
      let r = find_order-Taken id os o a.2 (sym (rw there refl) ∙ h) in
      record {
        id_is = r.id_is;
        shown = r.shown;
        small = r.small;
        sum = rw there (omega (arith, r.sum));
        others = rw there (a.0, a.1, r.others);
      }
]

without-IsTrue :
    (id : ℕ) (l : Level) (o : Order)
    → IsTrue l
    → find_order id l.orders ≡ some o
    → IsTrue (without o l)
without-IsTrue id l o t h =
    let r = find_order-Taken id l.orders o t.1 h in
    (rw (r.shown, r.id_is) (omega (arith, t.0, r.sum, r.small)), rw r.id_is r.others)

unlink-IsLedger :
    (id : ℕ) (e : OrderEntry) (l : Level) (o : Order) (b : Book)
    → IsTrue (without o l)
    → IsLedger b
    → IsLedger (unlink id e l o b)
unfolding unlink
unlink-IsLedger id e l o b t k =
    let b1 = record b { index = erase_entry id b.index } in
    let k1 : IsLedger b1 = elim [ buy ↦ unfold levels in k buy | sell ↦ unfold levels in k sell ] in
    let k2 =
      with_levels-IsLedger e.level_side
        (set_level e.level_price (without o l) (levels e.level_side b)) b1
        (set_level-AllTrue e.level_price (without o l) (levels e.level_side b) t (k e.level_side))
        k1 in
    if-both IsLedger (is_empty (erase_order o.order_id l.orders))
      (λ gone. with_levels-IsLedger o.side _ _ (erase_level-AllTrue e.level_price _ (k2 o.side)) k2)
      (λ some_left. k2)

-- A cancellation keeps the ledger, whatever it answers.
pub internal_cancel_order-IsLedger :
    (client id : ℕ) (b : Book)
    → IsLedger b
    → OnSome (λ r. IsLedger r.1) (internal_cancel_order client id b)
unfolding internal_cancel_order
internal_cancel_order-IsLedger client id b k = elim (Option-cases (lookup_entry id b.index)) [
  | inl unknown ↦ rw (internal_cancel_order, unknown) k
  | inr (e, known) ↦
      rw (internal_cancel_order, known)
        (>>=-OnSome (λ r. IsLedger r.1) (find_level e.level_price (levels e.level_side b)) _
          λ l at.
            >>=-OnSome (λ r. IsLedger r.1) (find_order e.list_it l.orders) _
              λ o found.
                let t =
                  find_level-IsTrue e.level_price (levels e.level_side b) l (k e.level_side) at in
                if-both (OnSome (λ r. IsLedger r.1)) (o.client_id == client)
                  (λ own. unlink-IsLedger id e l o b (without-IsTrue e.list_it l o t found) k)
                  (λ other. k))
]
