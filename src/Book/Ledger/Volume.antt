-- ===== src/Book/Ledger/Volume.antt =====
-- The volume that the book answers for a price, against the orders that rest there.
use hermes_orderbook.Prelude.{
  ℕ, zero, suc, ◌+◌, ◌%◌, ◌^◌, ◌<◌, ◌≤◌, ◌≡◌, refl, ap, subst, ◌∙◌, true, false, if◌then◌else◌,
  eqb_ℤ, eqb_ℤ_iff, eqb_ℤ_sym, List, [], ◌∷◌, ◌++◌, Option, none, some, OnSome-some, Bool-cases,
  inl, inr, arith,
}
use hermes_orderbook.Core.Types.{Price, Quantity, TimeNs, Side, buy, sell}
use hermes_orderbook.Core.Order.{Order}
use hermes_orderbook.Core.Messages.{Command}
use hermes_orderbook.Book.Levels.{Level, find_level}
use hermes_orderbook.Book.State.{Book, empty_book, levels}
use hermes_orderbook.Book.Apply.{apply, volume_at_price}
use hermes_orderbook.Book.Apply.Valid.{apply-IsValid_of_some}
use hermes_orderbook.Book.Apply.History.{empty_book-IsValid}
use hermes_orderbook.Book.View.{
  orders_of, orders_on, total_remaining, AllAfter, AllAt, SideIsValid, IsValid,
}
use hermes_orderbook.Book.View.Levels.{before-eqb}
use hermes_orderbook.Book.Ledger.{AllTrue, IsLedger}
use hermes_orderbook.Book.Ledger.Commands.{Fits, apply-IsLedger}

-- What the orders at the price `p` have left.
abbrev pub total_at : Price → List Order → ℕ
total_at p [] = 0
total_at p (o ∷ os) = (if eqb_ℤ o.price p then o.remaining_quantity else 0) + total_at p os

total_at-append :
    (p : Price) (xs ys : List Order) → total_at p (xs ++ ys) ≡ total_at p xs + total_at p ys
total_at-append p [] ys = omega arith
total_at-append p (x ∷ xs) ys = omega (arith, total_at-append p xs ys)

total_at-here :
    (s : Side) (q p : Price) (os : List Order)
    → eqb_ℤ q p ≡ true
    → AllAt s q os
    → total_at p os ≡ total_remaining os
total_at-here s q p [] h a = refl
total_at-here s q p (o ∷ os) h a =
    let same : eqb_ℤ o.price p ≡ true = ap (λ x. eqb_ℤ x p) a.1 ∙ h in
    rw same (omega (arith, total_at-here s q p os h a.2))

total_at-elsewhere :
    (s : Side) (q p : Price) (os : List Order)
    → eqb_ℤ q p ≡ false
    → AllAt s q os
    → total_at p os ≡ 0
total_at-elsewhere s q p [] h a = refl
total_at-elsewhere s q p (o ∷ os) h a =
    let other : eqb_ℤ o.price p ≡ false = ap (λ x. eqb_ℤ x p) a.1 ∙ h in
    rw other (omega (arith, total_at-elsewhere s q p os h a.2))

total_at-after :
    (s : Side) (p : Price) (ls : List Level)
    → SideIsValid s ls
    → AllAfter s p ls
    → total_at p (orders_of ls) ≡ 0
total_at-after s p [] v a = refl
total_at-after s p (l ∷ ls) v a =
    let other : eqb_ℤ l.price p ≡ false = eqb_ℤ_sym p l.price (before-eqb s p l.price a.0) in
    omega (
      arith,
      total_at-append p l.orders (orders_of ls),
      total_at-elsewhere s l.price p l.orders other v.2,
      total_at-after s p ls v.3 a.1,
    )

abbrev volume_of : Option Level → Quantity
volume_of none = 0
volume_of (some l) = l.volume

levels-volume :
    (s : Side) (p : Price) (ls : List Level)
    → SideIsValid s ls
    → AllTrue ls
    → volume_of (find_level p ls) ≡ total_at p (orders_of ls) % 2 ^ 64
unfolding find_level
levels-volume s p [] v t = refl
levels-volume s p (l ∷ ls) v t = elim (Bool-cases (eqb_ℤ l.price p)) [
  | inl here ↦
      let same : l.price ≡ p = (eqb_ℤ_iff l.price p).0 here in
      let rest : total_at p (orders_of ls) ≡ 0 =
        total_at-after s p ls v.3 (subst (λ q. AllAfter s q ls) same v.0) in
      rw here (
        omega (
          arith,
          t.0.0,
          rest,
          total_at-append p l.orders (orders_of ls),
          total_at-here s l.price p l.orders here v.2,
        ))
  | inr there ↦ rw there (
      omega (
        arith,
        levels-volume s p ls v.3 t.1,
        total_at-append p l.orders (orders_of ls),
        total_at-elsewhere s l.price p l.orders there v.2,
      ))
]

-- The books that commands which keep the ledger lead to from the empty book.
pub data Reach : ℕ → Book → Type 0 where
  start : Reach zero empty_book
  next :
      {n : ℕ} {b b' : Book} (now : TimeNs) (c : Command)
      → Reach n b
      → Fits b c
      → apply now c b ≡ some b'
      → Reach (suc n) b'

record Kept (n : ℕ) (b : Book) : Type 0 where
  valid : IsValid b
  counter : b.order_counter ≤ suc n
  ledger : IsLedger b

Reach-Kept : {n : ℕ} {b : Book} → n + 2 < 2 ^ 64 → Reach n b → Kept n b
unfolding levels
Reach-Kept h start = record {
  valid = empty_book-IsValid;
  counter = omega arith;
  ledger = elim [ buy ↦ tt | sell ↦ tt ];
}
Reach-Kept h (next {b = b} {b' = b'} now c r fits e) =
    let k = Reach-Kept (omega arith) r in
    let room : b.order_counter + 1 < 2 ^ 64 = omega (arith, k.counter) in
    let f = apply-IsValid_of_some now c b b' k.valid room e in
    record {
      valid = f.valid;
      counter = omega (arith, k.counter, f.counter);
      ledger =
          OnSome-some IsLedger (apply now c b) b'
            (apply-IsLedger now c b k.valid room k.ledger fits) e;
    }

-- In every book that fewer than 2 ^ 64 - 2 commands lead to from the empty book, which add only orders
-- that show, cancel, or modify without shrinking an order at its price, with quantities of 64 bits,
-- the volume that is answered for a price is the sum of what the orders at that price have left,
-- modulo 2 ^ 64.
pub Reach-volume :
    {n : ℕ} {b : Book} (s : Side) (p : Price)
    → n + 2 < 2 ^ 64
    → Reach n b
    → volume_at_price s p b ≡ total_at p (orders_on s b) % 2 ^ 64
unfolding volume_at_price
Reach-volume {b = b} s p h r =
    let k = Reach-Kept h r in levels-volume s p (levels s b) (k.valid.side_valid s) (k.ledger s)
