-- ===== src/Book/Crowd.antt =====
-- Books with many orders at one price, for the tests.
use hermes_orderbook.Prelude.{
  ℕ, zero, suc, ◌+◌, ◌≡◌, ◌<◌, ◌^◌, refl, sym, ap, subst, ◌∙◌, List, [], ◌∷◌, ◌++◌, pos, arith,
  append-nil, ltb_ℤ,
}
use hermes_orderbook.Core.Types.{buy, sell}
use hermes_orderbook.Core.Order.{Order}
use hermes_orderbook.Book.Samples.{resting}
use hermes_orderbook.Book.Levels.{before}
use hermes_orderbook.Book.State.{Book, empty_book, levels}
use hermes_orderbook.Book.Matching.Consume.{consume}
use hermes_orderbook.Book.Commands.{place_order}
use hermes_orderbook.Book.Commands.Place.{Placed, placed}
use hermes_orderbook.Book.Commands.Slot.{enqueue, NotWorse, enqueue-append, NotWorse-append}
use hermes_orderbook.Book.Apply.History.{empty_book-IsValid}
use hermes_orderbook.Book.View.{orders_on, IsValid, IsValidBelow}

-- The asks of 1 at 100 with the numbers from 1 to `n`.
abbrev pub crowd : ℕ → List Order
crowd zero = []
crowd (suc n) = crowd n ++ (resting (suc n) 1 100 1 sell ∷ [])

pub record Crowd (n : ℕ) : Type 0 where
  pub book : Book
  pub counter : book.order_counter ≡ suc n
  pub valid : IsValid book
  pub asks : orders_on sell book ≡ crowd n
  pub bids : orders_on buy book ≡ []

no_crowd : Crowd 0
no_crowd = record {
  book = empty_book;
  counter = refl;
  valid = empty_book-IsValid;
  asks = unfold levels in refl;
  bids = unfold levels in refl;
}

NotWorse-crowd : (n : ℕ) → NotWorse sell (pos 100) (crowd n)
NotWorse-crowd zero = tt
NotWorse-crowd (suc n) =
    NotWorse-append sell (pos 100) (crowd n) (resting (suc n) 1 100 1 sell ∷ []) (NotWorse-crowd n)
      (unfold before ltb_ℤ in refl, tt)

enqueue-crowd :
    (n : ℕ) (o : Order) → o.price ≡ pos 100 → enqueue sell o (crowd n) ≡ crowd n ++ (o ∷ [])
enqueue-crowd n o e =
    ap (enqueue sell o) (sym (append-nil (crowd n)))
    ∙ enqueue-append sell o (crowd n) []
        (subst (λ p. NotWorse sell p (crowd n)) (sym e) (NotWorse-crowd n)) tt

more_crowd : (n : ℕ) → n + 2 < 2 ^ 64 → Crowd n → Crowd (suc n)
more_crowd n room c =
    let o = resting (suc n) 1 100 1 sell in
    let p : Placed o c.book (place_order o c.book) =
      placed o c.book (subst (λ k. IsValidBelow k c.book) c.counter c.valid) in
    let counter : p.after.order_counter ≡ suc (suc n) = omega (arith, p.counter, c.counter) in
    let idle : consume o (orders_on buy c.book) ≡ (o, []) = rw c.bids (unfold consume in refl) in
    record {
      book = p.after;
      counter = counter;
      valid = subst (λ k. IsValidBelow k p.after) (sym counter) p.valid;
      asks = p.near ∙ rw (idle, c.asks) (enqueue-crowd n o refl);
      bids = p.far ∙ ap (λ r. r.1) idle;
    }

pub crowd_of : (n : ℕ) → n + 2 < 2 ^ 64 → Crowd n
crowd_of zero h = no_crowd
crowd_of (suc n) h = more_crowd n (omega arith) (crowd_of n (omega arith))
