-- ===== src/Queue/ThreadSafe/Fifo.antt =====
-- The values in the queue with a mutex, against what is accepted and what is delivered.
use hermes_orderbook.Prelude.{
  ◌-◌, ◌≡◌, refl, sym, ap, ◌∙◌, arith, not, ◌||◌, Bool-cases, inl, inr, List, [], ◌∷◌, ◌++◌,
  append_assoc, Option, none, some, is_empty,
}
use hermes_orderbook.Queue.ThreadSafe.{
  ThreadSafeQueue, push, front, rest, try_pop, answer, wait_and_pop, notify_one, accepted,
  delivered, taken, Reach, start, pushes, closes, notifies, notifies_all, tries, waits, wakes,
  tests,
}

module _ {ℓ} {A : Type ℓ} where
  delivered-front : (outs xs : List A) → delivered (front xs) outs ++ rest xs ≡ outs ++ xs
  delivered-front outs [] = refl
  delivered-front outs (x ∷ xs) = append_assoc outs (x ∷ []) xs

  push-values :
      (v : A) (q : ThreadSafeQueue A) (outs : List A)
      → accepted (push v q).0 v (outs ++ q.items) ≡ outs ++ (push v q).1.items
  unfolding push
  push-values v q outs = elim (Bool-cases q.is_closed) [
    | inl c ↦ rw c refl
    | inr o ↦ rw o (append_assoc outs q.items (v ∷ []))
  ]

  pub try_pop-values :
      (q : ThreadSafeQueue A) (outs : List A)
      → delivered (try_pop q).0 outs ++ (try_pop q).1.items ≡ outs ++ q.items
  unfolding try_pop
  try_pop-values q outs = delivered-front outs q.items

  taken-answer : (o : Option A) → taken (answer o) ≡ o
  taken-answer none = refl
  taken-answer (some v) = refl

  wait_and_pop-values :
      (q : ThreadSafeQueue A) (outs : List A)
      → delivered (taken (wait_and_pop q).0) outs ++ (wait_and_pop q).1.items ≡ outs ++ q.items
  unfolding wait_and_pop
  wait_and_pop-values q outs = elim (Bool-cases (q.is_closed || not (is_empty q.items))) [
    | inl go ↦ rw (go, taken-answer) (delivered-front outs q.items)
    | inr sleep ↦ rw sleep refl
  ]

  notify_one-items : (q : ThreadSafeQueue A) → (notify_one q).items ≡ q.items
  unfolding notify_one
  notify_one-items q = ground arith

  -- Whatever the threads do in whatever order, the values accepted are those delivered and those in
  -- the queue, in this order.
  pub Reach-fifo_exact :
      {q : ThreadSafeQueue A} {ins outs : List A} → Reach q ins outs → ins ≡ outs ++ q.items
  Reach-fifo_exact start = refl
  Reach-fifo_exact (pushes {q = q} {outs = outs} v r) =
      ap (accepted (push v q).0 v) (Reach-fifo_exact r) ∙ push-values v q outs
  Reach-fifo_exact (closes r) = Reach-fifo_exact r
  Reach-fifo_exact (notifies {q = q} {outs = outs} r h) =
      Reach-fifo_exact r ∙ ap (λ xs. outs ++ xs) (sym (notify_one-items q))
  Reach-fifo_exact (notifies_all r h) = Reach-fifo_exact r
  Reach-fifo_exact (tries {q = q} {outs = outs} r) =
      Reach-fifo_exact r ∙ sym (try_pop-values q outs)
  Reach-fifo_exact (waits {q = q} {outs = outs} r) =
      Reach-fifo_exact r ∙ sym (wait_and_pop-values q outs)
  Reach-fifo_exact (wakes r h) = Reach-fifo_exact r
  Reach-fifo_exact (tests {q = q} {outs = outs} r h) =
      Reach-fifo_exact r ∙ sym (wait_and_pop-values (record q { woken = q.woken - 1 }) outs)
