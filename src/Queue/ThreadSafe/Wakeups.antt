-- ===== src/Queue/ThreadSafe/Wakeups.antt =====
-- The threads asleep in the queue with a mutex, and the notifications that are still to reach them.
use hermes_orderbook.Prelude.{
  ◌+◌, ◌-◌, ◌≤◌, ◌≡◌, ◌<◌, refl, arith, true, false, ◌⊎◌, inl, inr, List, [], ◌∷◌, length,
  length-append,
}
use hermes_orderbook.Queue.ThreadSafe.{
  ThreadSafeQueue, push, rest, try_pop, wait_and_pop, notify_one, test_again, Reach, start, pushes,
  closes, notifies, notifies_all, tries, waits, wakes, tests,
}

module _ {ℓ} {A : Type ℓ} where
  -- A sleeper has a notification or a woken thread for each value, and one of `notify_all` if the
  -- queue is closed.
  pub record Awaited (q : ThreadSafeQueue A) : Type 0 where
    pub values : (q.sleepers ≡ 0) ⊎ (length q.items ≤ q.notices + q.woken)
    pub closing : (q.sleepers ≡ 0) ⊎ ((q.is_closed ≡ false) ⊎ (0 < q.closers))

  length-rest : (xs : List A) → length (rest xs) ≤ length xs - 1
  length-rest [] = omega arith
  length-rest (x ∷ xs) = omega arith

  push-Awaited : (v : A) (q : ThreadSafeQueue A) → Awaited q → Awaited (push v q).1
  unfolding push
  push-Awaited v q w = ground (arith, length-append q.items (v ∷ []))

  try_pop-Awaited : (q : ThreadSafeQueue A) → Awaited q → Awaited (try_pop q).1
  unfolding try_pop
  try_pop-Awaited q w = ground (arith, length-rest q.items)

  wait_and_pop-Awaited : (q : ThreadSafeQueue A) → Awaited q → Awaited (wait_and_pop q).1
  unfolding wait_and_pop
  wait_and_pop-Awaited q w = ground (arith, length-rest q.items)

  notify_one-Awaited : (q : ThreadSafeQueue A) → 0 < q.notices → Awaited q → Awaited (notify_one q)
  unfolding notify_one
  notify_one-Awaited q h w = ground arith

  test_again-Awaited : (q : ThreadSafeQueue A) → 0 < q.woken → Awaited q → Awaited (test_again q).1
  unfolding wait_and_pop try_pop
  test_again-Awaited q h w = ground (arith, length-rest q.items)

  pub Reach-Awaited : {q : ThreadSafeQueue A} {ins outs : List A} → Reach q ins outs → Awaited q
  Reach-Awaited start = record { values = inl refl; closing = inl refl }
  Reach-Awaited (pushes {q = q} v r) = push-Awaited v q (Reach-Awaited r)
  Reach-Awaited (closes r) =
      let w = Reach-Awaited r in record { values = w.values; closing = inr (inr (omega arith)) }
  Reach-Awaited (notifies {q = q} r h) = notify_one-Awaited q h (Reach-Awaited r)
  Reach-Awaited (notifies_all r h) = record { values = inl refl; closing = inl refl }
  Reach-Awaited (tries {q = q} r) = try_pop-Awaited q (Reach-Awaited r)
  Reach-Awaited (waits {q = q} r) = wait_and_pop-Awaited q (Reach-Awaited r)
  Reach-Awaited (wakes {q = q} r h) = let w = Reach-Awaited r in ground arith
  Reach-Awaited (tests {q = q} r h) = test_again-Awaited q h (Reach-Awaited r)

  -- In every reachable state where a thread sleeps in `wait` although there is a value or the queue is
  -- closed, a notification is still to come or a woken thread is still to test.
  pub Reach-awake :
      {q : ThreadSafeQueue A} {ins outs : List A}
      → Reach q ins outs
      → 0 < q.sleepers
      → (0 < length q.items) ⊎ (q.is_closed ≡ true)
      → 0 < q.notices + q.woken + q.closers
  Reach-awake r s h = let w = Reach-Awaited r in ground arith
