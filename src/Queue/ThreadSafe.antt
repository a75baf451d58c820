-- ===== src/Queue/ThreadSafe.antt =====
-- src/Data-Structures/ThreadSafeQueue.hpp: the queue with a mutex. A method's part under the lock is
-- one step; its notification, past the lock, is another, so other threads may act in between.
pub mod Fifo
pub mod Wakeups
mod Tests
use hermes_orderbook.Prelude.{
  ℕ, suc, ◌+◌, ◌-◌, ◌≡◌, ◌<◌, Bool, true, false, not, ◌||◌, if◌then◌else◌, List, [], ◌∷◌, ◌++◌,
  Option, none, some, is_empty, length, ◌==◌,
}

-- `m_Queue`, `m_Closed`, and the state of `m_CV`: the threads asleep in `wait`, those woken that have
-- not tested again, and the calls of `notify_one` and `notify_all` still to come.
pub record ThreadSafeQueue {ℓ} (A : Type ℓ) : Type ℓ where
  pub items : List A
  pub is_closed : Bool
  pub sleepers : ℕ
  pub woken : ℕ
  pub notices : ℕ
  pub closers : ℕ

-- What `wait_and_pop` comes to when it tests: it falls asleep, returns false, or takes a value.
pub data Answer {ℓ} (A : Type ℓ) : Type ℓ where
  sleeps : Answer A
  refuses : Answer A
  takes : A → Answer A

module _ {ℓ} {A : Type ℓ} where
  abbrev pub new_queue : ThreadSafeQueue A
  new_queue = record {
    items = [];
    is_closed = false;
    sleepers = 0;
    woken = 0;
    notices = 0;
    closers = 0;
  }

  -- `close`, under the lock.
  abbrev pub close : ThreadSafeQueue A → ThreadSafeQueue A
  close q = record q { is_closed = true; closers = suc q.closers }

  -- `push`, under the lock: whether it accepts the value.
  unfoldable pub push : A → ThreadSafeQueue A → Bool × ThreadSafeQueue A
  push v q =
      if q.is_closed
      then (false, q)
      else (true, record q { items = q.items ++ (v ∷ []); notices = suc q.notices })

  abbrev pub front : List A → Option A
  front [] = none
  front (x ∷ xs) = some x

  abbrev pub rest : List A → List A
  rest [] = []
  rest (x ∷ xs) = xs

  -- `try_pop`: the value, if there is one.
  unfoldable pub try_pop : ThreadSafeQueue A → Option A × ThreadSafeQueue A
  try_pop q = (front q.items, record q { items = rest q.items })

  abbrev pub answer : Option A → Answer A
  answer none = refuses
  answer (some v) = takes v

  -- `wait_and_pop` from a test of its predicate on.
  unfoldable pub wait_and_pop : ThreadSafeQueue A → Answer A × ThreadSafeQueue A
  unfolding try_pop
  wait_and_pop q =
      if q.is_closed || not (is_empty q.items)
      then (answer (try_pop q).0, (try_pop q).1)
      else (sleeps, record q { sleepers = suc q.sleepers })

  -- `notify_one`: it wakes a thread, if one sleeps.
  unfoldable pub notify_one : ThreadSafeQueue A → ThreadSafeQueue A
  notify_one q =
      if q.sleepers == 0
      then record q { notices = q.notices - 1 }
      else record q { notices = q.notices - 1; sleepers = q.sleepers - 1; woken = suc q.woken }

  -- `notify_all`
  abbrev pub notify_all : ThreadSafeQueue A → ThreadSafeQueue A
  notify_all q = record q { closers = q.closers - 1; sleepers = 0; woken = q.woken + q.sleepers }

  -- A thread wakes with no notification, as a condition variable allows.
  abbrev pub wake : ThreadSafeQueue A → ThreadSafeQueue A
  wake q = record q { sleepers = q.sleepers - 1; woken = suc q.woken }

  -- A woken thread tests its predicate again.
  abbrev pub test_again : ThreadSafeQueue A → Answer A × ThreadSafeQueue A
  test_again q = wait_and_pop (record q { woken = q.woken - 1 })

  abbrev pub size : ThreadSafeQueue A → ℕ
  size q = length q.items

  abbrev pub accepted : Bool → A → List A → List A
  accepted true v ins = ins ++ (v ∷ [])
  accepted false v ins = ins

  abbrev pub delivered : Option A → List A → List A
  delivered none outs = outs
  delivered (some v) outs = outs ++ (v ∷ [])

  abbrev pub taken : Answer A → Option A
  taken (takes v) = some v
  taken _ = none

  -- What any number of threads may do, with the values that `push` has accepted and the values that
  -- the two pops have delivered.
  pub data Reach : ThreadSafeQueue A → List A → List A → Type ℓ where
    start : Reach new_queue [] []
    pushes :
        {q : ThreadSafeQueue A} {ins outs : List A} (v : A)
        → Reach q ins outs
        → Reach (push v q).1 (accepted (push v q).0 v ins) outs
    closes :
        {q : ThreadSafeQueue A} {ins outs : List A} → Reach q ins outs → Reach (close q) ins outs
    notifies :
        {q : ThreadSafeQueue A} {ins outs : List A}
        → Reach q ins outs
        → 0 < q.notices
        → Reach (notify_one q) ins outs
    notifies_all :
        {q : ThreadSafeQueue A} {ins outs : List A}
        → Reach q ins outs
        → 0 < q.closers
        → Reach (notify_all q) ins outs
    tries :
        {q : ThreadSafeQueue A} {ins outs : List A}
        → Reach q ins outs
        → Reach (try_pop q).1 ins (delivered (try_pop q).0 outs)
    waits :
        {q : ThreadSafeQueue A} {ins outs : List A}
        → Reach q ins outs
        → Reach (wait_and_pop q).1 ins (delivered (taken (wait_and_pop q).0) outs)
    wakes :
        {q : ThreadSafeQueue A} {ins outs : List A}
        → Reach q ins outs
        → 0 < q.sleepers
        → Reach (wake q) ins outs
    tests :
        {q : ThreadSafeQueue A} {ins outs : List A}
        → Reach q ins outs
        → 0 < q.woken
        → Reach (test_again q).1 ins (delivered (taken (test_again q).0) outs)
