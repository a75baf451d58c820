-- ===== src/Audit/Intake.antt =====
-- The audit's queue as the loop sees it, and what becomes of the values that it accepts.
use hermes_orderbook.Prelude.{
  if-both, ℕ, ◌+◌, ◌≡◌, ◌<◌, refl, sym, subst, ◌∙◌, true, leb, List, [], ◌++◌, ◌==◌, Bool-cases,
  inl, inr, append-nil, arith,
}
use hermes_orderbook.Core.FileStream.{Stream}
use hermes_orderbook.Queue.ThreadSafe
use hermes_orderbook.Queue.ThreadSafe.{
  ThreadSafeQueue, Answer, sleeps, refuses, takes, delivered, taken, wait_and_pop, test_again,
  notify_one, notify_all, wake, close, push, accepted,
}
use hermes_orderbook.Queue.ThreadSafe.Fifo.{Reach-fifo_exact}
use hermes_orderbook.Audit.{
  Audit, AuditData, monostate, command_data, snapshot_data, event_data, trade_data, Representation,
  Phase, testing, popping, asleep, finished, flush_all, route, flush_if_due, finish, after_wait,
  resume, step_in, taken_in, Reach, start, enqueues, notifies, closes, notifies_all, wakes, stops,
  runs,
}
use hermes_orderbook.Audit.Journals.{Journals, Keeps, step_in-Journals, moved}

module _ (S : Stream) (repr : Representation) where
  route-queue : (d : AuditData) (a : Audit S) → (route S repr d a).queue ≡ a.queue
  unfolding route
  route-queue monostate a = refl
  route-queue (command_data c) a = refl
  route-queue (snapshot_data s) a = refl
  route-queue (event_data e) a = refl
  route-queue (trade_data t) a = refl

  flush_if_due-queue :
      (interval now : ℕ) (a : Audit S) → (flush_if_due S interval now a).queue ≡ a.queue
  unfolding flush_if_due flush_all
  flush_if_due-queue interval now a =
      if-both (λ (b : Audit S). b.queue ≡ a.queue) (leb (a.last_flush + interval) now) (λ due. refl)
        (λ early. refl)

  pub resume-queue :
      (interval now : ℕ) (w : Answer AuditData) (q : ThreadSafeQueue AuditData) (a : Audit S)
      → (resume S repr interval now (w, q) a).queue ≡ q
  unfolding resume after_wait finish flush_all
  resume-queue interval now sleeps q a = refl
  resume-queue interval now refuses q a = refl
  resume-queue interval now (takes d) q a =
      flush_if_due-queue interval now (route S repr d (record a { phase = testing; queue = q }))
      ∙ route-queue d (record a { phase = testing; queue = q })

  module _ (interval : ℕ) where
    -- A step of `Run` does to the queue what the queue's own relation allows.
    step_in-queue :
        (p : Phase) (now : ℕ) (a : Audit S) {ins outs : List AuditData}
        → ThreadSafe.Reach a.queue ins outs
        → ThreadSafe.Reach
            (step_in S repr interval p now a).queue
            ins
            (delivered (taken (taken_in S repr interval p a.queue)) outs)
    unfolding step_in finish flush_all
    step_in-queue testing now a {ins} {outs} r =
        if-both (λ (b : Audit S). ThreadSafe.Reach b.queue ins outs) a.stop_requested (λ stop. r)
          (λ go. r)
    step_in-queue popping now a {ins} {outs} r =
        subst (λ q. ThreadSafe.Reach q ins (delivered (taken (wait_and_pop a.queue).0) outs))
          (sym (resume-queue interval now (wait_and_pop a.queue).0 (wait_and_pop a.queue).1 a))
          (ThreadSafe.waits r)
    step_in-queue asleep now a {ins} {outs} r = elim (Bool-cases (a.queue.woken == 0)) [
      | inl still ↦ rw still r
      | inr up ↦
          let some_up : 0 < a.queue.woken = grind arith in
          rw up (
            subst (λ q. ThreadSafe.Reach q ins (delivered (taken (test_again a.queue).0) outs))
              (sym (resume-queue interval now (test_again a.queue).0 (test_again a.queue).1 a))
              (ThreadSafe.tests r some_up))
    ]
    step_in-queue finished now a r = r

    Reach-queue :
        {a : Audit S} {ins outs : List AuditData}
        → Reach S repr interval a ins outs
        → ThreadSafe.Reach a.queue ins outs
    Reach-queue (start now snapshots commands events trades h1 h2 h3 h4) = ThreadSafe.start
    Reach-queue (enqueues d r) = ThreadSafe.pushes d (Reach-queue r)
    Reach-queue (notifies r h) = ThreadSafe.notifies (Reach-queue r) h
    Reach-queue (closes r) = ThreadSafe.closes (Reach-queue r)
    Reach-queue (notifies_all r h) = ThreadSafe.notifies_all (Reach-queue r) h
    Reach-queue (wakes r h) = ThreadSafe.wakes (Reach-queue r) h
    Reach-queue (stops r) = Reach-queue r
    Reach-queue (runs {a = a} now r) = step_in-queue a.phase now a (Reach-queue r)

    -- Whatever the threads do in whatever order, the values accepted are those that `Run` has taken and
    -- those still in the queue, in this order.
    pub Reach-intake :
        {a : Audit S} {ins outs : List AuditData}
        → Reach S repr interval a ins outs
        → ins ≡ outs ++ a.queue.items
    Reach-intake r = Reach-fifo_exact (Reach-queue r)

    fresh : (s : S.State) → S.written s ≡ [] → Keeps S (record { buffer = []; stream = s }) []
    fresh s e good = append-nil (S.written s) ∙ e

    -- Whatever the other threads do, each journal whose stream is still good holds, in its file and in
    -- its buffer, the bytes of the values of its kind that `Run` has taken, in the order in which they
    -- were taken, and nothing else; the snapshots' journal holds nothing.
    pub Reach-Journals :
        {a : Audit S} {ins outs : List AuditData}
        → Reach S repr interval a ins outs
        → Journals S repr a outs
    Reach-Journals (start now snapshots commands events trades h1 h2 h3 h4) = record {
      snapshots = fresh snapshots h1;
      commands = fresh commands h2;
      events = fresh events h3;
      trades = fresh trades h4;
    }
    Reach-Journals (enqueues {a = a} {outs = outs} d r) =
        moved S repr a.phase (push d a.queue).1 a.stop_requested a outs (Reach-Journals r)
    Reach-Journals (notifies {a = a} {outs = outs} r h) =
        moved S repr a.phase (notify_one a.queue) a.stop_requested a outs (Reach-Journals r)
    Reach-Journals (closes {a = a} {outs = outs} r) =
        moved S repr a.phase (close a.queue) a.stop_requested a outs (Reach-Journals r)
    Reach-Journals (notifies_all {a = a} {outs = outs} r h) =
        moved S repr a.phase (notify_all a.queue) a.stop_requested a outs (Reach-Journals r)
    Reach-Journals (wakes {a = a} {outs = outs} r h) =
        moved S repr a.phase (wake a.queue) a.stop_requested a outs (Reach-Journals r)
    Reach-Journals (stops {a = a} {outs = outs} r) =
        moved S repr a.phase a.queue true a outs (Reach-Journals r)
    Reach-Journals (runs {a = a} {outs = outs} now r) =
        step_in-Journals S repr interval a.phase now a outs (Reach-Journals r)
