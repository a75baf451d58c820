-- ===== src/Audit/Ends.antt =====
-- The audit's thread when it has ended, and what it has left in the buffers and in the queue.
use hermes_orderbook.Prelude.{
  if-both, ℕ, ◌+◌, ◌-◌, ◌≡◌, refl, sym, ap, subst, ◌∙◌, Bool, true, false, not, ◌||◌, leb, List, [],
  ◌∷◌, ◌==◌, Bool-cases, inl, inr, arith, is_empty,
}
use hermes_orderbook.Core.FileStream.{Stream, OutputFileStream, write_buffer_to_file}
use hermes_orderbook.Core.FileStream.Kept.{Flushed, emptied, failed, write_buffer_to_file-Flushed}
use hermes_orderbook.Queue.ThreadSafe.{
  ThreadSafeQueue, Answer, sleeps, refuses, takes, wait_and_pop, try_pop, test_again, notify_one,
  notify_all, wake, close, push, rest,
}
use hermes_orderbook.Audit.{
  Audit, AuditData, monostate, command_data, snapshot_data, event_data, trade_data, Representation,
  Phase, testing, popping, asleep, finished, flush_all, route, flush_if_due, finish, after_wait,
  resume, step_in, Reach, start, enqueues, notifies, closes, notifies_all, wakes, stops, runs,
}

module _ (S : Stream) where
  -- Nothing is left in the buffer, unless the stream has gone bad.
  abbrev pub IsFlushed : OutputFileStream S → Type 0
  IsFlushed f =
      S.is_good f.stream ≡ true → (f.buffer ≡ []) × (S.stored f.stream ≡ S.written f.stream)

  Flushed-IsFlushed :
      (f : OutputFileStream S) (r : Bool × OutputFileStream S) → Flushed S f r → IsFlushed r.1
  Flushed-IsFlushed f _ (emptied after none_left was_good all_there in_file) good =
      (none_left, in_file good ∙ sym all_there)
  Flushed-IsFlushed f _ (failed after same bad) good = grind arith

  flush-IsFlushed : (f : OutputFileStream S) → IsFlushed (write_buffer_to_file S f).1
  flush-IsFlushed f =
      Flushed-IsFlushed f (write_buffer_to_file S f) (write_buffer_to_file-Flushed S f)

  -- The audit once its thread has ended.
  pub record End (a : Audit S) : Type 0 where
    pub snapshots : IsFlushed a.snapshots_log
    pub commands : IsFlushed a.commands_log
    pub events : IsFlushed a.events_log
    pub trades : IsFlushed a.trades_log
    pub closed : a.stop_requested ≡ false → a.queue.is_closed ≡ true
    pub none_left : a.stop_requested ≡ false → a.queue.items ≡ []

  abbrev pub AtEnd : Phase → Audit S → Type 0
  AtEnd finished a = End a
  AtEnd _ a = Unit

  finish-AtEnd :
      (a : Audit S)
      → (a.stop_requested ≡ false → a.queue.is_closed ≡ true)
      → (a.stop_requested ≡ false → a.queue.items ≡ [])
      → AtEnd (finish S a).phase (finish S a)
  unfolding finish flush_all
  finish-AtEnd a closed none_left = record {
    snapshots = flush-IsFlushed a.snapshots_log;
    commands = flush-IsFlushed a.commands_log;
    events = flush-IsFlushed a.events_log;
    trades = flush-IsFlushed a.trades_log;
    closed = closed;
    none_left = none_left;
  }

  moved-AtEnd :
      (p : Phase) (q : ThreadSafeQueue AuditData) (stop : Bool) (a : Audit S)
      → (stop ≡ false → a.stop_requested ≡ false)
      → (a.queue.is_closed ≡ true → q.is_closed ≡ true)
      → (a.queue.is_closed ≡ true → q.items ≡ a.queue.items)
      → AtEnd p a
      → AtEnd p (record a { queue = q; stop_requested = stop })
  moved-AtEnd finished q stop a h closed same e = record {
    snapshots = e.snapshots;
    commands = e.commands;
    events = e.events;
    trades = e.trades;
    closed = λ go. closed (e.closed (h go));
    none_left = λ go. same (e.closed (h go)) ∙ e.none_left (h go);
  }
  moved-AtEnd testing q stop a h closed same e = e
  moved-AtEnd popping q stop a h closed same e = e
  moved-AtEnd asleep q stop a h closed same e = e

module _ {ℓ} {A : Type ℓ} where
  -- `wait_and_pop` returns false only if the queue is closed and empty.
  refuses_in :
      (c : Bool) (xs : List A) (q : ThreadSafeQueue A)
      → (wait_and_pop (record q { is_closed = c; items = xs })).0 ≡ refuses
      → (c ≡ true) × (rest xs ≡ [])
  unfolding wait_and_pop try_pop
  refuses_in true [] q h = (refl, refl)
  refuses_in true (x ∷ xs) q h = absurd (grind arith)
  refuses_in false [] q h = absurd (grind arith)
  refuses_in false (x ∷ xs) q h = absurd (grind arith)

  after_refusal :
      (q : ThreadSafeQueue A)
      → (wait_and_pop q).0 ≡ refuses
      → ((wait_and_pop q).1.is_closed ≡ q.is_closed) × ((wait_and_pop q).1.items ≡ rest q.items)
  unfolding wait_and_pop try_pop
  after_refusal q h = elim (Bool-cases (q.is_closed || not (is_empty q.items))) [
    | inl go ↦ rw go (refl, refl)
    | inr sleep ↦ absurd (grind arith)
  ]

  refuses-closed :
      (q : ThreadSafeQueue A)
      → (wait_and_pop q).0 ≡ refuses
      → ((wait_and_pop q).1.is_closed ≡ true) × ((wait_and_pop q).1.items ≡ [])
  refuses-closed q h =
      let r = refuses_in q.is_closed q.items q h in
      let s = after_refusal q h in (s.0 ∙ r.0, s.1 ∙ r.1)

  push-closed : (v : A) (q : ThreadSafeQueue A) → q.is_closed ≡ true → (push v q).1 ≡ q
  unfolding push
  push-closed v q c = rw c refl

  notify_one-kept :
      (q : ThreadSafeQueue A)
      → ((notify_one q).items ≡ q.items) × ((notify_one q).is_closed ≡ q.is_closed)
  unfolding notify_one
  notify_one-kept q = ground arith

module _ (S : Stream) (repr : Representation) (interval : ℕ) where
  route-phase : (d : AuditData) (a : Audit S) → (route S repr d a).phase ≡ a.phase
  unfolding route
  route-phase monostate a = refl
  route-phase (command_data c) a = refl
  route-phase (snapshot_data s) a = refl
  route-phase (event_data e) a = refl
  route-phase (trade_data t) a = refl

  pub taken-phase :
      (now : ℕ) (d : AuditData) (q : ThreadSafeQueue AuditData) (a : Audit S)
      → (resume S repr interval now (takes d, q) a).phase ≡ testing
  unfolding resume after_wait flush_if_due flush_all
  taken-phase now d q a =
      let b = route S repr d (record a { phase = testing; queue = q }) in
      let kept = route-phase d (record a { phase = testing; queue = q }) in
      if-both (λ (x : Audit S). x.phase ≡ testing) (leb (b.last_flush + interval) now) (λ due. kept)
        (λ early. kept)

  at_testing : (a : Audit S) → a.phase ≡ testing → AtEnd S a.phase a
  at_testing a e = subst (λ p. AtEnd S p a) (sym e) tt

  resume-AtEnd :
      (now : ℕ) (w : Answer AuditData) (q : ThreadSafeQueue AuditData) (a : Audit S)
      → (w ≡ refuses → (q.is_closed ≡ true) × (q.items ≡ []))
      → AtEnd S (resume S repr interval now (w, q) a).phase (resume S repr interval now (w, q) a)
  unfolding resume after_wait
  resume-AtEnd now sleeps q a h = tt
  resume-AtEnd now refuses q a h =
      finish-AtEnd S (record a { queue = q }) (λ go. (h refl).0) (λ go. (h refl).1)
  resume-AtEnd now (takes d) q a h =
      at_testing (resume S repr interval now (takes d, q) a) (taken-phase now d q a)

  step_in-AtEnd :
      (p : Phase) (now : ℕ) (a : Audit S)
      → a.phase ≡ p
      → AtEnd S p a
      → AtEnd S (step_in S repr interval p now a).phase (step_in S repr interval p now a)
  unfolding step_in
  step_in-AtEnd testing now a h e =
      if-both (λ (b : Audit S). AtEnd S b.phase b) a.stop_requested
        (λ stop. finish-AtEnd S a (λ go. absurd (grind arith)) (λ go. absurd (grind arith)))
        (λ go. tt)
  step_in-AtEnd popping now a h e =
      resume-AtEnd now (wait_and_pop a.queue).0 (wait_and_pop a.queue).1 a (refuses-closed a.queue)
  step_in-AtEnd asleep now a h e =
      if-both (λ (b : Audit S). AtEnd S b.phase b) (a.queue.woken == 0)
        (λ still. subst (λ p. AtEnd S p a) (sym h) tt)
        (λ up.
          resume-AtEnd now (test_again a.queue).0 (test_again a.queue).1 a
            (refuses-closed (record (a.queue) { woken = a.queue.woken - 1 })))
  step_in-AtEnd finished now a h e = subst (λ p. AtEnd S p a) (sym h) e

  pub Reach-AtEnd :
      {a : Audit S} {ins outs : List AuditData}
      → Reach S repr interval a ins outs
      → AtEnd S a.phase a
  Reach-AtEnd (start now snapshots commands events trades h1 h2 h3 h4) = tt
  Reach-AtEnd (enqueues {a = a} d r) =
      moved-AtEnd S a.phase (push d a.queue).1 a.stop_requested a (λ go. go)
        (λ c. ap (λ (q : ThreadSafeQueue AuditData). q.is_closed) (push-closed d a.queue c) ∙ c)
        (λ c. ap (λ (q : ThreadSafeQueue AuditData). q.items) (push-closed d a.queue c))
        (Reach-AtEnd r)
  Reach-AtEnd (notifies {a = a} r h) =
      moved-AtEnd S a.phase (notify_one a.queue) a.stop_requested a (λ go. go)
        (λ c. (notify_one-kept a.queue).1 ∙ c) (λ c. (notify_one-kept a.queue).0) (Reach-AtEnd r)
  Reach-AtEnd (closes {a = a} r) =
      moved-AtEnd S a.phase (close a.queue) a.stop_requested a (λ go. go) (λ c. refl) (λ c. refl)
        (Reach-AtEnd r)
  Reach-AtEnd (notifies_all {a = a} r h) =
      moved-AtEnd S a.phase (notify_all a.queue) a.stop_requested a (λ go. go) (λ c. c) (λ c. refl)
        (Reach-AtEnd r)
  Reach-AtEnd (wakes {a = a} r h) =
      moved-AtEnd S a.phase (wake a.queue) a.stop_requested a (λ go. go) (λ c. c) (λ c. refl)
        (Reach-AtEnd r)
  Reach-AtEnd (stops {a = a} r) =
      moved-AtEnd S a.phase a.queue true a (λ go. absurd (grind arith)) (λ c. c) (λ c. refl)
        (Reach-AtEnd r)
  Reach-AtEnd (runs {a = a} now r) = step_in-AtEnd a.phase now a refl (Reach-AtEnd r)
