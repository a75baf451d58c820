-- ===== src/Audit/Closing.antt =====
-- The end of the audit's thread after the queue is closed.
use hermes_orderbook.Prelude.{
  if-both, ℕ, suc, ◌+◌, ◌*◌, ◌≡◌, ◌≢◌, ◌≤◌, ◌<◌, refl, sym, subst, true, List, [], ◌∷◌, length, inl,
  inr, ◌⊎◌, arith,
}
use hermes_orderbook.Core.FileStream.{Stream}
use hermes_orderbook.Queue.ThreadSafe.{
  ThreadSafeQueue, takes, wait_and_pop, try_pop, answer, front, rest,
}
use hermes_orderbook.Audit.{
  Audit, AuditData, Representation, Phase, testing, popping, asleep, finished, finish, after_wait,
  resume, step_in, run_step,
}
use hermes_orderbook.Audit.Intake.{resume-queue}
use hermes_orderbook.Audit.Ends.{taken-phase}

module _ {ℓ} {A : Type ℓ} where
  closed_wait :
      (q : ThreadSafeQueue A)
      → q.is_closed ≡ true
      → wait_and_pop q ≡ (answer (front q.items), record q { items = rest q.items })
  unfolding wait_and_pop try_pop
  closed_wait q c = rw c refl

-- The steps that the thread still makes at most, from its phase and the number of values in the queue.
abbrev pub left : Phase → ℕ → ℕ
left testing n = 2 + 2 * n
left popping n = 1 + 2 * n
left asleep n = 0
left finished n = 0

module _ (S : Stream) (repr : Representation) (interval : ℕ) where
  -- Steps of the audit's thread at the times given.
  unfoldable pub run_steps : List ℕ → Audit S → Audit S
  run_steps [] a = a
  run_steps (now ∷ times) a = run_steps times (run_step S repr interval now a)

  -- The thread has ended, or it is awake with fewer steps left and the queue still closed.
  abbrev Nearer : ℕ → Audit S → Type 0
  Nearer n b =
      (b.phase ≡ finished)
      ⊎ ((b.queue.is_closed ≡ true)
          × (b.phase ≢ asleep)
          × (left b.phase (length b.queue.items) < n))

  finish-phase : (a : Audit S) → (finish S a).phase ≡ finished
  unfolding finish
  finish-phase a = refl

  takes-Nearer :
      (now : ℕ) (d : AuditData) (q : ThreadSafeQueue AuditData) (a : Audit S)
      → q.is_closed ≡ true
      → Nearer (1 + 2 * suc (length q.items)) (resume S repr interval now (takes d, q) a)
  takes-Nearer now d q a c =
      let p = taken-phase S repr interval now d q a in
      let s = resume-queue S repr interval now (takes d) q a in
      inr (rw (p, s) (c, λ e. grind arith, omega arith))

  popped-Nearer :
      (now : ℕ) (xs : List AuditData) (q : ThreadSafeQueue AuditData) (a : Audit S)
      → q.is_closed ≡ true
      → Nearer
          (1 + 2 * length xs)
          (resume S repr interval now (answer (front xs), record q { items = rest xs }) a)
  unfolding resume after_wait
  popped-Nearer now [] q a c = inl (finish-phase (record a { queue = record q { items = [] } }))
  popped-Nearer now (d ∷ xs) q a c = takes-Nearer now d (record q { items = xs }) a c

  step-Nearer :
      (p : Phase) (now : ℕ) (a : Audit S)
      → a.phase ≡ p
      → p ≢ asleep
      → a.queue.is_closed ≡ true
      → Nearer (left p (length a.queue.items)) (step_in S repr interval p now a)
  unfolding step_in
  step-Nearer testing now a h ne c =
      if-both (λ (b : Audit S). Nearer (2 + 2 * length a.queue.items) b) a.stop_requested
        (λ stop. inl (finish-phase a)) (λ go. inr (c, λ e. grind arith, omega arith))
  step-Nearer popping now a h ne c =
      rw (closed_wait a.queue c) (popped-Nearer now a.queue.items a.queue a c)
  step-Nearer asleep now a h ne c = absurd (ne refl)
  step-Nearer finished now a h ne c = inl h

  stays : (times : List ℕ) (a : Audit S) → a.phase ≡ finished → (run_steps times a).phase ≡ finished
  unfolding run_steps step_in
  stays [] a h = h
  stays (now ∷ times) a h =
      stays times (run_step S repr interval now a)
        (subst (λ p. (step_in S repr interval p now a).phase ≡ finished) (sym h) h)

  none_to_go : (p : Phase) (n : ℕ) → p ≢ asleep → left p n ≤ 0 → p ≡ finished
  none_to_go testing n ne h = absurd (omega arith)
  none_to_go popping n ne h = absurd (omega arith)
  none_to_go asleep n ne h = absurd (ne refl)
  none_to_go finished n ne h = refl

  -- Once the queue is closed and the audit's thread is awake, and no client calls, it ends within two
  -- steps for each value in the queue and two more, whether a stop is requested or not.
  pub run_steps-finished :
      (times : List ℕ) (a : Audit S)
      → a.queue.is_closed ≡ true
      → a.phase ≢ asleep
      → left a.phase (length a.queue.items) ≤ length times
      → (run_steps times a).phase ≡ finished
  unfolding run_steps
  run_steps-finished [] a c ne h = none_to_go a.phase (length a.queue.items) ne h
  run_steps-finished (now ∷ times) a c ne h = elim (step-Nearer a.phase now a refl ne c) [
    | inl f ↦ stays times (run_step S repr interval now a) f
    | inr (c', ne', lt) ↦
        run_steps-finished times (run_step S repr interval now a) c' ne' (omega arith)
  ]
