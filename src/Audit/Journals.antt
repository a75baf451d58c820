-- ===== src/Audit/Journals.antt =====
-- What each journal holds, against the values that the audit's thread has taken.
use hermes_orderbook.Prelude.{
  if-both, ℕ, ◌+◌, ◌≡◌, refl, sym, ap, ◌∙◌, Bool, true, leb, List, [], ◌∷◌, ◌++◌, ◌==◌, Bool-cases,
  inl, inr, append_assoc, append-nil, arith,
}
use hermes_orderbook.Core.FileStream.{Stream, OutputFileStream, all_bytes, write_buffer_to_file}
use hermes_orderbook.Core.FileStream.Kept.{
  holds, Flushed, emptied, failed, write_buffer_to_file-Flushed,
}
use hermes_orderbook.Queue.ThreadSafe.{
  ThreadSafeQueue, Answer, sleeps, refuses, takes, delivered, taken, wait_and_pop, test_again,
}
use hermes_orderbook.Audit.{
  Audit, AuditData, monostate, command_data, snapshot_data, event_data, trade_data, Representation,
  Phase, testing, popping, asleep, finished, flush_all, route, flush_if_due, finish, after_wait,
  resume, step_in, taken_in,
}

-- What one value gives to each journal; none gives anything to the snapshots.
module _ (repr : Representation) where
  abbrev pub command_part : AuditData → List ℕ
  command_part (command_data c) = repr.command_bytes c
  command_part _ = []

  abbrev pub event_part : AuditData → List ℕ
  event_part (event_data e) = repr.event_bytes e
  event_part _ = []

  abbrev pub trade_part : AuditData → List ℕ
  trade_part (trade_data t) = repr.trade_bytes t
  trade_part _ = []

  abbrev pub snapshot_part : AuditData → List ℕ
  snapshot_part d = []

module _ (S : Stream) where
  -- The file and the buffer in front of it hold the bytes, unless the stream has gone bad.
  abbrev pub Keeps : OutputFileStream S → List ℕ → Type 0
  Keeps f xs = S.is_good f.stream ≡ true → holds S f ≡ xs

  Flushed-Keeps :
      (f : OutputFileStream S) (xs : List ℕ) (r : Bool × OutputFileStream S)
      → Flushed S f r
      → Keeps f xs
      → Keeps r.1 xs
  Flushed-Keeps f xs _ (emptied after none_left was_good all_there in_file) k good =
      ap (λ b. S.written after.stream ++ b) none_left
      ∙ append-nil (S.written after.stream)
      ∙ all_there
      ∙ k (was_good good)
  Flushed-Keeps f xs _ (failed after same bad) k good = grind arith

  flush-Keeps :
      (f : OutputFileStream S) (xs : List ℕ) → Keeps f xs → Keeps (write_buffer_to_file S f).1 xs
  flush-Keeps f xs k =
      Flushed-Keeps f xs (write_buffer_to_file S f) (write_buffer_to_file-Flushed S f) k

all_bytes-append {ℓ} :
    {A : Type ℓ} (repr : A → List ℕ) (xs : List A) (x : A)
    → all_bytes repr (xs ++ (x ∷ [])) ≡ all_bytes repr xs ++ repr x
all_bytes-append repr [] x = append-nil (repr x)
all_bytes-append repr (y ∷ ys) x =
    ap (λ zs. repr y ++ zs) (all_bytes-append repr ys x)
    ∙ sym (append_assoc (repr y) (all_bytes repr ys) (repr x))

-- Each journal holds the bytes of the values of its kind among those taken, in the order in which they
-- were taken; the snapshots' holds nothing.
pub record Journals (S : Stream) (repr : Representation) (a : Audit S) (outs : List AuditData)
    : Type 0 where
  pub snapshots : Keeps S a.snapshots_log (all_bytes (snapshot_part repr) outs)
  pub commands : Keeps S a.commands_log (all_bytes (command_part repr) outs)
  pub events : Keeps S a.events_log (all_bytes (event_part repr) outs)
  pub trades : Keeps S a.trades_log (all_bytes (trade_part repr) outs)

module _ (S : Stream) {A : Type 0} (part : A → List ℕ) where
  Keeps-append :
      (f : OutputFileStream S) (xs : List A) (x : A)
      → Keeps S f (all_bytes part xs)
      → Keeps S (record f { buffer = f.buffer ++ part x }) (all_bytes part (xs ++ (x ∷ [])))
  Keeps-append f xs x k good =
      sym (append_assoc (S.written f.stream) f.buffer (part x))
      ∙ ap (λ zs. zs ++ part x) (k good)
      ∙ sym (all_bytes-append part xs x)

  Keeps-skip :
      (f : OutputFileStream S) (xs : List A) (x : A)
      → part x ≡ []
      → Keeps S f (all_bytes part xs)
      → Keeps S f (all_bytes part (xs ++ (x ∷ [])))
  Keeps-skip f xs x e k good =
      k good
      ∙ sym (append-nil (all_bytes part xs))
      ∙ ap (λ zs. all_bytes part xs ++ zs) (sym e)
      ∙ sym (all_bytes-append part xs x)

module _ (S : Stream) (repr : Representation) where
  flush_all-Journals :
      (a : Audit S) (outs : List AuditData)
      → Journals S repr a outs
      → Journals S repr (flush_all S a) outs
  unfolding flush_all
  flush_all-Journals a outs j = record {
    snapshots = flush-Keeps S a.snapshots_log _ j.snapshots;
    commands = flush-Keeps S a.commands_log _ j.commands;
    events = flush-Keeps S a.events_log _ j.events;
    trades = flush-Keeps S a.trades_log _ j.trades;
  }

  route-Journals :
      (d : AuditData) (a : Audit S) (outs : List AuditData)
      → Journals S repr a outs
      → Journals S repr (route S repr d a) (outs ++ (d ∷ []))
  unfolding route
  route-Journals monostate a outs j = record {
    snapshots = Keeps-skip S (snapshot_part repr) a.snapshots_log outs monostate refl j.snapshots;
    commands = Keeps-skip S (command_part repr) a.commands_log outs monostate refl j.commands;
    events = Keeps-skip S (event_part repr) a.events_log outs monostate refl j.events;
    trades = Keeps-skip S (trade_part repr) a.trades_log outs monostate refl j.trades;
  }
  route-Journals (command_data c) a outs j = record {
    snapshots =
        Keeps-skip S (snapshot_part repr) a.snapshots_log outs (command_data c) refl j.snapshots;
    commands = Keeps-append S (command_part repr) a.commands_log outs (command_data c) j.commands;
    events = Keeps-skip S (event_part repr) a.events_log outs (command_data c) refl j.events;
    trades = Keeps-skip S (trade_part repr) a.trades_log outs (command_data c) refl j.trades;
  }
  route-Journals (snapshot_data s) a outs j = record {
    snapshots =
        Keeps-skip S (snapshot_part repr) a.snapshots_log outs (snapshot_data s) refl j.snapshots;
    commands =
        Keeps-skip S (command_part repr) a.commands_log outs (snapshot_data s) refl j.commands;
    events = Keeps-skip S (event_part repr) a.events_log outs (snapshot_data s) refl j.events;
    trades = Keeps-skip S (trade_part repr) a.trades_log outs (snapshot_data s) refl j.trades;
  }
  route-Journals (event_data e) a outs j = record {
    snapshots =
        Keeps-skip S (snapshot_part repr) a.snapshots_log outs (event_data e) refl j.snapshots;
    commands = Keeps-skip S (command_part repr) a.commands_log outs (event_data e) refl j.commands;
    events = Keeps-append S (event_part repr) a.events_log outs (event_data e) j.events;
    trades = Keeps-skip S (trade_part repr) a.trades_log outs (event_data e) refl j.trades;
  }
  route-Journals (trade_data t) a outs j = record {
    snapshots =
        Keeps-skip S (snapshot_part repr) a.snapshots_log outs (trade_data t) refl j.snapshots;
    commands = Keeps-skip S (command_part repr) a.commands_log outs (trade_data t) refl j.commands;
    events = Keeps-skip S (event_part repr) a.events_log outs (trade_data t) refl j.events;
    trades = Keeps-append S (trade_part repr) a.trades_log outs (trade_data t) j.trades;
  }

  -- Taking a value into account, if one was taken.
  flush_if_due-Journals :
      (interval now : ℕ) (a : Audit S) (outs : List AuditData)
      → Journals S repr a outs
      → Journals S repr (flush_if_due S interval now a) outs
  unfolding flush_if_due flush_all
  flush_if_due-Journals interval now a outs j =
      elim (Bool-cases (leb (a.last_flush + interval) now)) [
        | inl due ↦
            let k = flush_all-Journals a outs j in
            rw due (record {
              snapshots = k.snapshots;
              commands = k.commands;
              events = k.events;
              trades = k.trades;
            })
        | inr early ↦ rw early j
      ]

  finish-Journals :
      (a : Audit S) (outs : List AuditData)
      → Journals S repr a outs
      → Journals S repr (finish S a) outs
  unfolding finish flush_all
  finish-Journals a outs j =
      let k = flush_all-Journals a outs j in
      record {
        snapshots = k.snapshots;
        commands = k.commands;
        events = k.events;
        trades = k.trades;
      }

  pub moved :
      (p : Phase) (q : ThreadSafeQueue AuditData) (stop : Bool) (a : Audit S)
      (outs : List AuditData)
      → Journals S repr a outs
      → Journals S repr (record a { phase = p; queue = q; stop_requested = stop }) outs
  moved p q stop a outs j = record {
    snapshots = j.snapshots;
    commands = j.commands;
    events = j.events;
    trades = j.trades;
  }

  module _ (interval : ℕ) where
    resume-Journals :
        (now : ℕ) (w : Answer AuditData) (q : ThreadSafeQueue AuditData) (a : Audit S)
        (outs : List AuditData)
        → Journals S repr a outs
        → Journals S repr (resume S repr interval now (w, q) a) (delivered (taken w) outs)
    unfolding resume after_wait
    resume-Journals now sleeps q a outs j = moved asleep q a.stop_requested a outs j
    resume-Journals now refuses q a outs j =
        finish-Journals (record a { queue = q }) outs (moved a.phase q a.stop_requested a outs j)
    resume-Journals now (takes d) q a outs j =
        flush_if_due-Journals interval now
          (route S repr d (record a { phase = testing; queue = q })) (outs ++ (d ∷ []))
          (route-Journals d (record a { phase = testing; queue = q }) outs
            (moved testing q a.stop_requested a outs j))

    pub step_in-Journals :
        (p : Phase) (now : ℕ) (a : Audit S) (outs : List AuditData)
        → Journals S repr a outs
        → Journals S repr
            (step_in S repr interval p now a)
            (delivered (taken (taken_in S repr interval p a.queue)) outs)
    unfolding step_in
    step_in-Journals testing now a outs j =
        if-both (λ b. Journals S repr b outs) a.stop_requested (λ stop. finish-Journals a outs j)
          (λ go. moved popping a.queue a.stop_requested a outs j)
    step_in-Journals popping now a outs j =
        resume-Journals now (wait_and_pop a.queue).0 (wait_and_pop a.queue).1 a outs j
    step_in-Journals asleep now a outs j = elim (Bool-cases (a.queue.woken == 0)) [
      | inl still ↦ rw still j
      | inr up ↦ rw up (resume-Journals now (test_again a.queue).0 (test_again a.queue).1 a outs j)
    ]
    step_in-Journals finished now a outs j = j
