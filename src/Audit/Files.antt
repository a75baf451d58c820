-- ===== src/Audit/Files.antt =====
-- What is in the four files when the audit's thread has ended.
use hermes_orderbook.Prelude.{
  ℕ, ◌≡◌, refl, sym, ap, subst, ◌∙◌, true, false, List, [], ◌∷◌, ◌++◌, append-nil,
}
use hermes_orderbook.Core.FileStream.{Stream, OutputFileStream, all_bytes}
use hermes_orderbook.Audit.{Audit, AuditData, Representation, finished, Reach}
use hermes_orderbook.Audit.Journals.{Keeps, snapshot_part, command_part, event_part, trade_part}
use hermes_orderbook.Audit.Intake.{Reach-intake, Reach-Journals}
use hermes_orderbook.Audit.Ends.{IsFlushed, End, AtEnd, Reach-AtEnd}

module _ (S : Stream) where
  -- The stream has taken the bytes and the file has them, unless the stream has gone bad.
  abbrev pub Has : OutputFileStream S → List ℕ → Type 0
  Has f xs = S.is_good f.stream ≡ true → (S.written f.stream ≡ xs) × (S.stored f.stream ≡ xs)

  kept_and_flushed :
      (f : OutputFileStream S) (xs : List ℕ) → Keeps S f xs → IsFlushed S f → Has f xs
  kept_and_flushed f xs k e good =
      let all =
        sym (append-nil (S.written f.stream))
        ∙ ap (λ b. S.written f.stream ++ b) (sym (e good).0)
        ∙ k good in
      (all, (e good).1 ∙ all)

-- The four journals.
pub data Journal : Type 0 where
  snapshots commands events trades : Journal

abbrev pub log_of : {S : Stream} → Journal → Audit S → OutputFileStream S
log_of snapshots a = a.snapshots_log
log_of commands a = a.commands_log
log_of events a = a.events_log
log_of trades a = a.trades_log

-- The bytes of the values of a journal's kind, in their order; there are none for a snapshot.
abbrev pub journal_bytes : Representation → Journal → List AuditData → List ℕ
journal_bytes repr snapshots ds = []
journal_bytes repr commands ds = all_bytes (command_part repr) ds
journal_bytes repr events ds = all_bytes (event_part repr) ds
journal_bytes repr trades ds = all_bytes (trade_part repr) ds

module _ (S : Stream) (repr : Representation) (interval : ℕ) where
  no_snapshots : (outs : List AuditData) → all_bytes (snapshot_part repr) outs ≡ []
  no_snapshots [] = refl
  no_snapshots (d ∷ ds) = no_snapshots ds

  ended :
      {a : Audit S} {ins outs : List AuditData}
      → Reach S repr interval a ins outs
      → a.phase ≡ finished
      → End S a
  ended {a = a} r h = subst (λ p. AtEnd S p a) h (Reach-AtEnd S repr interval r)

  journal_at_end :
      (j : Journal) {a : Audit S} {ins outs : List AuditData}
      → Reach S repr interval a ins outs
      → End S a
      → Has S (log_of j a) (journal_bytes repr j outs)
  journal_at_end snapshots {a} {outs = outs} r e good =
      subst (Has S a.snapshots_log) (no_snapshots outs)
        (kept_and_flushed S a.snapshots_log _ (Reach-Journals S repr interval r).snapshots
          e.snapshots)
        good
  journal_at_end commands {a} r e good =
      kept_and_flushed S a.commands_log _ (Reach-Journals S repr interval r).commands e.commands
        good
  journal_at_end events {a} r e good =
      kept_and_flushed S a.events_log _ (Reach-Journals S repr interval r).events e.events good
  journal_at_end trades {a} r e good =
      kept_and_flushed S a.trades_log _ (Reach-Journals S repr interval r).trades e.trades good

  -- When the audit's thread has ended, a stream that is still good has taken, and its file has, exactly
  -- the bytes of the values of its kind that the thread has taken, in their order, and `Snapshots.journal` has nothing;
  -- the values accepted are those taken and then those left in the queue.
  pub Reach-written :
      (j : Journal) {a : Audit S} {ins outs : List AuditData}
      → Reach S repr interval a ins outs
      → a.phase ≡ finished
      → S.is_good (log_of j a).stream ≡ true
      → (S.written (log_of j a).stream ≡ journal_bytes repr j outs)
        × (S.stored (log_of j a).stream ≡ journal_bytes repr j outs)
        × (ins ≡ outs ++ a.queue.items)
  Reach-written j r h good =
      let there = journal_at_end j r (ended r h) good in
      (there.0, there.1, Reach-intake S repr interval r)

  -- When the audit's thread has ended with no stop requested, a stream that is still good has
  -- taken, and its file has, exactly the bytes of all values of its kind that were accepted, in their
  -- order, snapshots apart.
  pub Reach-none_lost :
      (j : Journal) {a : Audit S} {ins outs : List AuditData}
      → Reach S repr interval a ins outs
      → a.phase ≡ finished
      → a.stop_requested ≡ false
      → S.is_good (log_of j a).stream ≡ true
      → (S.written (log_of j a).stream ≡ journal_bytes repr j ins)
        × (S.stored (log_of j a).stream ≡ journal_bytes repr j ins)
  Reach-none_lost j {a} {outs = outs} r h go good =
      let e = ended r h in
      let all =
        Reach-intake S repr interval r ∙ ap (λ xs. outs ++ xs) (e.none_left go) ∙ append-nil outs in
      subst (λ ds. Has S (log_of j a) (journal_bytes repr j ds)) (sym all) (journal_at_end j r e)
        good
