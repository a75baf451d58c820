-- ===== src/Audit.antt =====
-- src/Engine/Audit.hpp: the four journals, the queue in front of them, and the loop of the thread that
-- writes them. A step is what one thread does between two points at which another may act.
pub mod Journals
pub mod Intake
pub mod Ends
pub mod Files
pub mod Closing
mod Tests
use hermes_orderbook.Prelude.{
  ℕ, ◌+◌, ◌≡◌, ◌<◌, Bool, true, false, if◌then◌else◌, leb, List, [], ◌∷◌, ◌++◌, ◌==◌,
}
use hermes_orderbook.Core.Types.{Price, Quantity}
use hermes_orderbook.Core.Order.{Order}
use hermes_orderbook.Core.Messages.{Command, Event, Trade}
use hermes_orderbook.Core.FileStream.{
  Stream, OutputFileStream, write_raw, write_to_buffer, write_buffer_to_file,
}
use hermes_orderbook.Queue.ThreadSafe
use hermes_orderbook.Queue.ThreadSafe.{
  ThreadSafeQueue, Answer, sleeps, refuses, takes, new_queue, close, push, notify_one, notify_all,
  wake, wait_and_pop, test_again, accepted, delivered, taken,
}

pub record AuditLevel : Type 0 where
  pub price : Price
  pub quantity : Quantity
  pub orders : List Order

pub record AuditBookSnapshot : Type 0 where
  pub bids : List AuditLevel
  pub asks : List AuditLevel

-- `AuditBookSnapshot::Serialize`, whose body is empty.
abbrev pub serialize_snapshot : AuditBookSnapshot → List ℕ → List ℕ
serialize_snapshot snapshot buffer = buffer

-- `AuditData`: the variant.
pub data AuditData : Type 0 where
  monostate : AuditData
  command_data : Command → AuditData
  snapshot_data : AuditBookSnapshot → AuditData
  event_data : Event → AuditData
  trade_data : Trade → AuditData

-- The bytes that represent an object, which are the compiler's.
pub record Representation : Type 0 where
  pub command_bytes : Command → List ℕ
  pub event_bytes : Event → List ℕ
  pub trade_bytes : Trade → List ℕ

-- Where `Run` stands: before its test of the stop token, before `wait_and_pop`, asleep in it, past it.
pub data Phase : Type 0 where
  testing popping asleep finished : Phase

pub record Audit (S : Stream) : Type 0 where
  pub snapshots_log : OutputFileStream S
  pub commands_log : OutputFileStream S
  pub events_log : OutputFileStream S
  pub trades_log : OutputFileStream S
  pub queue : ThreadSafeQueue AuditData
  pub last_flush : ℕ
  pub stop_requested : Bool
  pub phase : Phase

module _ (S : Stream) where
  -- The constructor, for the four streams that it opens, and `Start`, at the time `now`.
  abbrev pub new_audit : ℕ → S.State → S.State → S.State → S.State → Audit S
  new_audit now snapshots commands events trades = record {
    snapshots_log = record { buffer = []; stream = snapshots };
    commands_log = record { buffer = []; stream = commands };
    events_log = record { buffer = []; stream = events };
    trades_log = record { buffer = []; stream = trades };
    queue = new_queue;
    last_flush = now;
    stop_requested = false;
    phase = testing;
  }

  -- `FlushAll`
  unfoldable pub flush_all : Audit S → Audit S
  flush_all a = record a {
    snapshots_log = (write_buffer_to_file S a.snapshots_log).1;
    commands_log = (write_buffer_to_file S a.commands_log).1;
    events_log = (write_buffer_to_file S a.events_log).1;
    trades_log = (write_buffer_to_file S a.trades_log).1;
  }

  -- The end of `Run`.
  unfoldable pub finish : Audit S → Audit S
  unfolding flush_all
  finish a = record (flush_all a) { phase = finished }

  -- `Enqueue`, whose answer from `push` is dropped.
  abbrev pub enqueue : AuditData → Audit S → Audit S
  enqueue d a = record a { queue = (push d a.queue).1 }

  -- `Stop` closes the queue first, and asks the thread to stop next.
  abbrev pub close_queue : Audit S → Audit S
  close_queue a = record a { queue = close a.queue }

  abbrev pub request_stop : Audit S → Audit S
  request_stop a = record a { stop_requested = true }

module _ (S : Stream) (repr : Representation) where
  -- `Decompose`, with the visitor of `Run`.
  unfoldable pub route : AuditData → Audit S → Audit S
  route monostate a = a
  route (command_data c) a = record a {
    commands_log = write_to_buffer S (write_raw repr.command_bytes c) a.commands_log;
  }
  route (snapshot_data s) a = record a {
    snapshots_log = write_to_buffer S (serialize_snapshot s) a.snapshots_log;
  }
  route (event_data e) a = record a {
    events_log = write_to_buffer S (write_raw repr.event_bytes e) a.events_log;
  }
  route (trade_data t) a = record a {
    trades_log = write_to_buffer S (write_raw repr.trade_bytes t) a.trades_log;
  }

module _ (S : Stream) (interval : ℕ) where
  -- The end of the loop's body: the journals are written if the interval has passed.
  unfoldable pub flush_if_due : ℕ → Audit S → Audit S
  flush_if_due now a =
      if leb (a.last_flush + interval) now then record (flush_all S a) { last_flush = now } else a

module _ (S : Stream) (repr : Representation) (interval : ℕ) where
  -- What `Run` does with the answer of `wait_and_pop`.
  unfoldable pub after_wait : ℕ → Answer AuditData → Audit S → Audit S
  after_wait now sleeps a = record a { phase = asleep }
  after_wait now refuses a = finish S a
  after_wait now (takes d) a =
      flush_if_due S interval now (route S repr d (record a { phase = testing }))

  unfoldable pub resume : ℕ → Answer AuditData × ThreadSafeQueue AuditData → Audit S → Audit S
  resume now r a = after_wait now r.0 (record a { queue = r.1 })

  unfoldable pub step_in : Phase → ℕ → Audit S → Audit S
  step_in testing now a = if a.stop_requested then finish S a else record a { phase = popping }
  step_in popping now a = resume now (wait_and_pop a.queue) a
  step_in asleep now a = if a.queue.woken == 0 then a else resume now (test_again a.queue) a
  step_in finished now a = a

  -- A step of `Run`; `now` is what the clock reads.
  abbrev pub run_step : ℕ → Audit S → Audit S
  run_step now a = step_in a.phase now a

  -- The value that a step of `Run` takes.
  abbrev pub taken_in : Phase → ThreadSafeQueue AuditData → Answer AuditData
  taken_in popping q = (wait_and_pop q).0
  taken_in asleep q = if q.woken == 0 then sleeps else (test_again q).0
  taken_in _ q = sleeps

  -- What the threads may do, with the values accepted and the values that `Run` has taken.
  pub data Reach : Audit S → List AuditData → List AuditData → Type 0 where
    start :
        (now : ℕ) (snapshots commands events trades : S.State)
        → S.written snapshots ≡ []
        → S.written commands ≡ []
        → S.written events ≡ []
        → S.written trades ≡ []
        → Reach (new_audit S now snapshots commands events trades) [] []
    enqueues :
        {a : Audit S} {ins outs : List AuditData} (d : AuditData)
        → Reach a ins outs
        → Reach (enqueue S d a) (accepted (push d a.queue).0 d ins) outs
    notifies :
        {a : Audit S} {ins outs : List AuditData}
        → Reach a ins outs
        → 0 < a.queue.notices
        → Reach (record a { queue = notify_one a.queue }) ins outs
    closes :
        {a : Audit S} {ins outs : List AuditData}
        → Reach a ins outs
        → Reach (close_queue S a) ins outs
    notifies_all :
        {a : Audit S} {ins outs : List AuditData}
        → Reach a ins outs
        → 0 < a.queue.closers
        → Reach (record a { queue = notify_all a.queue }) ins outs
    wakes :
        {a : Audit S} {ins outs : List AuditData}
        → Reach a ins outs
        → 0 < a.queue.sleepers
        → Reach (record a { queue = wake a.queue }) ins outs
    stops :
        {a : Audit S} {ins outs : List AuditData}
        → Reach a ins outs
        → Reach (request_stop S a) ins outs
    runs :
        {a : Audit S} {ins outs : List AuditData} (now : ℕ)
        → Reach a ins outs
        → Reach (run_step now a) ins (delivered (taken (taken_in a.phase a.queue)) outs)
