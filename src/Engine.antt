-- ===== src/Engine.antt =====
-- src/Engine/TradingEngine.hpp: the clients' calls, the loop of the engine's thread, and the two
-- snapshots. A step is what one thread does between two points at which another may act.
-- `UpdateSnapshot` reads the book on its caller's thread, also while `Apply` changes it: what the read
-- gives then is not defined by the code, so the step takes any snapshot as what was read, and no theorem
-- here says that it is one of the book.
pub mod Steps
pub mod Sequential
pub mod Drain
mod Tests
use hermes_orderbook.Prelude.{
  ℕ, ◌+◌, ◌%◌, ◌^◌, ◌≡◌, Bool, true, false, if◌then◌else◌, List, [], ◌∷◌, ◌++◌, Option, none, some,
  ◌>>=◌, add64,
}
use hermes_orderbook.Core.Types.{
  Price, Quantity, TimeNs, Side, OrderType, TimeInForce, MatchType, Flags,
}
use hermes_orderbook.Core.Messages.{Command, add, modify, cancel, OrderBookSnapshot}
use hermes_orderbook.Book.State.{Book, empty_book}
use hermes_orderbook.Book.Apply.{apply}
use hermes_orderbook.Queue.ThreadSafe
use hermes_orderbook.Queue.ThreadSafe.{ThreadSafeQueue, new_queue, try_pop}

-- Where `Run` stands: before its test of the stop token, in its inner loop, in its last loop, past it.
pub data Phase : Type 0 where
  testing polling draining finished : Phase

pub record Engine : Type 0 where
  pub book : Book
  pub commands : ThreadSafeQueue Command
  pub first : OrderBookSnapshot
  pub second : OrderBookSnapshot
  pub first_is_active : Bool
  pub stop_requested : Bool
  pub phase : Phase
  pub orders_processed : ℕ

abbrev pub empty_snapshot : OrderBookSnapshot
empty_snapshot = record { bids = []; asks = []; trades = [] }

-- The constructor, and `Start`.
abbrev pub new_engine : Engine
new_engine = record {
  book = empty_book;
  commands = new_queue;
  first = empty_snapshot;
  second = empty_snapshot;
  first_is_active = true;
  stop_requested = false;
  phase = testing;
  orders_processed = 0;
}

-- `m_CommandQueue.push`, whose answer is dropped.
unfoldable pub send : Command → Engine → Engine
send c e = record e { commands = (ThreadSafe.push c e.commands).1 }

unfoldable pub add_order :
    ℕ → Price → Quantity → Side → OrderType → TimeInForce → MatchType → Flags → Engine → Engine
unfolding send
add_order client price quantity side type tif match_type flags e =
    send
      (add (record {
        client_id = client;
        price = price;
        quantity = quantity;
        flags = flags;
        side = side;
        order_type = type;
        tif = tif;
        match_type = match_type;
      }))
      e

unfoldable pub modify_order : ℕ → ℕ → Price → Quantity → Engine → Engine
unfolding send
modify_order client id new_price new_quantity e =
    send
      (modify (record {
        client_id = client;
        order_id = id;
        new_price = new_price;
        new_quantity = new_quantity;
      }))
      e

unfoldable pub cancel_order : ℕ → ℕ → Engine → Engine
unfolding send
cancel_order client id e = send (cancel (record { client_id = client; order_id = id })) e

-- `Stop`
abbrev pub request_stop : Engine → Engine
request_stop e = record e { stop_requested = true }

-- `GetSnapshot`
unfoldable pub active_snapshot : Engine → OrderBookSnapshot
active_snapshot e = if e.first_is_active then e.first else e.second

-- `UpdateSnapshot`, where `read` is what its `GetSnapshot` of the book gave for the depth, which is used
-- for nothing else: it fills the inactive
-- snapshot and makes it the active one. Only the thread that calls it changes the two and the choice
-- between them, so nothing that another step does comes between its writes.
unfoldable pub update_snapshot : OrderBookSnapshot → Engine → Engine
update_snapshot read e =
    if e.first_is_active
    then record e { second = read; first_is_active = false }
    else record e { first = read; first_is_active = true }

-- The body of the two inner loops, for the command that `try_pop` gave. The events that `Apply` returns
-- go to `HandleEvent`, which does nothing.
unfoldable pub process : TimeNs → Command → ThreadSafeQueue Command → Engine → Option Engine
process now c q e = apply now c e.book >>= λ b. some (record e { book = b; commands = q })

abbrev pub count_order : Phase → ℕ → ℕ
count_order polling n = add64 n 1
count_order _ n = n

-- An inner loop: a command is processed, or the loop ends in the phase `after`.
unfoldable pub poll : TimeNs → Phase → Engine → Option Engine
unfolding process
poll now after e =
    let (popped, q) = try_pop e.commands in
    elim popped [
      | none ↦ some (record e { phase = after; commands = q })
      | some c ↦
          process now c q (record e { orders_processed = count_order e.phase e.orders_processed })
    ]

unfoldable pub run_in : Phase → TimeNs → Engine → Option Engine
unfolding poll
run_in testing now e = some (record e { phase = if e.stop_requested then draining else polling })
run_in polling now e = poll now testing e
run_in draining now e = poll now finished e
run_in finished now e = some e

-- A step of `Run`; `now` is what the clock reads when a command is applied.
unfoldable pub run_step : TimeNs → Engine → Option Engine
unfolding run_in
run_step now e = run_in e.phase now e

abbrev pub runs_loop : Phase → Bool
runs_loop polling = true
runs_loop draining = true
runs_loop _ = false

-- The command that a step of `Run` applies, with its time.
abbrev pub head_at : TimeNs → List Command → List (TimeNs × Command)
head_at now [] = []
head_at now (c ∷ cs) = (now, c) ∷ []

abbrev pub handled : TimeNs → Engine → List (TimeNs × Command)
handled now e = if runs_loop e.phase then head_at now e.commands.items else []

-- What the clients and the engine's thread may do, with the commands sent and the commands applied.
pub data Reach : Engine → List Command → List (TimeNs × Command) → Type 0 where
  start : Reach new_engine [] []
  sends :
      {e : Engine} {sent : List Command} {done : List (TimeNs × Command)} (c : Command)
      → Reach e sent done
      → Reach (send c e) (sent ++ (c ∷ [])) done
  stops :
      {e : Engine} {sent : List Command} {done : List (TimeNs × Command)}
      → Reach e sent done
      → Reach (request_stop e) sent done
  updates :
      {e : Engine} {sent : List Command} {done : List (TimeNs × Command)} (read : OrderBookSnapshot)
      → Reach e sent done
      → Reach (update_snapshot read e) sent done
  runs :
      {e e' : Engine} {sent : List Command} {done : List (TimeNs × Command)} (now : TimeNs)
      → Reach e sent done
      → run_step now e ≡ some e'
      → Reach e' sent (done ++ handled now e)
