-- ===== src/Lib.antt =====
-- hermes_orderbook: a model of the Hermes order book and its theorems.
--
-- The program is a limit order book with price-time priority. Clients call the trading engine
-- (src/Engine/TradingEngine.hpp), which puts a command (src/Core/Commands.hpp) in a queue with a mutex
-- (src/Data-Structures/ThreadSafeQueue.hpp); the engine's thread takes it off and hands it to
-- `OrderBook::Apply` (src/Engine/OrderBook.hpp), which dispatches it to a handler; the handler calls an
-- internal operation (src/Engine/OrderBook.inl), which may call the matching strategy
-- (src/Matching/Matching.cpp), and writes events (src/Core/Events.hpp) to a scratch array. A snapshot
-- of the book is published in one of two places and drawn by the renderer. The ring of one producer
-- and one consumer (src/Data-Structures/SPSC-Queue.hpp) is declared by the engine for its events, which
-- it does not send yet; the audit and the network code are used by no other part.
--
-- Files, and the code that they model:
--   Prelude                 shared names, Boolean tests, list lemmas, integers and 64-bit words
--   Core/Types              src/Core/globals.hpp: enumerations, flags
--   Core/Order              src/Core/Order.hpp: the order and its operations
--   Core/Messages           src/Core/Commands.hpp, Events.hpp, Trade.hpp, OrderBookSnapshot.hpp
--   Core/FileStream         src/Core/FileStream.hpp: the writers of bytes, OutputFileStream
--   Book/Levels, Book/State src/Engine/OrderBook.hpp: the maps, lists and counters of the book
--   Book/Operations         src/Engine/OrderBook.inl: RecordFill, InternalCancelOrder
--   Book/Matching           src/Matching/Matching.cpp: PriceTimePriority::Match
--   Book/Commands           src/Engine/OrderBook.inl: InternalAddOrder, InternalModifyOrder
--   Book/Apply              Apply, the handlers and the queries
--   Book/View               the view of a book as two queues of orders, and what well-formed means
--   Book/Ledger             the volumes of the levels against the orders that rest in them
--   Queue/Spsc              src/Data-Structures/SPSC-Queue.hpp: the ring of one producer and one consumer
--   Queue/ThreadSafe        src/Data-Structures/ThreadSafeQueue.hpp: the queue with a mutex
--   Engine                  src/Engine/TradingEngine.hpp: the clients' calls, Run, the two snapshots
--   Audit                   src/Engine/Audit.hpp: the journals, Enqueue, Stop, Run
--   Network                 src/Networking/SocketCommon.h: the system's calls, as an interface
--   Network/Client          src/Networking/TCP-Client.hpp
--   Network/Server          src/Networking/TCP-Server.hpp; Network/Lifetimes its use over time
--   Render                  src/Renderer/Renderer.cpp: what Render computes from a snapshot
--   Simulation              src/main.cpp: the numbers and the orders of the simulation
--   Book/Samples, Book/Crowd and the modules named Tests   samples, and the theorems applied to them
-- The modules below these hold the proofs, each named for what it proves.
--
-- How the model corresponds to the code:
--   * A map from prices to levels is a list in the map's order, so its head is `begin()`. An iterator
--     into a map is the map's side and the key; an iterator into a level's list is the order's number.
--     The memory pool has no state that the code reads.
--   * `Book.scratch` is the part of `t_EventScratch` below `m_ScratchCounter`; Apply resets it.
--   * Undefined behaviour (an iterator that points nowhere, `front()` of an empty list, a write past
--     the scratch, an overflow of i64) is `none`; error codes and exceptions are values. A clock's
--     reading is the parameter `now`.
--   * Quantities and numbers are natural numbers with the wrap-around of 64 bits written out (`add64`,
--     `sub64`). Prices are integers, which the engine only compares and the renderer subtracts.
--   * The two branches of Match, of InternalAddOrder and of RecordFill for a buyer and a seller differ
--     in the side alone, which is an argument of the model's functions.
--   * The loop of Match runs on fuel: one round more than there are orders on the other side. Every
--     round but the last takes an order off that side or fills the taker, so that is enough. The loops
--     of the threads have no fuel: they are steps, and `run_steps` makes as many as it is given times.
--   * Threads act in steps that interleave in any order, as relations named `Reach`. `push` and `pop`
--     of the ring are cut where the other thread may act; that the acquire and release orders allow no
--     other outcomes is taken from the C++ memory model; `IsPower` is what the code asks of the ring's
--     size. A method of the queue with a mutex is its part under the lock and its notification; the condition variable may wake a thread for no
--     reason. UpdateSnapshot reads the book on its caller's thread, also while Apply changes it: what
--     it read is a parameter of its step, of which nothing is assumed, and the rest of it is one step,
--     since no other step touches the two snapshots.
--   * The standard library's output stream, the system's sockets, the bytes that represent an object,
--     and the conversion and division of `float` are parameters, with what their documentation says of
--     them as the laws of the records `Stream`, `Os`, `Floats` and `IsRepresentation`. The tests give
--     an instance of each.
--
-- Not modelled: text formatting and logging, which are output; the layout and drawing of the renderer,
-- which are FTXUI's; `Serialize` and `Deserialize` of commands and events, copies of memory; the memory
-- pool; ReadFromFile and WriteToFile, which nothing calls; the timing of the simulation and the two
-- trials of the network code, which call the parts above.
pub mod Prelude
pub mod Core
pub mod Book
pub mod Queue
pub mod Engine
pub mod Audit
pub mod Network
pub mod Render
pub mod Simulation
