-- ===== src/Book.antt =====
-- src/Engine/OrderBook and src/Matching: the order book.
pub mod Levels
pub mod State
pub mod Operations
pub mod Matching
pub mod Commands
pub mod Apply
pub mod View
pub mod Ledger
pub mod Samples
mod Crowd
mod Tests
