-- ===== src/Core.antt =====
-- src/Core: the value types of the engine.
pub mod Types
pub mod Order
pub mod Messages
pub mod FileStream
