-- ===== src/Store.antt =====
-- offchain-interface/pkg/state: what an off-chain node remembers of the blocks and the events that
-- it misses.
pub mod Codec
pub mod LevelDb
pub mod Ids
pub mod Blocks
pub mod Events
pub mod Retries
pub mod Order
