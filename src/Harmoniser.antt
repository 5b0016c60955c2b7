-- ===== src/Harmoniser.antt =====
-- offchain-interface/pkg/harmoniser: how an off-chain node comes to the events that it misses.
pub mod Listener
pub mod Coverage
pub mod LevelStore
pub mod Backlog
