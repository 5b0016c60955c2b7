-- ===== src/Chain/Multiplexer.antt =====
-- wineventchain/pkg/multiplexer: the application that CometBFT talks to. It hands each transaction
-- to the application that the transaction names.
pub mod App
pub mod Routing
pub mod Storage
pub mod Identities
pub mod Query
pub mod Answers
