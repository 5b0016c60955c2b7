-- ===== src/Chain.antt =====
-- wineventchain/pkg: the applications that run on the blockchain, and what they share.
pub mod Response
pub mod Tree
pub mod Rpc
pub mod Identity
pub mod Retention
pub mod Multiplexer
pub mod Proof
pub mod Events
pub mod Builder
