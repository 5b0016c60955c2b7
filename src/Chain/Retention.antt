-- ===== src/Chain/Retention.antt =====
-- wineventchain/pkg/retentionpolicy: the application that holds the retention policy of the chain.
pub mod App
pub mod Checks
pub mod Query
pub mod History
