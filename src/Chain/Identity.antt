-- ===== src/Chain/Identity.antt =====
-- wineventchain/pkg/identity and common/pkg/types/identity: the identities of the principals that
-- may submit transactions.
pub mod Repository
pub mod App
pub mod Laws
pub mod Checks
pub mod Blocks
pub mod Commits
pub mod History
pub mod Query
pub mod Answers
