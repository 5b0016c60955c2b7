-- ===== src/Chain/Events.antt =====
-- wineventchain/pkg/events and common/pkg/types/events: the application that stores the events.
pub mod Types
pub mod Repository
pub mod App
pub mod Checks
pub mod Blocks
pub mod Commits
pub mod History
pub mod Query
pub mod Answers
