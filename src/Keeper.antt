-- ===== src/Keeper.antt =====
-- The keeper-core package: typescript/packages/keeper-core/src.
pub mod Candidate
pub mod Scheduler
pub mod Attempt
pub mod Lifecycle
mod Tests
