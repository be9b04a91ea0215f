-- ===== src/Jobs.antt =====
-- Publish jobs: the queue of asynchronous publish work.
pub mod Repository
pub mod Claim
pub mod Service
pub mod FailureFlag
pub mod RunOnce
pub mod Branches
pub mod Enqueue
pub mod Lifecycle
pub mod Ended
