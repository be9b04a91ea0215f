-- ===== src/Publish.antt =====
-- Publishing a campaign to every supported provider.
pub mod Spec
pub mod Adapter
pub mod Service
pub mod UnitOfWork
pub mod Outcome
pub mod Attempted
pub mod Provider
pub mod Each
