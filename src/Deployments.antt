-- ===== src/Deployments.antt =====
-- Campaign deployments: one row for each campaign and provider, and its lifecycle.
pub mod Repository
pub mod Service
pub mod UnitOfWork
pub mod Transitions
pub mod Outcomes
pub mod Atomic
pub mod Columns
pub mod Coherent
