-- ===== src/Campaigns.antt =====
-- Campaigns: draft editing and archiving.
pub mod Repository
pub mod Validation
pub mod Service
pub mod Fields
pub mod Drafts
