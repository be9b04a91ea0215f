-- ===== src/Models.antt =====
-- The rows of the tables (app/models) and the plain enumerations that they use.
pub mod Provider
pub mod Campaign
pub mod Deployment
pub mod Connection
pub mod Job
pub mod Identity
