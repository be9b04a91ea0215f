-- ===== src/Connections.antt =====
-- Provider connections: the stored credentials of a tenant for one advertising platform.
pub mod Encryption
pub mod Repository
pub mod Service
pub mod Connect
pub mod Secrets
pub mod Disconnect
pub mod Envelope
pub mod Sealing
pub mod KeyList
