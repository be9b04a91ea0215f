-- ===== src/Api.antt =====
-- app/api: the routes, from the token of a request to its response. A request has a database session
-- of its own, which is closed after it.
pub mod Responses
pub mod Requests
pub mod Schemas
pub mod Routes
pub mod SameRows
pub mod SameUser
pub mod Isolation
pub mod OthersKept
pub mod Writes
pub mod Secrecy
pub mod NullName
pub mod SignIn
pub mod Pages
