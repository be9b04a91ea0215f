-- ===== src/Auth.antt =====
-- Authentication: access tokens paired with refresh tokens that are rotated at each use.
pub mod Repository
pub mod Service
pub mod Jwt
pub mod Access
pub mod Grants
pub mod CurrentUser
pub mod AccessTokens
pub mod Rotation
pub mod Logout
pub mod Login
