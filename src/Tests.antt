-- ===== src/Tests.antt =====
-- The theorems at concrete rows: a user, a client with one role, an open code and an open session.
pub mod Unary
pub mod Library
pub mod Sample
pub mod Sso
pub mod Access
pub mod Apps
pub mod Accounts
pub mod Auth
pub mod Login
pub mod Callback
pub mod Routers
pub mod Adapter
pub mod Rows
