-- ===== src/Users.antt =====
-- app/modules/users/service.py
pub mod Service
unfoldable pub use Service.*
