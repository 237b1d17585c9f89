-- ===== src/Data.antt =====
-- The data model: one record for each SQLAlchemy model, one child for each models.py, and the
-- database as the record of their tables. A UUID is a number, since ids are only compared, and a
-- timestamp is a number of microseconds. The columns `created_at`, `updated_at`, `granted_at` and
-- `assigned_at`, which the database fills and no modelled code reads, are left out.
mod Ids
mod Users
mod Access
mod Apps
mod Sso
mod Identity
mod Database
pub use Ids.*
pub use Users.*
pub use Access.*
pub use Apps.*
pub use Sso.*
pub use Identity.*
pub use Database.*
