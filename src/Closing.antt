-- ===== src/Closing.antt =====
-- The operations that take access away from a user or an app, in app/modules/users/service.py and
-- app/modules/apps: accounts, roles and the availability of an app.
pub mod Accounts
pub mod Roles
pub mod Availability
