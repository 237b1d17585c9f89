-- ===== src/Auth.antt =====
-- app/modules/auth beside single sign-on: passwords.py (Passwords), csrf.py (Csrf), moodle.py (Moodle),
-- microsoft.py (Microsoft), dependencies.py and app/security.py (Guard), and the endpoints of
-- router.py for a central session: local accounts (Login, Account) and external ones (External,
-- Callback).
pub mod Passwords
pub mod Csrf
pub mod Moodle
pub mod Microsoft
pub mod Guard
pub mod Login
pub mod Account
pub mod External
pub mod Callback
