-- ===== src/Access.antt =====
-- app/modules/access/service.py: global roles and their sources (Sources), grants of catalog
-- applications (Grants), the start of the program (Startup) and the audit log (Audit).
pub mod Sources
pub mod Grants
pub mod Startup
pub mod Audit
unfoldable pub use Sources.*
unfoldable pub use Grants.*
unfoldable pub use Startup.*
unfoldable pub use Audit.*
