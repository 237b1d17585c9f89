-- ===== src/Apps.antt =====
-- app/modules/apps/service.py and application_lifecycle.py: the registry of SSO clients (Registry),
-- the access policy (Policy), the roles of an app (Roles, Bulk), the role catalog (Catalog), and the
-- lifecycle of the pair of a launcher tile and its SSO client (Lifecycle).
pub mod Registry
pub mod Policy
pub mod Roles
pub mod Bulk
pub mod Catalog
pub mod Lifecycle
unfoldable pub use Registry.*
unfoldable pub use Policy.*
unfoldable pub use Roles.*
unfoldable pub use Bulk.*
unfoldable pub use Catalog.*
unfoldable pub use Lifecycle.*
