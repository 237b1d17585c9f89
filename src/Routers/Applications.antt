-- ===== src/Routers/Applications.antt =====
-- The endpoints of app/modules/access/router.py that only an administrator reaches.
use orbita_backend.Prelude.{
  String, Bool, true, false, ◌==◌, text_comparable, is_some, Option, none, some, first,
}
use orbita_backend.Data.{Db, Uuid, Time, Application, ApplicationAccessPolicy, catalog, sso_role}
use orbita_backend.Exec.{Action, pure, gets, raise_if, http, ◌>>=◌, ◌>>◌}
use orbita_backend.Access.Sources.{find_role}
use orbita_backend.Apps.Registry.{find_application}
use orbita_backend.Apps.Lifecycle.{Tile, create_catalog_application, set_availability}
use orbita_backend.Routers.Base.{find_or_404, unless_taken, unless_refused}

abbrev pub is_sso : ApplicationAccessPolicy → Bool
is_sso catalog = false
is_sso sso_role = true

abbrev pub sso_conflict : String
sso_conflict = "SSO applications require app-scoped role assignments"

-- select(Application).where(Application.slug == slug)
abbrev pub application_of_slug : String → Db → Option Application
application_of_slug slug db = first (λ a. a.slug == slug) db.applications

unfoldable pub create_application : Uuid → Tile → Action Application
create_application id payload = do
  existing ← gets (application_of_slug payload.slug)
  raise_if (is_some existing) (http 409 "slug already registered")
  unless_taken "slug already registered" (create_catalog_application id payload)

unfoldable pub update_application_status : Time → Uuid → Bool → Action (Option Application)
update_application_status now application_id is_active = do
  application ← find_or_404 (find_application application_id) "Application not found"
  (updated_application, app) ← set_availability now is_active (some application) none
  pure updated_application

unfoldable pub grant_application_role : Uuid → Uuid → Action Unit
grant_application_role application_id global_role_id = do
  application ← find_or_404 (find_application application_id) "Application not found"
  raise_if (is_sso application.access_policy) (http 409 sso_conflict)
  role ← find_or_404 (λ db. find_role global_role_id db.global_roles) "Global role not found"
  unless_refused 409
      (orbita_backend.Access.Grants.grant_application_role application_id global_role_id)

unfoldable pub revoke_application_role : Uuid → Uuid → Action Unit
revoke_application_role application_id global_role_id =
    orbita_backend.Access.Grants.revoke_application_role application_id global_role_id
