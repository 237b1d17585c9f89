-- ===== src/Routers/Apps.antt =====
-- app/modules/apps/router.py and sync_router.py: the registry of SSO clients over HTTP. The first
-- router is an administrator's; sync_router.py authenticates the client by its secret instead.
use orbita_backend.Prelude.{String, Bool, true, not, is_some, Option, none, some, List, []}
use orbita_backend.Data.{Uuid, Time, App, AppRedirectUri, AppPostLogoutUri, Role, UserAppRole}
use orbita_backend.Http.{Request}
use orbita_backend.Crypto.{Crypto}
use orbita_backend.Exec.{Action, pure, gets, raise_if, http, ◌>>=◌, ◌>>◌}
use orbita_backend.Access.Audit.{audit}
use orbita_backend.Access.Grants.{Split}
use orbita_backend.Apps
use orbita_backend.Apps.{
  find_client, get_by_app_and_name, get_role_by_id, create_sso_application, set_availability,
  rotate_client_secret, update_policy, upsert_global_role_mapping, assign_role_to_user,
  bulk_assign_role_to_users, bulk_unassign_role_from_users, unassign_role_from_user,
  verify_client_secret, sync_catalog, RoleCatalogEntry, Tile,
}
use orbita_backend.Routers.Base.{find_or_404, unless_taken, unless_refused}
use orbita_backend.Routers.Applications.{application_of_slug}

abbrev app_or_404 : String → Action App
app_or_404 client_id = find_or_404 (find_client client_id) "App not found"

abbrev role_or_404 : App → Uuid → Action Role
role_or_404 app role_id = find_or_404 (get_role_by_id app role_id) "Role not found"

module _ (crypto : Crypto) where
  unfoldable pub create_app :
      Uuid
      → Uuid
      → String
      → String
      → String
      → Tile
      → String
      → Bool
      → Bool
      → List String
      → Action (App × String)
  create_app id app_id raw_secret salt client_id tile cardinality migration jit claims = do
    existing ← gets (find_client client_id)
    raise_if (is_some existing) (http 409 "client_id already registered")
    existing_application ← gets (application_of_slug tile.slug)
    raise_if (is_some existing_application) (http 409 "slug already registered")
    unless_taken "client_id already registered" (
        create_sso_application crypto id app_id raw_secret salt client_id tile cardinality migration
          jit claims)

  -- 15 minutes are the default of `grace_minutes`.
  unfoldable pub rotate_app_secret : String → String → Time → String → Action (App × String × Time)
  rotate_app_secret raw_secret salt now client_id = do
    app ← app_or_404 client_id
    (secret, expires_at) ← rotate_client_secret crypto raw_secret salt now 15 app
    pure (app, secret, expires_at)

  -- sync_router.sync_role_catalog
  unfoldable pub sync_role_catalog :
      (String → Uuid)
      → Time
      → String
      → String
      → List RoleCatalogEntry
      → Action (List Role × List String)
  sync_role_catalog new_id now client_id client_secret roles = do
    app ← app_or_404 client_id
    raise_if (not (verify_client_secret crypto now app client_secret))
        (http 401 "Invalid client credentials")
    sync_catalog new_id now app roles

unfoldable pub update_app_status : Time → String → Bool → Action (Option App)
update_app_status now client_id is_active = do
  app ← app_or_404 client_id
  (application, updated_app) ← set_availability now is_active none (some app)
  pure updated_app

unfoldable pub update_app_policy :
    String → String → Bool → Bool → List String → Request → Action App
update_app_policy client_id cardinality migration jit claims request = do
  app ← app_or_404 client_id
  updated ← update_policy app cardinality migration jit claims
  audit "access.app_policy_updated" none (some request) app.application_id [] true
  pure updated

unfoldable pub add_post_logout_uri : Uuid → String → String → Action AppPostLogoutUri
add_post_logout_uri id client_id post_logout_uri = do
  app ← app_or_404 client_id
  unless_taken "Post logout URI already registered"
      (orbita_backend.Apps.add_post_logout_uri id app post_logout_uri)

unfoldable pub upsert_mapping : Uuid → String → String → String → Action Unit
upsert_mapping id client_id global_role app_role = do
  app ← app_or_404 client_id
  unless_refused 400 (upsert_global_role_mapping id app global_role app_role)

unfoldable pub add_redirect_uri : Uuid → String → String → Action AppRedirectUri
add_redirect_uri id client_id redirect_uri = do
  app ← app_or_404 client_id
  unless_taken "This redirect_uri is already registered for this app"
      (orbita_backend.Apps.add_redirect_uri id app redirect_uri)

unfoldable pub create_role : Uuid → String → String → Action Role
create_role id client_id name = do
  app ← app_or_404 client_id
  existing ← gets (get_by_app_and_name app name)
  raise_if (is_some existing) (http 409 "Role already exists for this app")
  unless_taken "Role already exists for this app" (orbita_backend.Apps.create_role id app name)

unfoldable pub assign_role : Uuid → String → Uuid → Uuid → Action UserAppRole
assign_role id client_id role_id user_id = do
  app ← app_or_404 client_id
  role ← role_or_404 app role_id
  unless_refused 409 (assign_role_to_user id user_id app role "manual")

unfoldable pub bulk_assign_role : (Uuid → Uuid) → String → Uuid → List Uuid → Action Split
bulk_assign_role new_id client_id role_id user_ids = do
  app ← app_or_404 client_id
  role ← role_or_404 app role_id
  unless_refused 409 (bulk_assign_role_to_users new_id user_ids app role)

unfoldable pub bulk_unassign_role : Time → String → Uuid → List Uuid → Action Split
bulk_unassign_role now client_id role_id user_ids = do
  app ← app_or_404 client_id
  role ← role_or_404 app role_id
  bulk_unassign_role_from_users now user_ids app role

unfoldable pub delete_role : Time → String → Uuid → Action Unit
delete_role now client_id role_id = do
  app ← app_or_404 client_id
  role ← role_or_404 app role_id
  orbita_backend.Apps.delete_role now role

unfoldable pub unassign_role : Time → String → Uuid → Uuid → Action Unit
unassign_role now client_id role_id user_id = do
  app ← app_or_404 client_id
  role ← role_or_404 app role_id
  unassign_role_from_user now user_id app role
