-- ===== src/Apps/Catalog.antt =====
-- RoleService.sync_catalog: an app declares its roles, and the managed roles that are missing from
-- the declaration are retired.
pub mod Declared
use orbita_backend.Prelude.{
  String, Bool, true, false, not, ◌&&◌, ◌==◌, text_comparable, number_comparable, is_empty, Option,
  List, [], ◌∷◌, ◌++◌, any, map, select, update, contains, if◌then◌else◌,
}
use orbita_backend.Data.{Uuid, Time, App, Role}
use orbita_backend.Exec.{Action, pure, gets, modify, commit, only_if, ◌>>=◌, ◌>>◌}
use orbita_backend.Apps.Roles.{revoke_sessions, named}

-- app/modules/apps/schemas.py; the request refuses a list with a duplicate key
pub record RoleCatalogEntry : Type 0 where
  pub key : String
  pub display_name : String
  pub description : Option String

abbrev pub keys : List RoleCatalogEntry → List String
keys = map (λ e. e.key)

-- the loop over the declared entries: an existing role is refreshed, and a new one is added
abbrev pub refreshed : RoleCatalogEntry → Role → Role
refreshed e r = record r {
  display_name = e.display_name;
  description = e.description;
  is_active = true;
  managed_by_app = true;
}

abbrev pub new_role : (String → Uuid) → Uuid → RoleCatalogEntry → Role
new_role fresh app_id e = record {
  id = fresh e.key;
  app_id = app_id;
  name = e.key;
  display_name = e.display_name;
  description = e.description;
  is_active = true;
  managed_by_app = true;
}

abbrev pub upsert : (String → Uuid) → Uuid → RoleCatalogEntry → List Role → List Role
upsert fresh app_id e roles =
    if any (named app_id e.key) roles
    then update (named app_id e.key) (refreshed e) roles
    else roles ++ new_role fresh app_id e ∷ []

unfoldable pub upsert_all : (String → Uuid) → Uuid → List RoleCatalogEntry → List Role → List Role
upsert_all fresh app_id [] roles = roles
upsert_all fresh app_id (e ∷ es) roles = upsert_all fresh app_id es (upsert fresh app_id e roles)

-- the condition of the second loop: a managed role that is missing from the declaration
abbrev pub retires : Uuid → List String → Role → Bool
retires app_id declared r =
    r.app_id == app_id && (r.managed_by_app && (not (contains r.name declared) && r.is_active))

-- The second loop, on the rows that were there before, and the revocation that follows it.
abbrev pub retire : Uuid → List String → List Role → List Role
retire app_id declared = update (retires app_id declared) (λ r. record r { is_active = false })

abbrev pub retired_names : Uuid → List String → List Role → List String
retired_names app_id declared roles = map (λ r. r.name) (select (retires app_id declared) roles)

unfoldable pub sync_catalog :
    (String → Uuid) → Time → App → List RoleCatalogEntry → Action (List Role × List String)
sync_catalog fresh now app entries = do
  deactivated ← gets (λ db. retired_names app.id (keys entries) db.roles)
  modify (λ db. record db {
    roles = retire app.id (keys entries) (upsert_all fresh app.id entries db.roles);
  })
  only_if (not (is_empty deactivated)) (modify (revoke_sessions now (λ s. s.app_id == app.id)))
  commit
  roles ← gets (λ db. select (λ r. r.app_id == app.id) db.roles)
  pure (roles, deactivated)
