-- ===== src/Apps/Lifecycle.antt =====
-- app/modules/apps/application_lifecycle.py: the launcher tile (`Application`) and its SSO client
-- (`App`) are created together and switched on and off together.
use orbita_backend.Prelude.{
  String, Bool, true, not, ◌&&◌, ◌==◌, text_comparable, number_comparable, same_option, is_some,
  Option, none, some, List, [], ◌∷◌, ◌++◌, any, first, update, if◌then◌else◌,
}
use orbita_backend.Data.{
  Db, Uuid, Time, App, Application, ApplicationAccessPolicy, catalog, sso_role,
}
use orbita_backend.Crypto.{Crypto}
use orbita_backend.Exec.{
  Action, pure, gets, modify, commit, raise_if, value_error, integrity_error, ◌>>=◌, ◌>>◌,
}
use orbita_backend.Apps.Registry.{hash_client_secret, find_application, set_app}
use orbita_backend.Apps.Roles.{revoke_sessions}

-- the fields that both creations take from the request
pub record Tile : Type 0 where
  pub slug : String
  pub name : String
  pub description : String
  pub url : String
  pub icon : Option String

abbrev tile_row : Uuid → Tile → ApplicationAccessPolicy → Application
tile_row id t policy = record {
  id = id;
  slug = t.slug;
  name = t.name;
  description = t.description;
  url = t.url;
  icon = t.icon;
  access_policy = policy;
  is_active = true;
}

-- A duplicate slug is the IntegrityError of the unique column.
unfoldable pub create_catalog_application : Uuid → Tile → Action Application
create_catalog_application id tile = do
  taken ← gets (λ db. any (λ a. a.slug == tile.slug) db.applications)
  raise_if taken integrity_error
  let application = tile_row id tile catalog
  modify (λ db. record db { applications = db.applications ++ application ∷ [] })
  commit
  pure application

module _ (crypto : Crypto) where
  abbrev app_row :
      Uuid → Uuid → String → String → String → Tile → String → Bool → Bool → List String → App
  app_row id application_id client_id raw_secret salt tile cardinality migration jit claims =
      record {
        id = id;
        application_id = some application_id;
        client_id = client_id;
        client_secret_hash = hash_client_secret crypto salt raw_secret;
        previous_client_secret_hash = none;
        previous_secret_expires_at = none;
        name = tile.name;
        is_active = true;
        role_cardinality = cardinality;
        migration_access_enabled = migration;
        jit_role_adoption_enabled = jit;
        released_claims = claims;
      }

  unfoldable pub create_sso_application :
      Uuid
      → Uuid
      → String
      → String
      → String
      → Tile
      → String
      → Bool
      → Bool
      → List String
      → Action (App × String)
  create_sso_application id app_id raw_secret salt client_id tile cardinality migration jit claims =
      do
        slug_taken ← gets (λ db. any (λ a. a.slug == tile.slug) db.applications)
        raise_if slug_taken integrity_error
        modify
            (λ db. record db { applications = db.applications ++ tile_row id tile sso_role ∷ [] })
        client_taken ← gets (λ db. any (λ a. a.client_id == client_id) db.apps)
        raise_if client_taken integrity_error
        let app = app_row app_id id client_id raw_secret salt tile cardinality migration jit claims
        modify (λ db. record db { apps = db.apps ++ app ∷ [] })
        commit
        pure (app, raw_secret)

-- select(App).where(App.application_id == application_id)
abbrev pub get_sso_app_for_application : Uuid → Db → Option App
get_sso_app_for_application id db = first (λ a. same_option a.application_id (some id)) db.apps

abbrev pub with_application : Option Uuid → Db → Option Application
with_application none db = none
with_application (some id) db = find_application id db

-- the application that was given, or the one that the app is linked to
abbrev pub complete_application : Option Application → Option App → Db → Option Application
complete_application (some a) app db = some a
complete_application none none db = none
complete_application none (some app) db = with_application app.application_id db

-- the app that was given, or the SSO client of the application
abbrev pub complete_app : Option Application → Option App → Db → Option App
complete_app application (some app) db = some app
complete_app none none db = none
complete_app (some a) none db = get_sso_app_for_application a.id db

abbrev pub set_application_active : Bool → Option Application → Db → Db
set_application_active b none db = db
set_application_active b (some a) db = record db {
  applications = update (λ x. x.id == a.id) (λ x. record x { is_active = b }) db.applications;
}

abbrev pub set_app_active : Bool → Option App → Db → Db
set_app_active b none db = db
set_app_active b (some a) db = set_app a.id (λ x. record x { is_active = b }) db

abbrev pub revoke_app_sessions : Time → Bool → Option App → Db → Db
revoke_app_sessions now b none db = db
revoke_app_sessions now b (some app) db =
    if b then db else revoke_sessions now (λ s. s.app_id == app.id) db

unfoldable pub set_availability :
    Time → Bool → Option Application → Option App → Action (Option Application × Option App)
set_availability now is_active given_application given_app = do
  raise_if (not (is_some given_application) && not (is_some given_app)) value_error
  application ← gets (complete_application given_application given_app)
  app ← gets (complete_app application given_app)
  modify (set_application_active is_active application)
  modify (set_app_active is_active app)
  modify (revoke_app_sessions now is_active app)
  commit
  pure (application, app)
