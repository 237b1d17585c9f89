-- ===== src/Apps/Registry.antt =====
-- AppService: the registered SSO clients, their secrets, URIs and policies.
pub mod Secrets
use Prim.Native.Char.{code}
use orbita_backend.Prelude.{
  ℕ, ◌+◌, String, ◌<>◌, Bool, false, not, ◌&&◌, ◌||◌, ◌==◌, text_comparable, number_comparable, ltb,
  is_some, Option, none, some, List, [], ◌∷◌, ◌++◌, any, first, update, if◌then◌else◌,
}
use orbita_backend.Data.{
  Db, Uuid, Time, minutes, App, Application, AppRedirectUri, AppPostLogoutUri, Role, GlobalRole,
  AppGlobalRoleMapping,
}
use orbita_backend.Crypto.{Crypto}
use orbita_backend.Exec.{
  Action, pure, raise, gets, modify, commit, raise_if, value_error, integrity_error, ◌>>=◌, ◌>>◌,
}

-- _PBKDF2_ITERATIONS
abbrev pub pbkdf2_iterations : ℕ
pbkdf2_iterations = 260000

-- `text.partition("$")`: what stands before the first dollar sign, and what stands after it
abbrev pub before_dollar : String → String
before_dollar String.[] = String.[]
before_dollar (String.◌∷◌ c s) =
    let rest = before_dollar s in if code c == b'$' then String.[] else String.◌∷◌ c rest

abbrev pub after_dollar : String → String
after_dollar String.[] = String.[]
after_dollar (String.◌∷◌ c s) = let rest = after_dollar s in if code c == b'$' then s else rest

module _ (crypto : Crypto) where
  -- bytes.fromhex(salt) raises a ValueError where the salt is not hexadecimal; the stored salts are
  -- values of secrets.token_hex, and the model does not raise.
  unfoldable pub verify_secret : String → String → Bool
  verify_secret raw_secret stored_hash =
      let salt = before_dollar stored_hash in
      let digest = after_dollar stored_hash in
      if salt == "" || digest == ""
      then false
      else crypto.pbkdf2_hex raw_secret salt pbkdf2_iterations == digest

  -- `salt` is the value of secrets.token_hex(16)
  unfoldable pub hash_client_secret : String → String → String
  hash_client_secret salt raw_secret =
      salt <> ("$" <> crypto.pbkdf2_hex raw_secret salt pbkdf2_iterations)

  unfoldable pub previous_accepts : Time → String → Option String → Option Time → Bool
  previous_accepts now raw_secret (some hash) (some expires_at) =
      not (hash == "") && (ltb now expires_at && verify_secret raw_secret hash)
  previous_accepts now raw_secret _ _ = false

  unfoldable pub verify_client_secret : Time → App → String → Bool
  unfolding previous_accepts
  verify_client_secret now app raw_secret =
      verify_secret raw_secret app.client_secret_hash
      || previous_accepts now raw_secret app.previous_client_secret_hash
          app.previous_secret_expires_at

-- select(App).where(App.client_id == client_id)
abbrev pub find_client : String → Db → Option App
find_client client_id db = first (λ a. a.client_id == client_id) db.apps

abbrev pub get_by_client_id : String → Action (Option App)
get_by_client_id client_id = gets (find_client client_id)

-- A change of the attributes of a loaded `App`, which the next commit writes.
abbrev pub set_app : Uuid → (App → App) → Db → Db
set_app id f db = record db { apps = update (λ a. a.id == id) f db.apps }

module _ (crypto : Crypto) where
  -- What `rotate_client_secret` makes of the app.
  abbrev pub rotated : String → String → Time → App → App
  rotated raw_secret salt expires_at app = record app {
    previous_client_secret_hash = some app.client_secret_hash;
    previous_secret_expires_at = some expires_at;
    client_secret_hash = hash_client_secret crypto salt raw_secret;
  }

  -- `raw_secret` and `salt` are the fresh values of the `secrets` module.
  unfoldable pub rotate_client_secret : String → String → Time → ℕ → App → Action (String × Time)
  rotate_client_secret raw_secret salt now grace_minutes app =
      let expires_at = now + minutes grace_minutes in
      do
        modify (set_app app.id (rotated raw_secret salt expires_at))
        commit
        pure (raw_secret, expires_at)

-- db.get(Application, id)
abbrev pub find_application : Uuid → Db → Option Application
find_application id db = first (λ a. a.id == id) db.applications

abbrev active_application : Option Application → Bool
active_application none = false
active_application (some a) = a.is_active

abbrev linked_active : Option Uuid → Db → Bool
linked_active none db = false
linked_active (some id) db = active_application (find_application id db)

unfoldable pub is_available_for_sso : App → Db → Bool
is_available_for_sso app db = app.is_active && linked_active app.application_id db

abbrev is_redirect : Uuid → String → AppRedirectUri → Bool
is_redirect app_id uri r = r.app_id == app_id && r.redirect_uri == uri

-- `id` is the default of the new row's id. A duplicate is the IntegrityError of uq_app_redirect_uri.
unfoldable pub add_redirect_uri : Uuid → App → String → Action AppRedirectUri
add_redirect_uri id app redirect_uri = do
  taken ← gets (λ db. any (is_redirect app.id redirect_uri) db.redirect_uris)
  raise_if taken integrity_error
  let entry : AppRedirectUri = record { id = id; app_id = app.id; redirect_uri = redirect_uri }
  modify (λ db. record db { redirect_uris = db.redirect_uris ++ entry ∷ [] })
  commit
  pure entry

unfoldable pub validate_redirect_uri : App → String → Db → Bool
validate_redirect_uri app redirect_uri db =
    is_some (first (is_redirect app.id redirect_uri) db.redirect_uris)

abbrev is_post_logout : Uuid → String → AppPostLogoutUri → Bool
is_post_logout app_id uri r = r.app_id == app_id && r.post_logout_uri == uri

unfoldable pub add_post_logout_uri : Uuid → App → String → Action AppPostLogoutUri
add_post_logout_uri id app uri = do
  taken ← gets (λ db. any (is_post_logout app.id uri) db.post_logout_uris)
  raise_if taken integrity_error
  let entry : AppPostLogoutUri = record { id = id; app_id = app.id; post_logout_uri = uri }
  modify (λ db. record db { post_logout_uris = db.post_logout_uris ++ entry ∷ [] })
  commit
  pure entry

unfoldable pub validate_post_logout_uri : App → String → Db → Bool
validate_post_logout_uri app uri db =
    is_some (first (is_post_logout app.id uri) db.post_logout_uris)

unfoldable pub update_policy : App → String → Bool → Bool → List String → Action App
update_policy app role_cardinality migration jit claims =
    let change : App → App = λ a. record a {
      role_cardinality = role_cardinality;
      migration_access_enabled = migration;
      jit_role_adoption_enabled = jit;
      released_claims = claims;
    } in
    do modify (set_app app.id change); commit; pure (change app)

abbrev maps : Uuid → Uuid → AppGlobalRoleMapping → Bool
maps app_id global_role_id m = m.app_id == app_id && m.global_role_id == global_role_id

abbrev write_mapping : Uuid → Uuid → GlobalRole → Role → Option AppGlobalRoleMapping → Db → Db
write_mapping id app_id g r none db = record db {
  role_mappings =
      db.role_mappings
      ++ record { id = id; app_id = app_id; global_role_id = g.id; app_role_id = r.id } ∷ [];
}
write_mapping id app_id g r (some existing) db = record db {
  role_mappings =
      update (λ m. m.id == existing.id) (λ m. record m { app_role_id = r.id }) db.role_mappings;
}

abbrev map_roles : Uuid → Uuid → Option GlobalRole → Option Role → Action Unit
map_roles id app_id (some g) (some r) = do
  existing ← gets (λ db. first (maps app_id g.id) db.role_mappings)
  modify (write_mapping id app_id g r existing)
  commit
map_roles id app_id _ _ = raise value_error

unfoldable pub upsert_global_role_mapping : Uuid → App → String → String → Action Unit
upsert_global_role_mapping id app global_role_name app_role_name = do
  global_role ← gets (λ db. first (λ g. g.name == global_role_name) db.global_roles)
  app_role ←
      gets
        (λ db. first (λ r. r.app_id == app.id && (r.name == app_role_name && r.is_active)) db.roles)
  map_roles id app.id global_role app_role
