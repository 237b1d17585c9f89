-- ===== src/Routers/Launcher.antt =====
-- AccessService.authorized_applications, and the two endpoints of app/modules/access/router.py that
-- every signed-in user reaches.
pub mod Members
use Prim.Native.Nat.{Ordering}
use Prim.Native.String.{compare}
use orbita_backend.Prelude.{
  String, Bool, true, false, ◌&&◌, ◌||◌, ◌==◌, text_comparable, number_comparable, same_option,
  Option, none, some, List, [], ◌∷◌, any, first, select, if◌then◌else◌,
}
use orbita_backend.Prelude.Text.{lower}
use orbita_backend.Data.{
  Db, Uuid, Time, Application, App, ApplicationAccessPolicy, catalog, sso_role,
}
use orbita_backend.Http.{Request}
use orbita_backend.Crypto.{Crypto}
use orbita_backend.Exec.{Action, pure, gets, or_raise, http, ◌>>=◌, ◌>>◌}
use orbita_backend.Access.Audit.{audit}
use orbita_backend.Apps.Policy.{access_of, is_provisioned}
use orbita_backend.Auth.Guard.{get_current_user}

abbrev pub is_catalog : ApplicationAccessPolicy → Bool
is_catalog catalog = true
is_catalog sso_role = false

-- legacy_ids: a global role of the user is linked to the application
abbrev pub by_role : Uuid → Uuid → Db → Bool
by_role user_id application_id db =
    any
      (λ link.
        link.application_id == application_id
        && any (λ r. r.user_id == user_id && r.global_role_id == link.global_role_id)
            db.user_global_roles)
      db.application_global_roles

-- direct_ids
abbrev pub by_grant : Uuid → Uuid → Db → Bool
by_grant user_id application_id db =
    any (λ r. r.user_id == user_id && r.application_id == application_id) db.user_applications

abbrev pub in_catalog : Uuid → Db → Application → Bool
in_catalog user_id db a =
    a.is_active
    && (is_catalog a.access_policy && (by_role user_id a.id db || by_grant user_id a.id db))

-- a row of sso_rows whose app the user may enter
abbrev pub enters_app : Uuid → Db → Application → App → Bool
enters_app user_id db a app =
    same_option app.application_id (some a.id)
    && (app.is_active && is_provisioned (access_of user_id app db))

-- the dict by the id of the application, in insertion order: `authorized[a.id] = a`
abbrev put : Application → List Application → List Application
put a [] = a ∷ []
put a (b ∷ bs) = if b.id == a.id then a ∷ bs else b ∷ put a bs

-- the apps of one application
abbrev put_apps : Uuid → Db → Application → List App → List Application → List Application
put_apps user_id db a [] authorized = authorized
put_apps user_id db a (app ∷ apps) authorized =
    put_apps user_id db a apps
      (if enters_app user_id db a app then put a authorized else authorized)

-- the rows of the join of active applications and active apps
abbrev put_all : Uuid → Db → List Application → List Application → List Application
put_all user_id db [] authorized = authorized
put_all user_id db (a ∷ as') authorized =
    put_all user_id db as'
      (if a.is_active then put_apps user_id db a db.apps authorized else authorized)

-- `sorted(…, key=lambda application: application.name.lower())`, which is stable
abbrev insert_by_name : Application → List Application → List Application
insert_by_name a [] = a ∷ []
insert_by_name a (b ∷ bs) = elim (compare (lower a.name) (lower b.name)) [
  | Ordering.gt ↦ b ∷ insert_by_name a bs
  | _ ↦ a ∷ b ∷ bs
]

abbrev by_name : List Application → List Application
by_name [] = []
by_name (a ∷ as') = insert_by_name a (by_name as')

unfoldable pub authorized_applications : Uuid → Db → List Application
authorized_applications user_id db =
    by_name (put_all user_id db db.applications (select (in_catalog user_id db) db.applications))

module _ (crypto : Crypto) where
  unfoldable pub list_applications : Time → Request → Action (List Application)
  list_applications now request = do
    current_user ← get_current_user crypto now request
    gets (authorized_applications current_user.id)

  unfoldable pub register_application_access : Time → Uuid → Request → Action Unit
  register_application_access now application_id request = do
    current_user ← get_current_user crypto now request
    applications ← gets (authorized_applications current_user.id)
    application ←
        or_raise (first (λ a. a.id == application_id) applications)
          (http 404 "Application not available")
    audit "application.access" (some current_user.id) none (some application.id)
        (("application_slug", some application.slug) ∷ []) true
