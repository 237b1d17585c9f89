-- ===== src/Routers/Listings.antt =====
-- The GET endpoints of app/modules/users/router.py, app/modules/apps/router.py and
-- app/modules/access/router.py that list rows for an administrator. FastAPI refuses a limit outside
-- 1 … 250 with 422 before the endpoint runs.
use orbita_backend.Prelude.{
  ℕ, String, Bool, false, not, ◌&&◌, ◌==◌, number_comparable, leb, Option, none, some, List, [],
  ◌∷◌, select, map,
}
use orbita_backend.Prelude.Pages.{order_by, page, text_before}
use orbita_backend.Data.{
  Db, Uuid, Time, User, App, Role, GlobalRole, Provider, ExternalIdentity, AuditLog, Application,
}
use orbita_backend.Exec.{Action, gets, raise_if, http, ◌>>=◌, ◌>>◌}
use orbita_backend.Apps.{find_client}
use orbita_backend.Users.{find_user}
use orbita_backend.Apps.Registry.{find_application}
use orbita_backend.Routers.Base.{find_or_404}
use orbita_backend.Listings.{
  join, UserAppRoleRead, AppRoleRead, list_for_app, list_user_roles_for_app,
  list_app_roles_for_user, list_global_roles_for_user,
}
use orbita_backend.Listings as Services

-- Query(default=100, ge=1, le=250)
abbrev pub check_limit : ℕ → Action Unit
check_limit limit = raise_if (not (leb 1 limit && leb limit 250)) (http 422 "limit")

unfoldable pub list_users :
    (String → String → Bool) → ℕ → ℕ → Option Bool → Option String → Bool → Action (List User)
list_users ilike limit offset is_active search include_deleted = do
  check_limit limit
  gets (Services.list_users ilike include_deleted is_active search limit offset)

unfoldable pub list_apps : ℕ → ℕ → Option Bool → Action (List App)
list_apps limit offset is_active = do
  check_limit limit
  gets (Services.list_apps is_active limit offset)

unfoldable pub list_roles : String → Action (List Role)
list_roles client_id = do
  app ← find_or_404 (find_client client_id) "App not found"
  gets (list_for_app app false)

unfoldable pub list_app_users : String → ℕ → ℕ → Action (List UserAppRoleRead)
list_app_users client_id limit offset = do
  check_limit limit
  app ← find_or_404 (find_client client_id) "App not found"
  gets (list_user_roles_for_app app limit offset)

unfoldable pub list_user_app_roles : Uuid → ℕ → ℕ → Action (List AppRoleRead)
list_user_app_roles user_id limit offset = do
  check_limit limit
  user ← find_or_404 (find_user user_id) "User not found"
  gets (list_app_roles_for_user user_id limit offset)

unfoldable pub list_user_global_roles : Uuid → Action (List GlobalRole)
list_user_global_roles user_id = do
  user ← find_or_404 (find_user user_id) "User not found"
  gets (list_global_roles_for_user user_id)

unfoldable pub list_global_roles : Action (List GlobalRole)
list_global_roles = gets Services.list_global_roles

pub record UserExternalIdentityRead : Type 0 where
  pub provider_code : String
  pub provider_name : String
  pub provider_email : Option String
  pub last_seen_at : Option Time

abbrev identity_read : Provider → ExternalIdentity → UserExternalIdentityRead
identity_read p x = record {
  provider_code = p.code;
  provider_name = p.name;
  provider_email = x.provider_email;
  last_seen_at = x.last_seen_at;
}

unfoldable pub list_user_external_identities : Uuid → Action (List UserExternalIdentityRead)
list_user_external_identities user_id = do
  user ← find_or_404 (find_user user_id) "User not found"
  gets (λ db.
      order_by (λ a b. text_before a.provider_name b.provider_name)
        (join identity_read (λ p x. x.provider_id == p.id) db.providers
          (select (λ x. x.user_id == user_id) db.external_identities)))

-- An audit row with the columns of the outer joins. `AuditLog` has no time here: new rows stand last
-- in the table, and the newest come first.
pub record AuditLogRead : Type 0 where
  pub log : AuditLog
  pub user_name : Option String
  pub user_email : Option String
  pub application_name : Option String

abbrev of_row : {A B : Type 0} → (A → B) → Option A → Option B
of_row f none = none
of_row f (some a) = some (f a)

abbrev joined : {A : Type 0} → (Uuid → Option A) → Option Uuid → Option A
joined find none = none
joined find (some id) = find id

abbrev audit_read : Db → AuditLog → AuditLogRead
audit_read db log =
    let user = joined (λ id. find_user id db) log.user_id in
    record {
      log = log;
      user_name = of_row (λ (u : User). u.full_name) user;
      user_email = of_row (λ (u : User). u.email) user;
      application_name =
          of_row (λ (a : Application). a.name)
            (joined (λ id. find_application id db) log.application_id);
    }

abbrev reversed : {A : Type 0} → List A → List A → List A
reversed [] out = out
reversed (x ∷ rows) out = reversed rows (x ∷ out)

unfoldable pub list_audit_logs : ℕ → ℕ → Action (List AuditLogRead)
list_audit_logs limit offset = do
  check_limit limit
  gets (λ db. map (audit_read db) (page limit offset (reversed db.audit_logs [])))
