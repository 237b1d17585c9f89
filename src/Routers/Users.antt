-- ===== src/Routers/Users.antt =====
-- app/modules/users/router.py: what an administrator does to users. `current_admin` is the user that
-- the guard let in.
pub mod SelfGuard
use orbita_backend.Prelude.{
  String, Bool, true, false, not, ◌&&◌, ◌==◌, text_comparable, number_comparable, is_some, Option,
  none, some, List, [], ◌∷◌, contains, if◌then◌else◌,
}
use orbita_backend.Prelude.Text.{strip, lower}
use orbita_backend.Data.{Db, Uuid, Time, User, Application}
use orbita_backend.Http.{Request}
use orbita_backend.Crypto.{Crypto, Bytes}
use orbita_backend.Exec.{Action, pure, gets, commit, raise_if, http, ◌>>=◌, ◌>>◌}
use orbita_backend.Access
use orbita_backend.Access.Audit.{audit}
use orbita_backend.Access.Grants.{Split}
use orbita_backend.Access.Sources.{ensure_default_role, find_role}
use orbita_backend.Apps.Registry.{find_application}
use orbita_backend.Users.{
  find_user, find_by_email, bulk_set_active_status, bulk_soft_delete, set_active_status,
  soft_delete_user,
}
use orbita_backend.Auth.Passwords.{hash_password}
use orbita_backend.Routers.Base.{find_or_404, unless_taken, unless_refused}
use orbita_backend.Routers.Applications.{is_sso, sso_conflict}
use orbita_backend.Routers.Launcher.{authorized_applications}

-- `temporary_password` is the value of secrets.token_urlsafe(12)
unfoldable pub create_local_user :
    Crypto → Uuid → Bytes → String → String → String → Request → Action (User × String)
create_local_user crypto id salt temporary_password payload_email full_name request = do
  let email = lower (strip payload_email)
  existing ← gets (find_by_email email)
  raise_if (is_some existing) (http 409 "Email already registered")
  unless_taken "Email already registered" (do
    user ←
        orbita_backend.Users.create_local_user id email (strip full_name)
          (hash_password crypto salt temporary_password) true true false
    ensure_default_role user.id false
    audit "user.local_created" (some user.id) (some request) none
        (("created_by_admin", some "true") ∷ []) false
    commit
    pure (user, temporary_password))

unfoldable pub bulk_update_user_status :
    Time → User → List Uuid → Bool → Action (List User × List Uuid)
bulk_update_user_status now current_admin user_ids is_active = do
  raise_if (not is_active && contains current_admin.id user_ids)
      (http 400 "Your own account cannot be included in a bulk deactivation")
  bulk_set_active_status now user_ids is_active

unfoldable pub bulk_delete_users : Time → User → List Uuid → Action (List User × List Uuid)
bulk_delete_users now current_admin user_ids = do
  raise_if (contains current_admin.id user_ids)
      (http 400 "Your own account cannot be included in a bulk delete")
  bulk_soft_delete now user_ids

unfoldable pub update_user_status : Time → User → Uuid → Bool → Action User
update_user_status now current_admin user_id is_active = do
  raise_if (user_id == current_admin.id && not is_active)
      (http 400 "Cannot deactivate your own account")
  user ← find_or_404 (find_user user_id) "User not found"
  set_active_status now user is_active

unfoldable pub delete_user : Time → User → Uuid → Action User
delete_user now current_admin user_id = do
  raise_if (user_id == current_admin.id) (http 400 "Cannot delete your own account")
  user ← find_or_404 (find_user user_id) "User not found"
  soft_delete_user now user

unfoldable pub bulk_grant_global_role : Uuid → List Uuid → Action Split
bulk_grant_global_role role_id user_ids = do
  role ← find_or_404 (λ db. find_role role_id db.global_roles) "Global role not found"
  orbita_backend.Access.bulk_assign_global_role user_ids role_id

unfoldable pub bulk_revoke_global_role : Uuid → List Uuid → Action Split
bulk_revoke_global_role role_id user_ids =
    orbita_backend.Access.bulk_revoke_global_role user_ids role_id

-- an application that exists and is not an SSO application
abbrev grantable : Uuid → Action Application
grantable application_id = do
  application ← find_or_404 (find_application application_id) "Application not found"
  raise_if (is_sso application.access_policy) (http 409 sso_conflict)
  pure application

unfoldable pub bulk_grant_application_access : Uuid → List Uuid → Action Split
bulk_grant_application_access application_id user_ids = do
  application ← grantable application_id
  orbita_backend.Access.bulk_grant_application_access user_ids application_id

unfoldable pub bulk_revoke_application_access : Uuid → List Uuid → Action Split
bulk_revoke_application_access application_id user_ids =
    orbita_backend.Access.bulk_revoke_application_access user_ids application_id

unfoldable pub assign_global_role : Uuid → Uuid → Action Unit
assign_global_role user_id role_id = do
  user ← find_or_404 (find_user user_id) "User not found"
  role ← find_or_404 (λ db. find_role role_id db.global_roles) "Global role not found"
  unless_refused 409 (orbita_backend.Access.assign_global_role user_id role_id)

unfoldable pub revoke_global_role : Uuid → Uuid → Action Unit
revoke_global_role user_id role_id = orbita_backend.Access.revoke_global_role user_id role_id

unfoldable pub grant_application_access : Uuid → Uuid → Action Unit
grant_application_access user_id application_id = do
  user ← find_or_404 (find_user user_id) "User not found"
  application ← grantable application_id
  orbita_backend.Access.grant_application_access user_id application_id

unfoldable pub revoke_application_access : Uuid → Uuid → Action Unit
revoke_application_access user_id application_id =
    orbita_backend.Access.revoke_application_access user_id application_id

unfoldable pub list_user_applications : Uuid → Action (List Application)
list_user_applications user_id = do
  user ← find_or_404 (find_user user_id) "User not found"
  gets (authorized_applications user_id)
