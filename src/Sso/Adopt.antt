-- ===== src/Sso/Adopt.antt =====
-- POST /auth/adopt-role: adopt_legacy_app_role in app/modules/auth/router.py
pub mod Fresh
use orbita_backend.Prelude.{
  String, Bool, true, false, not, ◌&&◌, ◌||◌, ◌==◌, text_comparable, number_comparable, is_empty,
  Option, none, some, List, [], ◌∷◌, if◌then◌else◌,
}
use orbita_backend.Data.{Uuid, Time, User, App, Role, AppSession}
use orbita_backend.Http.{Request}
use orbita_backend.Crypto.{Crypto, Claims}
use orbita_backend.Exec.{
  Action, Error, pure, raise, gets, catch, raise_if, or_raise, http, value_error, ◌>>=◌, ◌>>◌,
}
use orbita_backend.Access.{audit}
use orbita_backend.Apps.{resolve_access, explicit_roles, get_by_app_and_name, assign_role_to_user}
use orbita_backend.Users.{find_user}
use orbita_backend.Sso.Tokens.{decode_app_token}
use orbita_backend.Sso.Service.{active_session, revoke_for_user_in_app}
use orbita_backend.Sso.Client.{authenticate_client, available_user}

pub record RoleAdoptionRequest : Type 0 where
  pub token : String
  pub client_id : String
  pub client_secret : String
  pub role : String

-- `not jti or not sub`: both claims, if both are there and not empty
abbrev pub both : Option String → Option String → Option (String × String)
both (some jti) (some sub) = if jti == "" || sub == "" then none else some (jti, sub)
both _ _ = none

abbrev pub is_true : Option Bool → Bool
is_true none = false
is_true (some b) = b

-- `claims.get("roles") != []`
abbrev pub no_roles : Option (List String) → Bool
no_roles none = false
no_roles (some roles) = is_empty roles

abbrev pub is_migration : Claims → Bool
is_migration c = is_true c.migration && no_roles c.roles

-- `current == [role]`
abbrev is_only : String → List String → Bool
is_only role (r ∷ []) = r == role
is_only role _ = false

abbrev usable : Option Role → Option Role
usable none = none
usable (some r) = if r.is_active then some r else none

-- `except ValueError as exc: raise HTTPException(409)`
abbrev as_conflict : {A : Type 0} → Error → Action A
as_conflict value_error = raise (http 409 "This app allows only one role per user")
as_conflict e = raise e

module _ (crypto : Crypto) where
  abbrev pub owns : App → String → Option AppSession → Option AppSession
  owns app sub none = none
  owns app sub (some s) =
      if s.app_id == app.id && crypto.uuid_text s.user_id == sub then some s else none

  -- from the check of the explicit roles on
  unfoldable pub adopt_role : Uuid → Time → Request → String → App → User → Action String
  unfolding assign_role_to_user revoke_for_user_in_app audit
  adopt_role id now request role_name app user = do
    current ← gets (explicit_roles user.id app)
    if not (is_empty current)
        then (if is_only role_name current
            then (do revoke_for_user_in_app now user.id app.id; pure role_name)
            else raise (http 409 "An explicit app role already exists"))
        else (do
          candidate ← gets (get_by_app_and_name app role_name)
          role ← or_raise (usable candidate) (http 400 "Unknown or inactive app role")
          catch (assign_role_to_user id user.id app role "jit_migration") as_conflict
          revoke_for_user_in_app now user.id app.id
          audit "access.app_role_adopted" (some user.id) (some request) app.application_id [] true
          pure role_name)

  unfoldable pub adopt_legacy_app_role : Uuid → Time → Request → RoleAdoptionRequest → Action String
  unfolding adopt_role
  adopt_legacy_app_role id now request payload = do
    app ← authenticate_client crypto now payload.client_id payload.client_secret
    raise_if (not app.jit_role_adoption_enabled) (http 403 "Role adoption is disabled")
    let claims = decode_app_token crypto now payload.token payload.client_id
    (jti, sub) ← or_raise (both claims.jti claims.sub) (http 401 "Invalid app token")
    raise_if (not (is_migration claims)) (http 403 "Role adoption requires a migration token")
    row ← gets (active_session now jti)
    session ← or_raise (owns app sub row) (http 401 "Inactive app session")
    found ← gets (find_user session.user_id)
    user ← or_raise (available_user found) (http 403 "User unavailable")
    access ← resolve_access user.id app
    raise_if (not access.migration) (http 403 "Application access is unavailable")
    adopt_role id now request payload.role app user
