-- ===== src/Auth/Account.antt =====
-- app/modules/auth/router.py: the endpoints of a signed-in user, and the list of login methods. The
-- guard `get_current_user` runs first.
pub mod Password
use orbita_backend.Prelude.{
  ℕ, ◌*◌, String, Bool, true, false, not, ◌&&◌, ◌==◌, text_comparable, Option, none, some, List, [],
  ◌∷◌, if◌then◌else◌,
}
use orbita_backend.Prelude.Text.{strip}
use orbita_backend.Prelude.Names.{order_by_name}
use orbita_backend.Data.{Db, Uuid, Time, User, Provider, is_local_account}
use orbita_backend.Http.{Request}
use orbita_backend.Settings.{Settings, moodle_configured}
use orbita_backend.Crypto.{Crypto, Bytes}
use orbita_backend.Exec.{Action, pure, gets, modify, commit, raise_if, or_raise, http, ◌>>=◌, ◌>>◌}
use orbita_backend.Access.Audit.{audit}
use orbita_backend.Apps.Policy.{role_names}
use orbita_backend.Users.{set_user}
use orbita_backend.Identity.{get_provider}
use orbita_backend.Sso.Tokens.{decode_access_token}
use orbita_backend.Sso.Service.{revoke_all_for_user}
use orbita_backend.Sso.Browser.{
  central_auth_method, local_password_change_required, cookie_or_blank,
}
use orbita_backend.Auth.Passwords.{hash_password, verify_password}
use orbita_backend.Auth.Csrf.{issue_csrf_token}
use orbita_backend.Auth.Guard.{get_current_user}

pub record AuthenticationProvidersResponse : Type 0 where
  pub moodle : Bool
  pub microsoft : Bool
  pub local : Bool

abbrev is_on : Option Provider → Bool
is_on none = false
is_on (some p) = p.active

unfoldable pub authentication_providers : Settings → Action AuthenticationProvidersResponse
authentication_providers settings = do
  moodle ← gets (get_provider "moodle")
  microsoft ← gets (get_provider "microsoft")
  pure (record {
    moodle = is_on moodle && moodle_configured settings;
    microsoft = is_on microsoft && settings.enable_microsoft_login;
    local = settings.enable_local_login;
  })

pub record UserProfile : Type 0 where
  pub id : String
  pub email : String
  pub name : String
  pub active : Bool
  pub roles : List String
  pub role : Option String
  pub must_change_password : Bool
  pub is_local_account : Bool
  pub auth_method : Option String

-- `roles[0] if roles else None`
abbrev first_name : List String → Option String
first_name [] = none
first_name (role ∷ roles) = some role

pub record PasswordChangeRequest : Type 0 where
  pub current_password : String
  pub new_password : String

abbrev pub external_account : String
external_account = "This account is managed by an external provider"

module _ (crypto : Crypto) where
  unfoldable pub get_current_user_profile : Time → Request → Action UserProfile
  get_current_user_profile now request = do
    current_user ← get_current_user crypto now request
    roles ← gets (λ db. order_by_name (role_names current_user.id db))
    pure (record {
      id = crypto.uuid_text current_user.id;
      email = current_user.email;
      name = current_user.full_name;
      active = current_user.is_active;
      roles = roles;
      role = first_name roles;
      must_change_password = local_password_change_required crypto now request current_user;
      is_local_account = is_local_account current_user;
      auth_method = central_auth_method crypto now request;
    })

  unfoldable pub update_current_user_profile : Time → String → Request → Action String
  update_current_user_profile now full_name request = do
    current_user ← get_current_user crypto now request
    raise_if (not (is_local_account current_user)) (http 409 external_account)
    modify (set_user current_user.id (λ u. record u { full_name = strip full_name }))
    audit "user.profile_updated" (some current_user.id) (some request) none [] false
    commit
    pure (strip full_name)

  abbrev pub new_password_set : Bytes → String → User → User
  new_password_set salt new_password u = record u {
    password_hash = some (hash_password crypto salt new_password);
    must_change_password = false;
  }

  unfoldable pub change_current_user_password :
      Time → Bytes → PasswordChangeRequest → Request → Action Unit
  change_current_user_password now salt payload request = do
    current_user ← get_current_user crypto now request
    raise_if (not (is_local_account current_user)) (http 409 external_account)
    raise_if (not (verify_password crypto payload.current_password current_user.password_hash))
        (http 400 "La contraseña actual no coincide")
    raise_if (payload.current_password == payload.new_password)
        (http 400 "La nueva contraseña debe ser diferente")
    modify (set_user current_user.id (new_password_set salt payload.new_password))
    revoke_all_for_user now current_user.id false
    audit "user.password_changed" (some current_user.id) (some request) none [] false
    commit

module _ (crypto : Crypto) (settings : Settings) where
  -- `expires_in` is the second answer.
  unfoldable pub csrf_token : Time → String → Request → Action (String × ℕ)
  csrf_token now nonce request = do
    current_user ← get_current_user crypto now request
    let payload = decode_access_token crypto now (cookie_or_blank crypto request.access_cookie)
    session_jti ← or_raise payload.jti (http 401 "Invalid authentication token")
    raise_if (session_jti == "") (http 401 "Invalid authentication token")
    pure (issue_csrf_token crypto settings now nonce session_jti, 30 * 60)
