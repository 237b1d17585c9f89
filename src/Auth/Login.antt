-- ===== src/Auth/Login.antt =====
-- app/modules/auth/router.py: a central session for a local account. The answer of an endpoint that
-- sets the cookie is the token that it sets; the cookie's attributes are constants.
pub mod Guessing
pub mod Sound
use orbita_backend.Prelude.{
  String, ◌<>◌, Bool, true, false, not, Option, none, some, [], ◌∷◌, if◌then◌else◌,
}
use orbita_backend.Prelude.Text.{strip, lower}
use orbita_backend.Prelude.Names.{order_by_name}
use orbita_backend.Data.{Db, Uuid, Time, User}
use orbita_backend.Http.{Request}
use orbita_backend.Settings.{Settings}
use orbita_backend.Crypto.{Crypto, Bytes}
use orbita_backend.Exec.{
  Action, Error, pure, raise, gets, rollback, catch, raise_if, http, rate_limited, integrity_error,
  ◌>>=◌, ◌>>◌,
}
use orbita_backend.Access.Audit.{audit}
use orbita_backend.Access.Sources.{ensure_default_role}
use orbita_backend.Apps.Policy.{role_names}
use orbita_backend.RateLimit.{ensure_allowed, record_failure, clear_success}
use orbita_backend.Users.{find_by_email, create_local_user}
use orbita_backend.Sso.Tokens.{create_access_token}
use orbita_backend.Sso.Client.{user_is_unavailable}
use orbita_backend.Auth.Passwords.{hash_password, verify_password}

abbrev pub account_disabled : String
account_disabled = "Tu cuenta se encuentra deshabilitada. Contacta a un administrador."

abbrev pub too_many_attempts : String
too_many_attempts = "Demasiados intentos. Intenta nuevamente más tarde."

-- `except MoodleRateLimitedError`
abbrev pub refuse_limited : String → Error → Action Unit
refuse_limited detail rate_limited = raise (http 429 detail)
refuse_limited detail e = raise e

-- what the request draws: the time, the id of the token, the salt and the id of a new user
pub record Draw : Type 0 where
  pub now : Time
  pub jti : String
  pub salt : Bytes
  pub user_id : Uuid

pub record PasswordLoginRequest : Type 0 where
  pub email : String
  pub password : String

pub record RegisterRequest : Type 0 where
  pub email : String
  pub password : String
  pub full_name : String

module _ (crypto : Crypto) (settings : Settings) where
  abbrev pub session_token : Time → String → User → Db → String → String
  session_token now jti user db auth_method =
      create_access_token crypto now settings.jwt_expire_minutes (crypto.uuid_text user.id)
        user.email (order_by_name (role_names user.id db)) auth_method jti

  -- _issue_central_session
  unfoldable pub issue_central_session :
      Time → String → User → Request → String → String → Action String
  issue_central_session now jti user request auth_method event = do
    raise_if (user_is_unavailable user) (http 403 account_disabled)
    ensure_default_role user.id true
    access_token ← gets (λ db. session_token now jti user db auth_method)
    audit event (some user.id) (some request) none [] true
    pure access_token

  abbrev pub throttle_subject : String → String
  throttle_subject email = "local:" <> lower (strip email)

  -- the user of the address, if the password is right
  abbrev pub matching_user : String → Option User → Option User
  matching_user password none = none
  matching_user password (some user) =
      if verify_password crypto password user.password_hash then some user else none

  -- the branches after the password: refused, disabled, and let in
  abbrev pub finish_login : Draw → PasswordLoginRequest → Request → Option User → Action String
  finish_login draw payload request none = do
    record_failure crypto settings draw.now (throttle_subject payload.email) request
    audit "login.password_failed" none (some request) none (("email", some payload.email) ∷ []) true
    raise (http 401 "Invalid email or password")
  finish_login draw payload request (some user) =
      if user_is_unavailable user
      then (do
        audit "login.inactive" (some user.id) (some request) none [] true
        raise (http 403 account_disabled))
      else (do
        clear_success crypto settings (throttle_subject payload.email) request
        issue_central_session draw.now draw.jti user request "local" "login.local")

  abbrev pub try_password : Draw → PasswordLoginRequest → Request → Action String
  try_password draw payload request = do
    catch (ensure_allowed crypto settings draw.now (throttle_subject payload.email) request)
        (refuse_limited too_many_attempts)
    found ← gets (find_by_email payload.email)
    finish_login draw payload request (matching_user payload.password found)

  unfoldable pub password_login : Draw → PasswordLoginRequest → Request → Action String
  password_login draw payload request = do
    raise_if (not settings.enable_local_login) (http 404 "Local login is disabled")
    try_password draw payload request

  -- `except IntegrityError`
  abbrev pub refuse_registered : {A : Type 0} → Error → Action A
  refuse_registered integrity_error = rollback >> raise (http 409 "Email already registered")
  refuse_registered e = raise e

  abbrev is_registered : Option User → Bool
  is_registered none = false
  is_registered (some user) = true

  -- register_user, which no route exposes
  unfoldable pub register_user : Draw → RegisterRequest → Request → Action String
  register_user draw payload request = do
    existing ← gets (find_by_email payload.email)
    raise_if (is_registered existing) (http 409 "Email already registered")
    user ←
        catch
          (create_local_user draw.user_id payload.email payload.full_name
            (hash_password crypto draw.salt payload.password) false false true)
          refuse_registered
    ensure_default_role user.id true
    access_token ← gets (λ db. session_token draw.now draw.jti user db "local")
    audit "register" (some user.id) (some request) none [] true
    pure access_token
