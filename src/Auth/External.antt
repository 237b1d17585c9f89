-- ===== src/Auth/External.antt =====
-- app/modules/auth/router.py: a central session for an account of Moodle, and what the two
-- external providers share. What the HTTP calls return is an argument.
use orbita_backend.Prelude.{
  inl, inr, String, ◌<>◌, Bool, true, not, Option, none, some, List, [], ◌∷◌,
}
use orbita_backend.Prelude.Text.{strip, lower}
use orbita_backend.Data.{Db, Uuid, Time}
use orbita_backend.Http.{Request}
use orbita_backend.Settings.{Settings, moodle_configured}
use orbita_backend.Crypto.{Crypto}
use orbita_backend.Exec.{
  Action, Error, pure, raise, gets, catch, raise_if, http, rate_limited, provider_unavailable,
  invalid_institutional_email, identity_link_conflict, ◌>>=◌, ◌>>◌,
}
use orbita_backend.Access.Audit.{audit, sync_moodle_clan, Details}
use orbita_backend.Access.Sources.{sync_moodle_role}
use orbita_backend.RateLimit.{ensure_allowed, record_failure, record_attempt, clear_success}
use orbita_backend.Identity.{
  Draw, Account, Event, IdentityResolution, provider_email_changed, canonical_email_promoted,
  email_mismatch, get_provider, active_provider, resolve,
}
use orbita_backend.Auth.Moodle.{
  Answers, Reply, MoodleAuthenticatedUser, authenticate, mapped_orbita_role, credentials_error,
  unavailable_error,
}
use orbita_backend.Auth.Login.{issue_central_session, refuse_limited, too_many_attempts}

abbrev service_unavailable : String
service_unavailable =
    "El servicio de autenticación no está disponible temporalmente. Intenta nuevamente."

-- the name and the details of an event of a resolution
abbrev event_name : Event → String
event_name (provider_email_changed code previous new) = "identity.provider_email_changed"
event_name (canonical_email_promoted code new) = "identity.canonical_email_promoted"
event_name (email_mismatch code current incoming) = "identity.email_mismatch"

abbrev event_details : Event → Details
event_details (provider_email_changed code previous new) =
    ("provider", some code) ∷ ("previous_email", previous) ∷ ("new_email", some new) ∷ []
event_details (canonical_email_promoted code new) =
    ("provider", some code) ∷ ("new_email", some new) ∷ []
event_details (email_mismatch code current incoming) =
    ("provider", some code) ∷ ("canonical_email", current) ∷ ("provider_email", some incoming) ∷ []

abbrev pub audit_events : Uuid → Request → List Event → Action Unit
audit_events user_id request [] = pure tt
audit_events user_id request (e ∷ es) = do
  audit (event_name e) (some user_id) (some request) none (event_details e) true
  audit_events user_id request es

-- `moodle_provider is None or not moodle_provider.active or not MoodleClient(settings).configured`
abbrev moodle_is_off : Settings → Db → Bool
moodle_is_off settings db = elim (active_provider (get_provider "moodle" db)) [
  | none ↦ true
  | some provider ↦ not (moodle_configured settings)
]

abbrev no_valid_email : String
no_valid_email =
    "Moodle no devolvió un correo válido para vincular tu cuenta. Contacta a un administrador."

abbrev link_conflict : String
link_conflict =
    "No pudimos vincular automáticamente tu cuenta institucional. Contacta a un administrador para validar tu acceso."

-- the exception handlers of `resolve` in moodle_login
abbrev refuse_account : {A : Type 0} → Request → Error → Action A
refuse_account request provider_unavailable = raise (http 503 service_unavailable)
refuse_account request invalid_institutional_email = do
  audit "identity.moodle_invalid_email" none (some request) none [] true
  raise (http 403 no_valid_email)
refuse_account request (identity_link_conflict reason) = do
  audit "identity.link_conflict" none (some request) none (("provider", some "moodle") ∷ []) true
  raise (http 409 link_conflict)
refuse_account request e = raise e

-- what the request draws: the time and the ids of rows (identity), the id of the token, and the id of
-- a new attribute
pub record LoginDraw : Type 0 where
  pub identity : Draw
  pub jti : String
  pub attribute_id : Uuid

pub record MoodleLoginRequest : Type 0 where
  pub username : String
  pub password : String

module _ (validate_email : String → Option String) (crypto : Crypto) (settings : Settings) where
  abbrev moodle_account : MoodleAuthenticatedUser → Account
  moodle_account user = record {
    provider_code = "moodle";
    user_id = user.user_id;
    tenant_id = none;
    email = some user.email;
    full_name = user.full_name;
  }

  abbrev finish_moodle :
      LoginDraw → String → MoodleAuthenticatedUser → Request → IdentityResolution → Action String
  finish_moodle draw username moodle_user request resolution = do
    clear_success crypto settings username request
    resolved_role ←
        sync_moodle_role resolution.user.id (mapped_orbita_role moodle_user.role_shortnames)
    sync_moodle_clan draw.attribute_id draw.identity.now resolution.user.id
        (mapped_orbita_role moodle_user.role_shortnames) moodle_user.clan_name
        moodle_user.clan_status
    audit "access.moodle_role_synchronized" (some resolution.user.id) (some request) none
        (("role", some resolved_role) ∷ []) true
    audit_events resolution.user.id request resolution.events
    issue_central_session crypto settings draw.identity.now draw.jti resolution.user request
        "moodle" "login.moodle"

  abbrev after_moodle : LoginDraw → MoodleLoginRequest → Request → Reply → Action String
  after_moodle draw payload request (inl credentials_error) = do
    record_failure crypto settings draw.identity.now payload.username request
    audit "login.moodle_failed" none (some request) none [] true
    raise (http 401 "Credenciales de Moodle inválidas")
  after_moodle draw payload request (inl unavailable_error) = do
    audit "login.moodle_unavailable" none (some request) none [] true
    raise (http 503 service_unavailable)
  after_moodle draw payload request (inr moodle_user) = do
    resolution ←
        catch (resolve validate_email settings draw.identity (moodle_account moodle_user) true)
          (refuse_account request)
    finish_moodle draw payload.username moodle_user request resolution

  -- `ask` is the conversation with Moodle for a name and a password
  unfoldable pub moodle_login :
      (String → String → Answers) → LoginDraw → MoodleLoginRequest → Request → Action String
  moodle_login ask draw payload request = do
    off ← gets (moodle_is_off settings)
    raise_if off (http 503 service_unavailable)
    catch (ensure_allowed crypto settings draw.identity.now payload.username request)
        (refuse_limited too_many_attempts)
    after_moodle draw payload request
        (authenticate validate_email settings (ask payload.username payload.password))

  abbrev too_many_requests : String
  too_many_requests = "Demasiadas solicitudes. Intenta nuevamente más tarde."

  abbrev refuse_reset : Request → Error → Action Unit
  refuse_reset request rate_limited = do
    audit "moodle.password_reset_rate_limited" none (some request) none [] true
    raise (http 429 too_many_requests)
  refuse_reset request e = raise e

  abbrev reset_subject : String → String → String
  reset_subject identifier_type identifier =
      "moodle-reset:" <> (identifier_type <> (":" <> lower (strip identifier)))

  -- `accepts` is whether Moodle accepts the request for the kind of identifier and the identifier
  unfoldable pub request_moodle_password_reset :
      (String → String → Bool) → Time → String → String → Request → Action Unit
  request_moodle_password_reset accepts now identifier_type identifier request = do
    catch (ensure_allowed crypto settings now (reset_subject identifier_type identifier) request)
        (refuse_reset request)
    off ← gets (moodle_is_off settings)
    raise_if off (http 503 service_unavailable)
    raise_if (not (accepts identifier_type (strip identifier))) (http 503 service_unavailable)
    record_attempt crypto settings now (reset_subject identifier_type identifier) request
    audit "moodle.password_reset_requested" none (some request) none [] true
