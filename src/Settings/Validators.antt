-- ===== src/Settings/Validators.antt =====
-- app/config/settings.py: the validators that run before the program starts, and the values that
-- depend on the environment. A value that a validator refuses is none, and the program does not start.
use text.Mathlib.Text.{starts_with}
use orbita_backend.Prelude.{
  String, ◌<>◌, Bool, ◌≡◌, refl, sym, subst, true, false, not, ◌||◌, ◌==◌, text_comparable, Option,
  none, some, if◌then◌else◌, arith,
}
use orbita_backend.Prelude.Text.{strip, lower, strip_slashes, drop_prefix}
use orbita_backend.Settings.{
  Settings, resolved_public_base_url, csrf_signing_secret, rate_limit_signing_secret,
}

-- what the validator reads of urlparse(value)
pub record ParsedOrigin : Type 0 where
  pub scheme : String
  pub netloc : String
  pub path : String

-- the settings that the validators read, beside those of the program
pub record Deployment : Type 0 where
  pub settings : Settings
  pub database_url : String
  pub jwt_algorithm : String
  pub session_secret : String

-- `value.replace(old, new, 1)` where the value starts with `old`
unfoldable pub force_async_driver : String → String
force_async_driver value =
    if starts_with value "postgres://"
    then "postgresql+asyncpg://" <> drop_prefix "postgres://" value
    else if starts_with value "postgresql://"
    then "postgresql+asyncpg://" <> drop_prefix "postgresql://" value
    else value

-- `value.upper() != "RS256"`, for an ASCII value: `upper` and `lower` agree on which of those are equal.
unfoldable pub require_rs256 : String → Option String
require_rs256 value = if lower value == "rs256" then some "RS256" else none

unfoldable pub normalize_moodle_base_url : String → String
normalize_moodle_base_url value = strip_slashes (strip value)

unfoldable pub normalize_public_base_url : (String → ParsedOrigin) → String → Option String
normalize_public_base_url urlparse text =
    let value = strip_slashes (strip text) in
    let parsed = urlparse value in
    if value == ""
    then some value
    else if not (parsed.scheme == "http" || parsed.scheme == "https")
        || (parsed.netloc == "" || not (parsed.path == "" || parsed.path == "/"))
    then none
    else some value

abbrev pub is_production : Settings → Bool
is_production s = s.environment == "production"

unfoldable pub require_production_security_settings : Deployment → Option Deployment
require_production_security_settings d =
    let s = d.settings in
    if is_production s
    then if not (starts_with s.public_base_url "https://")
      then none
      else if d.session_secret == "" || (s.csrf_secret == "" || s.rate_limit_secret == "")
      then none
      else some d
    else some d

unfoldable pub session_signing_secret : Deployment → String
session_signing_secret d =
    if d.session_secret == "" then d.settings.jwt_secret else d.session_secret

unfoldable pub access_cookie_name : Settings → String
access_cookie_name s = if is_production s then "__Host-orbita_access" else "access_token"

unfoldable pub pending_session_cookie_name : Settings → String
pending_session_cookie_name s =
    if is_production s then "__Host-orbita_pending" else "orbita_pending"

unfoldable pub access_cookie_samesite : Settings → String
access_cookie_samesite s = if is_production s then "none" else "lax"

blank-not_https : (s : String) → (s == "") ≡ true → starts_with s "https://" ≡ false
blank-not_https s h =
    subst (λ t. starts_with t "https://" ≡ false) (sym ((text_comparable.same_iff s "").0 h)) refl

-- In production a program that starts signs sessions, CSRF tokens and rate-limit keys with secrets of
-- their own, which are not empty, and its public address is the configured one and uses HTTPS.
pub require_production-secrets :
    (d accepted : Deployment)
    → require_production_security_settings d ≡ some accepted
    → is_production d.settings ≡ true
    → (starts_with (resolved_public_base_url d.settings) "https://" ≡ true)
      × ((session_signing_secret d == "") ≡ false)
      × (session_signing_secret d ≡ d.session_secret)
      × (csrf_signing_secret d.settings ≡ d.settings.csrf_secret)
      × (rate_limit_signing_secret d.settings ≡ d.settings.rate_limit_secret)
unfolding require_production_security_settings session_signing_secret
require_production-secrets d accepted h production =
    ground (arith, blank-not_https d.settings.public_base_url)
