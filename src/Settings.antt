-- ===== src/Settings.antt =====
-- app/config/settings.py: the settings that the modelled code reads, and the values derived from
-- them. The environment and the .env file are read by pydantic-settings; the validators of a
-- deployment (`require_rs256` and the like) run before the program starts.
pub mod Validators
use orbita_backend.Prelude.{
  ℕ, String, Bool, ◌==◌, text_comparable, List, [], ◌∷◌, ◌++◌, if◌then◌else◌,
}
use orbita_backend.Prelude.Text.{strip, lower, split_commas, strip_slashes}

pub record Settings : Type 0 where
  pub environment : String
  pub frontend_url : String
  pub frontend_origins : String
  pub public_base_url : String
  -- f"http://localhost:{self.port}"
  pub local_base_url : String
  pub enable_microsoft_login : Bool
  pub microsoft_tenant_id : String
  pub microsoft_client_id : String
  pub moodle_base_url : String
  pub moodle_service : String
  pub enable_local_login : Bool
  pub allowed_identity_email_domains : String
  pub allow_moodle_noninstitutional_email_linking : Bool
  pub moodle_login_pair_limit : ℕ
  pub moodle_login_ip_limit : ℕ
  pub moodle_login_window_minutes : ℕ
  pub jwt_secret : String
  pub jwt_expire_minutes : ℕ
  pub csrf_secret : String
  pub rate_limit_secret : String
  pub platform_admin_emails : String

-- `a or b` on texts
abbrev or_text : String → String → String
or_text a b = if a == "" then b else a

-- `f(x) for x in xs if x.strip()`
abbrev pub map_nonblank : (String → String) → List String → List String
map_nonblank f [] = []
map_nonblank f (x ∷ xs) = if strip x == "" then map_nonblank f xs else f x ∷ map_nonblank f xs

unfoldable pub identity_email_domains : Settings → List String
identity_email_domains s =
    map_nonblank (λ d. lower (strip d)) (split_commas s.allowed_identity_email_domains)

unfoldable pub allowed_frontend_origins : Settings → List String
allowed_frontend_origins s =
    let origins =
      map_nonblank (λ o. strip_slashes (strip o))
        (split_commas (or_text s.frontend_origins s.frontend_url)) in
    if s.environment == "development"
    then origins ++ "http://localhost:5173" ∷ "http://127.0.0.1:5173" ∷ []
    else origins

abbrev pub resolved_public_base_url : Settings → String
resolved_public_base_url s = or_text s.public_base_url s.local_base_url

abbrev pub csrf_signing_secret : Settings → String
csrf_signing_secret s = or_text s.csrf_secret s.jwt_secret

abbrev pub rate_limit_signing_secret : Settings → String
rate_limit_signing_secret s = or_text s.rate_limit_secret s.jwt_secret

-- MoodleClient.configured
abbrev pub moodle_configured : Settings → Bool
moodle_configured s =
    if s.moodle_base_url == ""
    then Bool.false
    else if s.moodle_service == ""
    then Bool.false
    else Bool.true
