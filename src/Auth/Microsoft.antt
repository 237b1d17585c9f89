-- ===== src/Auth/Microsoft.antt =====
-- app/modules/auth/microsoft.py: which claims of an identity token are accepted. The signature and the
-- discovery document are checked by authlib, which decodes the token to the claims.
use orbita_backend.Prelude.{
  ℕ, ◌*◌, ◌⊎◌, inl, inr, String, ◌<>◌, Bool, not, ◌||◌, ◌==◌, text_comparable, leb, same_option,
  Option, none, some, List, contains, if◌then◌else◌,
}
use orbita_backend.Data.{Time}
use orbita_backend.Settings.{Settings}

-- `aud` is one name or a list of names
pub data Audience : Type 0 where
  one : Option String → Audience
  several : List String → Audience

-- A claim that is missing is none; `exp` is none where `int(expires_at)` raises too.
pub record MicrosoftClaims : Type 0 where
  pub tid : Option String
  pub oid : Option String
  pub email : Option String
  pub iss : Option String
  pub aud : Audience
  pub exp : Option ℕ
  pub name : Option String

-- MicrosoftTenantNotAllowedError, and the other ValueErrors
pub data Refusal : Type 0 where
  tenant_not_allowed : Option String → Refusal
  not_accepted : Refusal

-- tenant_id, oid, email and full name
abbrev pub Identity : Type 0
Identity = String × String × String × String

abbrev pub expected_issuer : Settings → String
expected_issuer settings =
    "https://login.microsoftonline.com/" <> (settings.microsoft_tenant_id <> "/v2.0")

abbrev pub microsoft_enabled : Settings → Bool
microsoft_enabled settings =
    if settings.enable_microsoft_login
    then not (settings.microsoft_tenant_id == "" || settings.microsoft_client_id == "")
    else Bool.false

abbrev pub text_or_blank : Option String → String
text_or_blank none = ""
text_or_blank (some s) = s

abbrev pub in_audience : String → Audience → Bool
in_audience client_id (one aud) = same_option aud (some client_id)
in_audience client_id (several auds) = contains client_id auds

abbrev pub is_expired : Time → Option ℕ → Bool
is_expired now none = Bool.true
is_expired now (some exp) = leb (exp * 1000000) now

-- `claims.get("name") or email`
abbrev name_or : Option String → String → String
name_or none email = email
name_or (some name) email = if name == "" then email else name

unfoldable pub validate_microsoft_claims : Settings → Time → MicrosoftClaims → Refusal ⊎ Identity
validate_microsoft_claims settings now claims =
    if not (microsoft_enabled settings)
    then inl not_accepted
    else if not (same_option claims.tid (some settings.microsoft_tenant_id))
    then inl (tenant_not_allowed claims.tid)
    else if not (same_option claims.iss (some (expected_issuer settings)))
        || (text_or_blank claims.oid == "" || text_or_blank claims.email == "")
    then inl not_accepted
    else if not (in_audience settings.microsoft_client_id claims.aud)
    then inl not_accepted
    else if is_expired now claims.exp
    then inl not_accepted
    else inr (
      text_or_blank claims.tid,
      text_or_blank claims.oid,
      text_or_blank claims.email,
      name_or claims.name (text_or_blank claims.email),
    )
