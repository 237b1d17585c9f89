-- ===== src/Routers/Schemas/Fields.antt =====
-- The constraints of single fields in app/modules/apps/schemas.py, app/modules/auth/schemas.py and
-- app/modules/users/schemas.py: lengths, patterns and the URL checks, with `urlparse` of urllib as a
-- parameter. A body that is refused is none. An address of EmailStr is checked by pydantic.
use orbita_backend.Prelude.{
  ℕ, suc, String, Bool, true, false, not, ◌&&◌, ◌||◌, ◌==◌, text_comparable, number_comparable, leb,
  Option, none, some, List, all, if◌then◌else◌,
}
use Prim.Native.Char.{Char, code}
use orbita_backend.Prelude.Queries.{map_option}
use orbita_backend.Sso.Exchange.{TokenExchangeRequest}
use orbita_backend.Apps.Catalog.{RoleCatalogEntry}
use orbita_backend.Routers.Schemas.{validate_released_claims, length, validate_catalog}

-- len(text)
abbrev pub size : String → ℕ
size String.[] = 0
size (String.◌∷◌ c s) = suc (size s)

-- Field(min_length=…, max_length=…)
abbrev pub has_length : ℕ → ℕ → String → Bool
has_length low high s = leb low (size s) && leb (size s) high

-- [a-z0-9]
abbrev pub is_alphanumeric : Char → Bool
is_alphanumeric c = (leb 97 (code c) && leb (code c) 122) || (leb 48 (code c) && leb (code c) 57)

abbrev pub every : (Char → Bool) → String → Bool
every p String.[] = true
every p (String.◌∷◌ c s) = p c && every p s

-- [a-z0-9._-], and [a-z0-9-]
abbrev pub is_key_char : Char → Bool
is_key_char c = is_alphanumeric c || (code c == b'.' || (code c == b'_' || code c == b'-'))

abbrev is_slug_char : Char → Bool
is_slug_char c = is_alphanumeric c || code c == b'-'

-- ^[a-z0-9][a-z0-9._-]*$
abbrev pub is_key : String → Bool
is_key String.[] = false
is_key (String.◌∷◌ c s) = is_alphanumeric c && every is_key_char s

-- ^[a-z0-9][a-z0-9-]*$
abbrev pub is_slug : String → Bool
is_slug String.[] = false
is_slug (String.◌∷◌ c s) = is_alphanumeric c && every is_slug_char s

-- ^(single|multiple)$
abbrev pub is_cardinality : String → Bool
is_cardinality s = s == "single" || s == "multiple"

-- AppCreate.client_id
abbrev pub is_client_id : String → Bool
is_client_id s = has_length 2 255 s && is_key s

abbrev pub short_option : ℕ → Option String → Bool
short_option high none = true
short_option high (some s) = leb (size s) high

-- what the validators read of urlparse(value)
pub record ParsedUrl : Type 0 where
  pub scheme : String
  pub netloc : String
  pub fragment : String

pub record AppCreate : Type 0 where
  pub client_id : String
  pub slug : String
  pub name : String
  pub description : String
  pub url : String
  pub icon : Option String
  pub role_cardinality : String
  pub migration_access_enabled : Bool
  pub jit_role_adoption_enabled : Bool
  pub released_claims : List String

pub record AppPolicyUpdate : Type 0 where
  pub role_cardinality : String
  pub migration_access_enabled : Bool
  pub jit_role_adoption_enabled : Bool
  pub released_claims : List String

-- released_claims: `max_length=20`, and then the validator
abbrev pub claims_field : List String → Option (List String)
claims_field values = if leb (length values) 20 then validate_released_claims values else none

module _ (urlparse : String → ParsedUrl) where
  abbrev pub is_absolute_url : String → Bool
  is_absolute_url value =
      let parsed = urlparse value in
      (parsed.scheme == "http" || parsed.scheme == "https") && not (parsed.netloc == "")

  -- AppCreate.validate_launcher_url
  unfoldable pub validate_launcher_url : String → Option String
  validate_launcher_url value = if is_absolute_url value then some value else none

  -- RedirectURICreate.validate_redirect_uri and PostLogoutURICreate.validate_post_logout_uri
  unfoldable pub validate_redirect_uri : String → Option String
  validate_redirect_uri value =
      if is_absolute_url value && (urlparse value).fragment == "" then some value else none

  abbrev pub with_claims : AppCreate → Option (List String) → Option AppCreate
  with_claims body = map_option (λ claims. record body { released_claims = claims })

  abbrev pub fields_of_app : AppCreate → Bool
  fields_of_app body =
      is_client_id body.client_id
      && (has_length 2 80 body.slug
          && is_slug body.slug
          && (has_length 1 120 body.name
              && (has_length 1 500 body.description
                  && (has_length 8 2048 body.url
                      && (short_option 50 body.icon
                          && (is_cardinality body.role_cardinality && is_absolute_url body.url))))))

  unfoldable pub validate_app_create : AppCreate → Option AppCreate
  validate_app_create body =
      if fields_of_app body then with_claims body (claims_field body.released_claims) else none

unfoldable pub validate_app_policy : AppPolicyUpdate → Option AppPolicyUpdate
validate_app_policy body =
    if is_cardinality body.role_cardinality
    then map_option (λ claims. record body { released_claims = claims })
        (claims_field body.released_claims)
    else none

-- GlobalRoleMappingUpsert: the global role and the app's role
unfoldable pub validate_mapping : String → String → Option (String × String)
validate_mapping global_role app_role =
    if is_key global_role
      && (leb (size global_role) 50 && (is_key app_role && leb (size app_role) 80))
    then some (global_role, app_role)
    else none

-- RoleCreate.name
unfoldable pub validate_role_name : String → Option String
validate_role_name name = if has_length 1 80 name && is_key name then some name else none

abbrev pub is_catalog_entry : RoleCatalogEntry → Bool
is_catalog_entry entry =
    has_length 1 80 entry.key
    && is_key entry.key
    && (has_length 1 120 entry.display_name && short_option 500 entry.description)

-- RoleCatalogSyncRequest: its fields, and then unique_role_keys
unfoldable pub validate_sync_request :
    String → List RoleCatalogEntry → Option (String × List RoleCatalogEntry)
unfolding validate_catalog
validate_sync_request client_secret roles =
    if has_length 1 512 client_secret && all is_catalog_entry roles
    then map_option (λ valid. (client_secret, valid)) (validate_catalog roles)
    else none

-- TokenExchangeRequest
unfoldable pub validate_token_exchange : TokenExchangeRequest → Option TokenExchangeRequest
validate_token_exchange body =
    if has_length 32 512 body.code
      && (has_length 2 255 body.client_id
          && (has_length 1 512 body.client_secret && has_length 8 2048 body.redirect_uri))
    then some body
    else none

-- IntrospectRequest and RoleAdoptionRequest: token, client id, secret, and the role of an adoption
unfoldable pub validate_introspect : String → String → String → Bool
validate_introspect token client_id client_secret =
    has_length 32 8192 token && (has_length 2 255 client_id && has_length 1 512 client_secret)

unfoldable pub validate_adoption : String → String → String → String → Bool
unfolding validate_introspect
validate_adoption token client_id client_secret role =
    validate_introspect token client_id client_secret && (is_key role && leb (size role) 80)

-- LogoutTicketRequest
unfoldable pub validate_logout_ticket : String → String → String → Bool
validate_logout_ticket client_id client_secret post_logout_uri =
    has_length 2 255 client_id
    && (has_length 1 512 client_secret && has_length 8 2048 post_logout_uri)

-- PasswordLoginRequest.password, and both passwords of PasswordChangeRequest
unfoldable pub validate_password : String → Bool
validate_password password = has_length 8 128 password

-- MoodleLoginRequest, MoodlePasswordResetRequest, and the full name of a profile or a new account
unfoldable pub validate_moodle_login : String → String → Bool
validate_moodle_login username password = has_length 1 255 username && has_length 1 256 password

unfoldable pub validate_identifier : String → Bool
validate_identifier identifier = has_length 1 255 identifier

unfoldable pub validate_full_name : String → Bool
validate_full_name full_name = has_length 1 255 full_name
