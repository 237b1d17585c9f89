-- ===== src/Adapter.antt =====
-- clients/fastapi/orbita_sso.py: the adapter that another app's backend signs its users in with. A
-- call keeps the discovery document and the key set that it fetched, and logs here what it sends;
-- what it raises comes back beside that state. httpx, urllib.parse and python-jose are parameters,
-- and so is what the server answers, which may depend on everything sent so far.
mod Base
pub mod Cached
pub mod Quiet
pub mod Posts
pub mod Accepts
pub mod Served
unfoldable pub use Base.*
use orbita_backend.Prelude.{
  ℕ, String, ◌<>◌, Bool, true, false, not, ◌&&◌, ◌||◌, ◌==◌, text_comparable, same_option, Option,
  none, some, List, [], ◌∷◌, ◌++◌, first, all, is_some, is_empty, if◌then◌else◌,
}
use orbita_backend.Prelude.Text.{strip_slashes, replace}
use orbita_backend.Data.{Time}
use orbita_backend.Sso.Exchange.{TokenExchangeRequest}

abbrev pub checked_fields : List String
checked_fields =
    "authorization_endpoint" ∷ "token_endpoint" ∷ "jwks_uri" ∷ "introspection_endpoint"
    ∷ "role_catalog_sync_endpoint" ∷ []

-- str(discovery.get(field, "")).replace("{client_id}", "client")
abbrev pub or_blank : Option String → String
or_blank none = ""
or_blank (some address) = address

abbrev pub endpoint_of : Discovery → String → String
endpoint_of document field = replace "{client_id}" "client" (or_blank (document field))

abbrev pub is_filled_text : Option Value → Bool
is_filled_text (some (Value.text s)) = not (s == "")
is_filled_text (some (Value.array items)) = false
is_filled_text (some Value.other) = false
is_filled_text none = false

abbrev pub is_filled_item : Item → Bool
is_filled_item (Item.text s) = not (s == "")
is_filled_item Item.other = false

abbrev pub is_filled_list : Option Value → Bool
is_filled_list (some (Value.array items)) = not (is_empty items) && all is_filled_item items
is_filled_list (some (Value.text s)) = false
is_filled_list (some Value.other) = false
is_filled_list none = false

-- the test of the required claims
abbrev pub has_required_claims : ClaimSet → Bool
has_required_claims claims =
    all (λ n. is_some (claims n)) ("sub" ∷ "email" ∷ "name" ∷ "roles" ∷ "exp" ∷ "jti" ∷ [])
    && (all (λ n. is_filled_text (claims n)) ("sub" ∷ "email" ∷ "name" ∷ "jti" ∷ [])
        && is_filled_list (claims "roles"))

-- next((item for item in jwks["keys"] if item.get("kid") == kid), None)
abbrev pub find_key : Option String → List Jwk → Option Jwk
find_key kid = first (λ k. same_option k.kid kid)

module _ (web : Web) (config : OrbitaSsoConfig) where
  -- whether an address has the scheme and the host of the configured one
  abbrev pub same_origin : String → Bool
  same_origin address =
      let endpoint = web.urlparse address in
      let configured = web.urlparse config.base_url in
      endpoint.scheme == configured.scheme && endpoint.netloc == configured.netloc

  -- The loop of _validate_discovery_origins. Its second test repeats the scheme's.
  abbrev pub check_fields : Discovery → List String → Call (Unit {0})
  check_fields document [] c = (answer tt, c)
  check_fields document (field ∷ fields) c =
      let rest = check_fields document fields c in
      let endpoint = web.urlparse (endpoint_of document field) in
      if not (same_origin (endpoint_of document field))
      then (failure (value_error ("outside the configured origin: " <> field)), c)
      else if (web.urlparse config.base_url).scheme == "https" && not (endpoint.scheme == "https")
      then (failure (value_error ("not HTTPS: " <> field)), c)
      else rest

  abbrev pub is_absolute : Bool
  is_absolute =
      let configured = web.urlparse config.base_url in
      (configured.scheme == "http" || configured.scheme == "https") && not (configured.netloc == "")

  unfoldable pub validate_discovery_origins : Discovery → Call (Unit {0})
  validate_discovery_origins document = do
    fail_if (not is_absolute) (value_error "ORBITA_SSO_BASE_URL must be an absolute URL")
    check_fields document checked_fields

  abbrev pub is_supported : Discovery → Bool
  is_supported document = same_option (document "contract_version") (some "1.0")

  -- The document is kept before it is tested.
  abbrev pub accept_discovery : Discovery → Call Discovery
  accept_discovery document = do
    keep_discovery document
    fail_if (not (is_supported document)) (value_error "Unsupported Orbita contract")
    validate_discovery_origins document
    return document

  abbrev pub fetch_discovery : Call Discovery
  fetch_discovery = do
    document ←
        send (get (strip_slashes config.base_url <> "/api/.well-known/orbita-configuration"))
          web.configuration
    accept_discovery document

  abbrev pub kept_or_fetched : Option Discovery → Call Discovery
  kept_or_fetched none = fetch_discovery
  kept_or_fetched (some document) = return document

  unfoldable pub discovery : Call Discovery
  discovery c = kept_or_fetched c.known_discovery c

  unfoldable pub endpoint : String → Call String
  endpoint field = do document ← discovery; or_fail (document field) (key_error field)

  unfoldable pub authorization_url : String → Call String
  authorization_url state = do
    address ← endpoint "authorization_endpoint"
    let query = web.urlencode (
        ("client_id", config.client_id)
        ∷ ("redirect_uri", config.redirect_uri)
        ∷ ("state", state)
        ∷ [])
    return (address <> "?" <> query)

  abbrev pub fetch_jwks : Call Jwks
  fetch_jwks = do
    address ← endpoint "jwks_uri"
    keys ← send (get address) web.key_set
    keep_jwks keys
    return keys

  abbrev pub kept_jwks : Option Jwks → Call Jwks
  kept_jwks none = fetch_jwks
  kept_jwks (some keys) = return keys

  -- jwks(), and jwks(force_refresh=True)
  unfoldable pub jwks : Bool → Call Jwks
  jwks true c = fetch_jwks c
  jwks false c = kept_jwks c.known_jwks c

  abbrev pub refreshed_key : Option String → Option Jwk → Call Jwk
  refreshed_key kid (some key) = return key
  refreshed_key kid none = do
    fetched ← jwks true
    keys ← or_fail fetched.keys (key_error "keys")
    or_fail (find_key kid keys) (value_error "Orbita JWT key id is unknown")

  abbrev pub checked_claims : Time → String → Jwk → Call ClaimSet
  checked_claims now token key = do
    claims ← or_fail (web.decode now token key config.client_id) jwt_error
    fail_if (not (has_required_claims claims)) (value_error "Orbita JWT is missing required claims")
    return claims

  unfoldable pub verify_token : Time → String → Call ClaimSet
  verify_token now token = do
    known ← jwks false
    header ← or_fail (web.get_unverified_header token) jwt_error
    fail_if (not (same_option header.alg (some "RS256")))
        (value_error "Orbita JWT algorithm is not RS256")
    keys ← or_fail known.keys (key_error "keys")
    key ← refreshed_key header.kid (find_key header.kid keys)
    checked_claims now token key

  abbrev pub token_request : String → TokenExchangeRequest
  token_request code = record {
    code = code;
    client_id = config.client_id;
    client_secret = config.client_secret;
    redirect_uri = config.redirect_uri;
  }

  unfoldable pub exchange_at : Time → String → String → Call (String × ClaimSet)
  exchange_at now code address = do
    body ← send (post address (token_request code)) web.token
    token ← or_fail body (key_error "access_token")
    claims ← verify_token now token
    return (token, claims)

  unfoldable pub exchange_code : Time → String → Call (String × ClaimSet)
  exchange_code now code = endpoint "token_endpoint" >>= exchange_at now code

  unfoldable pub sync_role_catalog : List (String × String) → Call String
  sync_role_catalog roles = do
    template ← endpoint "role_catalog_sync_endpoint"
    let address = replace "{client_id}" config.client_id template
    send (put address (record { client_secret = config.client_secret; roles = roles })) web.catalog
