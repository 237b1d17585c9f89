-- ===== src/Adapter/Served.antt =====
-- app/main.py's orbita_configuration, and the client that reads it.
use text.Mathlib.TextLemmas.{cons-append, nil-append}
use text.Mathlib.TextPositions.{eq_refl}
use text.Mathlib.TextEquality.{eq_iff}
use orbita_backend.Prelude.{
  String, ◌<>◌, ◌≡◌, refl, true, false, not, ◌&&◌, ◌==◌, text_comparable, number_comparable, none,
  some, all, List, [], ◌∷◌, if◌then◌else◌, arith,
}
use orbita_backend.Prelude.Text.{strip_slashes, replace, replace_after, has_code}
use orbita_backend.Settings.{Settings, resolved_public_base_url}
use orbita_backend.Adapter.{
  check_fields, OrbitaSsoConfig, OrbitaSsoClient, Web, Discovery, accept_discovery, answer,
  is_absolute, same_origin, endpoint_of, validate_discovery_origins, checked_fields,
}

-- the discovery document
pub record OrbitaConfiguration : Type 0 where
  pub contract_version : String
  pub issuer : String
  pub authorization_endpoint : String
  pub token_endpoint : String
  pub jwks_uri : String
  pub introspection_endpoint : String
  pub role_adoption_endpoint : String
  pub logout_ticket_endpoint : String
  pub role_catalog_sync_endpoint : String
  pub token_signing_alg_values_supported : List String
  pub claims_supported : List String

abbrev pub issuer_of : Settings → String
issuer_of settings = strip_slashes (resolved_public_base_url settings)

unfoldable pub orbita_configuration : Settings → OrbitaConfiguration
orbita_configuration settings =
    let issuer = issuer_of settings in
    record {
      contract_version = "1.0";
      issuer = issuer;
      authorization_endpoint = issuer <> "/api/auth/authorize";
      token_endpoint = issuer <> "/api/auth/token";
      jwks_uri = issuer <> "/api/.well-known/jwks.json";
      introspection_endpoint = issuer <> "/api/auth/introspect";
      role_adoption_endpoint = issuer <> "/api/auth/adopt-role";
      logout_ticket_endpoint = issuer <> "/api/auth/logout-ticket";
      role_catalog_sync_endpoint = issuer <> "/api/apps/{client_id}/role-catalog";
      token_signing_alg_values_supported = "RS256" ∷ [];
      claims_supported =
          "sub" ∷ "email" ∷ "name" ∷ "aud" ∷ "roles" ∷ "jti" ∷ "exp" ∷ "migration" ∷ "attributes"
          ∷ [];
    }

-- Its texts, as the client reads them by their keys. It reads neither of the two lists.
abbrev pub as_document : OrbitaConfiguration → Discovery
as_document d key =
    if key == "contract_version"
    then some d.contract_version
    else if key == "issuer"
    then some d.issuer
    else if key == "authorization_endpoint"
    then some d.authorization_endpoint
    else if key == "token_endpoint"
    then some d.token_endpoint
    else if key == "jwks_uri"
    then some d.jwks_uri
    else if key == "introspection_endpoint"
    then some d.introspection_endpoint
    else if key == "role_adoption_endpoint"
    then some d.role_adoption_endpoint
    else if key == "logout_ticket_endpoint"
    then some d.logout_ticket_endpoint
    else if key == "role_catalog_sync_endpoint"
    then some d.role_catalog_sync_endpoint
    else none

-- What urllib.parse documents: a path after the address of a server leaves its scheme and its host.
pub record IsServer (web : Web) (issuer base_url : String) : Type 0 where
  pub scheme :
      (path : String)
      → (web.urlparse (issuer <> ("/api/" <> path))).scheme ≡ (web.urlparse base_url).scheme
  pub netloc :
      (path : String)
      → (web.urlparse (issuer <> ("/api/" <> path))).netloc ≡ (web.urlparse base_url).netloc

-- Nothing is replaced before the first brace.
replace-append :
    (old new a b : String)
    → has_code b'{' a ≡ false
    → replace (String.◌∷◌ "{" old) new (a <> b) ≡ a <> replace (String.◌∷◌ "{" old) new b
unfolding replace
replace-append old new String.[] b h =
    rw (nil-append b, nil-append (replace_after (String.◌∷◌ "{" old) new 0 b)) refl
replace-append old new (String.◌∷◌ c a) b h =
    rw (cons-append c a b, cons-append c a (replace_after (String.◌∷◌ "{" old) new 0 b))
      (ground (arith, replace-append old new a b))

module _ (web : Web) (config : OrbitaSsoConfig) (settings : Settings)
    (server : IsServer web (issuer_of settings) config.base_url)
    (plain : has_code b'{' (issuer_of settings) ≡ false) where
  at_home :
      (path : String) → same_origin web config (issuer_of settings <> ("/api/" <> path)) ≡ true
  at_home path =
      rw (server.scheme path, server.netloc path)
        (ground (
          arith,
          eq_refl (web.urlparse config.base_url).scheme,
          eq_refl (web.urlparse config.base_url).netloc,
        ))

  filled :
      (path rest : String)
      → replace "{client_id}" "client" ("/api/" <> path) ≡ "/api/" <> rest
      → same_origin web config
          (replace "{client_id}" "client" (issuer_of settings <> ("/api/" <> path)))
        ≡ true
  filled path rest same =
      rw (replace-append "client_id}" "client" (issuer_of settings) ("/api/" <> path) plain, same)
        (at_home rest)

  secure :
      (address : String)
      → same_origin web config address ≡ true
      → ((web.urlparse config.base_url).scheme == "https"
          && not ((web.urlparse address).scheme == "https"))
        ≡ false
  secure address home =
      ground
        (arith, eq_iff (web.urlparse address).scheme (web.urlparse config.base_url).scheme, home)

  -- The five addresses of a document that are at home pass.
  passes :
      (document : Discovery) (fields : List String) (c : OrbitaSsoClient)
      → all (λ f. same_origin web config (endpoint_of document f)) fields ≡ true
      → check_fields web config document fields c ≡ (answer tt, c)
  passes document [] c h = refl
  passes document (f ∷ fields) c h =
      let home : same_origin web config (endpoint_of document f) ≡ true = ground (arith, h) in
      let safe = secure (endpoint_of document f) home in
      let rest = passes document fields c (ground (arith, h)) in ground (arith, home, safe, rest)

  abbrev served : Discovery
  served = as_document (orbita_configuration settings)

  all_home : all (λ f. same_origin web config (endpoint_of served f)) checked_fields ≡ true
  unfolding orbita_configuration replace
  all_home =
      rw
        (
          filled "auth/authorize" "auth/authorize" refl,
          filled "auth/token" "auth/token" refl,
          filled ".well-known/jwks.json" ".well-known/jwks.json" refl,
          filled "auth/introspect" "auth/introspect" refl,
          filled "apps/{client_id}/role-catalog" "apps/client/role-catalog" refl,
        )
        refl

  -- A client whose base address is absolute and of the same server accepts the discovery document
  -- that the server gives, and keeps it.
  pub accept_discovery-orbita_configuration :
      (c : OrbitaSsoClient)
      → is_absolute web config ≡ true
      → accept_discovery web config served c
        ≡ (answer served, record c { known_discovery = some served })
  unfolding validate_discovery_origins orbita_configuration
  accept_discovery-orbita_configuration c absolute =
      rw
        (
          absolute,
          passes served checked_fields (record c { known_discovery = some served }) all_home,
        )
        refl
