-- ===== src/Adapter/Accepts.antt =====
-- The app tokens that the server signs, as a client reads them.
use orbita_backend.Prelude.{
  ◌*◌, ◌≤◌, String, Bool, ◌≡◌, refl, ◌∙◌, ap, subst, not, ◌&&◌, ◌==◌, text_comparable, Option, none,
  some, List, [], ◌∷◌, map, all, arith, if◌then◌else◌, Bool-cases, inl, inr, is_empty,
}
use orbita_backend.Prelude.Queries.{map_option}
use orbita_backend.Data.{Time, Db, App, User, AuthorizationCode}
use orbita_backend.Exec.{run, ok}
use orbita_backend.Apps.{access_of}
use orbita_backend.Sso.Exchange.{
  Draw, TokenExchangeRequest, TokenResponse, exchange_code_for_app_token, released_clan,
}
use orbita_backend.Sso.Exchange.Atomic.{exchange_sound, issued_claims, Redeemed}
use orbita_backend.Sso.Introspect.Issued.{client_of-client_id}
use orbita_backend.Crypto.{Crypto, Claims, IsLawful}
use orbita_backend.Sso.Tokens.{app_claims, app_token_expiry, numeric_date}
use orbita_backend.Adapter.{
  OrbitaSsoConfig, OrbitaSsoClient, Web, Jwk, Value, Item, ClaimSet, answer, failure, value_error,
  has_required_claims, is_filled_list, is_filled_item, verify_token, checked_claims, find_key, jwks,
}

-- The payload of a token as the JSON object that jwt.decode returns. A number, a Boolean and the
-- object of attributes are neither a text nor an array.
abbrev other_value : {A : Type 0} → A → Value
other_value a = Value.other

abbrev pub as_object : Claims → ClaimSet
as_object c key =
    if key == "sub"
    then map_option Value.text c.sub
    else if key == "email"
    then map_option Value.text c.email
    else if key == "name"
    then map_option Value.text c.name
    else if key == "aud"
    then map_option Value.text c.aud
    else if key == "roles"
    then map_option (λ names. Value.array (map Item.text names)) c.roles
    else if key == "auth_method"
    then map_option Value.text c.auth_method
    else if key == "jti"
    then map_option Value.text c.jti
    else if key == "exp"
    then map_option other_value c.exp
    else if key == "migration"
    then map_option other_value c.migration
    else if key == "attributes"
    then map_option other_value c.clan
    else none

-- What python-jose documents for a published key: the client reads the payload that the server's own
-- decoder reads.
pub record IsPublished (web : Web) (crypto : Crypto) (token : String) (kid : String) (key : Jwk)
    : Type 0 where
  pub header :
      web.get_unverified_header token ≡ some (record { alg = some "RS256"; kid = some kid })
  pub decode-published :
      (now : Time) (audience : String)
      → web.decode now token key audience
        ≡ map_option as_object (crypto.decode now (some audience) token)

-- no text is empty, and there is a role
abbrev pub is_complete : String → String → String → List String → String → Bool
is_complete user_id email name roles jti =
    not (user_id == "")
    && (not (email == "")
        && (not (name == "")
            && (not (jti == "") && (not (is_empty roles) && all (λ r. not (r == "")) roles))))

all_filled :
    (roles : List String)
    → all is_filled_item (map Item.text roles) ≡ all (λ r. not (r == "")) roles
all_filled [] = refl
all_filled (r ∷ roles) = rw (all_filled roles) refl

all_items :
    (roles : List String)
    → is_filled_list (some (Value.array (map Item.text roles)))
      ≡ (not (is_empty roles) && all (λ r. not (r == "")) roles)
all_items [] = refl
all_items (r ∷ roles) = all_filled (r ∷ roles)

module _ (now : Time) (user_id email name client_id jti : String) (roles : List String)
    (migration : Bool) (clan : Option String) where
  abbrev claims : Claims
  claims = app_claims now user_id email name client_id roles migration clan jti

  has_required_claims-app_claims :
      has_required_claims (as_object claims) ≡ is_complete user_id email name roles jti
  has_required_claims-app_claims = rw (all_items roles) (ground arith)

  module _ (web : Web) (config : OrbitaSsoConfig) (crypto : Crypto) (token kid : String) (key : Jwk)
      (keys : List Jwk) (later : Time) (c : OrbitaSsoClient) where
    abbrev holding : OrbitaSsoClient
    holding = record c { known_jwks = some (record { keys = some keys }) }

    checked_claims_lem :
        (d : OrbitaSsoClient) (read : ClaimSet)
        → web.decode later token key config.client_id ≡ some read
        → (checked_claims web config later token key d).0 ≡ (
            if has_required_claims read
            then answer read
            else failure (value_error "Orbita JWT is missing required claims"))
    checked_claims_lem d read e =
        rw e
          (elim (Bool-cases (has_required_claims read)) [ inl b ↦ rw b refl | inr b ↦ rw b refl ])

    verify_token-checked_claims :
        IsPublished web crypto token kid key
        → find_key (some kid) keys ≡ some key
        → verify_token web config later token holding
          ≡ checked_claims web config later token key holding
    unfolding verify_token jwks
    verify_token-checked_claims published found = rw (published.header, found) refl

    -- A client that keeps the key set reads an app token of its own, while the token lasts, exactly
    -- where its texts are not empty and it has a role. So it refuses a migration token, which has none.
    pub verify_token-app_claims :
        IsLawful crypto token
        → IsPublished web crypto token kid key
        → token ≡ crypto.encode claims
        → client_id ≡ config.client_id
        → later ≤ numeric_date (app_token_expiry now) * 1000000
        → find_key (some kid) keys ≡ some key
        → (verify_token web config later token holding).0 ≡ (
            if is_complete user_id email name roles jti
            then answer (as_object claims)
            else failure (value_error "Orbita JWT is missing required claims"))
    verify_token-app_claims law published signed own lasting found =
        let decoded =
          law.decode-encode later claims (numeric_date (app_token_expiry now)) signed refl
            lasting in
        let read : web.decode later token key config.client_id ≡ some (as_object claims) =
          published.decode-published later config.client_id
          ∙ subst
              (λ a.
                map_option as_object (crypto.decode later (some a) token) ≡ some (as_object claims))
              own (ap (map_option as_object) decoded) in
        rw (verify_token-checked_claims published found) (
          checked_claims_lem holding (as_object claims) read
          ∙ rw has_required_claims-app_claims refl)

module _ (web : Web) (config : OrbitaSsoConfig) (crypto : Crypto) (draw : Draw)
    (payload : TokenExchangeRequest) (db : Db) (kid : String) (key : Jwk) (keys : List Jwk)
    (later : Time) (c : OrbitaSsoClient) where
  -- From the server's exchange to the client's session: the token of a successful exchange for the
  -- client's own id, while it lasts and where the client keeps the key that it was signed with, is
  -- accepted with the claims of the user's access exactly where none of them is empty, and is refused
  -- where the access has no role, as in a migration.
  pub exchange-verify_token :
      {r : TokenResponse}
      → (run (exchange_code_for_app_token crypto draw payload) db).0 ≡ ok r
      → payload.client_id ≡ config.client_id
      → IsLawful crypto r.access_token
      → IsPublished web crypto r.access_token kid key
      → later ≤ numeric_date (app_token_expiry draw.now) * 1000000
      → find_key (some kid) keys ≡ some key
      → (app : App) × (code : AuthorizationCode) × (user : User) × Redeemed crypto draw payload db
          app code user
        × ((verify_token web config later r.access_token
              (record c { known_jwks = some (record { keys = some keys }) })).0
            ≡ (if is_complete
                  (crypto.uuid_text user.id)
                  user.email
                  user.full_name
                  (access_of user.id app db).roles
                  draw.jti
                then answer (
                    as_object (
                      issued_claims crypto draw app user
                        (access_of user.id app db)
                        (released_clan user app (access_of user.id app db) db)))
                else failure (value_error "Orbita JWT is missing required claims")))
  exchange-verify_token {r} success own law published lasting found =
      let (app, code, user, rests, after, token) = exchange_sound crypto draw payload db success in
      let access = access_of user.id app db in
      let named =
        client_of-client_id crypto draw.now payload.client_id payload.client_secret db app
          rests.client in
      (
        app,
        code,
        user,
        rests,
        verify_token-app_claims draw.now (crypto.uuid_text user.id) user.email user.full_name
            app.client_id draw.jti access.roles access.migration (released_clan user app access db)
            web config crypto r.access_token kid key keys later c law published token (named ∙ own)
            lasting found,
      )
