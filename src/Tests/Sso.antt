-- ===== src/Tests/Sso.antt =====
-- The single sign-on theorems at concrete requests.
use orbita_backend.Prelude.{
  String, List, [], ◌∷◌, ◌++◌, arith, refl, ◌≡◌, ◌≢◌, true, some, none, number_comparable,
}
use orbita_backend.Data.{Db, App, User, AppSession, AuthorizationCode}
use orbita_backend.Exec.{run, ok, err, http}
use orbita_backend.Sso.Service.Tickets.{redeem_ticket_once}
use orbita_backend.Sso.Service.{
  redeem_ticket, to_app, build_authorize_redirect, use_code, add_session,
}
use orbita_backend.Sso.Service.Authorize.{Authorized, authorize_sound, code_row}
use orbita_backend.Sso.Client.{client_of}
use orbita_backend.Sso.Tokens.{decode_app_token, decode_access_token}
use orbita_backend.Sso.Introspect.{introspect_claims}
use orbita_backend.Sso.Introspect.Sound.{Live, introspect_sound}
use orbita_backend.Sso.Introspect.Issued.{introspect-exchange}
use orbita_backend.Sso.Browser.{get_optional_current_user}
use orbita_backend.Sso.Adopt.{RoleAdoptionRequest, adopt_legacy_app_role}
use orbita_backend.Sso.Adopt.Fresh.{Adopted, adopt_sound}
use orbita_backend.Crypto.{Claims}
use orbita_backend.Prelude.Names.{sorted_set}
use orbita_backend.Apps.{
  validate_redirect_uri, is_available_for_sso, verify_client_secret, verify_secret, access_of,
  resolve_app_access_policy,
}
use orbita_backend.Sso.Exchange.{
  TokenResponse, TokenExchangeRequest, released_clan, exchange_code_for_app_token,
}
use orbita_backend.Sso.Exchange.Atomic.{
  Redeemed, session_row, issued_claims, exchange_atomic, exchange_sound,
}
use orbita_backend.Sso.Exchange.SingleUse.{exchange_once}
use orbita_backend.Tests.Sample.{ana, campus, draw, exchange, db, request}
use orbita_backend.Tests.Library.{issued, crypto-IsLawful, crypto}

abbrev pub response : TokenResponse
response = record { access_token = "token"; expires_in = 1800 }

pub exchanged : (run (exchange_code_for_app_token crypto draw exchange) db).0 ≡ ok response
unfolding exchange_code_for_app_token is_available_for_sso verify_client_secret verify_secret
    access_of resolve_app_access_policy sorted_set released_clan
exchanged = refl

exchange_once_example :
    (run
      (exchange_code_for_app_token crypto draw exchange)
      (run (exchange_code_for_app_token crypto draw exchange) db).1).0
    ≢ ok response
exchange_once_example =
    exchange_once crypto draw exchange db draw exchange (refl, tt) exchanged refl

exchange_sound_example :
    (app : App) × (code : AuthorizationCode) × (user : User) × Redeemed crypto draw exchange db app
      code user
    × ((run (exchange_code_for_app_token crypto draw exchange) db).1
        ≡ add_session
            (session_row draw user app)
            (use_code crypto draw.now exchange.code app exchange.redirect_uri db))
    × (response.access_token
        ≡ crypto.encode (
            issued_claims crypto draw app user
              (access_of user.id app db)
              (released_clan user app (access_of user.id app db) db)))
exchange_sound_example = exchange_sound crypto draw exchange db exchanged

-- a request with another client secret
abbrev forged : TokenExchangeRequest
forged = record exchange { client_secret = "guess" }

refused :
    (run (exchange_code_for_app_token crypto draw forged) db).0
    ≡ err (http 401 "Invalid client credentials")
unfolding exchange_code_for_app_token is_available_for_sso verify_client_secret verify_secret
refused = refl

exchange_atomic_example : (run (exchange_code_for_app_token crypto draw forged) db).1 ≡ db
exchange_atomic_example =
    exchange_atomic crypto draw forged db (http 401 "Invalid client credentials") refused

introspect-exchange_example :
    (app : App) × (client_of crypto draw.now exchange.client_id exchange.client_secret db
      ≡ some app)
    × ((introspect_claims 5000000 app
          (decode_app_token crypto 5000000 "token" exchange.client_id)
          (run (exchange_code_for_app_token crypto draw exchange) db).1).active
        ≡ true)
introspect-exchange_example =
    introspect-exchange crypto draw exchange db 5000000 response crypto-IsLawful refl refl
      (omega arith) exchanged

-- the claims of a token for the open session
abbrev claims : Claims
claims = record issued { jti = some "earlier" }

active_now : (introspect_claims 5000000 campus claims db).active ≡ true
unfolding introspect_claims access_of resolve_app_access_policy sorted_set
active_now = refl

introspect_sound_example :
    (jti : String) × (session : AppSession) × (user : User) × (roles : List String) × Live 5000000
      campus claims db jti session user roles
introspect_sound_example = introspect_sound 5000000 campus claims db active_now

logged_in : get_optional_current_user crypto 5000000 request db ≡ some ana
unfolding get_optional_current_user decode_access_token
logged_in = refl

-- an app of which Ana has no role yet
abbrev unassigned : Db
unassigned = record db { user_app_roles = [] }

abbrev adoption : RoleAdoptionRequest
adoption = record {
  token = "migration";
  client_id = "campus";
  client_secret = "secret";
  role = "editor";
}

adopted :
    (run (adopt_legacy_app_role crypto 31 5000000 request adoption) unassigned).0 ≡ ok "editor"
unfolding adopt_legacy_app_role is_available_for_sso verify_client_secret verify_secret
    decode_app_token access_of resolve_app_access_policy sorted_set
adopted = refl

adopt_sound_example :
    (app : App) × (session : AppSession) × (user : User) × Adopted crypto 31 5000000 request
      adoption unassigned app session user
adopt_sound_example = adopt_sound crypto 31 5000000 request adoption unassigned adopted

-- the client with its callback registered
abbrev registered : Db
registered = record db {
  redirect_uris =
      record { id = 60; app_id = 10; redirect_uri = "https://campus.riwi.io/callback" } ∷ [];
}

redirected :
    (run
      (build_authorize_redirect crypto 41 "next" 0 ana "campus" "https://campus.riwi.io/callback"
        "state")
      registered).0
    ≡ ok (to_app "https://campus.riwi.io/callback" "next" "state")
unfolding build_authorize_redirect is_available_for_sso validate_redirect_uri access_of
    resolve_app_access_policy sorted_set
redirected = refl

authorize_sound_example :
    (app : App) × Authorized crypto 41 "next" 0 ana "campus" "https://campus.riwi.io/callback"
      "state" registered app
    × (to_app "https://campus.riwi.io/callback" "next" "state"
        ≡ to_app "https://campus.riwi.io/callback" "next" "state")
    × ((run
          (build_authorize_redirect crypto 41 "next" 0 ana "campus"
            "https://campus.riwi.io/callback" "state")
          registered).1.authorization_codes
        ≡ registered.authorization_codes
          ++ code_row crypto 41 "next" 0 ana app "https://campus.riwi.io/callback" ∷ [])
authorize_sound_example =
    authorize_sound crypto 41 "next" 0 ana "campus" "https://campus.riwi.io/callback" "state"
      registered redirected

abbrev ticketed : Db
ticketed = record db {
  logout_tickets =
      record {
        id = 61;
        ticket_hash = "ticket";
        app_id = 10;
        post_logout_uri = "https://campus.riwi.io";
        expires_at = 60000000;
        used_at = none;
      }
      ∷ [];
}

redeem_ticket_once_example :
    (run
      (redeem_ticket crypto 2000000 "ticket")
      (run (redeem_ticket crypto 1000000 "ticket") ticketed).1).0
    ≡ ok none
redeem_ticket_once_example =
    redeem_ticket_once crypto "ticket" 1000000 2000000 (omega arith) ticketed
