-- ===== src/Sso/Exchange.antt =====
-- POST /auth/token: exchange_code_for_app_token in app/modules/auth/router.py
pub mod Atomic
pub mod SingleUse
use orbita_backend.Prelude.{
  ℕ, ◌*◌, String, Bool, false, not, ◌&&◌, ◌==◌, text_comparable, number_comparable, Option, none,
  some, List, [], ◌∷◌, first, contains, if◌then◌else◌,
}
use orbita_backend.Data.{Db, Uuid, Time, User, App, UserFederatedAttribute}
use orbita_backend.Crypto.{Crypto}
use orbita_backend.Exec.{
  Action, pure, raise, gets, commit, rollback, catch, raise_if, or_raise, http, ◌>>=◌, ◌>>◌,
}
use orbita_backend.Apps.{AppAccessResolution, resolve_access, is_provisioned}
use orbita_backend.Users.{find_user}
use orbita_backend.Sso.Tokens.{create_app_token, app_token_expire_minutes}
use orbita_backend.Sso.Service.{redeem_authorization_code, record_app_session}
use orbita_backend.Sso.Client.{authenticate_client, available_user}

pub record TokenExchangeRequest : Type 0 where
  pub code : String
  pub client_id : String
  pub client_secret : String
  pub redirect_uri : String

pub record TokenResponse : Type 0 where
  pub access_token : String
  pub expires_in : ℕ

-- what the request draws: the time, and the ids of the token and of the session row
pub record Draw : Type 0 where
  pub now : Time
  pub jti : String
  pub session_id : Uuid

abbrev value_of : Option UserFederatedAttribute → Option String
value_of none = none
value_of (some a) = a.value

-- `if clan:`, for a value that may be NULL or empty
abbrev nonblank : Option String → Option String
nonblank none = none
nonblank (some v) = if v == "" then none else some v

abbrev is_coder : List String → Bool
is_coder (r ∷ []) = r == "coder"
is_coder _ = false

-- The clan is released to an app that asks for it, for a user whose only role is coder.
unfoldable pub released_clan : User → App → AppAccessResolution → Db → Option String
released_clan user app access db =
    if is_coder access.roles && contains "clan" app.released_claims
    then nonblank (value_of (first (λ a. a.user_id == user.id && a.name == "clan") db.attributes))
    else none

module _ (crypto : Crypto) where
  -- the block under `try`
  abbrev pub redeem_and_record : Draw → App → TokenExchangeRequest → Action TokenResponse
  redeem_and_record draw app payload = do
    row ← redeem_authorization_code crypto draw.now payload.code app payload.redirect_uri
    code_row ← or_raise row (http 400 "Invalid, expired, or already used code")
    found ← gets (find_user code_row.user_id)
    user ← or_raise (available_user found) (http 400 "User no longer available")
    access ← resolve_access user.id app
    raise_if (not (is_provisioned access)) (http 403 "User is not provisioned for this app")
    clan ← gets (released_clan user app access)
    let (access_token, jti, expires_at) =
        create_app_token crypto draw.now (crypto.uuid_text user.id) user.email user.full_name
          app.client_id access.roles access.migration clan draw.jti
    record_app_session draw.session_id jti user app expires_at
    commit
    pure (record { access_token = access_token; expires_in = 60 * app_token_expire_minutes })

  unfoldable pub exchange_code_for_app_token : Draw → TokenExchangeRequest → Action TokenResponse
  unfolding redeem_authorization_code record_app_session create_app_token
  exchange_code_for_app_token draw payload = do
    app ← authenticate_client crypto draw.now payload.client_id payload.client_secret
    catch (redeem_and_record draw app payload) (λ e. rollback >> raise e)
