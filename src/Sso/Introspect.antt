-- ===== src/Sso/Introspect.antt =====
-- POST /auth/introspect: introspect_app_token in app/modules/auth/router.py
pub mod Issued
pub mod Sound
use orbita_backend.Prelude.{
  ℕ, String, Bool, true, false, not, ◌&&◌, ◌==◌, text_comparable, number_comparable, Option, none,
  some, List, if◌then◌else◌,
}
use orbita_backend.Prelude.Names.{same_set}
use orbita_backend.Data.{Db, Time, User, App, AppSession}
use orbita_backend.Crypto.{Crypto, Claims}
use orbita_backend.Exec.{Action, gets, ◌>>=◌}
use orbita_backend.Apps.{AppAccessResolution, access_of}
use orbita_backend.Users.{find_user}
use orbita_backend.Sso.Tokens.{decode_app_token}
use orbita_backend.Sso.Service.{active_session}
use orbita_backend.Sso.Client.{authenticate_client, available_user}

pub record IntrospectRequest : Type 0 where
  pub token : String
  pub client_id : String
  pub client_secret : String

pub record IntrospectResponse : Type 0 where
  pub active : Bool
  pub sub : Option String
  pub email : Option String
  pub roles : Option (List String)
  pub exp : Option ℕ

abbrev pub inactive : IntrospectResponse
inactive = record { active = false; sub = none; email = none; roles = none; exp = none }

abbrev pub active_response : Claims → IntrospectResponse
active_response claims = record {
  active = true;
  sub = claims.sub;
  email = claims.email;
  roles = claims.roles;
  exp = claims.exp;
}

-- `bool(claims.get("migration"))`
abbrev pub claims_migration : Option Bool → Bool
claims_migration none = false
claims_migration (some b) = b

abbrev same_bool : Bool → Bool → Bool
same_bool true b = b
same_bool false b = not b

-- The roles and the migration flag of the token are those that the user has now.
unfoldable pub is_current : AppAccessResolution → Option (List String) → Option Bool → Bool
is_current access none migration = false
is_current access (some roles) migration =
    same_set access.roles roles && same_bool (claims_migration migration) access.migration

abbrev check_user : App → Claims → Db → Option User → IntrospectResponse
check_user app claims db none = inactive
check_user app claims db (some user) =
    if is_current (access_of user.id app db) claims.roles claims.migration
    then active_response claims
    else inactive

abbrev check_session : App → Claims → Db → Option AppSession → IntrospectResponse
check_session app claims db none = inactive
check_session app claims db (some session) =
    if session.app_id == app.id
    then check_user app claims db (available_user (find_user session.user_id db))
    else inactive

abbrev check_jti : Time → App → Claims → Db → Option String → IntrospectResponse
check_jti now app claims db none = inactive
check_jti now app claims db (some jti) =
    if jti == "" then inactive else check_session app claims db (active_session now jti db)

-- The answer for an authenticated client, as a function of the claims and of the rows.
unfoldable pub introspect_claims : Time → App → Claims → Db → IntrospectResponse
unfolding is_current
introspect_claims now app claims db = check_jti now app claims db claims.jti

unfoldable pub introspect_app_token : Crypto → Time → IntrospectRequest → Action IntrospectResponse
introspect_app_token crypto now payload = do
  app ← authenticate_client crypto now payload.client_id payload.client_secret
  gets (introspect_claims now app (decode_app_token crypto now payload.token payload.client_id))
