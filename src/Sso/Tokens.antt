-- ===== src/Sso/Tokens.antt =====
-- app/modules/auth/jwt.py: the claims of the two kinds of token, and the decoders
pub mod Jwks
use orbita_backend.Prelude.{ℕ, ◌+◌, ◌/◌, String, Bool, Option, none, some, List, if◌then◌else◌}
use orbita_backend.Data.{Time, minutes}
use orbita_backend.Crypto.{Crypto, Claims, no_claims}

-- APP_TOKEN_EXPIRE_MINUTES
abbrev pub app_token_expire_minutes : ℕ
app_token_expire_minutes = 30

-- python-jose writes a datetime claim in whole seconds.
abbrev pub numeric_date : Time → ℕ
numeric_date t = t / 1000000

abbrev claims_or_empty : Option Claims → Claims
claims_or_empty none = no_claims
claims_or_empty (some c) = c

unfoldable pub access_claims : Time → ℕ → String → String → List String → String → String → Claims
access_claims now jwt_expire_minutes user_id email roles auth_method jti = record no_claims {
  sub = some user_id;
  email = some email;
  roles = some roles;
  auth_method = some auth_method;
  jti = some jti;
  exp = some (numeric_date (now + minutes jwt_expire_minutes));
}

abbrev pub app_token_expiry : Time → Time
app_token_expiry now = now + minutes app_token_expire_minutes

-- The claim "migration" is written only if it is true.
abbrev pub app_claims :
    Time → String → String → String → String → List String → Bool → Option String → String → Claims
app_claims now user_id email name client_id roles migration clan jti = record no_claims {
  sub = some user_id;
  email = some email;
  name = some name;
  aud = some client_id;
  roles = some roles;
  jti = some jti;
  exp = some (numeric_date (app_token_expiry now));
  migration = if migration then some migration else none;
  clan = clan;
}

module _ (crypto : Crypto) where
  -- `jti` is the text of the fresh uuid4.
  unfoldable pub create_access_token :
      Time → ℕ → String → String → List String → String → String → String
  unfolding access_claims
  create_access_token now jwt_expire_minutes user_id email roles auth_method jti =
      crypto.encode (access_claims now jwt_expire_minutes user_id email roles auth_method jti)

  unfoldable pub create_app_token :
      Time
      → String
      → String
      → String
      → String
      → List String
      → Bool
      → Option String
      → String
      → String × String × Time
  create_app_token now user_id email name client_id roles migration clan jti = (
    crypto.encode (app_claims now user_id email name client_id roles migration clan jti),
    jti,
    app_token_expiry now,
  )

  unfoldable pub decode_access_token : Time → String → Claims
  decode_access_token now token = claims_or_empty (crypto.decode now none token)

  unfoldable pub decode_app_token : Time → String → String → Claims
  decode_app_token now token audience = claims_or_empty (crypto.decode now (some audience) token)
