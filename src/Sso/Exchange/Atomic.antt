-- ===== src/Sso/Exchange/Atomic.antt =====
-- The token exchange as one transaction: what it leaves where it fails and where it succeeds.
use orbita_backend.Prelude.{
  String, Option, ◌≡◌, refl, true, none, some, inl, inr, first, arith, Option-cases,
}
use orbita_backend.Data.{Db, Uuid, User, App, AppSession, AuthorizationCode}
use orbita_backend.Crypto.{Crypto, Claims}
use orbita_backend.Exec.{Error, ok, err, run}
use orbita_backend.Apps.{AppAccessResolution, access_of, is_provisioned}
use orbita_backend.Users.{find_user}
use orbita_backend.Sso.Tokens.{app_token_expiry, app_claims}
use orbita_backend.Sso.Service.{redeems, use_code, add_session}
use orbita_backend.Sso.Client.{client_of}
use orbita_backend.Sso.Exchange.{
  Draw, TokenExchangeRequest, TokenResponse, released_clan, exchange_code_for_app_token,
}

abbrev pub session_row : Draw → User → App → AppSession
session_row draw user app = record {
  id = draw.session_id;
  jti = draw.jti;
  user_id = user.id;
  app_id = app.id;
  expires_at = app_token_expiry draw.now;
  revoked_at = none;
}

-- Redeeming a code leaves the access of every user as it was.
access_of-use_code :
    (crypto : Crypto) (draw : Draw) (payload : TokenExchangeRequest) (a app : App) (id : Uuid)
    (db : Db)
    → access_of id app (use_code crypto draw.now payload.code a payload.redirect_uri db)
      ≡ access_of id app db
unfolding access_of
access_of-use_code crypto draw payload a app id db = refl

released_clan-use_code :
    (crypto : Crypto) (draw : Draw) (payload : TokenExchangeRequest) (a app : App) (user : User)
    (access : AppAccessResolution) (db : Db)
    → released_clan user app access
        (use_code crypto draw.now payload.code a payload.redirect_uri db)
      ≡ released_clan user app access db
unfolding released_clan
released_clan-use_code crypto draw payload a app user access db = refl

-- the claims of the token for a user with an access to an app
abbrev pub issued_claims : Crypto → Draw → App → User → AppAccessResolution → Option String → Claims
issued_claims crypto draw app user access clan =
    app_claims draw.now (crypto.uuid_text user.id) user.email user.full_name app.client_id
      access.roles access.migration clan draw.jti

module _ (crypto : Crypto) (draw : Draw) (payload : TokenExchangeRequest) (db : Db) where
  -- What a token rests on: an authenticated client, an open code of that client and URI, and a user
  -- who may act and has access to the app.
  pub record Redeemed (app : App) (code : AuthorizationCode) (user : User) : Type 0 where
    pub client : client_of crypto draw.now payload.client_id payload.client_secret db ≡ some app
    pub open_code :
        first (redeems crypto draw.now payload.code app payload.redirect_uri) db.authorization_codes
        ≡ some code
    pub owner : find_user code.user_id db ≡ some user
    pub enabled : user.is_active ≡ true
    pub not_deleted : user.deleted_at ≡ none
    pub provisioned : is_provisioned (access_of user.id app db) ≡ true

  -- A failed exchange leaves the committed rows as they were: the code is not used up.
  pub exchange_atomic :
      (e : Error)
      → (run (exchange_code_for_app_token crypto draw payload) db).0 ≡ err e
      → (run (exchange_code_for_app_token crypto draw payload) db).1 ≡ db
  unfolding exchange_code_for_app_token
  exchange_atomic e h = ground arith

  -- A successful exchange was made by an authenticated client with an open code of its own, for a user
  -- who may act and has access; it leaves exactly the code used and one new session, and the token
  -- carries the access that the user has now.
  pub exchange_sound :
      {r : TokenResponse}
      → (run (exchange_code_for_app_token crypto draw payload) db).0 ≡ ok r
      → (app : App) × (code : AuthorizationCode) × (user : User) × Redeemed app code user
        × ((run (exchange_code_for_app_token crypto draw payload) db).1
            ≡ add_session
                (session_row draw user app)
                (use_code crypto draw.now payload.code app payload.redirect_uri db))
        × (r.access_token
            ≡ crypto.encode (
                issued_claims crypto draw app user
                  (access_of user.id app db)
                  (released_clan user app (access_of user.id app db) db)))
  unfolding exchange_code_for_app_token
  exchange_sound {r} h =
      elim (Option-cases (client_of crypto draw.now payload.client_id payload.client_secret db)) [
        | inl e ↦ absurd (ground arith)
        | inr (app, client) ↦
            elim (Option-cases (
              first (redeems crypto draw.now payload.code app payload.redirect_uri)
                db.authorization_codes)) [
                  | inl e ↦ absurd (ground arith)
                  | inr (code, open_code) ↦ elim (Option-cases (find_user code.user_id db)) [
                    | inl e ↦ absurd (ground arith)
                    | inr (user, owner) ↦
                        let same = access_of-use_code crypto draw payload app app user.id db in
                        let clan =
                          released_clan-use_code crypto draw payload app app user
                            (access_of user.id app
                              (use_code crypto draw.now payload.code app payload.redirect_uri db))
                            db in
                        (
                          app,
                          code,
                          user,
                          ground (arith, same),
                          ground (arith, same),
                          ground (arith, same, clan),
                        )
                  ]
                ]
      ]
