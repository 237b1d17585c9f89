-- ===== src/Sso/Service/Authorize.antt =====
-- Where a browser is sent with a code, and for whom.
use orbita_backend.Prelude.{
  String, ◌≡◌, true, Bool-cases, some, Option-cases, inl, inr, ◌∷◌, [], ◌++◌, ◌+◌, none, arith,
}
use orbita_backend.Data.{Db, Uuid, Time, seconds, User, App, AuthorizationCode}
use orbita_backend.Crypto.{Crypto}
use orbita_backend.Exec.{ok, run}
use orbita_backend.Apps.{find_client, validate_redirect_uri, access_of, is_provisioned}
use orbita_backend.Sso.Service.{
  Redirect, to_app, available_client, build_authorize_redirect, authorization_code_ttl_seconds,
}

-- the row of a fresh code
abbrev pub code_row : Crypto → Uuid → String → Time → User → App → String → AuthorizationCode
code_row crypto id code now user app redirect_uri = record {
  id = id;
  code_hash = crypto.sha256 code;
  user_id = user.id;
  app_id = app.id;
  redirect_uri = redirect_uri;
  expires_at = now + seconds authorization_code_ttl_seconds;
  used_at = none;
}

module _ (crypto : Crypto) (id : Uuid) (code : String) (now : Time) (user : User)
    (client_id redirect_uri state : String) (db : Db) where
  -- An available client, a URI that it has registered, and a user with access to it.
  pub record Authorized (app : App) : Type 0 where
    pub client : available_client db (find_client client_id db) ≡ some app
    pub registered : validate_redirect_uri app redirect_uri db ≡ true
    pub provisioned : is_provisioned (access_of user.id app db) ≡ true

  -- A redirect that carries a code goes to a URI that an available client has registered, for a user
  -- with access to the client, with the state that was given, and leaves one new open code for that
  -- client, URI and user.
  pub authorize_sound :
      {r : Redirect}
      → (run (build_authorize_redirect crypto id code now user client_id redirect_uri state) db).0
        ≡ ok r
      → (app : App) × Authorized app
        × (r ≡ to_app redirect_uri code state)
        × ((run
              (build_authorize_redirect crypto id code now user client_id redirect_uri state)
              db).1.authorization_codes
            ≡ db.authorization_codes ++ code_row crypto id code now user app redirect_uri ∷ [])
  unfolding build_authorize_redirect
  authorize_sound {r} h = elim (Option-cases (available_client db (find_client client_id db))) [
    | inl e ↦ absurd (ground arith)
    | inr (app, client) ↦ elim (Bool-cases (validate_redirect_uri app redirect_uri db)) [
      | inr e ↦ absurd (ground arith)
      | inl registered ↦ elim (Bool-cases (is_provisioned (access_of user.id app db))) [
        | inr e ↦ absurd (ground arith)
        | inl provisioned ↦ (
          app,
          record { client = client; registered = registered; provisioned = provisioned },
          ground arith,
          ground arith,
        )
      ]
    ]
  ]
