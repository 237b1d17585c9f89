-- ===== src/Sso/Introspect/Issued.antt =====
-- The introspection of a token after its exchange.
use orbita_backend.Prelude.{
  ℕ, ◌*◌, ◌<◌, String, if◌then◌else◌, ◌≡◌, refl, sym, ap, ◌∙◌, subst, true, false, none, some, inl,
  inr, List, [], ◌∷◌, ◌==◌, number_comparable, text_comparable, any, first, arith, same_number_iff,
  Option, Option-cases,
}
use orbita_backend.Prelude.Names.{is_subset}
use orbita_backend.Prelude.Queries.{or_first, first-append}
use text.Mathlib.TextEquality.{eq_iff}
use orbita_backend.Data.{Db, Uuid, Time, User, App, AppSession}
use orbita_backend.Crypto.{Crypto, Claims, IsLawful}
use orbita_backend.Exec.{ok, run}
use orbita_backend.Apps.{AppAccessResolution, access_of, find_client}
use orbita_backend.Users.{find_user}
use orbita_backend.Sso.Tokens.{decode_app_token, app_token_expiry, numeric_date}
use orbita_backend.Sso.Service.{active, active_session, add_session, use_code}
use orbita_backend.Sso.Client.{client_of}
use orbita_backend.Sso.Exchange.{
  Draw, TokenExchangeRequest, TokenResponse, released_clan, exchange_code_for_app_token,
}
use orbita_backend.Sso.Exchange.Atomic.{session_row, issued_claims, exchange_sound}
use orbita_backend.Sso.Introspect.{introspect_claims, is_current}

subset_more :
    (xs : List String) (x : String) (ys : List String)
    → is_subset xs ys ≡ true
    → is_subset xs (x ∷ ys) ≡ true
subset_more [] x ys h = refl
subset_more (y ∷ xs) x ys h = ground (arith, subset_more xs x ys)

is_subset_refl : (xs : List String) → is_subset xs xs ≡ true
is_subset_refl [] = refl
is_subset_refl (x ∷ xs) =
    ground (arith, (eq_iff x x).1 refl, subset_more xs x xs (is_subset_refl xs))

-- The roles of a token are current for the access that it was made from.
is_current_refl :
    (access : AppAccessResolution)
    → is_current access
        (some access.roles)
        (if access.migration then some access.migration else none)
      ≡ true
unfolding is_current
is_current_refl access = ground (arith, is_subset_refl access.roles)

no_session :
    (now : Time) (jti : String) (rows : List AppSession)
    → any (λ s. s.jti == jti) rows ≡ false
    → first (active now jti) rows ≡ none
no_session now jti [] h = refl
no_session now jti (s ∷ rows) h = ground (arith, no_session now jti rows)

found_id :
    (id : Uuid) (users : List User) (u : User) → first (λ x. x.id == id) users ≡ some u → u.id ≡ id
found_id id [] u h = cc
found_id id (x ∷ users) u h = ground (arith, same_number_iff x.id id, found_id id users u)

found_client :
    (client_id : String) (apps : List App) (a : App)
    → first (λ x. x.client_id == client_id) apps ≡ some a
    → a.client_id ≡ client_id
found_client client_id [] a h = cc
found_client client_id (x ∷ apps) a h =
    ground (arith, eq_iff x.client_id client_id, found_client client_id apps a)

pub client_of-client_id :
    (crypto : Crypto) (now : Time) (client_id secret : String) (db : Db) (app : App)
    → client_of crypto now client_id secret db ≡ some app
    → app.client_id ≡ client_id
client_of-client_id crypto now client_id secret db app h =
    elim (Option-cases (find_client client_id db)) [
      | inl e ↦ absurd (ground arith)
      | inr (a, found) ↦
          let same : a ≡ app = ground arith in
          subst (λ x. x.client_id ≡ client_id) same (found_client client_id db.apps a found)
    ]

-- the rows after the exchange
abbrev after : Crypto → Draw → TokenExchangeRequest → App → User → Db → Db
after crypto draw payload app user db =
    add_session (session_row draw user app)
      (use_code crypto draw.now payload.code app payload.redirect_uri db)

access_of-after :
    (crypto : Crypto) (draw : Draw) (payload : TokenExchangeRequest) (app : App) (user : User)
    (id : Uuid) (db : Db)
    → access_of id app (after crypto draw payload app user db) ≡ access_of id app db
unfolding access_of
access_of-after crypto draw payload app user id db = refl

-- A token decodes to its claims, for its own client and until it expires.
decode-encode_app :
    (crypto : Crypto) (token : String) (law : IsLawful crypto token) (later : Time)
    (claims : Claims) (exp : ℕ) (client_id : String)
    → token ≡ crypto.encode claims
    → claims.aud ≡ some client_id
    → claims.exp ≡ some exp
    → later < exp * 1000000
    → decode_app_token crypto later token client_id ≡ claims
unfolding decode_app_token
decode-encode_app crypto token law later claims exp client_id t aud e soon =
    let decoded = law.decode-encode later claims exp t e (ground arith) in
    rw (sym aud, decoded) refl

module _ (crypto : Crypto) (draw : Draw) (payload : TokenExchangeRequest) (db : Db) where
  opened_session :
      (later : Time) (app : App) (user : User)
      → first (active later draw.jti) db.app_sessions ≡ none
      → later < numeric_date (app_token_expiry draw.now) * 1000000
      → or_first
          (first (active later draw.jti) db.app_sessions)
          (first (active later draw.jti) (session_row draw user app ∷ []))
        ≡ some (session_row draw user app)
  opened_session later app user none_yet soon =
      rw none_yet (ground (arith, (eq_iff draw.jti draw.jti).1 refl))

  -- The check of the rows after the exchange, for the claims of the token.
  introspect-after :
      (later : Time) (app : App) (code_user : Uuid) (user : User) (clan : Option String)
      → (draw.jti == "") ≡ false
      → any (λ s. s.jti == draw.jti) db.app_sessions ≡ false
      → find_user code_user db ≡ some user
      → user.is_active ≡ true
      → user.deleted_at ≡ none
      → later < numeric_date (app_token_expiry draw.now) * 1000000
      → (introspect_claims later app
          (issued_claims crypto draw app user (access_of user.id app db) clan)
          (after crypto draw payload app user db)).active
        ≡ true
  unfolding introspect_claims
  introspect-after later app code_user user clan named fresh owner enabled kept soon =
      let row = session_row draw user app in
      let opened : active_session later draw.jti (after crypto draw payload app user db)
          ≡ some row =
        first-append (active later draw.jti) db.app_sessions (row ∷ [])
        ∙ opened_session later app user (no_session later draw.jti db.app_sessions fresh) soon in
      let found : find_user user.id db ≡ some user =
        subst (λ k. find_user k db ≡ some user) (sym (found_id code_user db.users user owner))
          owner in
      let same = access_of-after crypto draw payload app user user.id db in
      rw (named, opened, found) (ground (arith, same, is_current_refl (access_of user.id app db)))

  -- After a successful exchange the token introspects as active for the client that it was issued
  -- to, at any time before it expires, as long as nothing else changes: given that the drawn token
  -- id is not empty and no session has it.
  pub introspect-exchange :
      (later : Time) (r : TokenResponse) (law : IsLawful crypto r.access_token)
      → (draw.jti == "") ≡ false
      → any (λ s. s.jti == draw.jti) db.app_sessions ≡ false
      → later < numeric_date (app_token_expiry draw.now) * 1000000
      → (run (exchange_code_for_app_token crypto draw payload) db).0 ≡ ok r
      → (app : App) × (client_of crypto draw.now payload.client_id payload.client_secret db
          ≡ some app)
        × ((introspect_claims later app
              (decode_app_token crypto later r.access_token payload.client_id)
              (run (exchange_code_for_app_token crypto draw payload) db).1).active
            ≡ true)
  introspect-exchange later r law named fresh soon success =
      let (app, code, user, rests, rows, token) = exchange_sound crypto draw payload db success in
      let own =
        client_of-client_id crypto draw.now payload.client_id payload.client_secret db app
          rests.client in
      let clan = released_clan user app (access_of user.id app db) db in
      let claims = issued_claims crypto draw app user (access_of user.id app db) clan in
      let decoded : decode_app_token crypto later r.access_token payload.client_id ≡ claims =
        decode-encode_app crypto r.access_token law later claims
          (numeric_date (app_token_expiry draw.now)) payload.client_id token (ap some own) refl
          soon in
      (
        app,
        rests.client,
        rw (decoded, rows)
            (introspect-after later app code.user_id user clan named fresh rests.owner rests.enabled
              rests.not_deleted soon),
      )
