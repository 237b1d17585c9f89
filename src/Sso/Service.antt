-- ===== src/Sso/Service.antt =====
-- app/modules/auth/service.py
pub mod Revocation
pub mod Authorize
pub mod Tickets
use orbita_backend.Prelude.{
  ℕ, ◌+◌, String, Bool, not, ◌&&◌, ◌==◌, text_comparable, number_comparable, ltb, is_none, is_some,
  Option, none, some, [], ◌∷◌, ◌++◌, first, update, if◌then◌else◌,
}
use orbita_backend.Data.{
  Db, Uuid, Time, seconds, User, App, AuthorizationCode, AppSession, LogoutTicket,
}
use orbita_backend.Crypto.{Crypto}
use orbita_backend.Exec.{
  Action, pure, gets, modify, commit, only_if, raise_if, or_raise, http, ◌>>=◌, ◌>>◌,
}
use orbita_backend.Apps.{
  revoke_sessions, find_client, is_available_for_sso, validate_redirect_uri, resolve_access,
  is_provisioned,
}

abbrev pub authorization_code_ttl_seconds : ℕ
authorization_code_ttl_seconds = 60

abbrev pub logout_ticket_ttl_seconds : ℕ
logout_ticket_ttl_seconds = 60

-- the row that UPDATE … RETURNING gives back, with its new `used_at`
abbrev returned_ticket : Time → Option LogoutTicket → Option LogoutTicket
returned_ticket now none = none
returned_ticket now (some t) = some (record t { used_at = some now })

abbrev returned_code : Time → Option AuthorizationCode → Option AuthorizationCode
returned_code now none = none
returned_code now (some c) = some (record c { used_at = some now })

module _ (crypto : Crypto) where
  -- `ticket` is the value of secrets.token_urlsafe(32), and `id` the default of the row's id.
  unfoldable pub issue_ticket : Uuid → String → Time → App → String → Action String
  issue_ticket id ticket now app post_logout_uri = do
    let row : LogoutTicket = record {
      id = id;
      ticket_hash = crypto.sha256 ticket;
      app_id = app.id;
      post_logout_uri = post_logout_uri;
      expires_at = now + seconds logout_ticket_ttl_seconds;
      used_at = none;
    }
    modify (λ db. record db { logout_tickets = db.logout_tickets ++ row ∷ [] })
    commit
    pure ticket

  abbrev pub redeems_ticket : Time → String → LogoutTicket → Bool
  redeems_ticket now ticket t =
      t.ticket_hash == crypto.sha256 ticket && (is_none t.used_at && ltb now t.expires_at)

  unfoldable pub redeem_ticket : Time → String → Action (Option LogoutTicket)
  redeem_ticket now ticket = do
    row ← gets (λ db. first (redeems_ticket now ticket) db.logout_tickets)
    modify (λ db. record db {
      logout_tickets =
          update (redeems_ticket now ticket) (λ t. record t { used_at = some now })
            db.logout_tickets;
    })
    only_if (is_some row) commit
    pure (returned_ticket now row)

  unfoldable pub issue_authorization_code :
      Uuid → String → Time → User → App → String → Action String
  issue_authorization_code id code now user app redirect_uri = do
    let entry : AuthorizationCode = record {
      id = id;
      code_hash = crypto.sha256 code;
      user_id = user.id;
      app_id = app.id;
      redirect_uri = redirect_uri;
      expires_at = now + seconds authorization_code_ttl_seconds;
      used_at = none;
    }
    modify (λ db. record db { authorization_codes = db.authorization_codes ++ entry ∷ [] })
    commit
    pure code

  -- the WHERE of the UPDATE in `redeem_authorization_code`
  abbrev pub redeems : Time → String → App → String → AuthorizationCode → Bool
  redeems now code app redirect_uri c =
      c.code_hash == crypto.sha256 code
      && (c.app_id == app.id
          && (c.redirect_uri == redirect_uri && (is_none c.used_at && ltb now c.expires_at)))

  abbrev pub use_code : Time → String → App → String → Db → Db
  use_code now code app redirect_uri db = record db {
    authorization_codes =
        update (redeems now code app redirect_uri) (λ c. record c { used_at = some now })
          db.authorization_codes;
  }

  -- One statement, and no commit: the caller commits or rolls back.
  unfoldable pub redeem_authorization_code :
      Time → String → App → String → Action (Option AuthorizationCode)
  redeem_authorization_code now code app redirect_uri = do
    row ← gets (λ db. first (redeems now code app redirect_uri) db.authorization_codes)
    modify (use_code now code app redirect_uri)
    pure (returned_code now row)

abbrev pub add_session : AppSession → Db → Db
add_session row db = record db { app_sessions = db.app_sessions ++ row ∷ [] }

-- AppSessionService.record_app_session, which does not commit
unfoldable pub record_app_session : Uuid → String → User → App → Time → Action AppSession
record_app_session id jti user app expires_at = do
  let row : AppSession = record {
    id = id;
    jti = jti;
    user_id = user.id;
    app_id = app.id;
    expires_at = expires_at;
    revoked_at = none;
  }
  modify (add_session row)
  pure row

-- AppSessionService.is_session_active
abbrev pub active : Time → String → AppSession → Bool
active now jti s = s.jti == jti && (is_none s.revoked_at && ltb now s.expires_at)

abbrev pub active_session : Time → String → Db → Option AppSession
active_session now jti db = first (active now jti) db.app_sessions

unfoldable pub revoke_all_for_user : Time → Uuid → Bool → Action Unit
revoke_all_for_user now user_id commits = do
  modify (revoke_sessions now (λ s. s.user_id == user_id))
  only_if commits commit

unfoldable pub revoke_for_app : Time → Uuid → Action Unit
revoke_for_app now app_id = do modify (revoke_sessions now (λ s. s.app_id == app_id)); commit

unfoldable pub revoke_for_user_in_app : Time → Uuid → Uuid → Action Unit
revoke_for_user_in_app now user_id app_id = do
  modify (revoke_sessions now (λ s. s.user_id == user_id && s.app_id == app_id))
  commit

-- the guards on the client and on its redirect URI, which /authorize makes too
abbrev pub available_client : Db → Option App → Option App
available_client db none = none
available_client db (some app) = if is_available_for_sso app db then some app else none

-- Where a browser is sent: back to the app with a code and the state, or to a page of the frontend.
pub data Redirect : Type 0 where
  to_app : String → String → String → Redirect
  to_frontend : String → Redirect
  to_uri : String → Redirect

module _ (crypto : Crypto) where
  unfoldable pub build_authorize_redirect :
      Uuid → String → Time → User → String → String → String → Action Redirect
  unfolding issue_authorization_code
  build_authorize_redirect id fresh_code now user client_id redirect_uri state = do
    found ← gets (λ db. available_client db (find_client client_id db))
    app ← or_raise found (http 400 "Unknown or inactive app")
    registered ← gets (validate_redirect_uri app redirect_uri)
    raise_if (not registered) (http 400 "redirect_uri is not registered for this app")
    access ← resolve_access user.id app
    raise_if (not (is_provisioned access)) (http 403 "User is not provisioned for this app")
    code ← issue_authorization_code crypto id fresh_code now user app redirect_uri
    pure (to_app redirect_uri code state)
