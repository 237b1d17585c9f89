-- ===== src/Sso/Browser.antt =====
-- The endpoints of app/modules/auth/router.py that a browser visits: /authorize, /resume, /logout,
-- /logout-ticket (called by an app's backend) and /end-session.
pub mod Logout
use orbita_backend.Prelude.{
  String, ◌<>◌, Bool, true, false, not, ◌&&◌, ◌==◌, text_comparable, number_comparable, Option,
  none, some, if◌then◌else◌,
}
use orbita_backend.Data.{Db, Uuid, Time, User}
use orbita_backend.Http.{Request, PendingAuthorize}
use orbita_backend.Settings.{Settings, resolved_public_base_url}
use orbita_backend.Crypto.{Crypto}
use orbita_backend.Exec.{
  Action, Error, pure, raise, gets, catch, raise_if, or_raise, http, key_error, ◌>>=◌, ◌>>◌,
}
use orbita_backend.Apps.{find_client, validate_redirect_uri, validate_post_logout_uri}
use orbita_backend.Users.{find_user}
use orbita_backend.Sso.Tokens.{decode_access_token}
use orbita_backend.Sso.Service.{
  Redirect, to_frontend, to_uri, available_client, build_authorize_redirect, issue_ticket,
  redeem_ticket, revoke_all_for_user,
}
use orbita_backend.Sso.Client.{authenticate_client, available_user}

module _ (crypto : Crypto) where
  abbrev pub user_of_id : Option Uuid → Db → Option User
  user_of_id none db = none
  user_of_id (some id) db = available_user (find_user id db)

  abbrev pub user_of_sub : Option String → Db → Option User
  user_of_sub none db = none
  user_of_sub (some sub) db = if sub == "" then none else user_of_id (crypto.parse_uuid sub) db

  abbrev pub user_of_cookie : Time → Option String → Db → Option User
  user_of_cookie now none db = none
  user_of_cookie now (some token) db =
      if token == "" then none else user_of_sub (decode_access_token crypto now token).sub db

  -- _get_optional_current_user
  unfoldable pub get_optional_current_user : Time → Request → Db → Option User
  get_optional_current_user now request db = user_of_cookie now request.access_cookie db

  abbrev pub cookie_or_blank : Option String → String
  cookie_or_blank none = ""
  cookie_or_blank (some token) = token

  -- _central_auth_method
  abbrev pub central_auth_method : Time → Request → Option String
  central_auth_method now request =
      (decode_access_token crypto now (cookie_or_blank request.access_cookie)).auth_method

  abbrev pub is_local : Option String → Bool
  is_local none = false
  is_local (some m) = m == "local"

  -- _local_password_change_required
  unfoldable pub local_password_change_required : Time → Request → User → Bool
  local_password_change_required now request user =
      user.must_change_password && is_local (central_auth_method now request)

  -- `except HTTPException as exc` in /authorize: only a 403 becomes a page
  abbrev denied_page : Error → Action Redirect
  denied_page (http status detail) =
      if status == 403
      then pure (to_frontend "/auth?error=sso_access_denied")
      else raise (http status detail)
  denied_page e = raise e

  -- The answer, and what is stashed as "pending_authorize", if anything.
  abbrev pub Answer : Type 0
  Answer = Redirect × Option PendingAuthorize

  abbrev without_stash : Redirect → Action Answer
  without_stash r = pure (r, none)

  abbrev authorize_user :
      Uuid → String → Time → Request → String → String → String → Option User → Action Answer
  authorize_user id fresh_code now request client_id redirect_uri state none = pure (
    to_frontend "/auth?continue=sso",
    some (record {
      client_id = some client_id;
      redirect_uri = some redirect_uri;
      state = some state;
    }),
  )
  authorize_user id fresh_code now request client_id redirect_uri state (some user) =
      if local_password_change_required now request user
      then pure (to_frontend "/settings", none)
      else (do
        r ←
            catch
              (build_authorize_redirect crypto id fresh_code now user client_id redirect_uri state)
              denied_page
        pure (r, none))

  unfoldable pub start_sso_authorization :
      Uuid → String → Time → Request → String → String → String → Action Answer
  unfolding build_authorize_redirect
  start_sso_authorization id fresh_code now request client_id redirect_uri state = do
    found ← gets (λ db. available_client db (find_client client_id db))
    app ← or_raise found (http 400 "Unknown or inactive app")
    registered ← gets (validate_redirect_uri app redirect_uri)
    raise_if (not registered) (http 400 "redirect_uri is not registered for this app")
    user ← gets (get_optional_current_user now request)
    authorize_user id fresh_code now request client_id redirect_uri state user

  -- `pending[key]`, a KeyError if the key is missing
  abbrev key : Option String → Action String
  key v = or_raise v key_error

  -- `except (HTTPException, KeyError)`
  abbrev denied_always : Error → Action Redirect
  denied_always (http status detail) = pure (to_frontend "/auth?error=sso_access_denied")
  denied_always key_error = pure (to_frontend "/auth?error=sso_access_denied")
  denied_always e = raise e

  abbrev redirect_pending : Uuid → String → Time → PendingAuthorize → User → Action Redirect
  redirect_pending id fresh_code now p user =
      catch
        (do
          client_id ← key p.client_id
          redirect_uri ← key p.redirect_uri
          state ← key p.state
          build_authorize_redirect crypto id fresh_code now user client_id redirect_uri state)
        denied_always

  -- The answer, and what is left as "pending_authorize".
  abbrev resume_user :
      Uuid → String → Time → Request → PendingAuthorize → Option User → Action Answer
  resume_user id fresh_code now request p none = pure (to_frontend "/auth?continue=sso", some p)
  resume_user id fresh_code now request p (some user) =
      if local_password_change_required now request user
      then pure (to_frontend "/settings", some p)
      else (do r ← redirect_pending id fresh_code now p user; pure (r, none))

  abbrev resume_pending : Uuid → String → Time → Request → Option PendingAuthorize → Action Answer
  resume_pending id fresh_code now request none =
      pure (to_frontend "/auth?error=sso_session_missing", none)
  resume_pending id fresh_code now request (some p) = do
    user ← gets (get_optional_current_user now request)
    resume_user id fresh_code now request p user

  unfoldable pub resume_sso_authorization : Uuid → String → Time → Request → Action Answer
  unfolding build_authorize_redirect
  resume_sso_authorization id fresh_code now request =
      resume_pending id fresh_code now request request.pending_authorize

  abbrev revoke_for : Time → Option User → Action Unit
  revoke_for now none = pure tt
  revoke_for now (some user) = revoke_all_for_user now user.id true

  -- POST /auth/logout; the answer deletes the cookie and is always 200
  unfoldable pub logout_and_revoke_sessions : Time → Request → Action Unit
  unfolding revoke_all_for_user
  logout_and_revoke_sessions now request = do
    user ← gets (get_optional_current_user now request)
    revoke_for now user

  unfoldable pub create_logout_ticket :
      Settings → Uuid → String → Time → String → String → String → Action String
  unfolding issue_ticket
  create_logout_ticket settings id fresh_ticket now client_id client_secret post_logout_uri = do
    app ← authenticate_client crypto now client_id client_secret
    registered ← gets (validate_post_logout_uri app post_logout_uri)
    raise_if (not registered) (http 400 "post_logout_uri is not registered")
    ticket ← issue_ticket crypto id fresh_ticket now app post_logout_uri
    pure (resolved_public_base_url settings <> ("/api/auth/end-session?ticket=" <> ticket))

  unfoldable pub end_federated_session : Time → Request → String → Action Redirect
  unfolding redeem_ticket revoke_all_for_user
  end_federated_session now request ticket = do
    found ← redeem_ticket crypto now ticket
    row ← or_raise found (http 400 "Invalid or expired logout ticket")
    user ← gets (get_optional_current_user now request)
    revoke_for now user
    pure (to_uri row.post_logout_uri)
