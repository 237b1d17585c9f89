-- ===== src/Auth/Callback.antt =====
-- app/modules/auth/router.py: the callback of Microsoft. What authlib returns is an argument.
pub mod Accepted
use orbita_backend.Prelude.{
  ◌⊎◌, inl, inr, String, ◌<>◌, Bool, true, false, not, Option, none, some, List, [], ◌∷◌,
  if◌then◌else◌,
}
use orbita_backend.Prelude.Text.{strip, lower, split_commas}
use orbita_backend.Data.{Db, Uuid, Time, User}
use orbita_backend.Http.{Request, PendingAuthorize}
use orbita_backend.Settings.{Settings, moodle_configured}
use orbita_backend.Crypto.{Crypto}
use orbita_backend.Exec.{
  Action, Error, pure, raise, gets, catch, raise_if, or_raise, http, rate_limited,
  provider_unavailable, invalid_institutional_email, identity_link_conflict, value_error, key_error,
  ◌>>=◌, ◌>>◌,
}
use orbita_backend.Access.Audit.{audit, sync_moodle_clan, Details}
use orbita_backend.Access.Sources.{sync_moodle_role}
use orbita_backend.Access.Startup.{bootstrap_platform_admins}
use orbita_backend.RateLimit.{ensure_allowed, record_failure, record_attempt, clear_success}
use orbita_backend.Identity.{
  Draw, Account, Event, IdentityResolution, provider_email_changed, canonical_email_promoted,
  email_mismatch, get_provider, active_provider, resolve,
}
use orbita_backend.Sso.Service.{Redirect, to_frontend, build_authorize_redirect}
use orbita_backend.Sso.Client.{user_is_unavailable}
use orbita_backend.Auth.Moodle.{
  Answers, Reply, MoodleAuthenticatedUser, authenticate, mapped_orbita_role, credentials_error,
  unavailable_error,
}
use orbita_backend.Auth.Microsoft.{
  MicrosoftClaims, Refusal, Identity, validate_microsoft_claims, tenant_not_allowed, not_accepted,
}
use orbita_backend.Auth.Login.{issue_central_session}
use orbita_backend.Auth.External.{LoginDraw, audit_events}

module _ (validate_email : String → Option String) (crypto : Crypto) (settings : Settings) where
  -- the page, and the token that the cookie is set to
  abbrev pub CallbackAnswer : Type 0
  CallbackAnswer = Redirect × Option String

  abbrev failed : String → Action (IdentityResolution ⊎ Redirect)
  failed reason = pure (inr (to_frontend ("/auth/callback?error=" <> reason)))

  abbrev refuse_callback : Request → Error → Action (IdentityResolution ⊎ Redirect)
  refuse_callback request provider_unavailable = failed "provider_unavailable"
  refuse_callback request (identity_link_conflict reason) = do
    audit "identity.link_conflict" none (some request) none (("provider", some "microsoft") ∷ [])
        true
    failed "identity_link_conflict"
  refuse_callback request invalid_institutional_email = failed "authentication_failed"
  refuse_callback request value_error = failed "authentication_failed"
  refuse_callback request e = raise e

  -- the two `try` blocks: the account, or a page that says why there is none
  abbrev resolve_claims :
      Draw → Request → Refusal ⊎ Identity → Action (IdentityResolution ⊎ Redirect)
  resolve_claims draw request (inl (tenant_not_allowed tenant_id)) = do
    audit "MICROSOFT_TENANT_NOT_ALLOWED" none (some request) none (("tenant_id", tenant_id) ∷ [])
        true
    failed "authentication_failed"
  resolve_claims draw request (inl not_accepted) = failed "authentication_failed"
  resolve_claims draw request (inr (tenant_id, oid, email, full_name)) =
      catch
        (do
          resolution ←
              resolve validate_email settings draw
                (record {
                  provider_code = "microsoft";
                  user_id = oid;
                  tenant_id = some tenant_id;
                  email = some email;
                  full_name = full_name;
                })
                false
          pure (inl resolution))
        (refuse_callback request)

  abbrev resolve_token :
      Draw → Request → Option MicrosoftClaims → Action (IdentityResolution ⊎ Redirect)
  resolve_token draw request none = failed "authentication_failed"
  resolve_token draw request (some claims) =
      resolve_claims draw request (validate_microsoft_claims settings draw.now claims)

  abbrev key : Option String → Action String
  key v = or_raise v key_error

  -- `except (HTTPException, KeyError)`
  abbrev denied_page : Error → Action Redirect
  denied_page (http status detail) = pure (to_frontend "/auth/callback?error=sso_access_denied")
  denied_page key_error = pure (to_frontend "/auth/callback?error=sso_access_denied")
  denied_page e = raise e

  -- where the browser goes: on with the pending hand-off, or to the frontend
  abbrev resume : Uuid → String → Time → User → Option PendingAuthorize → Action Redirect
  resume code_id fresh_code now user none = pure (to_frontend "/auth/callback")
  resume code_id fresh_code now user (some p) =
      catch
        (do
          client_id ← key p.client_id
          redirect_uri ← key p.redirect_uri
          state ← key p.state
          build_authorize_redirect crypto code_id fresh_code now user client_id redirect_uri state)
        denied_page

  abbrev open_session : LoginDraw → Uuid → String → Request → User → Action CallbackAnswer
  open_session draw code_id fresh_code request user =
      if user_is_unavailable user
      then (do
        audit "login.inactive" (some user.id) (some request) none [] true
        pure (to_frontend "/auth/callback?error=user_inactive", none))
      else (do
        page ← resume code_id fresh_code draw.identity.now user request.pending_authorize
        token ←
            issue_central_session crypto settings draw.identity.now draw.jti user request
              "microsoft" "login.microsoft"
        pure (page, some token))

  abbrev finish_callback :
      LoginDraw → Uuid → String → Request → IdentityResolution ⊎ Redirect → Action CallbackAnswer
  finish_callback draw code_id fresh_code request (inr page) = pure (page, none)
  finish_callback draw code_id fresh_code request (inl resolution) = do
    audit_events resolution.user.id request resolution.events
    bootstrap_platform_admins (split_commas settings.platform_admin_emails)
    open_session draw code_id fresh_code request resolution.user

  -- `userinfo` is none where authlib refuses the answer of Microsoft
  abbrev pub resolve_callback :
      Option MicrosoftClaims → LoginDraw → Uuid → String → Request → Action CallbackAnswer
  resolve_callback userinfo draw code_id fresh_code request = do
    account ← resolve_token draw.identity request userinfo
    finish_callback draw code_id fresh_code request account

  unfoldable pub handle_microsoft_callback :
      Option MicrosoftClaims → LoginDraw → Uuid → String → Request → Action CallbackAnswer
  handle_microsoft_callback userinfo draw code_id fresh_code request =
      if settings.enable_microsoft_login
      then resolve_callback userinfo draw code_id fresh_code request
      else pure (to_frontend "/auth/callback?error=provider_unavailable", none)

  -- `consent` is the page that authlib sends the browser to
  unfoldable pub redirect_to_microsoft_login : Redirect → Redirect
  redirect_to_microsoft_login consent =
      if settings.enable_microsoft_login
      then consent
      else to_frontend "/auth/callback?error=provider_unavailable"
