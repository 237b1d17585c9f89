-- ===== src/Auth/Guard/Exempt.antt =====
-- The paths of one app under /api/apps/: the role catalog, which an app's backend writes, and the
-- app itself, whose status an administrator's browser changes by PATCH.
use text.Mathlib.TextPositions.{starts_with-append}
use text.Mathlib.Text.{starts_with}
use text.Mathlib.TextLemmas.{append_assoc}
use orbita_backend.Prelude.{
  String, ◌<>◌, ◌≡◌, refl, contains, true, false, not, ◌==◌, text_comparable, number_comparable,
  if◌then◌else◌,
}
use orbita_backend.Prelude.Text.{has_code}
use orbita_backend.Data.{Time}
use orbita_backend.Settings.{Settings}
use orbita_backend.Crypto.{Crypto}
use orbita_backend.Exec.{Action, raise, http}
use orbita_backend.Sso.Tokens.{decode_access_token}
use orbita_backend.Sso.Browser.{cookie_or_blank}
use orbita_backend.Auth.Csrf.{verify_csrf_token}
use orbita_backend.Auth.Guard.{
  csrf_and_origin_protection, is_trusted, is_exempt, is_server_to_server, server_to_server_paths,
  unsafe_methods, public_auth_paths,
}
use orbita_backend.Http.{Request}
use orbita_backend.Auth.Guard.Paths.{app_path, app_path_lem, auth_path_differs, ends_with_path}

unlisted : (s : String) → contains (app_path s) server_to_server_paths ≡ false
unlisted s =
    rw
      (
        app_path_lem s,
        auth_path_differs (String.◌∷◌ "p" (String.◌∷◌ "s" (String.◌∷◌ "/" s))) "th/token",
        auth_path_differs (String.◌∷◌ "p" (String.◌∷◌ "s" (String.◌∷◌ "/" s))) "th/introspect",
        auth_path_differs (String.◌∷◌ "p" (String.◌∷◌ "s" (String.◌∷◌ "/" s))) "th/adopt-role",
        auth_path_differs (String.◌∷◌ "p" (String.◌∷◌ "s" (String.◌∷◌ "/" s))) "th/logout-ticket",
      )
      refl

private_path : (s : String) → contains (app_path s) public_auth_paths ≡ false
private_path s =
    rw
      (
        app_path_lem s,
        auth_path_differs (String.◌∷◌ "p" (String.◌∷◌ "s" (String.◌∷◌ "/" s))) "th/login",
        auth_path_differs (String.◌∷◌ "p" (String.◌∷◌ "s" (String.◌∷◌ "/" s))) "th/moodle/login",
        auth_path_differs (String.◌∷◌ "p" (String.◌∷◌ "s" (String.◌∷◌ "/" s)))
            "th/moodle/password-reset",
      )
      refl

under_api : (s : String) → starts_with (app_path s) "/api/" ≡ true
under_api s = rw (append_assoc "/api/" "apps/" s) (starts_with-append "/api/" ("apps/" <> s))

app_path-is_exempt :
    (request : Request) (client_id : String)
    → has_code b'/' client_id ≡ false
    → contains request.method unsafe_methods ≡ true
    → request.path ≡ app_path client_id
    → is_exempt request ≡ (client_id == "role-catalog")
unfolding is_exempt is_server_to_server
app_path-is_exempt request client_id plain unsafe at_app =
    rw
      (
        at_app,
        unsafe,
        unlisted client_id,
        under_api client_id,
        starts_with-append "/api/apps/" client_id,
        ends_with_path client_id plain,
      )
      refl

-- For a write to `/api/apps/{client_id}` with a client id that has no slash, as the change of an
-- app's status: the middleware compares the origin, and then the CSRF token with the session of the
-- cookie, unless the client id is `role-catalog`. That app's path ends like the role catalog's, and
-- the write runs whatever its origin and its token.
pub csrf_and_origin_protection-app_path :
    (crypto : Crypto) (settings : Settings) {A : Type 0} (now : Time) (request : Request)
    (client_id : String) (endpoint : Action A)
    → has_code b'/' client_id ≡ false
    → contains request.method unsafe_methods ≡ true
    → request.path ≡ app_path client_id
    → csrf_and_origin_protection crypto settings now request endpoint ≡ (
        if client_id == "role-catalog"
        then endpoint
        else if not (is_trusted settings request)
        then raise (http 403 "Untrusted request origin")
        else if verify_csrf_token crypto settings now request.csrf_header
            (decode_access_token crypto now (cookie_or_blank crypto request.access_cookie)).jti
        then endpoint
        else raise (http 403 "CSRF validation failed"))
unfolding csrf_and_origin_protection
csrf_and_origin_protection-app_path crypto settings now request client_id endpoint plain unsafe
      at_app =
    let listed = private_path client_id in
    rw (app_path-is_exempt request client_id plain unsafe at_app) rw (at_app, listed) refl
