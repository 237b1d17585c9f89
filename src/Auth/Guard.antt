-- ===== src/Auth/Guard.antt =====
-- app/modules/auth/dependencies.py and app/security.py: who may call an endpoint. A request passes
-- the middleware `csrf_and_origin_protection` first, and then the guard of its route.
pub mod Session
pub mod Forgery
pub mod Paths
pub mod Exempt
use orbita_backend.Prelude.{
  String, ◌<>◌, Bool, true, false, not, ◌&&◌, ◌||◌, ◌==◌, text_comparable, number_comparable,
  is_some, Option, none, some, List, [], ◌∷◌, ◌++◌, any, contains, if◌then◌else◌,
}
use orbita_backend.Prelude.Text.{strip_slashes, ends_with}
use text.Mathlib.Text.{starts_with}
use orbita_backend.Data.{Db, Uuid, Time, User, GlobalRole}
use orbita_backend.Http.{Request}
use orbita_backend.Settings.{Settings, allowed_frontend_origins, resolved_public_base_url}
use orbita_backend.Crypto.{Crypto}
use orbita_backend.Exec.{Action, pure, raise, gets, raise_if, or_raise, http, ◌>>=◌, ◌>>◌}
use orbita_backend.Access.Sources.{find_role, platform_admin_role}
use orbita_backend.Users.{find_user}
use orbita_backend.Sso.Tokens.{decode_access_token}
use orbita_backend.Sso.Browser.{is_local, cookie_or_blank}
use orbita_backend.Auth.Csrf.{verify_csrf_token}

abbrev is_named : String → Option GlobalRole → Bool
is_named name none = false
is_named name (some role) = role.name == name

-- AccessService.has_global_role
abbrev pub has_global_role : Uuid → String → Db → Bool
has_global_role user_id name db =
    any (λ r. r.user_id == user_id && is_named name (find_role r.global_role_id db.global_roles))
      db.user_global_roles

-- _PASSWORD_CHANGE_ALLOWED_PATHS
abbrev pub password_change_allowed_paths : List String
password_change_allowed_paths =
    "/api/auth/csrf" ∷ "/api/auth/logout" ∷ "/api/auth/me" ∷ "/api/auth/me/password" ∷ []

module _ (crypto : Crypto) where
  unfoldable pub get_current_user : Time → Request → Action User
  get_current_user now request = do
    token ← or_raise request.access_cookie (http 401 "Authentication required")
    let payload = decode_access_token crypto now token
    subject ← or_raise payload.sub (http 401 "Invalid authentication token")
    user_id ← or_raise (crypto.parse_uuid subject) (http 401 "Invalid authentication token")
    found ← gets (find_user user_id)
    user ← or_raise found (http 401 "User not found")
    raise_if (not user.is_active || is_some user.deleted_at) (http 403 "User is inactive")
    raise_if
        (user.must_change_password
          && (is_local crypto payload.auth_method
              && not (contains request.path password_change_allowed_paths)))
        (http 403 "password_change_required")
    pure user

  unfoldable pub get_current_platform_admin : Time → Request → Action User
  get_current_platform_admin now request = do
    user ← get_current_user now request
    admin ← gets (has_global_role user.id platform_admin_role)
    raise_if (not admin) (http 403 "Platform admin privileges required")
    pure user

abbrev pub unsafe_methods : List String
unsafe_methods = "POST" ∷ "PUT" ∷ "PATCH" ∷ "DELETE" ∷ []

abbrev pub server_to_server_paths : List String
server_to_server_paths =
    "/api/auth/token" ∷ "/api/auth/introspect" ∷ "/api/auth/adopt-role" ∷ "/api/auth/logout-ticket"
    ∷ []

abbrev pub public_auth_paths : List String
public_auth_paths =
    "/api/auth/login" ∷ "/api/auth/moodle/login" ∷ "/api/auth/moodle/password-reset" ∷ []

-- _is_server_to_server
unfoldable pub is_server_to_server : Request → Bool
is_server_to_server request =
    contains request.path server_to_server_paths
    || (starts_with request.path "/api/apps/" && ends_with "/role-catalog" request.path)

-- _trusted_origins
abbrev pub trusted_origins : Settings → List String
trusted_origins settings =
    allowed_frontend_origins settings ++ strip_slashes (resolved_public_base_url settings) ∷ []

-- the first return of the middleware: nothing to protect
unfoldable pub is_exempt : Request → Bool
unfolding is_server_to_server
is_exempt request =
    not (contains request.method unsafe_methods)
    || (not (starts_with request.path "/api/") || is_server_to_server request)

-- the test of the origin
abbrev or_blank : Option String → String
or_blank none = ""
or_blank (some text) = text

abbrev pub is_trusted : Settings → Request → Bool
is_trusted settings request =
    contains (strip_slashes (or_blank request.origin)) (trusted_origins settings)

abbrev pub is_public_auth : Request → Bool
is_public_auth request = contains request.path public_auth_paths

module _ (crypto : Crypto) (settings : Settings) {A : Type 0} where
  -- `call_next` is the rest of the program. Its 403 is an answer, and nothing else runs.
  unfoldable pub csrf_and_origin_protection : Time → Request → Action A → Action A
  csrf_and_origin_protection now request call_next =
      if is_exempt request
      then call_next
      else if not (is_trusted settings request)
      then raise (http 403 "Untrusted request origin")
      else if is_public_auth request
      then call_next
      else if verify_csrf_token crypto settings now request.csrf_header
          (decode_access_token crypto now (cookie_or_blank crypto request.access_cookie)).jti
      then call_next
      else raise (http 403 "CSRF validation failed")
