-- ===== src/Routers/Schemas/Registered.antt =====
-- The client ids that an app can be registered with, and the paths of their writes.
use orbita_backend.Prelude.{
  String, Bool, ◌≡◌, refl, ap, sym, ◌∙◌, List, true, false, not, ◌&&◌, ◌==◌, text_comparable,
  number_comparable, Option, some, none, contains, if◌then◌else◌, arith, Bool-cases, inl, inr,
}
use mathlib.Core.Option.{some-injective}
use orbita_backend.Prelude.Text.{has_code}
use orbita_backend.Data.{Time}
use orbita_backend.Http.{Request}
use orbita_backend.Settings.{Settings}
use orbita_backend.Crypto.{Crypto}
use orbita_backend.Exec.{Action, raise, http}
use orbita_backend.Sso.Tokens.{decode_access_token}
use orbita_backend.Sso.Browser.{cookie_or_blank}
use orbita_backend.Auth.Csrf.{verify_csrf_token}
use orbita_backend.Auth.Guard.{csrf_and_origin_protection, is_trusted, unsafe_methods}
use orbita_backend.Auth.Guard.Paths.{app_path}
use orbita_backend.Auth.Guard.Exempt.{csrf_and_origin_protection-app_path}
use orbita_backend.Routers.Schemas.Fields.{
  fields_of_app, with_claims, claims_field, has_length, AppCreate, ParsedUrl, validate_app_create,
  is_key, is_key_char, every,
}

every-plain : (s : String) → every is_key_char s ≡ true → has_code b'/' s ≡ false
every-plain String.[] h = refl
every-plain (String.◌∷◌ c s) h = ground (arith, every-plain s)

key-plain : (s : String) → is_key s ≡ true → has_code b'/' s ≡ false
key-plain String.[] h = refl
key-plain (String.◌∷◌ c s) h = ground (arith, every-plain s)

with_claims-client_id :
    (urlparse : String → ParsedUrl) (body app : AppCreate) (claims : Option (List String))
    → with_claims urlparse body claims ≡ some app
    → app.client_id ≡ body.client_id
with_claims-client_id urlparse body app none h = absurd cc
with_claims-client_id urlparse body app (some claims) h =
    sym (ap (λ (a : AppCreate). a.client_id) (some-injective _ _ h))

first_field : (a b c : Bool) → ((a && b) && c) ≡ true → b ≡ true
first_field a b c h = ground (arith, h)

fields-plain :
    (urlparse : String → ParsedUrl) (body app : AppCreate)
    → validate_app_create urlparse body ≡ some app
    → has_code b'/' app.client_id ≡ false
unfolding validate_app_create
fields-plain urlparse body app h = elim (Bool-cases (fields_of_app urlparse body)) [
  | inr e ↦
      let refused : validate_app_create urlparse body ≡ none =
        ap (λ b. if b then with_claims urlparse body (claims_field body.released_claims) else none)
          e in
      absurd (ground (arith, sym refused ∙ h))
  | inl e ↦
      let made : with_claims urlparse body (claims_field body.released_claims) ≡ some app =
        sym (
          ap
            (λ b. if b then with_claims urlparse body (claims_field body.released_claims) else none)
            e)
        ∙ h in
      let same = with_claims-client_id urlparse body app (claims_field body.released_claims) made in
      let key : is_key body.client_id ≡ true =
        first_field (has_length 2 255 body.client_id) (is_key body.client_id) _ e in
      rw same (key-plain body.client_id key)
]

-- For a write to `/api/apps/{client_id}`, as the change of an app's status, with the client id of an
-- app whose registration was accepted: the middleware compares the origin, and then the CSRF token
-- with the session of the cookie, unless the client id is `role-catalog`. That app's path ends like
-- the role catalog's, and the write runs whatever its origin and its token.
pub csrf_and_origin_protection-registered :
    (urlparse : String → ParsedUrl) (crypto : Crypto) (settings : Settings) {A : Type 0}
    (now : Time) (request : Request) (body app : AppCreate) (endpoint : Action A)
    → validate_app_create urlparse body ≡ some app
    → contains request.method unsafe_methods ≡ true
    → request.path ≡ app_path app.client_id
    → csrf_and_origin_protection crypto settings now request endpoint ≡ (
        if app.client_id == "role-catalog"
        then endpoint
        else if not (is_trusted settings request)
        then raise (http 403 "Untrusted request origin")
        else if verify_csrf_token crypto settings now request.csrf_header
            (decode_access_token crypto now (cookie_or_blank crypto request.access_cookie)).jti
        then endpoint
        else raise (http 403 "CSRF validation failed"))
csrf_and_origin_protection-registered urlparse crypto settings now request body app endpoint valid
      unsafe at_app =
    csrf_and_origin_protection-app_path crypto settings now request app.client_id endpoint
      (fields-plain urlparse body app valid) unsafe at_app
