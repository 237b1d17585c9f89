-- ===== src/Auth/Guard/Forgery.antt =====
-- A write that a browser sends with its session cookie and a CSRF token, issued or made up.
use orbita_backend.Prelude.{
  ◌+◌, ◌*◌, ◌≤◌, String, ◌≡◌, refl, true, false, ◌&&◌, ◌==◌, text_comparable, leb, Option, some,
  List, ◌⊎◌, inl, inr, if◌then◌else◌,
}
use orbita_backend.Prelude.Text.{has_code}
use orbita_backend.Data.{Time, minutes}
use orbita_backend.Http.{Request}
use orbita_backend.Settings.{Settings}
use orbita_backend.Crypto.{Crypto, IsLawful, IsUrlsafeBase64}
use orbita_backend.Exec.{Action, raise, http}
use orbita_backend.Sso.Tokens.{
  access_claims, create_access_token, decode_access_token, numeric_date,
}
use orbita_backend.Auth.Csrf.{csrf_ttl_minutes, timestamp, issue_csrf_token}
use orbita_backend.Auth.Csrf.RoundTrip.{verify_csrf-issue_csrf}
use orbita_backend.Auth.Csrf.Signed.{IsSigned, verify_csrf_token_cases}
use orbita_backend.Sso.Browser.{cookie_or_blank}
use orbita_backend.Auth.Guard.{csrf_and_origin_protection, is_exempt, is_trusted, is_public_auth}

-- the id of the session that the cookie of a request names
abbrev pub session_of : Crypto → Time → Request → Option String
session_of crypto now request =
    (decode_access_token crypto now (cookie_or_blank crypto request.access_cookie)).jti

module _ (crypto : Crypto) (settings : Settings) (base64 : IsUrlsafeBase64 crypto)
    (login issued now : Time) (user_id email auth_method jti nonce owner : String)
    (roles : List String) (request : Request) where
  abbrev cookie : String
  cookie =
      create_access_token crypto login settings.jwt_expire_minutes user_id email roles auth_method
        jti

  -- The cookie decodes to its claims while it lasts.
  jti_of_cookie :
      IsLawful crypto cookie
      → now ≤ numeric_date (login + minutes settings.jwt_expire_minutes) * 1000000
      → (decode_access_token crypto now cookie).jti ≡ some jti
  unfolding create_access_token access_claims decode_access_token
  jti_of_cookie law lasting =
      let claims =
        access_claims login settings.jwt_expire_minutes user_id email roles auth_method jti in
      let decoded =
        law.decode-encode now claims (numeric_date (login + minutes settings.jwt_expire_minutes))
          refl refl lasting in
      rw decoded refl

  -- Where a token that was signed decodes to its claims, base64 gives back what it encoded, and the
  -- session id and the nonce of the CSRF token are not empty and have no dot: while a central
  -- session lasts, a write to a protected path with its cookie and from a trusted origin is run
  -- exactly where the CSRF token was issued for that session and has not expired, and is else
  -- answered with 403.
  issued_write :
      {A : Type 0} (endpoint : Action A)
      → IsLawful crypto cookie
      → has_code b'.' owner ≡ false
      → has_code b'.' nonce ≡ false
      → (owner == "") ≡ false
      → (nonce == "") ≡ false
      → now ≤ numeric_date (login + minutes settings.jwt_expire_minutes) * 1000000
      → request.access_cookie ≡ some cookie
      → request.csrf_header ≡ some (issue_csrf_token crypto settings issued nonce owner)
      → is_exempt request ≡ false
      → is_trusted settings request ≡ true
      → is_public_auth request ≡ false
      → csrf_and_origin_protection crypto settings now request endpoint ≡ (
          if owner == jti && leb (timestamp now) (timestamp (issued + minutes csrf_ttl_minutes))
          then endpoint
          else raise (http 403 "CSRF validation failed"))
  unfolding csrf_and_origin_protection
  issued_write endpoint law plain fresh named drawn lasting held sent exempt trusted private_path =
      let own = jti_of_cookie law lasting in
      let verified =
        verify_csrf-issue_csrf crypto settings base64 issued nonce owner plain fresh now jti named
          drawn in
      rw (exempt, trusted, private_path, held, sent, own, verified) refl

-- A write to a protected path from a trusted origin is run exactly where its header holds a CSRF
-- token of the session of its cookie that has not expired and carries the HMAC of its parts under the
-- secret of the server, whoever made the token; it is else answered with 403.
pub forged_write :
    (crypto : Crypto) (settings : Settings) (now : Time) (request : Request) {A : Type 0}
    (endpoint : Action A)
    → is_exempt request ≡ false
    → is_trusted settings request ≡ true
    → is_public_auth request ≡ false
    → (IsSigned crypto settings now request.csrf_header (session_of crypto now request)
        × (csrf_and_origin_protection crypto settings now request endpoint ≡ endpoint))
      ⊎ ((¬ IsSigned crypto settings now request.csrf_header (session_of crypto now request))
          × (csrf_and_origin_protection crypto settings now request endpoint
              ≡ raise (http 403 "CSRF validation failed")))
unfolding csrf_and_origin_protection
forged_write crypto settings now request endpoint exempt trusted private_path =
    elim (verify_csrf_token_cases crypto settings now request.csrf_header
      (session_of crypto now request)) [
        | inl (signed, e) ↦ inl (signed, rw (exempt, trusted, private_path, e) refl)
        | inr (unsigned, e) ↦ inr (unsigned, rw (exempt, trusted, private_path, e) refl)
      ]
