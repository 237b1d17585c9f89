-- ===== src/Auth/Csrf.antt =====
-- app/modules/auth/csrf.py
pub mod RoundTrip
pub mod Signed
use orbita_backend.Prelude.{
  ℕ, ◌+◌, ◌/◌, String, ◌<>◌, Bool, false, not, ◌&&◌, ◌||◌, ◌==◌, text_comparable, number_comparable,
  ltb, Option, none, some, if◌then◌else◌,
}
use orbita_backend.Prelude.Text.{Four, split_four, strip_equals, padded}
use orbita_backend.Prelude.Number.{str, int}
use orbita_backend.Data.{Time, minutes}
use orbita_backend.Settings.{Settings, csrf_signing_secret}
use orbita_backend.Crypto.{Crypto}
use orbita_backend.Auth.Passwords.{same_bytes}

-- CSRF_TTL_MINUTES
abbrev pub csrf_ttl_minutes : ℕ
csrf_ttl_minutes = 30

-- int(moment.timestamp())
abbrev pub timestamp : Time → ℕ
timestamp t = t / 1000000

abbrev pub csrf_payload : String → String → String → String
csrf_payload jti expiry nonce = jti <> ("." <> (expiry <> ("." <> nonce)))

module _ (crypto : Crypto) (settings : Settings) where
  -- `nonce` is the value of secrets.token_urlsafe(16)
  unfoldable pub issue_csrf_token : Time → String → String → String
  issue_csrf_token now nonce session_jti =
      let payload =
        csrf_payload session_jti (str (timestamp (now + minutes csrf_ttl_minutes))) nonce in
      payload
      <> ("."
          <> strip_equals (
              crypto.urlsafe_b64encode (crypto.hmac_digest (csrf_signing_secret settings) payload)))

  abbrev pub verify_signature : String → String → Bool
  verify_signature payload signature =
      same_bytes (crypto.urlsafe_b64decode (padded signature))
        (crypto.hmac_digest (csrf_signing_secret settings) payload)

  -- from the check of the parts on
  abbrev verify_csrf_with : Time → String → Four → Option ℕ → Bool
  verify_csrf_with now session_jti parts none = false
  verify_csrf_with now session_jti (jti, raw_expiry, nonce, signature) (some expires_at) =
      if not (jti == session_jti) || (nonce == "" || ltb expires_at (timestamp now))
      then false
      else verify_signature (csrf_payload jti raw_expiry nonce) signature

  abbrev verify_csrf_parts : Time → String → Option Four → Bool
  verify_csrf_parts now session_jti none = false
  verify_csrf_parts now session_jti (some (jti, raw_expiry, nonce, signature)) =
      verify_csrf_with now session_jti (jti, raw_expiry, nonce, signature) (int raw_expiry)

  unfoldable pub verify_csrf_token : Time → Option String → Option String → Bool
  verify_csrf_token now (some token) (some session_jti) =
      if token == "" || session_jti == ""
      then false
      else verify_csrf_parts now session_jti (split_four b'.' token)
  verify_csrf_token now _ _ = false
