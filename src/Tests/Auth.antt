-- ===== src/Tests/Auth.antt =====
-- The theorems on accounts and central sessions at concrete rows: a cookie of Ana, a CSRF token for it,
-- her password, and her Moodle roles.
use orbita_backend.Prelude.{
  ◌⊎◌, ◌+◌, String, ◌≡◌, refl, true, false, ◌&&◌, ◌==◌, text_comparable, number_comparable,
  same_list, leb, none, some, [], ◌∷◌,
}
use orbita_backend.Prelude.Text.{split_commas, strip, strip_slashes}
use orbita_backend.Settings.{allowed_frontend_origins}
use orbita_backend.Data.{User, minutes}
use orbita_backend.Http.{Request}
use orbita_backend.Crypto.{IsLawful}
use orbita_backend.Exec.{Action, pure, raise, run, ok, http}
use orbita_backend.Sso.Tokens.{create_access_token, access_claims, decode_access_token}
use orbita_backend.Auth.Passwords.{hash_password, verify_password, iterations}
use orbita_backend.Auth.Passwords.RoundTrip.{verify_password-hash_password}
use orbita_backend.Auth.Csrf.{issue_csrf_token, verify_csrf_token, timestamp, csrf_ttl_minutes}
use orbita_backend.Auth.Csrf.RoundTrip.{verify_csrf-issue_csrf}
use orbita_backend.Auth.Guard.{
  get_current_user, csrf_and_origin_protection, is_exempt, is_server_to_server, is_trusted,
}
use orbita_backend.Auth.Guard.Forgery.{session_of, forged_write}
use orbita_backend.Auth.Csrf.Signed.{IsSigned}
use orbita_backend.Tests.Sample.{ana, db, settings, request}
use orbita_backend.Tests.Library.{crypto, session-IsLawful, crypto-IsBase64, crypto-IsUrlsafeBase64}

verify_password-hash_password_example :
    verify_password crypto "right" (some (hash_password crypto (7 ∷ []) "wrong"))
    ≡ same_list
        (crypto.pbkdf2 "wrong" (7 ∷ []) iterations)
        (crypto.pbkdf2 "right" (7 ∷ []) iterations)
verify_password-hash_password_example =
    verify_password-hash_password crypto crypto-IsBase64 (7 ∷ []) "wrong" "right"

abbrev own : String
own = "jti"

verify_csrf-issue_csrf_example :
    verify_csrf_token crypto settings 5
      (some (issue_csrf_token crypto settings 0 "nonce" "jti"))
      (some "other")
    ≡ (own == "other" && leb (timestamp 5) (timestamp (0 + minutes csrf_ttl_minutes)))
verify_csrf-issue_csrf_example =
    verify_csrf-issue_csrf crypto settings crypto-IsUrlsafeBase64 0 "nonce" "jti" refl refl 5
      "other" refl refl

no_sub : (decode_access_token crypto 0 "").sub ≡ none
unfolding decode_access_token
no_sub = refl

entered : (run (get_current_user crypto 0 request) db).0 ≡ ok ana
unfolding get_current_user decode_access_token
entered = refl

-- an endpoint that lists the users
abbrev count_users : User → Action User
count_users admin = pure admin

-- a write from the frontend with the cookie of a session and the token of another one
abbrev session_cookie : String
session_cookie = create_access_token crypto 0 60 "1" "ana@riwi.io" ("coder" ∷ []) "local" "jti"

abbrev forged : Request
forged = record request {
  path = "/api/users/bulk/delete";
  origin = some "https://orbita.riwi.io";
  access_cookie = some session_cookie;
  csrf_header = some (issue_csrf_token crypto settings 0 "nonce" "other");
}

cookie-IsLawful : IsLawful crypto session_cookie
unfolding create_access_token access_claims
cookie-IsLawful = session-IsLawful

unexempt : is_exempt forged ≡ false
unfolding is_exempt is_server_to_server
unexempt = refl

trusted : is_trusted settings forged ≡ true
unfolding allowed_frontend_origins split_commas strip strip_slashes
trusted = refl

forged_write_example :
    (IsSigned crypto settings 1000000 forged.csrf_header (session_of crypto 1000000 forged)
      × (csrf_and_origin_protection crypto settings 1000000 forged (count_users ana)
          ≡ count_users ana))
    ⊎ ((¬ IsSigned crypto settings 1000000 forged.csrf_header (session_of crypto 1000000 forged))
        × (csrf_and_origin_protection crypto settings 1000000 forged (count_users ana)
            ≡ raise (http 403 "CSRF validation failed")))
forged_write_example =
    forged_write crypto settings 1000000 forged (count_users ana) unexempt trusted refl
