-- ===== src/Tests/Login.antt =====
-- The theorems on passwords and logins at a concrete account.
use orbita_backend.Prelude.{
  ℕ, String, ◌≡◌, ◌↔◌, refl, true, false, ◌==◌, text_comparable, number_comparable, some, List, [],
  ◌∷◌, arith,
}
use orbita_backend.Prelude.Number.{int}
use orbita_backend.Access.Audit.{audit}
use orbita_backend.Sso.Service.{revoke_all_for_user}
use orbita_backend.Prelude.Text.{strip, lower, btrim}
use orbita_backend.RateLimit.{ensure_allowed, record_attempt}
use orbita_backend.Data.{Db, User}
use orbita_backend.Exec.{run, ok, err, http}
use orbita_backend.Users.{find_user, find_by_email}
use orbita_backend.Sso.Tokens.{decode_access_token}
use orbita_backend.Sso.Client.{user_is_unavailable}
use orbita_backend.Sso.Service.Revocation.{Revokes}
use orbita_backend.Auth.Passwords.{verify_password}
use orbita_backend.Auth.Guard.{get_current_user}
use orbita_backend.Auth.Account.{PasswordChangeRequest, change_current_user_password}
use orbita_backend.Auth.Account.Password.{password_changed}
use orbita_backend.Auth.Login.{Draw, PasswordLoginRequest, too_many_attempts, password_login}
use orbita_backend.Auth.Login.Sound.{login, limited, password_login_iff}
use orbita_backend.Auth.Login.Guessing.{
  Guess, guess, AllRefused, after_guesses, guessing_is_limited,
}
use orbita_backend.Tests.Sample.{ana, db, settings, request}
use orbita_backend.Tests.Library.{crypto, crypto-IsBase64}

-- Ana with a password of four letters
abbrev local_ana : User
local_ana = record ana {
  password_hash = some "pbkdf2_sha256$1$$aaaab";
  must_change_password = true;
}

abbrev local_db : Db
local_db = record db { users = local_ana ∷ [] }

abbrev change : PasswordChangeRequest
change = record { current_password = "ana1"; new_password = "longer" }

entered_locally : (run (get_current_user crypto 0 request) local_db).0 ≡ ok local_ana
unfolding get_current_user decode_access_token
entered_locally = refl

changed : (run (change_current_user_password crypto 0 (7 ∷ []) change request) local_db).0 ≡ ok tt
unfolding change_current_user_password get_current_user decode_access_token verify_password int
    strip revoke_all_for_user audit
changed = refl

password_changed_example :
    (verify_password crypto "ana1" (some "pbkdf2_sha256$1$$aaaab") ≡ true)
    × ((user : User) × (find_user 1
            (run (change_current_user_password crypto 0 (7 ∷ []) change request) local_db).1
          ≡ some user)
        × (verify_password crypto "longer" user.password_hash ≡ true)
        × (user.must_change_password ≡ false))
    × Revokes
        (λ s. s.user_id == 1)
        local_db.app_sessions
        (run
          (change_current_user_password crypto 0 (7 ∷ []) change request)
          local_db).1.app_sessions
password_changed_example =
    password_changed crypto crypto-IsBase64 0 (7 ∷ []) change request local_db local_ana
      entered_locally refl changed

abbrev login_draw : ℕ → Draw
login_draw now = record { now = now; jti = "fresh"; salt = []; user_id = 2 }

abbrev right : PasswordLoginRequest
right = record { email = "ana@riwi.io"; password = "ana1" }

password_login_iff_example :
    ((token : String) × (login crypto settings (login_draw 9000000000) right request local_db).0
        ≡ ok token)
    ↔ (settings.enable_local_login ≡ true)
      × (limited crypto settings (login_draw 9000000000) right request local_db ≡ false)
      × ((user : User) × (find_by_email "ana@riwi.io" local_db ≡ some user)
          × (verify_password crypto "ana1" user.password_hash ≡ true)
          × (user_is_unavailable user ≡ false))
password_login_iff_example =
    password_login_iff crypto settings (login_draw 9000000000) right request local_db

abbrev guesses : List Guess
guesses = (login_draw 8900000000, "guess") ∷ (login_draw 8950000000, "other") ∷ []

refused :
    (login crypto settings
      (login_draw 8900000000)
      (guess crypto settings "ana@riwi.io" request (login_draw 8900000000, "guess"))
      request
      local_db).0
    ≡ err (http 401 "Invalid email or password")
unfolding password_login ensure_allowed lower btrim strip verify_password int record_attempt audit
refused = refl

refused_again :
    (login crypto settings
      (login_draw 8950000000)
      (guess crypto settings "ana@riwi.io" request (login_draw 8950000000, "other"))
      request
      (login crypto settings
        (login_draw 8900000000)
        (guess crypto settings "ana@riwi.io" request (login_draw 8900000000, "guess"))
        request
        local_db).1).0
    ≡ err (http 401 "Invalid email or password")
unfolding password_login ensure_allowed lower btrim strip verify_password int record_attempt audit
refused_again = refl

all_refused : AllRefused crypto settings "ana@riwi.io" request 9000000000 guesses local_db
all_refused = ((omega arith), refl, refused, ((omega arith), refl, refused_again, tt))

guessing_is_limited_example :
    (login crypto settings
      (login_draw 9000000000)
      right
      request
      (after_guesses crypto settings "ana@riwi.io" request guesses local_db)).0
    ≡ err (http 429 too_many_attempts)
guessing_is_limited_example =
    guessing_is_limited crypto settings "ana@riwi.io" request guesses (login_draw 9000000000) "ana1"
      local_db refl all_refused (omega arith)
