-- ===== src/Sso/Browser/Logout.antt =====
-- What logging out does to the app sessions of the user.
use orbita_backend.Prelude.{◌≡◌, some, ◌==◌, number_comparable, arith}
use orbita_backend.Data.{Db, Time, User}
use orbita_backend.Http.{Request}
use orbita_backend.Crypto.{Crypto}
use orbita_backend.Exec.{ok, run}
use orbita_backend.Sso.Service.Revocation.{Revokes, Revokes-of_eq}
use orbita_backend.Sso.Browser.{get_optional_current_user, logout_and_revoke_sessions}

module _ (crypto : Crypto) (now : Time) (request : Request) (db : Db) (user : User) where
  -- Logging out with a session cookie of a user succeeds and closes exactly the app sessions of the
  -- user.
  pub logout_closes_sessions :
      get_optional_current_user crypto now request db ≡ some user
      → ((run (logout_and_revoke_sessions crypto now request) db).0 ≡ ok tt)
        × Revokes
            (λ s. s.user_id == user.id)
            db.app_sessions
            (run (logout_and_revoke_sessions crypto now request) db).1.app_sessions
  unfolding logout_and_revoke_sessions
  logout_closes_sessions found =
      (ground arith, Revokes-of_eq now (λ s. s.user_id == user.id) db.app_sessions _ (ground arith))
