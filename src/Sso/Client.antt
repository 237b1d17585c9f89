-- ===== src/Sso/Client.antt =====
-- The guards that the endpoints for other apps' backends begin with, and whether a user may act.
use orbita_backend.Prelude.{
  String, Bool, not, ◌&&◌, ◌||◌, is_some, Option, none, some, if◌then◌else◌,
}
use orbita_backend.Data.{Db, Time, User, App}
use orbita_backend.Crypto.{Crypto}
use orbita_backend.Exec.{Action, gets, or_raise, http, ◌>>=◌}
use orbita_backend.Apps.{find_client, is_available_for_sso, verify_client_secret}

-- _user_is_unavailable
abbrev pub user_is_unavailable : User → Bool
user_is_unavailable u = not u.is_active || is_some u.deleted_at

-- a user that was found and may act
abbrev pub available_user : Option User → Option User
available_user none = none
available_user (some u) = if user_is_unavailable u then none else some u

module _ (crypto : Crypto) where
  -- The app, unless the client is unknown or unavailable or the secret is wrong.
  abbrev pub authentic : Time → String → Db → Option App → Option App
  authentic now client_secret db none = none
  authentic now client_secret db (some app) =
      if is_available_for_sso app db && verify_client_secret crypto now app client_secret
      then some app
      else none

  abbrev pub client_of : Time → String → String → Db → Option App
  client_of now client_id client_secret db =
      authentic now client_secret db (find_client client_id db)

  abbrev pub authenticate_client : Time → String → String → Action App
  authenticate_client now client_id client_secret = do
    app ← gets (client_of now client_id client_secret)
    or_raise app (http 401 "Invalid client credentials")
