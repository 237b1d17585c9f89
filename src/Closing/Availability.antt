-- ===== src/Closing/Availability.antt =====
-- ApplicationLifecycleService.set_availability, where it switches an app off: the tile, the SSO client
-- and the open sessions.
use orbita_backend.Prelude.{
  ◌≡◌, refl, false, ◌==◌, number_comparable, first, update, Option, none, some, inl, inr,
  Option-cases, same_number_iff,
}
use orbita_backend.Prelude.Queries.{map_option, first-update}
use orbita_backend.Data.{Db, Time, Uuid, App, Application}
use orbita_backend.Exec.{run}
use orbita_backend.Apps.{set_availability, complete_application, with_application}
use orbita_backend.Sso.Service.Revocation.{Revokes, revoke_where-Revokes}

abbrev pub app_off : App → App
app_off a = record a { is_active = false }

abbrev pub tile_off : Application → Application
tile_off a = record a { is_active = false }

-- a row by its id
abbrev pub app_by_id : Uuid → Db → Option App
app_by_id id db = first (λ a. a.id == id) db.apps

abbrev pub tile_by_id : Uuid → Db → Option Application
tile_by_id id db = first (λ a. a.id == id) db.applications

apps_off :
    (id : Uuid) (db : Db)
    → first (λ (a : App). a.id == id) (update (λ a. a.id == id) app_off db.apps)
      ≡ map_option app_off (app_by_id id db)
apps_off id db =
    rw
      (
        first-update (λ (a : App). a.id) app_off (λ a. refl) id id db.apps,
        (same_number_iff id id).1 refl,
      )
      refl

tiles_off :
    (id : Uuid) (db : Db)
    → first (λ (a : Application). a.id == id) (update (λ a. a.id == id) tile_off db.applications)
      ≡ map_option tile_off (tile_by_id id db)
tiles_off id db =
    rw
      (
        first-update (λ (a : Application). a.id) tile_off (λ a. refl) id id db.applications,
        (same_number_iff id id).1 refl,
      )
      refl

-- the tile is inactive, or there was none and the tiles are as before
abbrev pub TileOff : Option Application → Db → Db → Type 0
TileOff none db db' = db'.applications ≡ db.applications
TileOff (some tile) db db' = tile_by_id tile.id db' ≡ map_option tile_off (tile_by_id tile.id db)

-- The client is inactive, the tile that belongs to it is inactive, and exactly the sessions of the
-- client are closed.
pub record SwitchedOff (app : App) (tile : Option Application) (db db' : Db) : Type 0 where
  pub client : app_by_id app.id db' ≡ map_option app_off (app_by_id app.id db)
  pub launcher : TileOff tile db db'
  pub sessions : Revokes (λ s. s.app_id == app.id) db.app_sessions db'.app_sessions

-- After a client is switched off, the client is inactive, so is the tile that was given or else the one
-- that it is linked to, and exactly the sessions of the client are closed.
pub set_availability-SwitchedOff :
    (now : Time) (app : App) (given : Option Application) (db : Db)
    → SwitchedOff app
        (complete_application given (some app) db)
        db
        (run (set_availability now false given (some app)) db).1
unfolding set_availability
set_availability-SwitchedOff now app (some tile) db = record {
  client = apps_off app.id db;
  launcher = tiles_off tile.id db;
  sessions = revoke_where-Revokes now (λ s. s.app_id == app.id) db.app_sessions;
}
set_availability-SwitchedOff now app none db =
    elim (Option-cases (with_application app.application_id db)) [
      | inl alone ↦ rw alone (record {
        client = apps_off app.id db;
        launcher = refl;
        sessions = revoke_where-Revokes now (λ s. s.app_id == app.id) db.app_sessions;
      })
      | inr (tile, found) ↦ rw found (record {
        client = apps_off app.id db;
        launcher = tiles_off tile.id db;
        sessions = revoke_where-Revokes now (λ s. s.app_id == app.id) db.app_sessions;
      })
    ]
