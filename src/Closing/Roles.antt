-- ===== src/Closing/Roles.antt =====
-- Taking roles away: what is deleted, and which app sessions are closed with it.
use orbita_backend.Prelude.{
  ◌≡◌, refl, Bool, true, false, ◌&&◌, ◌==◌, number_comparable, any, contains, is_empty, List, [],
  ◌∷◌, inl, inr, Bool-cases, arith,
}
use orbita_backend.Prelude.Queries.{any-delete_self}
use orbita_backend.Data.{Db, Time, Uuid, App, Role, AppSession}
use orbita_backend.Exec.{run}
use orbita_backend.Apps.Roles.{assigned, delete_role, unassign_role_from_user, holders}
use orbita_backend.Sso.Service.Revocation.{Revokes, revoke_where-Revokes}

-- No session is revoked where nobody is concerned.
Revokes-nobody :
    (p : AppSession → Bool) (rows : List AppSession) → Revokes (λ s. p s && false) rows rows
Revokes-nobody p [] now jti = refl
Revokes-nobody p (s ∷ rows) now jti = ground (arith, Revokes-nobody p rows now jti)

Revokes-no_user :
    (now : Time) (role : Role) (ids : List Uuid) (rows : List AppSession)
    → is_empty ids ≡ true
    → Revokes (λ s. s.app_id == role.app_id && contains s.user_id ids) rows rows
Revokes-no_user now role [] rows h = Revokes-nobody (λ s. s.app_id == role.app_id) rows
Revokes-no_user now role (u ∷ us) rows h = absurd (ground arith)

-- The role and its assignments are gone, and exactly the sessions in its app of the users that held
-- it are closed.
pub record Deleted (role : Role) (db db' : Db) : Type 0 where
  pub role_gone : any (λ r. r.id == role.id) db'.roles ≡ false
  pub unassigned : any (λ a. a.role_id == role.id) db'.user_app_roles ≡ false
  pub sessions :
      Revokes
        (λ s. s.app_id == role.app_id && contains s.user_id (holders role.id db))
        db.app_sessions
        db'.app_sessions

-- After a role is deleted the role and its assignments are gone, and exactly the sessions in its app
-- of the users that held it are closed.
pub delete_role-Deleted :
    (now : Time) (role : Role) (db : Db) → Deleted role db (run (delete_role now role) db).1
unfolding delete_role
delete_role-Deleted now role db = elim (Bool-cases (is_empty (holders role.id db))) [
  | inl nobody ↦ rw nobody (record {
    role_gone = any-delete_self (λ r. r.id == role.id) db.roles;
    unassigned = any-delete_self (λ a. a.role_id == role.id) db.user_app_roles;
    sessions = Revokes-no_user now role (holders role.id db) db.app_sessions nobody;
  })
  | inr held ↦ rw held (record {
    role_gone = any-delete_self (λ r. r.id == role.id) db.roles;
    unassigned = any-delete_self (λ a. a.role_id == role.id) db.user_app_roles;
    sessions = revoke_where-Revokes now _ db.app_sessions;
  })
]

-- After a role is taken from a user the assignment is gone, and exactly the sessions of the user in
-- the app are closed.
pub unassign_role-Revokes :
    (now : Time) (user_id : Uuid) (app : App) (role : Role) (db : Db)
    → (any
          (assigned user_id app.id role.id)
          (run (unassign_role_from_user now user_id app role) db).1.user_app_roles
        ≡ false)
      × Revokes
          (λ s. s.user_id == user_id && s.app_id == app.id)
          db.app_sessions
          (run (unassign_role_from_user now user_id app role) db).1.app_sessions
unfolding unassign_role_from_user
unassign_role-Revokes now user_id app role db = (
  any-delete_self (assigned user_id app.id role.id) db.user_app_roles,
  revoke_where-Revokes now _ db.app_sessions,
)
