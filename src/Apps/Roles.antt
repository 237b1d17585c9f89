-- ===== src/Apps/Roles.antt =====
-- RoleService: the roles of one app, and their assignment to one user.
pub mod Cardinality
use orbita_backend.Prelude.{
  String, Bool, true, false, not, ◌&&◌, ◌==◌, text_comparable, number_comparable, is_empty, is_some,
  is_none, Option, none, some, List, [], ◌∷◌, ◌++◌, any, map, first, select, delete, update,
  contains,
}
use orbita_backend.Data.{Db, Uuid, Time, App, Role, UserAppRole, AppSession}
use orbita_backend.Exec.{
  Action, pure, gets, modify, commit, raise_if, only_if, value_error, integrity_error, ◌>>=◌, ◌>>◌,
}

-- UPDATE app_sessions SET revoked_at = now WHERE p AND revoked_at IS NULL
abbrev pub revoke_where : Time → (AppSession → Bool) → List AppSession → List AppSession
revoke_where now p =
    update (λ s. p s && is_none s.revoked_at) (λ s. record s { revoked_at = some now })

abbrev pub revoke_sessions : Time → (AppSession → Bool) → Db → Db
revoke_sessions now p db = record db { app_sessions = revoke_where now p db.app_sessions }

-- select(Role).where(Role.app_id == app.id, Role.name == name)
abbrev pub named : Uuid → String → Role → Bool
named app_id name r = r.app_id == app_id && r.name == name

abbrev pub get_by_app_and_name : App → String → Db → Option Role
get_by_app_and_name app name db = first (named app.id name) db.roles

abbrev pub get_role_by_id : App → Uuid → Db → Option Role
get_role_by_id app role_id db =
    first (λ r. r.app_id == app.id && (r.id == role_id && r.is_active)) db.roles

-- A duplicate name is the IntegrityError of uq_role_app_name.
unfoldable pub create_role : Uuid → App → String → Action Role
create_role id app name = do
  taken ← gets (λ db. is_some (get_by_app_and_name app name db))
  raise_if taken integrity_error
  let role : Role = record {
    id = id;
    app_id = app.id;
    name = name;
    display_name = name;
    description = none;
    is_active = true;
    managed_by_app = false;
  }
  modify (λ db. record db { roles = db.roles ++ role ∷ [] })
  commit
  pure role

abbrev pub assigned : Uuid → Uuid → Uuid → UserAppRole → Bool
assigned user_id app_id role_id a =
    a.user_id == user_id && (a.app_id == app_id && a.role_id == role_id)

-- another role of the same user in the same app
abbrev pub conflicts : Uuid → Uuid → Uuid → UserAppRole → Bool
conflicts user_id app_id role_id a =
    a.user_id == user_id && (a.app_id == app_id && not (a.role_id == role_id))

abbrev assign_new : Uuid → Uuid → App → Role → String → Option UserAppRole → Action UserAppRole
assign_new id user_id app role source (some existing) = pure existing
assign_new id user_id app role source none = do
  conflicting ← gets (λ db. any (conflicts user_id app.id role.id) db.user_app_roles)
  raise_if (app.role_cardinality == "single" && conflicting) value_error
  let assignment : UserAppRole = record {
    id = id;
    user_id = user_id;
    app_id = app.id;
    role_id = role.id;
    source = source;
  }
  modify (λ db. record db { user_app_roles = db.user_app_roles ++ assignment ∷ [] })
  commit
  pure assignment

unfoldable pub assign_role_to_user : Uuid → Uuid → App → Role → String → Action UserAppRole
assign_role_to_user id user_id app role source = do
  existing ← gets (λ db. first (assigned user_id app.id role.id) db.user_app_roles)
  assign_new id user_id app role source existing

-- UserAppRole.user_id of the rows of a role
abbrev pub holders : Uuid → Db → List Uuid
holders role_id db = map (λ a. a.user_id) (select (λ a. a.role_id == role_id) db.user_app_roles)

unfoldable pub delete_role : Time → Role → Action Unit
delete_role now role = do
  user_ids ← gets (holders role.id)
  modify (λ db. record db { user_app_roles = delete (λ a. a.role_id == role.id) db.user_app_roles })
  only_if (not (is_empty user_ids))
      (modify (revoke_sessions now (λ s. s.app_id == role.app_id && contains s.user_id user_ids)))
  modify (λ db. record db { roles = delete (λ r. r.id == role.id) db.roles })
  commit

unfoldable pub unassign_role_from_user : Time → Uuid → App → Role → Action Unit
unassign_role_from_user now user_id app role = do
  modify (λ db. record db {
    user_app_roles = delete (assigned user_id app.id role.id) db.user_app_roles;
  })
  modify (revoke_sessions now (λ s. s.user_id == user_id && s.app_id == app.id))
  commit
