-- ===== src/Apps/Bulk.antt =====
-- RoleService.bulk_assign_role_to_users and RoleService.bulk_unassign_role_from_users
use orbita_backend.Prelude.{
  Bool, not, ◌&&◌, ◌==◌, text_comparable, number_comparable, is_empty, List, [], any, delete,
  insert_new, contains, if◌then◌else◌,
}
use orbita_backend.Data.{Uuid, Time, App, Role, UserAppRole}
use orbita_backend.Exec.{Action, pure, gets, modify, commit, raise_if, value_error, ◌>>=◌, ◌>>◌}
use orbita_backend.Access.{Split, existing, not_found, add_each}
use orbita_backend.Apps.Roles.{assigned, revoke_sessions}

-- One value of the INSERT … ON CONFLICT DO NOTHING; the source is the column's server default. The
-- ids of new rows are drawn from `fresh`, by the user that the row is for.
abbrev add_assignment : (Uuid → Uuid) → App → Role → Uuid → List UserAppRole → List UserAppRole
add_assignment fresh app role user_id = insert_new (assigned user_id app.id role.id) (record {
  id = fresh user_id;
  user_id = user_id;
  app_id = app.id;
  role_id = role.id;
  source = "manual";
})

abbrev conflicting : List Uuid → App → Role → UserAppRole → Bool
conflicting user_ids app role a =
    contains a.user_id user_ids && (a.app_id == app.id && not (a.role_id == role.id))

unfoldable pub bulk_assign_role_to_users : (Uuid → Uuid) → List Uuid → App → Role → Action Split
bulk_assign_role_to_users fresh user_ids app role = if is_empty user_ids then pure ([], []) else do
  existing_ids ← gets (existing user_ids)
  clash ← gets (λ db. any (conflicting existing_ids app role) db.user_app_roles)
  raise_if (app.role_cardinality == "single" && (not (is_empty existing_ids) && clash)) value_error
  if is_empty existing_ids then pure ([], not_found user_ids []) else do
    modify (λ db. record db {
      user_app_roles = add_each (add_assignment fresh app role) existing_ids db.user_app_roles;
    })
    commit
    pure (existing_ids, not_found user_ids existing_ids)

unfoldable pub bulk_unassign_role_from_users : Time → List Uuid → App → Role → Action Split
bulk_unassign_role_from_users now user_ids app role = do
  existing_ids ← gets (existing user_ids)
  if is_empty existing_ids then pure ([], not_found user_ids []) else do
    modify (λ db. record db {
      user_app_roles =
          delete
            (λ a. contains a.user_id existing_ids && (a.app_id == app.id && a.role_id == role.id))
            db.user_app_roles;
    })
    modify (revoke_sessions now (λ s. contains s.user_id existing_ids && s.app_id == app.id))
    commit
    pure (existing_ids, not_found user_ids existing_ids)
