-- ===== src/Access/Grants.antt =====
-- Grants of catalog applications, to a global role or to a user, and the bulk operations of
-- AccessService. A bulk operation answers with the ids of existing users and with those not found;
-- Python's `list(existing_ids)` of a set is given in the order of the query.
pub mod Forgotten
use orbita_backend.Prelude.{
  Bool, false, not, ◌&&◌, ◌==◌, text_comparable, number_comparable, is_empty, Option, none, some,
  List, [], ◌∷◌, map, select, delete, insert_new, contains, if◌then◌else◌,
}
use orbita_backend.Data.{Db, Uuid, GlobalRole, ApplicationGlobalRole, UserApplication}
use orbita_backend.Exec.{Action, pure, gets, modify, commit, raise_if, value_error, ◌>>=◌, ◌>>◌}
use orbita_backend.Access.Sources.{default_role, find_role, add_global_role}

abbrev is_default : Option GlobalRole → Bool
is_default none = false
is_default (some role) = role.name == default_role

abbrev links : Uuid → Uuid → ApplicationGlobalRole → Bool
links application_id role_id r = r.application_id == application_id && r.global_role_id == role_id

unfoldable pub grant_application_role : Uuid → Uuid → Action Unit
grant_application_role application_id global_role_id = do
  role ← gets (λ db. find_role global_role_id db.global_roles)
  raise_if (is_default role) value_error
  modify (λ db. record db {
    application_global_roles =
        insert_new (links application_id global_role_id)
          (record { application_id = application_id; global_role_id = global_role_id })
          db.application_global_roles;
  })
  commit

unfoldable pub revoke_application_role : Uuid → Uuid → Action Unit
revoke_application_role application_id global_role_id = do
  modify (λ db. record db {
    application_global_roles =
        delete (links application_id global_role_id) db.application_global_roles;
  })
  commit

abbrev pub grants : Uuid → Uuid → UserApplication → Bool
grants user_id application_id r = r.user_id == user_id && r.application_id == application_id

abbrev pub add_access : Uuid → Uuid → List UserApplication → List UserApplication
add_access application_id user_id =
    insert_new (grants user_id application_id)
      (record { user_id = user_id; application_id = application_id })

unfoldable pub grant_application_access : Uuid → Uuid → Action Unit
grant_application_access user_id application_id = do
  modify (λ db. record db {
    user_applications = add_access application_id user_id db.user_applications;
  })
  commit

unfoldable pub revoke_application_access : Uuid → Uuid → Action Unit
revoke_application_access user_id application_id = do
  modify (λ db. record db {
    user_applications = delete (grants user_id application_id) db.user_applications;
  })
  commit

-- select(User.id).where(User.id.in_(user_ids))
abbrev pub existing : List Uuid → Db → List Uuid
existing user_ids db = map (λ u. u.id) (select (λ u. contains u.id user_ids) db.users)

-- `[user_id for user_id in user_ids if user_id not in existing_ids]`
abbrev pub not_found : List Uuid → List Uuid → List Uuid
not_found user_ids existing_ids = select (λ id. not (contains id existing_ids)) user_ids

abbrev pub Split : Type 0
Split = List Uuid × List Uuid

-- One row for each of the ids, where the table has none.
abbrev pub add_each {ℓ} : {A : Type ℓ} → (Uuid → List A → List A) → List Uuid → List A → List A
add_each add [] rows = rows
add_each add (id ∷ ids) rows = add_each add ids (add id rows)

-- What the four bulk operations share: find the users, write if there is one, commit, and report.
abbrev pub in_bulk : (List Uuid → Db → Db) → List Uuid → Action Split
in_bulk write user_ids = do
  existing_ids ← gets (existing user_ids)
  if is_empty existing_ids then pure ([], not_found user_ids []) else do
    modify (write existing_ids)
    commit
    pure (existing_ids, not_found user_ids existing_ids)

unfoldable pub bulk_assign_global_role : List Uuid → Uuid → Action Split
bulk_assign_global_role user_ids role_id =
    if is_empty user_ids
    then pure ([], [])
    else in_bulk
        (λ ids db. record db {
          user_global_roles = add_each (add_global_role role_id) ids db.user_global_roles;
        })
        user_ids

unfoldable pub bulk_revoke_global_role : List Uuid → Uuid → Action Split
bulk_revoke_global_role user_ids role_id =
    in_bulk
      (λ ids db. record db {
        user_global_roles =
            delete (λ r. contains r.user_id ids && r.global_role_id == role_id)
              db.user_global_roles;
      })
      user_ids

unfoldable pub bulk_grant_application_access : List Uuid → Uuid → Action Split
bulk_grant_application_access user_ids application_id =
    if is_empty user_ids
    then pure ([], [])
    else in_bulk
        (λ ids db. record db {
          user_applications = add_each (add_access application_id) ids db.user_applications;
        })
        user_ids

unfoldable pub bulk_revoke_application_access : List Uuid → Uuid → Action Split
bulk_revoke_application_access user_ids application_id =
    in_bulk
      (λ ids db. record db {
        user_applications =
            delete (λ r. contains r.user_id ids && r.application_id == application_id)
              db.user_applications;
      })
      user_ids
