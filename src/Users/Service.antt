-- ===== src/Users/Service.antt =====
-- UserService
use orbita_backend.Prelude.{
  String, Bool, false, not, ◌==◌, text_comparable, number_comparable, same_option, is_empty, Option,
  none, some, List, [], ◌∷◌, ◌++◌, any, first, select, update, contains,
}
use orbita_backend.Prelude.Text.{strip, lower, btrim}
use orbita_backend.Data.{Db, Uuid, Time, User}
use orbita_backend.Exec.{
  Action, pure, gets, modify, commit, only_if, raise_if, integrity_error, ◌>>=◌, ◌>>◌,
}
use orbita_backend.Access.{existing, not_found}
use orbita_backend.Apps.{revoke_sessions}

-- UserService.get_user_by_id
abbrev pub find_user : Uuid → Db → Option User
find_user id db = first (λ u. u.id == id) db.users

-- UserService.get_by_email; `lower(btrim(email))` is SQL's
abbrev pub find_by_email : String → Db → Option User
find_by_email email db = first (λ u. lower (btrim u.email) == lower (strip email)) db.users

-- UserService.get_by_microsoft_id
abbrev pub find_by_microsoft_id : Uuid → Db → Option User
find_by_microsoft_id microsoft_id db =
    first (λ u. same_option u.microsoft_id (some microsoft_id)) db.users

-- A change of the attributes of a loaded `User`, which the next commit writes.
abbrev pub set_user : Uuid → (User → User) → Db → Db
set_user id f db = record db { users = update (λ u. u.id == id) f db.users }

-- The unique index uq_users_email_normalized refuses the row with an IntegrityError.
abbrev email_taken : String → Db → Bool
email_taken email db = any (λ u. lower (btrim u.email) == lower (btrim email)) db.users

abbrev pub add_user : User → Db → Db
add_user user db = record db { users = db.users ++ user ∷ [] }

unfoldable pub create_user : Uuid → Uuid → String → String → Action User
create_user id microsoft_id email full_name = do
  let user : User = record {
    id = id;
    microsoft_id = some microsoft_id;
    email = email;
    full_name = full_name;
    is_active = false;
    password_hash = none;
    must_change_password = false;
    deleted_at = none;
  }
  taken ← gets (email_taken email)
  raise_if taken integrity_error
  modify (add_user user)
  commit
  pure user

unfoldable pub create_local_user :
    Uuid → String → String → String → Bool → Bool → Bool → Action User
create_local_user id email full_name password_hash is_active must_change_password commits = do
  let user : User = record {
    id = id;
    microsoft_id = none;
    email = email;
    full_name = full_name;
    is_active = is_active;
    password_hash = some password_hash;
    must_change_password = must_change_password;
    deleted_at = none;
  }
  taken ← gets (email_taken email)
  raise_if taken integrity_error
  modify (add_user user)
  only_if commits commit
  pure user

-- UPDATE app_sessions … WHERE user_id = …
abbrev pub revoke_user_sessions : Time → Uuid → Db → Db
revoke_user_sessions now user_id = revoke_sessions now (λ s. s.user_id == user_id)

unfoldable pub set_active_status : Time → User → Bool → Action User
set_active_status now user is_active = do
  modify (set_user user.id (λ u. record u { is_active = is_active }))
  only_if (not is_active) (modify (revoke_user_sessions now user.id))
  commit
  pure (record user { is_active = is_active })

abbrev pub soft_deleted : Time → User → User
soft_deleted now u = record u { deleted_at = some now; is_active = false }

unfoldable pub soft_delete_user : Time → User → Action User
soft_delete_user now user = do
  modify (set_user user.id (soft_deleted now))
  modify (revoke_user_sessions now user.id)
  commit
  pure (soft_deleted now user)

abbrev with_ids : List Uuid → Db → List User
with_ids ids db = select (λ u. contains u.id ids) db.users

abbrev pub set_users : List Uuid → (User → User) → Db → Db
set_users ids f db = record db { users = update (λ u. contains u.id ids) f db.users }

abbrev pub revoke_sessions_of : Time → List Uuid → Db → Db
revoke_sessions_of now ids = revoke_sessions now (λ s. contains s.user_id ids)

unfoldable pub bulk_set_active_status : Time → List Uuid → Bool → Action (List User × List Uuid)
bulk_set_active_status now user_ids is_active = do
  existing_ids ← gets (existing user_ids)
  only_if (not (is_empty existing_ids)) (do
    modify (set_users existing_ids (λ u. record u { is_active = is_active }))
    only_if (not is_active) (modify (revoke_sessions_of now existing_ids))
    commit)
  users ← gets (with_ids existing_ids)
  pure (users, not_found user_ids existing_ids)

unfoldable pub bulk_soft_delete : Time → List Uuid → Action (List User × List Uuid)
bulk_soft_delete now user_ids = do
  existing_ids ← gets (existing user_ids)
  only_if (not (is_empty existing_ids)) (do
    modify (set_users existing_ids (soft_deleted now))
    modify (revoke_sessions_of now existing_ids)
    commit)
  users ← gets (with_ids existing_ids)
  pure (users, not_found user_ids existing_ids)

unfoldable pub update_user : User → String → String → Action User
update_user user email full_name = do
  modify (set_user user.id (λ u. record u { email = email; full_name = full_name }))
  commit
  pure (record user { email = email; full_name = full_name })

abbrev update_or_create : Uuid → Uuid → String → String → Option User → Action User
update_or_create id microsoft_id email full_name none = create_user id microsoft_id email full_name
update_or_create id microsoft_id email full_name (some user) = update_user user email full_name

unfoldable pub upsert_user : Uuid → Uuid → String → String → Action User
unfolding create_user update_user
upsert_user id microsoft_id email full_name = do
  user ← gets (find_by_microsoft_id microsoft_id)
  update_or_create id microsoft_id email full_name user
