-- ===== src/Access/Sources.antt =====
-- Global roles. A user holds role sources (user_global_role_sources), which say where a role comes
-- from, and the resolved role (user_global_roles), which the authorization queries read.
pub mod OneSource
pub mod Admin
pub mod Manual
pub mod Reconcile
use orbita_backend.Prelude.{
  String, Bool, true, false, not, ◌&&◌, ◌==◌, text_comparable, number_comparable, Option, none,
  some, List, [], ◌∷◌, ◌++◌, first, any, delete, insert_new, if◌then◌else◌,
}
use orbita_backend.Data.{Db, Uuid, GlobalRole, UserGlobalRole, UserGlobalRoleSource}
use orbita_backend.Exec.{
  Action, pure, raise, gets, modify, commit, only_if, raise_if, value_error, permission_error,
  ◌>>=◌, ◌>>◌,
}

abbrev pub default_role : String
default_role = "guest"

abbrev pub platform_admin_role : String
platform_admin_role = "admin"

abbrev pub moodle_role_source : String
moodle_role_source = "moodle"

abbrev pub manual_role_source : String
manual_role_source = "manual"

abbrev pub bootstrap_role_source : String
bootstrap_role_source = "bootstrap"

abbrev pub fallback_role_source : String
fallback_role_source = "fallback"

-- a Python dict from sources to role names, in insertion order
abbrev pub NamesBySource : Type 0
NamesBySource = List (String × String)

-- `d[k] = v`
abbrev pub put : String → String → NamesBySource → NamesBySource
put k v [] = (k, v) ∷ []
put k v ((j, w) ∷ d) = if j == k then (j, v) ∷ d else (j, w) ∷ put k v d

-- `d.get(k)`
abbrev pub get : String → NamesBySource → Option String
get k [] = none
get k ((j, w) ∷ d) = if j == k then some w else get k d

-- `v in d.values()`
abbrev pub has_value : String → NamesBySource → Bool
has_value v = any (λ (e : String × String). e.1 == v)

-- `a or b` where `a` may be None or the empty text
abbrev pub or_else : Option String → String → String
or_else none b = b
or_else (some a) b = if a == "" then b else a

unfoldable pub resolve_effective_role : NamesBySource → String
resolve_effective_role names_by_source =
    if has_value platform_admin_role names_by_source
    then platform_admin_role
    else or_else (get moodle_role_source names_by_source)
        (or_else (get manual_role_source names_by_source) default_role)

-- db.get(GlobalRole, role_id)
abbrev pub find_role : Uuid → List GlobalRole → Option GlobalRole
find_role id = first (λ r. r.id == id)

abbrev pub id_of : Option GlobalRole → Option Uuid
id_of none = none
id_of (some r) = some r.id

-- select(GlobalRole.id).where(GlobalRole.name == name)
abbrev pub role_id_of : String → List GlobalRole → Option Uuid
role_id_of name roles = id_of (first (λ r. r.name == name) roles)

-- One row of the join on GlobalRole, put into the dict: `{source: name for name, source in rows}`.
abbrev pub put_joined : Option GlobalRole → String → NamesBySource → NamesBySource
put_joined none source d = d
put_joined (some r) source d = put source r.name d

abbrev pub collect :
    Uuid → List GlobalRole → List UserGlobalRoleSource → NamesBySource → NamesBySource
collect user_id roles [] d = d
collect user_id roles (s ∷ rest) d =
    collect user_id roles rest
      (if s.user_id == user_id then put_joined (find_role s.global_role_id roles) s.source d else d)

abbrev pub names_by_source : Uuid → Db → NamesBySource
names_by_source user_id db = collect user_id db.global_roles db.role_sources []

-- The DELETE and the INSERT of `reconcile_effective_role`.
abbrev pub replace_roles : Uuid → Option Uuid → List UserGlobalRole → List UserGlobalRole
replace_roles user_id none rows = delete (λ r. r.user_id == user_id) rows
replace_roles user_id (some role_id) rows =
    delete (λ r. r.user_id == user_id) rows
    ++ record { user_id = user_id; global_role_id = role_id } ∷ []

abbrev pub effective_role : Uuid → Db → String
effective_role user_id db = resolve_effective_role (names_by_source user_id db)

-- What `reconcile_effective_role` does to the rows.
abbrev pub reconciled : Uuid → Db → Db
reconciled user_id db = record db {
  user_global_roles =
      replace_roles user_id (role_id_of (effective_role user_id db) db.global_roles)
        db.user_global_roles;
}

unfoldable pub reconcile_effective_role : Uuid → Bool → Action String
reconcile_effective_role user_id commits = do
  effective ← gets (effective_role user_id)
  modify (reconciled user_id)
  only_if commits commit
  pure effective

abbrev pub source_row : Uuid → Uuid → String → UserGlobalRoleSource
source_row user_id role_id source = record {
  user_id = user_id;
  global_role_id = role_id;
  source = source;
}

abbrev pub same_source : UserGlobalRoleSource → UserGlobalRoleSource → Bool
same_source a b =
    a.user_id == b.user_id && (a.global_role_id == b.global_role_id && a.source == b.source)

-- INSERT INTO user_global_role_sources … ON CONFLICT DO NOTHING
abbrev pub add_source : UserGlobalRoleSource → Db → Db
add_source row db = record db { role_sources = insert_new (same_source row) row db.role_sources }

-- INSERT INTO user_global_roles … ON CONFLICT DO NOTHING
abbrev pub add_global_role : Uuid → Uuid → List UserGlobalRole → List UserGlobalRole
add_global_role role_id user_id =
    insert_new (λ r. r.user_id == user_id && r.global_role_id == role_id)
      (record { user_id = user_id; global_role_id = role_id })

abbrev pub from_source : Uuid → String → UserGlobalRoleSource → Bool
from_source user_id source s = s.user_id == user_id && s.source == source

-- DELETE FROM user_global_role_sources WHERE user_id = … AND source = …
abbrev pub drop_source : Uuid → String → Db → Db
drop_source user_id source db = record db {
  role_sources = delete (from_source user_id source) db.role_sources;
}

abbrev pub has_source : Uuid → String → Db → Bool
has_source user_id source db = any (from_source user_id source) db.role_sources

abbrev add_row_if :
    Uuid → String → Option Uuid → List UserGlobalRoleSource → List UserGlobalRoleSource
add_row_if user_id source none rows = rows
add_row_if user_id source (some role_id) rows =
    let row = source_row user_id role_id source in insert_new (same_source row) row rows

abbrev pub add_source_if : Uuid → String → Option Uuid → Db → Db
add_source_if user_id source role_id db = record db {
  role_sources = add_row_if user_id source role_id db.role_sources;
}

abbrev pub give_default : Uuid → Bool → Option Uuid → Action Unit
give_default user_id commits none = pure tt
give_default user_id commits (some role_id) = do
  modify (add_source (source_row user_id role_id fallback_role_source))
  reconcile_effective_role user_id false
  only_if commits commit

unfoldable pub ensure_default_role : Uuid → Bool → Action Unit
unfolding reconcile_effective_role
ensure_default_role user_id commits = do
  sourced ← gets (λ db. any (λ s. s.user_id == user_id) db.role_sources)
  if sourced then pure tt else do
    role_id ← gets (λ db. role_id_of default_role db.global_roles)
    give_default user_id commits role_id

unfoldable pub sync_moodle_role : Uuid → Option String → Action String
unfolding reconcile_effective_role
sync_moodle_role user_id none = do
  modify (drop_source user_id moodle_role_source)
  reconcile_effective_role user_id true
sync_moodle_role user_id (some role_name) = do
  modify (drop_source user_id moodle_role_source)
  role_id ← gets (λ db. role_id_of role_name db.global_roles)
  modify (add_source_if user_id moodle_role_source role_id)
  reconcile_effective_role user_id true

-- The two guards of `set_manual_global_role`, on the role that was found.
abbrev pub check_assignable : Option GlobalRole → Action GlobalRole
check_assignable none = raise value_error
check_assignable (some role) = if role.name == default_role then raise value_error else pure role

unfoldable pub set_manual_global_role : Uuid → Uuid → Action String
unfolding reconcile_effective_role
set_manual_global_role user_id role_id = do
  role ← check_assignable (← gets (λ db. find_role role_id db.global_roles))
  has_moodle_role ← gets (has_source user_id moodle_role_source)
  raise_if (has_moodle_role && not (role.name == platform_admin_role)) permission_error
  modify (drop_source user_id manual_role_source)
  modify (add_source (source_row user_id role_id manual_role_source))
  reconcile_effective_role user_id true

unfoldable pub revoke_manual_global_role : Uuid → Uuid → Action String
unfolding reconcile_effective_role
revoke_manual_global_role user_id role_id = do
  modify (λ db. record db {
    role_sources =
        delete (λ s. from_source user_id manual_role_source s && s.global_role_id == role_id)
          db.role_sources;
  })
  reconcile_effective_role user_id true

-- AccessService.assign_global_role and AccessService.revoke_global_role
unfoldable pub assign_global_role : Uuid → Uuid → Action Unit
unfolding set_manual_global_role
assign_global_role user_id role_id = do set_manual_global_role user_id role_id; pure tt

unfoldable pub revoke_global_role : Uuid → Uuid → Action Unit
unfolding revoke_manual_global_role
revoke_global_role user_id role_id = do revoke_manual_global_role user_id role_id; pure tt
