-- ===== src/Apps/Policy.antt =====
-- RoleService.resolve_access: the roles that a user has in an app, which the launcher, the
-- authorization, the token exchange, the introspection and the role adoption all use.
pub mod Resolution
use orbita_backend.Prelude.{
  String, Bool, true, false, not, ◌&&◌, ◌||◌, ◌==◌, text_comparable, number_comparable, is_empty,
  Option, none, some, List, [], ◌∷◌, any, first, contains, if◌then◌else◌,
}
use orbita_backend.Prelude.Names.{sorted_set}
use orbita_backend.Data.{
  Db, Uuid, App, Role, GlobalRole, UserGlobalRole, UserAppRole, AppGlobalRoleMapping,
}
use orbita_backend.Exec.{Action, gets}
use orbita_backend.Access.{find_role}

pub record AppAccessResolution : Type 0 where
  pub roles : List String
  pub migration : Bool

abbrev pub no_access : AppAccessResolution
no_access = record { roles = []; migration = false }

-- `len(names) == 1`
abbrev pub is_single : List String → Bool
is_single (n ∷ []) = true
is_single _ = false

-- A set of roles under the cardinality of the app: a conflict gives no role at all.
abbrev pub within_cardinality : String → List String → AppAccessResolution
within_cardinality role_cardinality names =
    if not (role_cardinality == "single") || is_single names
    then record { roles = names; migration = false }
    else no_access

unfoldable pub resolve_app_access_policy :
    List String → List String → List String → String → Bool → AppAccessResolution
resolve_app_access_policy global_roles explicit_roles mapped_roles role_cardinality migration =
    let explicit = sorted_set explicit_roles in
    let mapped = sorted_set mapped_roles in
    if is_empty global_roles || contains "guest" global_roles
    then no_access
    else if not (is_empty explicit)
    then within_cardinality role_cardinality explicit
    else if not (is_empty mapped)
    then within_cardinality role_cardinality mapped
    else record { roles = []; migration = migration }

-- the name in an optional row of a join, put in front
abbrev pub join_name : Option String → List String → List String
join_name none names = names
join_name (some n) names = n ∷ names

abbrev pub global_name : Option GlobalRole → Option String
global_name none = none
global_name (some r) = some r.name

-- select(GlobalRole.name).join(user_global_roles …).where(user_global_roles.c.user_id == user_id)
abbrev pub global_names : Uuid → List GlobalRole → List UserGlobalRole → List String
global_names user_id roles [] = []
global_names user_id roles (r ∷ rs) =
    let rest = global_names user_id roles rs in
    if r.user_id == user_id
    then join_name (global_name (find_role r.global_role_id roles)) rest
    else rest

abbrev pub role_names : Uuid → Db → List String
role_names user_id db = global_names user_id db.global_roles db.user_global_roles

-- the row of `roles` with an id, if it is active
abbrev pub active_role : Uuid → List Role → Option Role
active_role id = first (λ r. r.id == id && r.is_active)

abbrev pub app_role_name : Option Role → Option String
app_role_name none = none
app_role_name (some r) = some r.name

abbrev explicit_names : Uuid → Uuid → List Role → List UserAppRole → List String
explicit_names user_id app_id roles [] = []
explicit_names user_id app_id roles (a ∷ as') =
    let rest = explicit_names user_id app_id roles as' in
    if a.user_id == user_id && a.app_id == app_id
    then join_name (app_role_name (active_role a.role_id roles)) rest
    else rest

-- RoleService.list_roles_for_user_in_app
abbrev pub explicit_roles : Uuid → App → Db → List String
explicit_roles user_id app db = explicit_names user_id app.id db.roles db.user_app_roles

abbrev holds : Uuid → Uuid → List UserGlobalRole → Bool
holds user_id role_id = any (λ r. r.user_id == user_id && r.global_role_id == role_id)

abbrev has_global : Uuid → List GlobalRole → Bool
has_global id = any (λ g. g.id == id)

abbrev mapped_names : Uuid → Uuid → Db → List AppGlobalRoleMapping → List String
mapped_names user_id app_id db [] = []
mapped_names user_id app_id db (m ∷ ms) =
    let rest = mapped_names user_id app_id db ms in
    if m.app_id == app_id
      && (holds user_id m.global_role_id db.user_global_roles
          && has_global m.global_role_id db.global_roles)
    then join_name (app_role_name (active_role m.app_role_id db.roles)) rest
    else rest

-- the third query of `resolve_access`
abbrev pub mapped_roles : Uuid → App → Db → List String
mapped_roles user_id app db = mapped_names user_id app.id db db.role_mappings

-- RoleService.resolve_access, as a function of the rows
unfoldable pub access_of : Uuid → App → Db → AppAccessResolution
access_of user_id app db =
    resolve_app_access_policy (role_names user_id db) (explicit_roles user_id app db)
      (mapped_roles user_id app db) app.role_cardinality app.migration_access_enabled

abbrev pub resolve_access : Uuid → App → Action AppAccessResolution
resolve_access user_id app = gets (access_of user_id app)

-- `access.roles or access.migration`: the condition for the launcher, a code and a token
abbrev pub is_provisioned : AppAccessResolution → Bool
is_provisioned access = if is_empty access.roles then access.migration else true
