-- ===== src/Listings.antt =====
-- What the administrator's listings read: the SELECTs of the services in app/modules/users,
-- app/modules/apps and app/modules/access, with their joins, order and pages. ORDER BY compares texts
-- by code points here; the collation of the database may order them otherwise.
pub mod Users
use orbita_backend.Prelude.{
  ℕ, String, ◌<>◌, Bool, true, false, not, ◌&&◌, ◌||◌, ◌==◌, text_comparable, number_comparable,
  is_none, Option, none, some, List, [], ◌∷◌, ◌++◌, map, first, select, if◌then◌else◌,
}
use orbita_backend.Prelude.Pages.{order_by, page, text_before}
use orbita_backend.Data.{
  Db, Uuid, Time, User, App, Role, UserAppRole, GlobalRole, UserGlobalRole, Provider,
  ExternalIdentity, AuditLog, Application,
}

-- `True == b` and `False == b`, and no test for None
abbrev same_flag : Option Bool → Bool → Bool
same_flag none b = true
same_flag (some true) b = b
same_flag (some false) b = not b

abbrev pub email_before : User → User → Bool
email_before a b = text_before a.email b.email

-- `ilike text pattern` is PostgreSQL's ILIKE.
module _ (ilike : String → String → Bool) where
  -- `if search:`, and the pattern f"%{search}%" against the address and the name
  abbrev is_found : Option String → User → Bool
  is_found none u = true
  is_found (some search) u =
      if search == ""
      then true
      else let pattern = "%" <> (search <> "%") in
        ilike u.email pattern || ilike u.full_name pattern

  abbrev pub is_listed : Bool → Option Bool → Option String → User → Bool
  is_listed include_deleted is_active search u =
      (include_deleted || is_none u.deleted_at)
      && (same_flag is_active u.is_active && is_found search u)

  -- UserService.list_users
  unfoldable pub list_users : Bool → Option Bool → Option String → ℕ → ℕ → Db → List User
  list_users include_deleted is_active search limit offset db =
      page limit offset
        (order_by email_before (select (is_listed include_deleted is_active search) db.users))

abbrev app_before : App → App → Bool
app_before a b = text_before a.name b.name

-- AppService.list_apps
unfoldable pub list_apps : Option Bool → ℕ → ℕ → Db → List App
list_apps is_active limit offset db =
    page limit offset (order_by app_before (select (λ a. same_flag is_active a.is_active) db.apps))

abbrev role_before : Role → Role → Bool
role_before a b = text_before a.display_name b.display_name

-- RoleService.list_for_app
unfoldable pub list_for_app : App → Bool → Db → List Role
list_for_app app include_inactive db =
    order_by role_before
      (select (λ r. r.app_id == app.id && (include_inactive || r.is_active)) db.roles)

abbrev global_role_before : GlobalRole → GlobalRole → Bool
global_role_before a b = text_before a.name b.name

-- AccessService.list_global_roles
unfoldable pub list_global_roles : Db → List GlobalRole
list_global_roles db = order_by global_role_before db.global_roles

module _ {A B C : Type 0} where
  -- a JOIN ON a condition: each pair of rows that meets it
  abbrev pub pairs : (A → B → C) → (A → B → Bool) → A → List B → List C
  pairs make on a [] = []
  pairs make on a (b ∷ rows) =
      let rest = pairs make on a rows in if on a b then make a b ∷ rest else rest

  abbrev pub join : (A → B → C) → (A → B → Bool) → List A → List B → List C
  join make on [] others = []
  join make on (a ∷ rows) others = pairs make on a others ++ join make on rows others

abbrev second : {A B : Type 0} → A → B → B
second a b = b

-- AccessService.list_global_roles_for_user
unfoldable pub list_global_roles_for_user : Uuid → Db → List GlobalRole
list_global_roles_for_user user_id db = order_by global_role_before (
    join second (λ g r. g.global_role_id == r.id)
      (select (λ g. g.user_id == user_id) db.user_global_roles) db.global_roles)

abbrev pub couple : {A B : Type 0} → A → B → A × B
couple a b = (a, b)

-- The rows of list_user_roles_for_app and of list_app_roles_for_user, as the body shows them.
pub record UserAppRoleRead : Type 0 where
  pub user_id : Uuid
  pub email : String
  pub full_name : String
  pub role_id : Uuid
  pub role_name : String

pub record AppRoleRead : Type 0 where
  pub app_id : Uuid
  pub client_id : String
  pub app_name : String
  pub role_id : Uuid
  pub role_name : String

abbrev two_names : String → String → String → String → Bool
two_names a b c d = if a == c then text_before b d else text_before a c

abbrev user_role : User × UserAppRole → Role → UserAppRoleRead
user_role (u, x) r = record {
  user_id = u.id;
  email = u.email;
  full_name = u.full_name;
  role_id = r.id;
  role_name = r.name;
}

-- RoleService.list_user_roles_for_app
unfoldable pub list_user_roles_for_app : App → ℕ → ℕ → Db → List UserAppRoleRead
list_user_roles_for_app app limit offset db =
    let held = select (λ x. x.app_id == app.id) db.user_app_roles in
    page limit offset (
      order_by (λ a b. two_names a.email a.role_name b.email b.role_name)
        (join user_role (λ (x : User × UserAppRole) r. r.id == x.1.role_id)
          (join couple (λ u x. x.user_id == u.id) db.users held) db.roles))

abbrev app_role : App × UserAppRole → Role → AppRoleRead
app_role (a, x) r = record {
  app_id = a.id;
  client_id = a.client_id;
  app_name = a.name;
  role_id = r.id;
  role_name = r.name;
}

-- RoleService.list_app_roles_for_user
unfoldable pub list_app_roles_for_user : Uuid → ℕ → ℕ → Db → List AppRoleRead
list_app_roles_for_user user_id limit offset db =
    let held = select (λ x. x.user_id == user_id) db.user_app_roles in
    page limit offset (
      order_by (λ a b. two_names a.app_name a.role_name b.app_name b.role_name)
        (join app_role (λ (x : App × UserAppRole) r. r.id == x.1.role_id)
          (join couple (λ a x. x.app_id == a.id) db.apps held) db.roles))
