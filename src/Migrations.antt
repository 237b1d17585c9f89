-- ===== src/Migrations.antt =====
-- alembic/versions: the migrations that change rows, on the tables that they read and write. A
-- RAISE EXCEPTION, which stops the migration, is none.
pub mod PlatformAdmins
pub mod RoleSources
pub mod Providers
use orbita_backend.Prelude.{
  ℕ, String, Bool, true, false, not, ◌&&◌, ◌||◌, ◌==◌, text_comparable, number_comparable, Option,
  none, some, List, [], ◌∷◌, ◌++◌, map, any, select, delete, insert_new, if◌then◌else◌,
}
use orbita_backend.Data.{Uuid, User, GlobalRole, UserGlobalRole}

-- a row of users with the column is_platform_admin, which l0a1b2c3d4e5 drops
pub record FlaggedUser : Type 0 where
  pub user : User
  pub is_platform_admin : Bool

abbrev pub same_grant : UserGlobalRole → UserGlobalRole → Bool
same_grant g r = r.user_id == g.user_id && r.global_role_id == g.global_role_id

-- INSERT … SELECT … ON CONFLICT DO NOTHING
abbrev pub insert_grants : List UserGlobalRole → List UserGlobalRole → List UserGlobalRole
insert_grants [] rows = rows
insert_grants (g ∷ grants) rows = insert_grants grants (insert_new (same_grant g) g rows)

abbrev pub named : String → List GlobalRole → List GlobalRole
named name = select (λ r. r.name == name)

-- a grant of each of these roles
abbrev pub grants_of : Uuid → List GlobalRole → List UserGlobalRole
grants_of user_id [] = []
grants_of user_id (role ∷ roles) =
    record { user_id = user_id; global_role_id = role.id } ∷ grants_of user_id roles

-- users JOIN global_roles ON name = 'admin' WHERE is_platform_admin
abbrev pub flagged_grants : List FlaggedUser → List GlobalRole → List UserGlobalRole
flagged_grants [] roles = []
flagged_grants (u ∷ users) roles =
    let rest = flagged_grants users roles in
    if u.is_platform_admin then grants_of u.user.id (named "admin" roles) ++ rest else rest

-- upgrade of l0a1b2c3d4e5: the users without the column, and the grants
unfoldable pub upgrade_platform_admins :
    List FlaggedUser
    → List GlobalRole
    → List UserGlobalRole
    → Option (List User × List UserGlobalRole)
upgrade_platform_admins users roles grants =
    if any (λ u. u.is_platform_admin) users && not (any (λ r. r.name == "admin") roles)
    then none
    else some (map (λ u. u.user) users, insert_grants (flagged_grants users roles) grants)

-- whether a grant joins a role of the name
abbrev pub holds : String → List GlobalRole → List UserGlobalRole → Uuid → Bool
holds name roles grants user_id =
    any (λ g. g.user_id == user_id && any (λ r. g.global_role_id == r.id && r.name == name) roles)
      grants

-- downgrade of l0a1b2c3d4e5
unfoldable pub downgrade_platform_admins :
    List User → List GlobalRole → List UserGlobalRole → List FlaggedUser
downgrade_platform_admins users roles grants =
    map (λ u. record { user = u; is_platform_admin = holds "admin" roles grants u.id }) users
