-- ===== src/Migrations/RoleSources.antt =====
-- m2b3c4d5e6f7: staff becomes teamleader, every grant gets a source, and who has no role is a guest.
pub mod Matching
pub mod Everyone
use orbita_backend.Prelude.{
  ℕ, String, Bool, true, false, not, ◌&&◌, ◌||◌, ◌==◌, text_comparable, number_comparable, Option,
  none, some, List, [], ◌∷◌, ◌++◌, map, any, select, delete, insert_new, if◌then◌else◌,
}
use orbita_backend.Data.{
  Db, Uuid, User, GlobalRole, UserGlobalRole, UserGlobalRoleSource, ApplicationGlobalRole,
}
use orbita_backend.Access.Sources.{source_row, manual_role_source, fallback_role_source}
use orbita_backend.Migrations.{insert_grants, named, grants_of}

-- INSERT INTO global_roles SELECT … WHERE NOT EXISTS
abbrev pub seed_role : Uuid → String → String → List GlobalRole → List GlobalRole
seed_role id name description roles =
    if any (λ r. r.name == name) roles
    then roles
    else roles ++ record { id = id; name = name; description = some description } ∷ []

-- global_role_id IN (SELECT id FROM global_roles WHERE name = …)
abbrev pub is_role : String → List GlobalRole → Uuid → Bool
is_role name roles id = any (λ r. id == r.id && r.name == name) roles

-- a grant of teamleader beside each grant of staff
abbrev pub renamed_grants : List GlobalRole → List UserGlobalRole → List UserGlobalRole
renamed_grants roles [] = []
renamed_grants roles (g ∷ grants) =
    let rest = renamed_grants roles grants in
    if is_role "staff" roles g.global_role_id
    then grants_of g.user_id (named "teamleader" roles) ++ rest
    else rest

abbrev same_link : ApplicationGlobalRole → ApplicationGlobalRole → Bool
same_link a b = a.application_id == b.application_id && a.global_role_id == b.global_role_id

abbrev insert_links :
    List ApplicationGlobalRole → List ApplicationGlobalRole → List ApplicationGlobalRole
insert_links [] rows = rows
insert_links (a ∷ links) rows = insert_links links (insert_new (same_link a) a rows)

abbrev links_of : Uuid → List GlobalRole → List ApplicationGlobalRole
links_of application_id [] = []
links_of application_id (role ∷ roles) =
    record { application_id = application_id; global_role_id = role.id }
    ∷ links_of application_id roles

abbrev renamed_links : List GlobalRole → List ApplicationGlobalRole → List ApplicationGlobalRole
renamed_links roles [] = []
renamed_links roles (a ∷ links) =
    let rest = renamed_links roles links in
    if is_role "staff" roles a.global_role_id
    then links_of a.application_id (named "teamleader" roles) ++ rest
    else rest

-- SELECT user_id, global_role_id, 'manual' FROM user_global_roles
abbrev pub manual_sources : List UserGlobalRole → List UserGlobalRoleSource
manual_sources [] = []
manual_sources (g ∷ grants) =
    source_row g.user_id g.global_role_id manual_role_source ∷ manual_sources grants

abbrev pub fallback_rows : Uuid → List GlobalRole → List UserGlobalRoleSource
fallback_rows user_id [] = []
fallback_rows user_id (role ∷ roles) =
    source_row user_id role.id fallback_role_source ∷ fallback_rows user_id roles

-- users CROSS JOIN guest WHERE NOT EXISTS a grant of the user
abbrev pub fallback_sources :
    List GlobalRole → List UserGlobalRole → List User → List UserGlobalRoleSource
fallback_sources roles grants [] = []
fallback_sources roles grants (u ∷ users) =
    let rest = fallback_sources roles grants users in
    if any (λ g. g.user_id == u.id) grants
    then rest
    else fallback_rows u.id (named "guest" roles) ++ rest

-- the grants of the sources whose role is guest
abbrev pub guest_grants : List GlobalRole → List UserGlobalRoleSource → List UserGlobalRole
guest_grants roles [] = []
guest_grants roles (s ∷ sources) =
    let rest = guest_grants roles sources in
    if is_role "guest" roles s.global_role_id
    then record { user_id = s.user_id; global_role_id = s.global_role_id } ∷ rest
    else rest

-- the first part of upgrade: the roles, the grants and the links, with staff renamed
abbrev pub without_staff : Uuid → Uuid → Db → Db
without_staff teamleader_id guest_id db =
    let roles =
      seed_role guest_id "guest" "Cuenta sin rol ni acceso por catálogo"
        (seed_role teamleader_id "teamleader" "Liderazgo académico de Riwi" db.global_roles) in
    record db {
      user_global_roles =
          delete (λ g. is_role "staff" roles g.global_role_id)
            (insert_grants (renamed_grants roles db.user_global_roles) db.user_global_roles);
      application_global_roles =
          delete (λ a. is_role "staff" roles a.global_role_id)
            (insert_links (renamed_links roles db.application_global_roles)
              db.application_global_roles);
      global_roles = delete (λ r. r.name == "staff") roles;
    }

-- the second part: the new table of sources, and the guests
unfoldable pub with_sources : Db → Db
with_sources db =
    let sources =
      manual_sources db.user_global_roles
      ++ fallback_sources db.global_roles db.user_global_roles db.users in
    record db {
      role_sources = sources;
      user_global_roles = insert_grants (guest_grants db.global_roles sources) db.user_global_roles;
    }

-- upgrade, for the ids that gen_random_uuid draws
unfoldable pub upgrade_role_sources : Uuid → Uuid → Db → Db
upgrade_role_sources teamleader_id guest_id db =
    with_sources (without_staff teamleader_id guest_id db)
