-- ===== src/Access/Startup.antt =====
-- The start of the program (`lifespan` in app/main.py): AccessService.seed and
-- AccessService.bootstrap_platform_admins
pub mod Suppressed
use orbita_backend.Prelude.{
  String, ◌==◌, text_comparable, number_comparable, is_empty, Option, none, some, List, [], ◌∷◌,
  select, insert_new, contains, if◌then◌else◌,
}
use orbita_backend.Prelude.Names.{sorted_set}
use orbita_backend.Prelude.Text.{strip, lower, split_commas}
use orbita_backend.Data.{Db, Uuid, User, GlobalRole}
use orbita_backend.Settings.{Settings}
use orbita_backend.Exec.{Action, pure, gets, modify, commit, ◌>>=◌, ◌>>◌}
use orbita_backend.Access.Sources.{
  default_role, platform_admin_role, bootstrap_role_source, role_id_of, source_row, add_source,
  add_global_role,
}

-- One value of the INSERT … ON CONFLICT (name) DO NOTHING in `seed`.
abbrev pub seed_role : Uuid → String → String → List GlobalRole → List GlobalRole
seed_role id name description =
    insert_new (λ r. r.name == name)
      (record { id = id; name = name; description = some description })

-- The four ids are the defaults of `GlobalRole.id` for the new rows.
unfoldable pub seed : Uuid → Uuid → Uuid → Uuid → Action Unit
seed admin teamleader coder guest = do
  modify (λ db. record db {
    global_roles = seed_role guest default_role "Cuenta sin rol ni acceso por catálogo" (
        seed_role coder "coder" "Coders de Riwi" (
          seed_role teamleader "teamleader" "Liderazgo académico de Riwi"
            (seed_role admin platform_admin_role "Administración de Órbita" db.global_roles)));
  })
  commit

-- `[email.strip().lower() for email in emails if email.strip()]`
abbrev pub stripped_emails : List String → List String
stripped_emails [] = []
stripped_emails (e ∷ rest) =
    if strip e == "" then stripped_emails rest else lower (strip e) ∷ stripped_emails rest

-- `sorted({email.strip().lower() for email in emails if email.strip()})`
unfoldable pub normalized_emails : List String → List String
normalized_emails emails = sorted_set (stripped_emails emails)

abbrev pub admin_users : List String → Db → List User
admin_users normalized = λ db. select (λ u. contains (lower u.email) normalized) db.users

-- Both INSERT statements, for each user that was found.
abbrev pub make_admins : Uuid → List User → Db → Db
make_admins role_id [] db = db
make_admins role_id (u ∷ us) db =
    make_admins role_id us (record (add_source (source_row u.id role_id bootstrap_role_source) db) {
      user_global_roles = add_global_role role_id u.id db.user_global_roles;
    })

abbrev make_admins_if : Option Uuid → List User → Db → Db
make_admins_if none us db = db
make_admins_if (some role_id) us db = make_admins role_id us db

unfoldable pub bootstrap_platform_admins : List String → Action Unit
unfolding normalized_emails
bootstrap_platform_admins emails =
    let normalized = normalized_emails emails in
    if is_empty normalized then pure tt else do
      users ← gets (admin_users normalized)
      if is_empty users then pure tt else do
        admin_role_id ← gets (λ db. role_id_of platform_admin_role db.global_roles)
        modify (make_admins_if admin_role_id users)
        commit

-- `lifespan` of app/main.py; the four ids are those of the roles that `seed` inserts
unfoldable pub lifespan : Settings → Uuid → Uuid → Uuid → Uuid → Action Unit
lifespan settings admin teamleader coder guest = do
  seed admin teamleader coder guest
  bootstrap_platform_admins (split_commas settings.platform_admin_emails)
