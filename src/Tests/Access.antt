-- ===== src/Tests/Access.antt =====
-- The theorems on global roles at concrete rows.
use orbita_backend.Prelude.{
  ◌⊎◌, false, refl, ◌≡◌, true, some, none, [], ◌∷◌, first, ◌==◌, text_comparable, number_comparable,
  any, contains, ◌&&◌,
}
use orbita_backend.Data.{Db, Uuid, GlobalRole}
use orbita_backend.Exec.{Error, run, ok, err}
use orbita_backend.Access.Sources.{
  reconciled, effective_role, resolve_effective_role, sync_moodle_role, set_manual_global_role,
  revoke_manual_global_role, ensure_default_role, platform_admin_role,
}
use orbita_backend.Access.Sources.Reconcile.{reconcile_resolves, if_other}
use orbita_backend.Access.Sources.OneSource.{OneForEachSource, sources-OneForEachSource}
use orbita_backend.Access.Sources.Admin.{sync_moodle_role-admin}
use orbita_backend.Access.Sources.Manual.{
  is_assignable, manual_effect, assigned, set_manual-decided,
}
use orbita_backend.Access.Grants.{bulk_assign_global_role}
use orbita_backend.Access.Grants.Forgotten.{bulk_assign-reconciled}
use orbita_backend.Access.Startup.{lifespan, normalized_emails}
use orbita_backend.Settings.{Settings}
use orbita_backend.Prelude.Text.{lower, split_commas, strip}
use orbita_backend.Prelude.Names.{sorted_set}
use orbita_backend.Access.Startup.Suppressed.{lifespan-guest}
use orbita_backend.Apps.Policy.{access_of, role_names, no_access}
use orbita_backend.Tests.Sample.{db, campus, settings}

abbrev coder : GlobalRole
coder = record { id = 3; name = "coder"; description = none }

abbrev admin : GlobalRole
admin = record { id = 1; name = "admin"; description = none }

effective_coder : first (λ r. r.name == effective_role 1 db) db.global_roles ≡ some coder
unfolding resolve_effective_role
effective_coder = refl

reconcile_resolves_example :
    (role_names 1 (reconciled 1 db) ≡ effective_role 1 db ∷ [])
    × ((v : Uuid) → if_other 1 v (role_names v (reconciled 1 db)) ≡ if_other 1 v (role_names v db))
    × (reconciled 1 (reconciled 1 db) ≡ reconciled 1 db)
reconcile_resolves_example =
    reconcile_resolves 1 db coder (refl, (refl, (refl, tt))) effective_coder

sources-OneForEachSource_example :
    OneForEachSource (run (sync_moodle_role 1 (some "coder")) db).1.role_sources
    × OneForEachSource (run (set_manual_global_role 1 1) db).1.role_sources
    × OneForEachSource (run (revoke_manual_global_role 1 1) db).1.role_sources
    × OneForEachSource (run (ensure_default_role 1 true) db).1.role_sources
sources-OneForEachSource_example = sources-OneForEachSource db (refl, tt) 1 (some "coder") 1 true

-- Ana was made an administrator by hand, and is a coder in Moodle.
abbrev promoted : Db
promoted = record db {
  role_sources =
      record { user_id = 1; global_role_id = 3; source = "moodle" }
      ∷ record { user_id = 1; global_role_id = 1; source = "manual" }
      ∷ [];
}

sync_moodle_role-admin_example :
    ((run (sync_moodle_role 1 none) promoted).0 ≡ ok platform_admin_role)
    × (role_names 1 (run (sync_moodle_role 1 none) promoted).1 ≡ platform_admin_role ∷ [])
sync_moodle_role-admin_example =
    sync_moodle_role-admin 1 none promoted admin (refl, (refl, (refl, tt))) refl (refl, (refl, tt))
      refl

-- Ana, a coder in Moodle, is made an administrator by hand.
set_manual-decided_example :
    ((is_assignable 1 1 db admin refl ≡ true)
      × (run (set_manual_global_role 1 1) db
          ≡ (ok (manual_effect 1 1 db admin refl), reconciled 1 (assigned 1 1 db admin refl))))
    ⊎ ((is_assignable 1 1 db admin refl ≡ false)
        × ((e : Error) × (run (set_manual_global_role 1 1) db ≡ (err e, db))))
set_manual-decided_example = set_manual-decided 1 1 db admin refl refl

bulk_assign-reconciled_example :
    role_names 1 (reconciled 1 (run (bulk_assign_global_role (1 ∷ []) 1) db).1)
    ≡ role_names 1 (reconciled 1 db)
bulk_assign-reconciled_example = bulk_assign-reconciled (1 ∷ []) 1 1 db

abbrev guests : Db
guests = record db { user_global_roles = record { user_id = 1; global_role_id = 2 } ∷ [] }

-- Ana's address is configured.
abbrev promoting : Settings
promoting = record settings { platform_admin_emails = " Ana@Riwi.IO , bea@riwi.io" }

listed :
    any
      (λ u.
        u.id == 1
        && contains
            (lower u.email)
            (normalized_emails (split_commas promoting.platform_admin_emails)))
      guests.users
    ≡ true
unfolding normalized_emails split_commas lower strip sorted_set
listed = refl

lifespan-guest_example :
    (contains admin.name (role_names 1 (run (lifespan promoting 50 51 52 53) guests).1) ≡ true)
    × (access_of 1 campus (run (lifespan promoting 50 51 52 53) guests).1 ≡ no_access)
lifespan-guest_example =
    lifespan-guest promoting 50 51 52 53 1 campus guests admin refl refl listed refl
