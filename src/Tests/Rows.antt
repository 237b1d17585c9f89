-- ===== src/Tests/Rows.antt =====
-- The theorems on migrations, listings, links and registered apps at concrete rows.
use orbita_backend.Prelude.{
  String, Bool, ◌≡◌, refl, true, false, not, ◌&&◌, ◌==◌, text_comparable, number_comparable, none,
  some, List, [], ◌∷◌, any, all, count, if◌then◌else◌, arith,
}
use orbita_backend.Prelude.Names.{sorted_set}
use orbita_backend.Data.{Db, Uuid, User, GlobalRole, UserGlobalRole, Provider, ExternalIdentity}
use orbita_backend.Http.{Request}
use orbita_backend.Exec.{Action, run, pure, raise, http}
use orbita_backend.Identity.{Draw, Account, resolve}
use orbita_backend.Identity.Unique.{HasUniqueLinks, resolve-HasUniqueLinks}
use orbita_backend.Migrations.{FlaggedUser, upgrade_platform_admins}
use orbita_backend.Migrations.PlatformAdmins.{Preserved, upgrade-Preserved}
use orbita_backend.Migrations.RoleSources.{upgrade_role_sources}
use orbita_backend.Migrations.RoleSources.Everyone.{upgrade_role_sources-covered}
use orbita_backend.Listings.Users.{all_pages, list_users-removed}
use orbita_backend.Users.{soft_delete_user, set_active_status}
use orbita_backend.Sso.Tokens.{decode_access_token}
use orbita_backend.Sso.Browser.{cookie_or_blank}
use orbita_backend.Auth.Csrf.{verify_csrf_token}
use orbita_backend.Auth.Guard.{csrf_and_origin_protection, is_trusted}
use orbita_backend.Routers.Schemas.{validate_released_claims}
use orbita_backend.Routers.Schemas.Fields.{AppCreate, ParsedUrl, validate_app_create}
use orbita_backend.Routers.Schemas.Registered.{csrf_and_origin_protection-registered}
use orbita_backend.Tests.Sample.{db, ana, settings, request}
use orbita_backend.Tests.Library.{crypto}

abbrev admin_role : GlobalRole
admin_role = record { id = 1; name = "admin"; description = none }

abbrev staff_role : GlobalRole
staff_role = record { id = 9; name = "staff"; description = none }

abbrev bea : User
bea = record ana { id = 2; email = "bea@riwi.io"; full_name = "Bea" }

-- Ana has the flag, and Bea has neither the flag nor a role.
abbrev flagged : List FlaggedUser
flagged =
    record { user = ana; is_platform_admin = true }
    ∷ record { user = bea; is_platform_admin = false }
    ∷ []

abbrev migrated : List User × List UserGlobalRole
migrated = (ana ∷ bea ∷ [], record { user_id = 1; global_role_id = 1 } ∷ [])

upgraded : upgrade_platform_admins flagged (admin_role ∷ []) [] ≡ some migrated
unfolding upgrade_platform_admins
upgraded = refl

upgrade-Preserved_example : Preserved flagged (admin_role ∷ []) [] migrated
upgrade-Preserved_example = upgrade-Preserved flagged (admin_role ∷ []) [] migrated upgraded

-- Ana holds staff, and Bea has no role.
abbrev before : Db
before = record db {
  users = ana ∷ bea ∷ [];
  global_roles = admin_role ∷ staff_role ∷ [];
  user_global_roles = record { user_id = 1; global_role_id = 9 } ∷ [];
  role_sources = [];
}

upgrade_role_sources-covered_example :
    (all
        (λ u. any (λ g. g.user_id == u.id) (upgrade_role_sources 20 21 before).user_global_roles)
        before.users
      ≡ true)
    × ((user_id role_id : Uuid)
        → any
            (λ s. s.user_id == user_id && s.global_role_id == role_id)
            (upgrade_role_sources 20 21 before).role_sources
          ≡ any
              (λ g. g.user_id == user_id && g.global_role_id == role_id)
              (upgrade_role_sources 20 21 before).user_global_roles)
upgrade_role_sources-covered_example = upgrade_role_sources-covered 20 21 before

-- a database that finds everything
abbrev ilike : String → String → Bool
ilike text pattern = true

list_users-removed_example :
    (count
        (λ u. true)
        (all_pages ilike
          (some "ana")
          1
          2
          (omega arith)
          false
          none
          (run (soft_delete_user 5 ana) before).1)
      ≡ count
          (λ u. not (u.id == ana.id) && true)
          (all_pages ilike (some "ana") 1 2 (omega arith) false none before))
    × (count
          (λ u. true)
          (all_pages ilike
            (some "ana")
            1
            2
            (omega arith)
            true
            (some true)
            (run (set_active_status 5 ana false) before).1)
        ≡ count
            (λ u. not (u.id == ana.id) && true)
            (all_pages ilike (some "ana") 1 2 (omega arith) true (some true) before))
list_users-removed_example =
    list_users-removed ilike (some "ana") 1 2 (omega arith) 5 ana before true none (λ u. true)
      (omega arith)

abbrev moodle : Provider
moodle = record { id = 71; code = "moodle"; name = "Moodle"; kind = "credentials"; active = true }

abbrev link_of_ana : ExternalIdentity
link_of_ana = record {
  id = 81;
  user_id = 1;
  provider_id = 70;
  provider_user_id = "oid";
  provider_tenant_id = some "riwi";
  provider_email = some "ana@riwi.io";
  last_seen_at = none;
}

abbrev linked : Db
linked = record db { providers = moodle ∷ []; external_identities = link_of_ana ∷ [] }

abbrev account : Account
account = record {
  provider_code = "moodle";
  user_id = "42";
  tenant_id = none;
  email = some "ana@riwi.io";
  full_name = "Ana";
}

abbrev draws : Draw
draws = record { now = 0; user_id = 3; link_id = 82 }

resolve-HasUniqueLinks_example :
    HasUniqueLinks
      (run (resolve (λ text. some text) settings draws account true) linked).1.external_identities
resolve-HasUniqueLinks_example =
    resolve-HasUniqueLinks (λ text. some text) settings draws account true linked refl (refl, tt)

-- an app whose client id ends its path like the role catalog's
abbrev body : AppCreate
body = record {
  client_id = "role-catalog";
  slug = "catalog";
  name = "Catalog";
  description = "Roles";
  url = "https://catalog.riwi.io";
  icon = none;
  role_cardinality = "single";
  migration_access_enabled = false;
  jit_role_adoption_enabled = false;
  released_claims = [];
}

abbrev parse : String → ParsedUrl
parse value = record { scheme = "https"; netloc = "catalog.riwi.io"; fragment = "" }

valid : validate_app_create parse body ≡ some body
unfolding validate_app_create validate_released_claims sorted_set
valid = refl

-- a write from nowhere, with no token
abbrev switch : Request
switch = record request { method = "PATCH"; path = "/api/apps/role-catalog" }

abbrev switched : Action Bool
switched = pure true

csrf_and_origin_protection-registered_example :
    csrf_and_origin_protection crypto settings 0 switch switched ≡ (
      if body.client_id == "role-catalog"
      then switched
      else if not (is_trusted settings switch)
      then raise (http 403 "Untrusted request origin")
      else if verify_csrf_token crypto settings 0 switch.csrf_header
          (decode_access_token crypto 0 (cookie_or_blank crypto switch.access_cookie)).jti
      then switched
      else raise (http 403 "CSRF validation failed"))
csrf_and_origin_protection-registered_example =
    csrf_and_origin_protection-registered parse crypto settings 0 switch body body switched valid
      refl refl
