-- ===== src/Migrations/Providers.antt =====
-- k0a1b2c3d4e5: the providers, and the two triggers and the check that guard external identities.
pub mod Tenants
use orbita_backend.Prelude.{
  ℕ, String, Bool, true, false, not, ◌&&◌, ◌||◌, ◌==◌, text_comparable, number_comparable, is_some,
  is_none, Option, none, some, List, [], ◌∷◌, first, any, if◌then◌else◌,
}
use orbita_backend.Prelude.Text.{lower, btrim}
use orbita_backend.Data.{Uuid, User, Provider, ExternalIdentity}

-- GROUP BY lower(btrim(email)) HAVING count(*) > 1
abbrev pub has_duplicate_emails : List User → Bool
has_duplicate_emails [] = false
has_duplicate_emails (u ∷ users) =
    any (λ v. lower (btrim v.email) == lower (btrim u.email)) users || has_duplicate_emails users

abbrev seeded_providers : Uuid → Uuid → List Provider
seeded_providers microsoft_id moodle_id =
    record {
      id = microsoft_id;
      code = "microsoft";
      name = "Microsoft";
      kind = "oauth";
      active = false;
    }
    ∷ record {
      id = moodle_id;
      code = "moodle";
      name = "Moodle";
      kind = "credentials";
      active = true;
    }
    ∷ []

-- upgrade, on the rows: the new table of providers, or none where the migration stops
unfoldable pub upgrade_providers : Uuid → Uuid → List User → Option (List Provider)
upgrade_providers microsoft_id moodle_id users =
    if has_duplicate_emails users then none else some (seeded_providers microsoft_id moodle_id)

-- prevent_provider_code_change: whether the trigger lets the row be changed
abbrev pub keeps_code : Provider → Provider → Bool
keeps_code new old = new.code == old.code

abbrev tenant_fits : Option Provider → Option String → Bool
tenant_fits none tenant = false
tenant_fits (some p) tenant =
    not (p.code == "moodle" && is_some tenant) && not (p.code == "microsoft" && is_none tenant)

-- enforce_external_identity_provider_tenant: whether the trigger lets the row be written
abbrev pub enforce_tenant : List Provider → ExternalIdentity → Bool
enforce_tenant providers x =
    tenant_fits (first (λ p. p.id == x.provider_id) providers) x.provider_tenant_id
