-- ===== src/Tests/Accounts.antt =====
-- The theorems on accounts, external identities and the login limiter at concrete rows.
use orbita_backend.Prelude.{refl, ◌≡◌, true, false, some, [], ◌∷◌}
use orbita_backend.Prelude.Queries.{or_first}
use orbita_backend.Data.{Db, Provider}
use orbita_backend.Exec.{run, ok}
use orbita_backend.Users.{set_active_status, soft_delete_user}
use orbita_backend.Closing.Accounts.{Disabled, disable_user}
use orbita_backend.Identity.{
  Draw, Account, IdentityResolution, resolve, active_provider, get_provider, can_auto_link_email,
  is_institutional_email,
}
use orbita_backend.Prelude.Text.{lower, strip, btrim, after_last_at, split_commas}
use orbita_backend.Settings.{identity_email_domains}
use orbita_backend.Identity.Links.{resolve_links, linked_user}
use orbita_backend.Tests.Sample.{db, ana, settings}

disable_user_example :
    Disabled 1 db (run (set_active_status 0 ana false) db).1
    × Disabled 1 db (run (soft_delete_user 0 ana) db).1
disable_user_example = disable_user 0 ana db

abbrev microsoft : Provider
microsoft = record { id = 70; code = "microsoft"; name = "Microsoft"; kind = "oidc"; active = true }

abbrev with_provider : Db
with_provider = record db { providers = microsoft ∷ [] }

abbrev account : Account
account = record {
  provider_code = "microsoft";
  user_id = "oid";
  tenant_id = some "riwi";
  email = some "ana@riwi.io";
  full_name = "Ana";
}

abbrev draws : Draw
draws = record { now = 0; user_id = 2; link_id = 80 }

abbrev answer : IdentityResolution
answer = record {
  user = ana;
  external_identity = record {
    id = 80;
    user_id = 1;
    provider_id = 70;
    provider_user_id = "oid";
    provider_tenant_id = some "riwi";
    provider_email = some "ana@riwi.io";
    last_seen_at = some 0;
  };
  events = [];
}

resolved :
    (run (resolve (λ text. some text) settings draws account true) with_provider).0 ≡ ok answer
unfolding resolve can_auto_link_email lower strip is_institutional_email after_last_at
    identity_email_domains split_commas btrim
resolved = refl

resolve_links_example :
    (provider : Provider) × (active_provider (get_provider "microsoft" with_provider)
      ≡ some provider)
    × (linked_user provider.id account
          (run
            (resolve (λ text. some text) settings draws account true)
            with_provider).1.external_identities
        ≡ some 1)
    × (or_first (linked_user provider.id account with_provider.external_identities) (some 1)
        ≡ some 1)
resolve_links_example =
    resolve_links (λ text. some text) settings draws account true with_provider answer resolved
