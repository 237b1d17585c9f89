-- ===== src/Tests/Apps.antt =====
-- The theorems on apps and their roles at concrete rows.
use orbita_backend.Prelude.{
  String, ltb, ◌||◌, refl, ◌≡◌, true, false, none, [], ◌∷◌, any, ◌&&◌, ◌==◌, text_comparable,
  number_comparable, contains,
}
use orbita_backend.Exec.{run}
use orbita_backend.Apps.{RoleCatalogEntry, sync_catalog, retires, resolve_app_access_policy}
use orbita_backend.Apps.Registry.{rotated, verify_client_secret, verify_secret}
use orbita_backend.Apps.Registry.Secrets.{rotate_client_secret_lem}
use orbita_backend.Apps.Policy.Resolution.{resolve_app_access_policy_lem}
use orbita_backend.Apps.Catalog.Declared.{is_declared, sync_catalog-is_declared}
use orbita_backend.Tests.Sample.{db, campus}
use orbita_backend.Tests.Library.{crypto}

-- Two explicit roles in an app that allows one.
resolve_app_access_policy_lem_example :
    let access =
      resolve_app_access_policy ("coder" ∷ []) ("editor" ∷ "owner" ∷ []) [] "single" true in
    (contains "editor" access.roles ≡ false) × (access.migration ≡ false)
resolve_app_access_policy_lem_example =
    resolve_app_access_policy_lem "editor" ("coder" ∷ []) ("editor" ∷ "owner" ∷ []) [] "single" true

abbrev entry : RoleCatalogEntry
entry = record { key = "owner"; display_name = "Owner"; description = none }

sync_catalog-is_declared_example :
    (any (is_declared 10 "owner") (run (sync_catalog (λ k. 21) 0 campus (entry ∷ [])) db).1.roles
      ≡ true)
    × (any
          (retires 10 ("owner" ∷ []))
          (run (sync_catalog (λ k. 21) 0 campus (entry ∷ [])) db).1.roles
        ≡ false)
sync_catalog-is_declared_example =
    sync_catalog-is_declared (λ k. 21) 0 campus (entry ∷ []) "owner" db

abbrev before : String
before = "secret"

rotate_client_secret_lem_example :
    verify_client_secret crypto 7 (rotated crypto "fresh" "next" 9 campus) "secret"
    ≡ (before == "fresh" || (ltb 7 9 && verify_secret crypto "secret" "salt$secret"))
rotate_client_secret_lem_example =
    rotate_client_secret_lem crypto "next" "fresh" refl refl campus 9 7 "secret" refl refl
