-- ===== src/Tests/Routers.antt =====
-- The theorems on the launcher and on the administrator's requests at concrete rows.
use orbita_backend.Prelude.{
  ◌≡◌, refl, true, false, ◌&&◌, ◌||◌, ◌==◌, number_comparable, any, String, some, List, [], ◌∷◌,
}
use orbita_backend.Routers.Launcher.{authorized_applications, in_catalog}
use orbita_backend.Routers.Launcher.Members.{has_id, opens_app, authorized_applications_iff}
use orbita_backend.Routers.Users.SelfGuard.{
  status, removal, bulk_status, bulk_removal, serve_all, is_usable, serve_all-is_usable,
}
use orbita_backend.Routers.Schemas.{validate_released_claims}
use orbita_backend.Prelude.Names.{sorted_set}
use orbita_backend.Prelude.Text.{lower, strip}
use orbita_backend.Tests.Sample.{ana, db}

authorized_applications_iff_example :
    has_id 5 (authorized_applications 1 db)
    ≡ any (λ a. a.id == 5 && (in_catalog 1 db a || opens_app 1 db 5 a)) db.applications
authorized_applications_iff_example = authorized_applications_iff 1 db 5

serve_all-is_usable_example :
    is_usable 1 (
      serve_all ana
        ((0, removal 1)
          ∷ (1, status 1 false)
          ∷ (2, bulk_removal (1 ∷ 2 ∷ []))
          ∷ (3, bulk_status (1 ∷ []) true)
          ∷ [])
        db)
    ≡ true
serve_all-is_usable_example =
    serve_all-is_usable ana
      ((0, removal 1)
        ∷ (1, status 1 false)
        ∷ (2, bulk_removal (1 ∷ 2 ∷ []))
        ∷ (3, bulk_status (1 ∷ []) true)
        ∷ [])
      db refl

accepted : validate_released_claims (" Clan" ∷ "clan" ∷ []) ≡ some ("clan" ∷ [])
unfolding validate_released_claims lower strip sorted_set
accepted = refl

abbrev only_clan : List String
only_clan = "clan" ∷ []
