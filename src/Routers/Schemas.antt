-- ===== src/Routers/Schemas.antt =====
-- The validators of the request bodies in app/modules/apps/schemas.py and app/modules/users/schemas.py
-- that compute. A body that is refused is none: FastAPI answers it with 422 before the endpoint runs.
-- Lengths and patterns of single fields, and the URL checks, are left to pydantic and urllib.
pub mod Claims
pub mod Fields
pub mod Registered
use orbita_backend.Prelude.{
  ℕ, suc, String, Bool, true, false, not, ◌&&◌, ◌||◌, ◌==◌, text_comparable, leb, Option, none,
  some, List, [], ◌∷◌, contains, if◌then◌else◌,
}
use orbita_backend.Prelude.Names.{sorted_set, is_subset}
use orbita_backend.Prelude.Text.{strip, lower}
use orbita_backend.Settings.{map_nonblank}
use orbita_backend.Data.{Uuid}
use orbita_backend.Apps.Catalog.{RoleCatalogEntry, keys}

-- AppCreate.validate_released_claims and AppPolicyUpdate.validate_released_claims
unfoldable pub validate_released_claims : List String → Option (List String)
validate_released_claims values =
    let normalized = sorted_set (map_nonblank (λ value. lower (strip value)) values) in
    if is_subset normalized ("clan" ∷ []) then some normalized else none

abbrev pub length {ℓ} : {A : Type ℓ} → List A → ℕ
length [] = 0
length (x ∷ xs) = suc (length xs)

-- `len(keys) == len(set(keys))`, as a search for a key that comes again
abbrev pub has_duplicates : List String → Bool
has_duplicates [] = false
has_duplicates (k ∷ ks) = contains k ks || has_duplicates ks

-- RoleCatalogSyncRequest: `max_length=100` and unique_role_keys
unfoldable pub validate_catalog : List RoleCatalogEntry → Option (List RoleCatalogEntry)
validate_catalog roles =
    if leb (length roles) 100 && not (has_duplicates (keys roles)) then some roles else none

-- BULK_MAX_IDS
abbrev pub bulk_max_ids : ℕ
bulk_max_ids = 500

-- BulkUserIds and BulkStatusUpdate
unfoldable pub validate_user_ids : List Uuid → Option (List Uuid)
validate_user_ids user_ids =
    if leb 1 (length user_ids) && leb (length user_ids) bulk_max_ids then some user_ids else none
