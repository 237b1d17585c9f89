-- ===== src/Apps/Roles/Cardinality.antt =====
-- The cardinality of the roles of a user in an app.
use orbita_backend.Prelude.{
  ◌≤◌, String, Bool, ◌&&◌, ◌==◌, number_comparable, text_comparable, count, List,
}
use orbita_backend.Data.{Uuid, App, Role, UserAppRole}

abbrev pub in_app : Uuid → Uuid → UserAppRole → Bool
in_app app_id user_id a = a.user_id == user_id && a.app_id == app_id

-- No user has two assignments in the app.
abbrev pub HasSingleRoles : Uuid → List UserAppRole → Type 0
HasSingleRoles app_id rows = (u : Uuid) → count (in_app app_id u) rows ≤ 1

abbrev new_row : Uuid → Uuid → App → Role → String → UserAppRole
new_row id user_id app role source = record {
  id = id;
  user_id = user_id;
  app_id = app.id;
  role_id = role.id;
  source = source;
}
