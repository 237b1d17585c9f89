-- ===== src/Access/Sources/Admin.antt =====
-- An administrator by any source stays one: the role wins over every other source.
use text.Mathlib.TextEquality.{eq_iff}
use orbita_backend.Prelude.{
  String, ◌≡◌, refl, Bool, true, false, not, ◌&&◌, ◌||◌, ◌==◌, number_comparable, text_comparable,
  any, first, delete, is_some, Option, none, some, inl, inr, List, [], ◌∷◌, ◌++◌, arith, Bool-cases,
  Option-cases, if◌then◌else◌, subst, same_number_iff, ap, ◌∙◌,
}
use orbita_backend.Data.{Db, Uuid, GlobalRole, UserGlobalRoleSource}
use orbita_backend.Exec.{ok, run}
use orbita_backend.Access.Sources.{
  NamesBySource, put, get, has_value, collect, find_role, from_source, effective_role,
  platform_admin_role, resolve_effective_role, moodle_role_source, drop_source, add_source_if,
  role_id_of, sync_moodle_role, source_row, reconciled,
}
use orbita_backend.Access.Sources.OneSource.{OneForEachSource, replaced-OneForEachSource}
use orbita_backend.Access.Sources.Reconcile.{HasUniqueIds, reconcile_resolves}
use orbita_backend.Apps.Policy.{role_names}

pub get-put :
    (j k v : String) (d : NamesBySource) → get j (put k v d) ≡ (if k == j then some v else get j d)
get-put j k v [] = refl
get-put j k v ((i, w) ∷ d) = ground (arith, get-put j k v d, eq_iff i k, eq_iff i j, eq_iff k j)

-- A new key adds its value to the values.
pub has_value-put :
    (v k w : String) (d : NamesBySource)
    → get k d ≡ none
    → has_value v (put k w d) ≡ (has_value v d || w == v)
has_value-put v k w [] h = ground arith
has_value-put v k w ((i, x) ∷ d) h = ground (arith, has_value-put v k w d)

abbrev is_admin : Option GlobalRole → Bool
is_admin none = false
is_admin (some r) = r.name == platform_admin_role

-- a source row that makes the user an administrator
abbrev pub admin_source : Uuid → List GlobalRole → UserGlobalRoleSource → Bool
admin_source user_id roles s = s.user_id == user_id && is_admin (find_role s.global_role_id roles)

-- No row of the user has a source that is a key already.
abbrev Fresh : Uuid → NamesBySource → List UserGlobalRoleSource → Type 0
Fresh user_id d rows = any (λ s. s.user_id == user_id && is_some (get s.source d)) rows ≡ false

Fresh-put :
    (user_id : Uuid) (k v : String) (d : NamesBySource) (rows : List UserGlobalRoleSource)
    → Fresh user_id d rows
    → any (from_source user_id k) rows ≡ false
    → Fresh user_id (put k v d) rows
Fresh-put user_id k v d [] h new = refl
Fresh-put user_id k v d (s ∷ rows) h new = ground (
  arith,
  Fresh-put user_id k v d rows,
  get-put s.source k v d,
  eq_iff k s.source,
  eq_iff s.source k,
)

module _ (user_id : Uuid) (roles : List GlobalRole) where
  -- An administrator role among the rows, or already among the values, is among the values at the end.
  collect-admin :
      (rows : List UserGlobalRoleSource) (d : NamesBySource)
      → OneForEachSource rows
      → Fresh user_id d rows
      → (has_value platform_admin_role d || any (admin_source user_id roles) rows) ≡ true
      → has_value platform_admin_role (collect user_id roles rows d) ≡ true
  collect-admin [] d one fresh h = ground arith
  collect-admin (s ∷ rows) d one fresh h = elim (Bool-cases (s.user_id == user_id)) [
    | inr other ↦
        rw (other, if◌then◌else◌) (collect-admin rows d one.1 (ground arith) (ground arith))
    | inl own ↦
        let e = (same_number_iff s.user_id user_id).0 own in
        let new = subst (λ k. any (from_source k s.source) rows ≡ false) e one.0 in
        elim (Option-cases (find_role s.global_role_id roles)) [
          | inl missing ↦
              rw (own, missing) (collect-admin rows d one.1 (ground arith) (ground arith))
          | inr (r, found) ↦
              rw (own, found)
                (collect-admin rows (put s.source r.name d) one.1
                  (Fresh-put user_id s.source r.name d rows (ground arith) new)
                  (ground (arith, has_value-put platform_admin_role s.source r.name d)))
        ]
  ]

Fresh-nil : (user_id : Uuid) (rows : List UserGlobalRoleSource) → Fresh user_id [] rows
Fresh-nil user_id [] = refl
Fresh-nil user_id (s ∷ rows) = ground (arith, Fresh-nil user_id rows)

-- Where a user has at most one role from each source, the effective role of a user with an
-- administrator source is administrator.
pub effective_admin :
    (user_id : Uuid) (db : Db)
    → OneForEachSource db.role_sources
    → any (admin_source user_id db.global_roles) db.role_sources ≡ true
    → effective_role user_id db ≡ platform_admin_role
unfolding resolve_effective_role
effective_admin user_id db one h = rw (
    collect-admin user_id db.global_roles db.role_sources [] one (Fresh-nil user_id db.role_sources)
      h)

module _ (user_id : Uuid) (roles : List GlobalRole) where
  kept_admin :
      (rows : List UserGlobalRoleSource)
      → any (λ s. admin_source user_id roles s && not (s.source == moodle_role_source)) rows ≡ true
      → any (admin_source user_id roles) (delete (from_source user_id moodle_role_source) rows)
        ≡ true
  kept_admin [] h = cc
  kept_admin (s ∷ rows) h = ground (arith, kept_admin rows)

  more_admin :
      (rows : List UserGlobalRoleSource) (x : UserGlobalRoleSource)
      → any (admin_source user_id roles) rows ≡ true
      → any (admin_source user_id roles) (rows ++ x ∷ []) ≡ true
  more_admin [] x h = cc
  more_admin (s ∷ rows) x h = ground (arith, more_admin rows x)

synced_admin :
    (user_id : Uuid) (role_id : Option Uuid) (db : Db)
    → any
        (λ s. admin_source user_id db.global_roles s && not (s.source == moodle_role_source))
        db.role_sources
      ≡ true
    → any
        (admin_source user_id db.global_roles)
        (add_source_if user_id moodle_role_source role_id
          (drop_source user_id moodle_role_source db)).role_sources
      ≡ true
synced_admin user_id none db h = kept_admin user_id db.global_roles db.role_sources h
synced_admin user_id (some k) db h = ground (
  arith,
  kept_admin user_id db.global_roles db.role_sources h,
  more_admin user_id db.global_roles
      (delete (from_source user_id moodle_role_source) db.role_sources)
      (source_row user_id k moodle_role_source),
)

reconciled_admin :
    (user_id : Uuid) (db : Db) (admin : GlobalRole)
    → HasUniqueIds db.global_roles
    → first (λ x. x.name == platform_admin_role) db.global_roles ≡ some admin
    → effective_role user_id db ≡ platform_admin_role
    → (ok (effective_role user_id db) ≡ ok platform_admin_role)
      × (role_names user_id (reconciled user_id db) ≡ platform_admin_role ∷ [])
reconciled_admin user_id db admin unique seeded e =
    let resolved = reconcile_resolves user_id db admin unique (rw e seeded) in
    (ap ok e, resolved.0 ∙ ap (λ n. n ∷ []) e)

-- Where role ids are unique, the administrator role is in the table and there is at most one role from
-- each source: a synchronization from Moodle, whatever role it brings or takes away, leaves a user who
-- is an administrator by another source an administrator, and nothing else.
pub sync_moodle_role-admin :
    (user_id : Uuid) (role_name : Option String) (db : Db) (admin : GlobalRole)
    → HasUniqueIds db.global_roles
    → first (λ x. x.name == platform_admin_role) db.global_roles ≡ some admin
    → OneForEachSource db.role_sources
    → any
        (λ s. admin_source user_id db.global_roles s && not (s.source == moodle_role_source))
        db.role_sources
      ≡ true
    → ((run (sync_moodle_role user_id role_name) db).0 ≡ ok platform_admin_role)
      × (role_names user_id (run (sync_moodle_role user_id role_name) db).1
          ≡ platform_admin_role ∷ [])
unfolding sync_moodle_role
sync_moodle_role-admin user_id none db admin unique seeded one h =
    reconciled_admin user_id (drop_source user_id moodle_role_source db) admin unique seeded (
      effective_admin user_id (drop_source user_id moodle_role_source db)
        (replaced-OneForEachSource user_id moodle_role_source none db one)
        (synced_admin user_id none db h))
sync_moodle_role-admin user_id (some name) db admin unique seeded one h =
    let k = role_id_of name db.global_roles in
    let after =
      add_source_if user_id moodle_role_source k (drop_source user_id moodle_role_source db) in
    reconciled_admin user_id after admin unique seeded (
      effective_admin user_id after (replaced-OneForEachSource user_id moodle_role_source k db one)
        (synced_admin user_id k db h))
