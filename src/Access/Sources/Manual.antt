-- ===== src/Access/Sources/Manual.antt =====
-- What a manual assignment makes of the sources of a user.
use text.Mathlib.TextEquality.{eq_iff}
use orbita_backend.Prelude.{
  String, ◌≡◌, refl, ap, ◌∙◌, Bool, true, false, not, ◌&&◌, ◌||◌, ◌==◌, text_comparable,
  number_comparable, some, List, [], ◌∷◌, ◌++◌, any, delete, inl, inr, Option-cases, Bool-cases,
  if◌then◌else◌, ◌⊎◌, arith, same_number_iff,
}
use orbita_backend.Data.{Db, Uuid, GlobalRole, UserGlobalRoleSource}
use orbita_backend.Exec.{Error, ok, err, run, value_error, permission_error}
use orbita_backend.Access.Sources.{
  NamesBySource, put, get, has_value, collect, find_role, has_source, from_source, add_source,
  drop_source, source_row, same_source, reconciled, manual_role_source, moodle_role_source,
  effective_role, resolve_effective_role, names_by_source, default_role, platform_admin_role,
  set_manual_global_role,
}
use orbita_backend.Access.Sources.Admin.{get-put, has_value-put}

module _ (user_id : Uuid) (roles : List GlobalRole) where
  -- A source that no row of the user has keeps what the dict holds for it.
  get-collect :
      (k : String) (rows : List UserGlobalRoleSource) (d : NamesBySource)
      → any (from_source user_id k) rows ≡ false
      → get k (collect user_id roles rows d) ≡ get k d
  get-collect k [] d h = refl
  get-collect k (s ∷ rows) d h = elim (Bool-cases (s.user_id == user_id)) [
    | inr other ↦ rw other (get-collect k rows d (ground arith))
    | inl own ↦ elim (Option-cases (find_role s.global_role_id roles)) [
      | inl missing ↦ rw (own, missing) (get-collect k rows d (ground arith))
      | inr (r, found) ↦
          rw (own, found)
            (get-collect k rows (put s.source r.name d) (ground arith)
              ∙ ground (arith, get-put k s.source r.name d))
    ]
  ]

  collect-append :
      (xs ys : List UserGlobalRoleSource) (d : NamesBySource)
      → collect user_id roles (xs ++ ys) d ≡ collect user_id roles ys (collect user_id roles xs d)
  collect-append [] ys d = refl
  collect-append (s ∷ xs) ys d = collect-append xs ys _

none_left :
    (user_id : Uuid) (k : String) (rows : List UserGlobalRoleSource)
    → any (from_source user_id k) (delete (from_source user_id k) rows) ≡ false
none_left user_id k [] = refl
none_left user_id k (s ∷ rows) = ground (arith, none_left user_id k rows)

still_none :
    (user_id : Uuid) (j k : String) (rows : List UserGlobalRoleSource)
    → any (from_source user_id j) rows ≡ false
    → any (from_source user_id j) (delete (from_source user_id k) rows) ≡ false
still_none user_id j k [] h = refl
still_none user_id j k (s ∷ rows) h = ground (arith, still_none user_id j k rows)

unlike :
    (user_id role_id : Uuid) (k : String) (rows : List UserGlobalRoleSource)
    → any (from_source user_id k) rows ≡ false
    → any (same_source (source_row user_id role_id k)) rows ≡ false
unlike user_id role_id k [] h = refl
unlike user_id role_id k (s ∷ rows) h = ground (
  arith,
  unlike user_id role_id k rows,
  same_number_iff s.user_id user_id,
  same_number_iff user_id s.user_id,
  eq_iff s.source k,
  eq_iff k s.source,
)

module _ (user_id role_id : Uuid) (db : Db) (role : GlobalRole)
    (found : find_role role_id db.global_roles ≡ some role) where
  abbrev others : NamesBySource
  others = names_by_source user_id (drop_source user_id manual_role_source db)

  abbrev pub assigned : Db
  assigned =
      add_source (source_row user_id role_id manual_role_source)
        (drop_source user_id manual_role_source db)

  -- The dict of the other sources, with the assigned role under the source manual.
  names-assigned : names_by_source user_id assigned ≡ put manual_role_source role.name others
  names-assigned =
      let kept = delete (from_source user_id manual_role_source) db.role_sources in
      let new =
        unlike user_id role_id manual_role_source kept
          (none_left user_id manual_role_source db.role_sources) in
      rw
        (
          new,
          collect-append user_id db.global_roles kept
              (source_row user_id role_id manual_role_source ∷ []) [],
          (same_number_iff user_id user_id).1 refl,
          found,
        )
        refl

  -- The role that the assigned role and the other sources give.
  abbrev pub manual_effect : String
  manual_effect =
      if role.name == platform_admin_role || has_value platform_admin_role others
      then platform_admin_role
      else role.name

  abbrev held : Bool
  held = has_source user_id moodle_role_source db

  abbrev pub is_assignable : Bool
  is_assignable = not (role.name == default_role) && (not held || role.name == platform_admin_role)

  effective-assigned :
      (role.name == "") ≡ false
      → (not held || role.name == platform_admin_role) ≡ true
      → effective_role user_id assigned ≡ manual_effect
  unfolding resolve_effective_role
  effective-assigned named allowed =
      let kept = delete (from_source user_id manual_role_source) db.role_sources in
      let unset =
        get-collect user_id db.global_roles manual_role_source kept []
          (none_left user_id manual_role_source db.role_sources) in
      let admin = has_value-put platform_admin_role manual_role_source role.name others unset in
      let moodle = get-put moodle_role_source manual_role_source role.name others in
      let manual = get-put manual_role_source manual_role_source role.name others in
      rw (names-assigned, admin, moodle, manual)
        elim (Bool-cases (role.name == platform_admin_role)) [
          | inl top ↦ rw top (ground arith)
          | inr other ↦
              let free = get-collect user_id db.global_roles moodle_role_source kept [] (
                still_none user_id moodle_role_source manual_role_source db.role_sources
                  (ground arith)) in
              rw (other, free) (ground arith)
        ]

  -- A manual assignment of a role that is in the table and has a name is refused, with nothing
  -- written, where the role is guest, or where the user has a role from Moodle and the role is not the
  -- administrator's; and else it answers the administrator role where that is the assigned role or the
  -- role of another source of the user, and the assigned role where it is not.
  pub set_manual-decided :
      (role.name == "") ≡ false
      → ((is_assignable ≡ true)
          × (run (set_manual_global_role user_id role_id) db
              ≡ (ok manual_effect, reconciled user_id assigned)))
        ⊎ ((is_assignable ≡ false)
            × ((e : Error) × (run (set_manual_global_role user_id role_id) db ≡ (err e, db))))
  unfolding set_manual_global_role
  set_manual-decided named = elim (Bool-cases (role.name == default_role)) [
    | inl guest ↦ inr (rw guest refl, (value_error, rw (found, guest) refl))
    | inr other ↦ elim (Bool-cases (not held || role.name == platform_admin_role)) [
      | inl allowed ↦
          let free : (held && not (role.name == platform_admin_role)) ≡ false = ground arith in
          inl (
            rw (other, allowed) refl,
            rw (found, other, free)
                (ap (λ n. (ok n, reconciled user_id assigned)) (effective-assigned named allowed)),
          )
      | inr refused ↦
          let taken : (held && not (role.name == platform_admin_role)) ≡ true = ground arith in
          inr (rw (other, refused) refl, (permission_error, rw (found, other, taken) refl))
    ]
  ]
