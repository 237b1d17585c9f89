-- ===== src/Access/Sources/OneSource.antt =====
-- `{source: name …}` in `reconcile_effective_role` keeps one role for each source: how many rows a user
-- has from one source.
use text.Mathlib.TextEquality.{eq_iff}
use orbita_backend.Prelude.{
  String, ◌≡◌, refl, Bool, false, ◌&&◌, ◌==◌, number_comparable, text_comparable, any, delete,
  Option, none, some, inl, inr, List, [], ◌∷◌, ◌++◌, arith, Bool-cases, Option-cases,
}
use orbita_backend.Prelude.Queries.{any-delete_self}
use orbita_backend.Data.{Db, Uuid, UserGlobalRoleSource}
use orbita_backend.Exec.{run}
use orbita_backend.Access.Sources.{
  from_source, add_source, source_row, drop_source, add_source_if, moodle_role_source,
  manual_role_source, fallback_role_source, default_role, role_id_of, sync_moodle_role,
  set_manual_global_role, revoke_manual_global_role, ensure_default_role,
}

-- No two rows have the same user and the same source.
abbrev pub OneForEachSource : List UserGlobalRoleSource → Type 0
OneForEachSource [] = Unit
OneForEachSource (s ∷ rest) =
    (any (from_source s.user_id s.source) rest ≡ false) × OneForEachSource rest

any-delete :
    (p q : UserGlobalRoleSource → Bool) (rows : List UserGlobalRoleSource)
    → any p rows ≡ false
    → any p (delete q rows) ≡ false
any-delete p q [] h = refl
any-delete p q (s ∷ rows) h = ground (arith, any-delete p q rows)

pub delete-OneForEachSource :
    (q : UserGlobalRoleSource → Bool) (rows : List UserGlobalRoleSource)
    → OneForEachSource rows
    → OneForEachSource (delete q rows)
delete-OneForEachSource q [] h = tt
delete-OneForEachSource q (s ∷ rows) h =
    ground
      (arith, delete-OneForEachSource q rows, any-delete (from_source s.user_id s.source) q rows)

any-append_one :
    (p : UserGlobalRoleSource → Bool) (rows : List UserGlobalRoleSource) (x : UserGlobalRoleSource)
    → any p rows ≡ false
    → p x ≡ false
    → any p (rows ++ x ∷ []) ≡ false
any-append_one p [] x h e = ground arith
any-append_one p (s ∷ rows) x h e = ground (arith, any-append_one p rows x)

append-OneForEachSource :
    (rows : List UserGlobalRoleSource) (x : UserGlobalRoleSource)
    → OneForEachSource rows
    → any (from_source x.user_id x.source) rows ≡ false
    → OneForEachSource (rows ++ x ∷ [])
append-OneForEachSource [] x h new = (refl, tt)
append-OneForEachSource (s ∷ rows) x h new = ground (
  arith,
  append-OneForEachSource rows x,
  any-append_one (from_source s.user_id s.source) rows x,
  eq_iff s.source x.source,
  eq_iff x.source s.source,
)

pub add_source-OneForEachSource :
    (x : UserGlobalRoleSource) (db : Db)
    → OneForEachSource db.role_sources
    → any (from_source x.user_id x.source) db.role_sources ≡ false
    → OneForEachSource (add_source x db).role_sources
add_source-OneForEachSource x db h new = ground (arith, append-OneForEachSource db.role_sources x)

pub replaced-OneForEachSource :
    (user_id : Uuid) (source : String) (role_id : Option Uuid) (db : Db)
    → OneForEachSource db.role_sources
    → OneForEachSource
        (add_source_if user_id source role_id (drop_source user_id source db)).role_sources
replaced-OneForEachSource user_id source none db h =
    delete-OneForEachSource (from_source user_id source) db.role_sources h
replaced-OneForEachSource user_id source (some k) db h =
    add_source-OneForEachSource (source_row user_id k source) (drop_source user_id source db)
      (delete-OneForEachSource (from_source user_id source) db.role_sources h)
      (any-delete_self (from_source user_id source) db.role_sources)

unsourced :
    (user_id : Uuid) (source : String) (rows : List UserGlobalRoleSource)
    → any (λ s. s.user_id == user_id) rows ≡ false
    → any (from_source user_id source) rows ≡ false
unsourced user_id source [] h = refl
unsourced user_id source (s ∷ rows) h = ground (arith, unsourced user_id source rows)

module _ (db : Db) (one : OneForEachSource db.role_sources) (user_id : Uuid) where
  sync_moodle_role-OneForEachSource :
      (role_name : Option String)
      → OneForEachSource (run (sync_moodle_role user_id role_name) db).1.role_sources
  unfolding sync_moodle_role
  sync_moodle_role-OneForEachSource none =
      replaced-OneForEachSource user_id moodle_role_source none db one
  sync_moodle_role-OneForEachSource (some name) =
      replaced-OneForEachSource user_id moodle_role_source (role_id_of name db.global_roles) db one

  set_manual-OneForEachSource :
      (role_id : Uuid)
      → OneForEachSource (run (set_manual_global_role user_id role_id) db).1.role_sources
  unfolding set_manual_global_role
  set_manual-OneForEachSource role_id =
      ground (arith, replaced-OneForEachSource user_id manual_role_source (some role_id) db one)

  ensure_default-OneForEachSource :
      (commits : Bool)
      → OneForEachSource (run (ensure_default_role user_id commits) db).1.role_sources
  unfolding ensure_default_role
  ensure_default-OneForEachSource commits =
      elim (Bool-cases (any (λ s. s.user_id == user_id) db.role_sources)) [
        | inl sourced ↦ rw sourced one
        | inr bare ↦ elim (Option-cases (role_id_of default_role db.global_roles)) [
          | inl missing ↦ rw (bare, missing) one
          | inr (k, found) ↦ ground (
            arith,
            add_source-OneForEachSource (source_row user_id k fallback_role_source) db one
                (unsourced user_id fallback_role_source db.role_sources bare),
          )
        ]
      ]

  -- Where a user has at most one role from each source, this holds after a Moodle synchronization, a
  -- manual assignment, a manual revocation and the default role, on success and on failure.
  pub sources-OneForEachSource :
      (role_name : Option String) (role_id : Uuid) (commits : Bool)
      → OneForEachSource (run (sync_moodle_role user_id role_name) db).1.role_sources
        × OneForEachSource (run (set_manual_global_role user_id role_id) db).1.role_sources
        × OneForEachSource (run (revoke_manual_global_role user_id role_id) db).1.role_sources
        × OneForEachSource (run (ensure_default_role user_id commits) db).1.role_sources
  unfolding revoke_manual_global_role
  sources-OneForEachSource role_name role_id commits = (
    sync_moodle_role-OneForEachSource role_name,
    set_manual-OneForEachSource role_id,
    delete-OneForEachSource
        (λ s. from_source user_id manual_role_source s && s.global_role_id == role_id)
        db.role_sources one,
    ensure_default-OneForEachSource commits,
  )
