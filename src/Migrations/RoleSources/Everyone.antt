-- ===== src/Migrations/RoleSources/Everyone.antt =====
-- Every user has a role after the migration.
use orbita_backend.Prelude.{
  String, Bool, ◌≡◌, refl, subst, sym, ◌∙◌, true, false, ◌&&◌, ◌||◌, ◌==◌, text_comparable,
  number_comparable, same_number_iff, List, [], ◌∷◌, ◌++◌, any, all, delete, arith, Bool-cases, inl,
  inr,
}
use orbita_backend.Data.{Db, Uuid, User, GlobalRole, UserGlobalRole, UserGlobalRoleSource}
use orbita_backend.Migrations.{named}
use orbita_backend.Migrations.PlatformAdmins.{any-insert_grants, named-is_role}
use orbita_backend.Migrations.RoleSources.{
  is_role, manual_sources, fallback_rows, fallback_sources, guest_grants, with_sources,
  without_staff, upgrade_role_sources, seed_role,
}
use orbita_backend.Migrations.RoleSources.Matching.{matching}

-- A grant of the user, and a source that gives the user a guest role.
module _ (id : Uuid) where
  abbrev owned : UserGlobalRole → Bool
  owned g = g.user_id == id

  abbrev guest_source : List GlobalRole → UserGlobalRoleSource → Bool
  guest_source roles s = s.user_id == id && is_role "guest" roles s.global_role_id

  guest-owned :
      (roles : List GlobalRole) (sources : List UserGlobalRoleSource)
      → any owned (guest_grants roles sources) ≡ any (guest_source roles) sources
  guest-owned roles [] = refl
  guest-owned roles (s ∷ sources) = ground (arith, guest-owned roles sources)

  append-guest :
      (roles : List GlobalRole) (xs ys : List UserGlobalRoleSource)
      → any (guest_source roles) (xs ++ ys)
        ≡ (any (guest_source roles) xs || any (guest_source roles) ys)
  append-guest roles [] ys = refl
  append-guest roles (x ∷ xs) ys = ground (arith, append-guest roles xs ys)

  rows-guest :
      (roles : List GlobalRole) (user_id : Uuid) (rs : List GlobalRole)
      → all (λ r. is_role "guest" roles r.id) rs ≡ true
      → any (guest_source roles) (fallback_rows user_id rs) ≡ (user_id == id && any (λ r. true) rs)
  rows-guest roles user_id [] h = ground arith
  rows-guest roles user_id (r ∷ rs) h = ground (arith, rows-guest roles user_id rs)

  any-named :
      (rs : List GlobalRole) → any (λ r. true) (named "guest" rs) ≡ any (λ r. r.name == "guest") rs
  any-named [] = refl
  any-named (r ∷ rs) = ground (arith, any-named rs)

  -- A user with no grant gets a source, where there is a guest role.
  fallback-guest :
      (roles : List GlobalRole) (grants : List UserGlobalRole) (users : List User)
      → any (λ r. r.name == "guest") roles ≡ true
      → any owned grants ≡ false
      → any (λ u. u.id == id) users ≡ true
      → any (guest_source roles) (fallback_sources roles grants users) ≡ true
  fallback-guest roles grants [] seeded none_owned h = cc
  fallback-guest roles grants (u ∷ users) seeded none_owned h =
      let own = rows-guest roles u.id (named "guest" roles) (named-is_role "guest" roles) in
      let joined =
        append-guest roles (fallback_rows u.id (named "guest" roles))
          (fallback_sources roles grants users) in
      elim (Bool-cases (u.id == id)) [
        | inl e ↦
            let same : any (λ g. g.user_id == u.id) grants ≡ false =
              subst (λ k. any (λ (g : UserGlobalRole). g.user_id == k) grants ≡ false)
                (sym ((same_number_iff u.id id).0 e)) none_owned in
            rw same (ground (arith, joined, own, any-named roles, seeded, e))
        | inr e ↦
            let later =
              fallback-guest roles grants users seeded none_owned (ground (arith, h, e)) in
            elim (Bool-cases (any (λ g. g.user_id == u.id) grants)) [
              | inl f ↦ rw f later
              | inr f ↦ rw f (ground (arith, joined, later))
            ]
      ]

  covered :
      (db : Db)
      → any (λ r. r.name == "guest") db.global_roles ≡ true
      → any (λ u. u.id == id) db.users ≡ true
      → any owned (with_sources db).user_global_roles ≡ true
  unfolding with_sources
  covered db seeded user =
      let fallback = fallback_sources db.global_roles db.user_global_roles db.users in
      let sources = manual_sources db.user_global_roles ++ fallback in
      let added =
        any-insert_grants owned (guest_grants db.global_roles sources) db.user_global_roles in
      elim (Bool-cases (any owned db.user_global_roles)) [
        | inl e ↦ rw (added, e) refl
        | inr e ↦
            rw
              (
                added,
                e,
                guest-owned db.global_roles sources,
                append-guest db.global_roles (manual_sources db.user_global_roles) fallback,
                fallback-guest db.global_roles db.user_global_roles db.users seeded e user,
              )
              (ground arith)
      ]

snoc-named :
    (name : String) (rows : List GlobalRole) (r : GlobalRole)
    → r.name ≡ name
    → any (λ x. x.name == name) (rows ++ r ∷ []) ≡ true
snoc-named name [] r h =
    let same = (text_comparable.same_iff r.name name).1 h in ground (arith, same)
snoc-named name (x ∷ rows) r h = ground (arith, snoc-named name rows r h)

seed-seeds :
    (id : Uuid) (name description : String) (roles : List GlobalRole)
    → any (λ r. r.name == name) (seed_role id name description roles) ≡ true
seed-seeds id name description roles = elim (Bool-cases (any (λ r. r.name == name) roles)) [
  | inl e ↦ rw e e
  | inr e ↦ rw e (snoc-named name roles _ refl)
]

guest-not_staff : (name : String) → (name == "guest") ≡ true → (name == "staff") ≡ false
guest-not_staff name h =
    subst (λ n. (n == "staff") ≡ false) (sym ((text_comparable.same_iff name "guest").0 h)) refl

delete_staff-guest :
    (roles : List GlobalRole)
    → any (λ r. r.name == "guest") (delete (λ r. r.name == "staff") roles)
      ≡ any (λ r. r.name == "guest") roles
delete_staff-guest [] = refl
delete_staff-guest (r ∷ roles) = ground (arith, guest-not_staff r.name, delete_staff-guest roles)

without_staff-guest :
    (teamleader_id guest_id : Uuid) (db : Db)
    → any (λ r. r.name == "guest") (without_staff teamleader_id guest_id db).global_roles ≡ true
without_staff-guest teamleader_id guest_id db =
    let roles =
      seed_role teamleader_id "teamleader" "Liderazgo académico de Riwi" db.global_roles in
    delete_staff-guest (seed_role guest_id "guest" "Cuenta sin rol ni acceso por catálogo" roles)
    ∙ seed-seeds guest_id "guest" "Cuenta sin rol ni acceso por catálogo" roles

all_covered :
    (p : Uuid → Bool) (users : List User)
    → ((id : Uuid) → any (λ u. u.id == id) users ≡ true → p id ≡ true)
    → all (λ u. p u.id) users ≡ true
all_covered p [] f = refl
all_covered p (u ∷ users) f =
    let own = f u.id (ground (arith, same_number_iff u.id u.id)) in
    let rest = all_covered p users (λ id h. f id (ground (arith, h))) in ground (arith, own, rest)

-- After the migration every user has a global role, and a role is granted exactly where a source
-- gives it to the user.
pub upgrade_role_sources-covered :
    (teamleader_id guest_id : Uuid) (db : Db)
    → (all
          (λ u.
            any
              (λ g. g.user_id == u.id)
              (upgrade_role_sources teamleader_id guest_id db).user_global_roles)
          db.users
        ≡ true)
      × ((user_id role_id : Uuid)
          → any
              (λ s. s.user_id == user_id && s.global_role_id == role_id)
              (upgrade_role_sources teamleader_id guest_id db).role_sources
            ≡ any
                (λ g. g.user_id == user_id && g.global_role_id == role_id)
                (upgrade_role_sources teamleader_id guest_id db).user_global_roles)
unfolding upgrade_role_sources
upgrade_role_sources-covered teamleader_id guest_id db =
    let rows = without_staff teamleader_id guest_id db in
    let seeded = without_staff-guest teamleader_id guest_id db in
    (
      all_covered (λ id. any (λ g. g.user_id == id) (with_sources rows).user_global_roles) db.users
          (λ id here. covered id rows seeded here),
      λ user_id role_id. matching user_id role_id rows,
    )
