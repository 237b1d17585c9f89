-- ===== src/Access/Sources/Reconcile.antt =====
-- reconcile_effective_role: the resolved roles of a user.
use mathlib.Core.List.{append-nil}
use orbita_backend.Prelude.{
  String, ◌≡◌, refl, ap, true, false, ◌==◌, number_comparable, text_comparable, any, first, delete,
  Option, none, some, List, [], ◌∷◌, ◌++◌, arith, if◌then◌else◌, same_number_iff, subst, inl, inr,
  Bool-cases,
}
use orbita_backend.Prelude.Queries.{delete_then_add, delete_idem}
use text.Mathlib.TextEquality.{eq_iff}
use orbita_backend.Data.{Db, Uuid, GlobalRole, UserGlobalRole}
use orbita_backend.Access.Sources.{find_role, role_id_of, effective_role, replace_roles, reconciled}
use orbita_backend.Apps.Policy.{role_names, global_names}

-- The primary key of `global_roles`: no id stands in two rows.
abbrev pub HasUniqueIds : List GlobalRole → Type 0
HasUniqueIds [] = Unit
HasUniqueIds (r ∷ rs) = (any (λ x. x.id == r.id) rs ≡ false) × HasUniqueIds rs

-- A role that is found by its name is found by its id.
find_name :
    (name : String) (rs : List GlobalRole) (r : GlobalRole)
    → HasUniqueIds rs
    → first (λ x. x.name == name) rs ≡ some r
    → (find_role r.id rs ≡ some r) × (r.name ≡ name) × (any (λ x. x.id == r.id) rs ≡ true)
find_name name [] r u h = cc
find_name name (x ∷ xs) r u h = elim (Bool-cases (x.name == name)) [
  | inl here ↦ ground (arith, eq_iff x.name name)
  | inr further ↦ elim (Bool-cases (x.id == r.id)) [
    | inl same ↦
        let e = (same_number_iff x.id r.id).0 same in
        let alone = subst (λ k. any (λ y. y.id == k) xs ≡ false) e u.0 in
        absurd (ground (arith, find_name name xs r))
    | inr differ ↦ ground (arith, find_name name xs r)
  ]
]

-- The rows of one user and role.
abbrev only_row : Uuid → Uuid → UserGlobalRole
only_row user_id role_id = record { user_id = user_id; global_role_id = role_id }

names_deleted :
    (user_id : Uuid) (roles : List GlobalRole) (rows more : List UserGlobalRole)
    → global_names user_id roles (delete (λ r. r.user_id == user_id) rows ++ more)
      ≡ global_names user_id roles more
names_deleted user_id roles [] more = refl
names_deleted user_id roles (r ∷ rows) more = ground (arith, names_deleted user_id roles rows more)

names_of_one :
    (user_id : Uuid) (roles : List GlobalRole) (rows : List UserGlobalRole) (name : String)
    (r : GlobalRole)
    → find_role r.id roles ≡ some r
    → r.name ≡ name
    → global_names user_id roles (replace_roles user_id (some r.id) rows) ≡ name ∷ []
names_of_one user_id roles rows name r found named =
    rw names_deleted (ground (arith, same_number_iff user_id user_id))

names_replaced :
    (user_id : Uuid) (roles : List GlobalRole) (rows : List UserGlobalRole) (name : String)
    (r : GlobalRole)
    → HasUniqueIds roles
    → first (λ x. x.name == name) roles ≡ some r
    → global_names user_id roles (replace_roles user_id (role_id_of name roles) rows) ≡ name ∷ []
names_replaced user_id roles rows name r unique found =
    let (by_id, named, _) = find_name name roles r unique found in
    rw found (names_of_one user_id roles rows name r by_id named)

module _ (user_id : Uuid) where
  names_kept :
      (v : Uuid) (roles : List GlobalRole) (rows more : List UserGlobalRole)
      → (v == user_id) ≡ false
      → global_names v roles (delete (λ r. r.user_id == user_id) rows ++ more)
        ≡ global_names v roles rows ++ global_names v roles more
  names_kept v roles [] more h = refl
  names_kept v roles (r ∷ rows) more h = ground (arith, names_kept v roles rows more h)

  names_others :
      (v : Uuid) (roles : List GlobalRole) (rows : List UserGlobalRole) (o : Option Uuid)
      → (v == user_id) ≡ false
      → global_names v roles (replace_roles user_id o rows) ≡ global_names v roles rows
  names_others v roles [] none h = refl
  names_others v roles (r ∷ rows) none h = ground (arith, names_others v roles rows none)
  names_others v roles rows (some k) h = rw (names_kept v roles rows (only_row user_id k ∷ [])) (
      ground (
        arith,
        append-nil (global_names v roles rows),
        same_number_iff user_id v,
        same_number_iff v user_id,
      ))

  replace_twice :
      (o : Option Uuid) (rows : List UserGlobalRole)
      → replace_roles user_id o (replace_roles user_id o rows) ≡ replace_roles user_id o rows
  replace_twice none rows = delete_idem (λ r. r.user_id == user_id) rows
  replace_twice (some k) rows = rw (
      delete_then_add (λ r. r.user_id == user_id) rows (only_row user_id k)
        ((same_number_iff user_id user_id).1 refl))

-- The resolved roles of another user, as one answer for the user and for others.
abbrev pub if_other : Uuid → Uuid → List String → List String
if_other user_id v names = if v == user_id then [] else names

-- Where role ids are unique and the effective role is in the table: after a reconcile the user has
-- exactly the effective role, the roles of others are as before, and a second reconcile changes
-- nothing.
pub reconcile_resolves :
    (user_id : Uuid) (db : Db) (r : GlobalRole)
    → HasUniqueIds db.global_roles
    → first (λ x. x.name == effective_role user_id db) db.global_roles ≡ some r
    → (role_names user_id (reconciled user_id db) ≡ effective_role user_id db ∷ [])
      × ((v : Uuid)
          → if_other user_id v (role_names v (reconciled user_id db))
            ≡ if_other user_id v (role_names v db))
      × (reconciled user_id (reconciled user_id db) ≡ reconciled user_id db)
reconcile_resolves user_id db r unique found =
    let effective = effective_role user_id db in
    let o = role_id_of effective db.global_roles in
    (
      names_replaced user_id db.global_roles db.user_global_roles effective r unique found,
      λ v. ground (arith, names_others user_id v db.global_roles db.user_global_roles o),
      ap (λ rows. record db { user_global_roles = rows })
          (replace_twice user_id o db.user_global_roles),
    )
