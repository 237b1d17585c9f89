-- ===== src/Access/Startup/Suppressed.antt =====
-- bootstrap_platform_admins adds the administrator role beside the roles that the user has, and does
-- not reconcile: what resolve_app_access_policy makes of that for a guest.
use text.Mathlib.TextEquality.{eq_iff}
use orbita_backend.Prelude.Queries.{first-append}
use orbita_backend.Prelude.Text.{lower, split_commas}
use orbita_backend.Settings.{Settings}
use orbita_backend.Prelude.{
  Bool, false, some, first, select, insert_new, subst, sym, refl, ◌∙◌, same_number_iff, String, ◌≡◌,
  true, Bool-cases, Option-cases, inl, inr, ◌==◌, ◌&&◌, number_comparable, contains, any, List, [],
  ◌∷◌, ◌++◌, arith, is_empty, text_comparable,
}
use orbita_backend.Data.{Db, Uuid, User, App, GlobalRole, UserGlobalRole}
use orbita_backend.Exec.{run}
use orbita_backend.Access.Sources.{
  add_global_role, role_id_of, platform_admin_role, find_role, default_role,
}
use orbita_backend.Access.Startup.{
  lifespan, seed, make_admins, bootstrap_platform_admins, normalized_emails, admin_users,
}
use orbita_backend.Apps.Policy.{
  access_of, role_names, global_names, no_access, resolve_app_access_policy,
}

contains-append_names :
    (n : String) (v : Uuid) (roles : List GlobalRole) (rows more : List UserGlobalRole)
    → contains n (global_names v roles rows) ≡ true
    → contains n (global_names v roles (rows ++ more)) ≡ true
contains-append_names n v roles [] more h = ground arith
contains-append_names n v roles (r ∷ rows) more h =
    ground (arith, contains-append_names n v roles rows more)

contains-add_global_role :
    (n : String) (v u k : Uuid) (roles : List GlobalRole) (rows : List UserGlobalRole)
    → contains n (global_names v roles rows) ≡ true
    → contains n (global_names v roles (add_global_role k u rows)) ≡ true
contains-add_global_role n v u k roles rows h =
    elim (Bool-cases (any (λ r. r.user_id == u && r.global_role_id == k) rows)) [
      | inl held ↦ rw held h
      | inr free ↦ rw free (contains-append_names n v roles rows _ h)
    ]

contains-make_admins :
    (n : String) (v k : Uuid) (us : List User) (db : Db)
    → contains n (role_names v db) ≡ true
    → contains n (role_names v (make_admins k us db)) ≡ true
contains-make_admins n v k [] db h = h
contains-make_admins n v k (u ∷ us) db h =
    contains-make_admins n v k us _
      (contains-add_global_role n v u.id k db.global_roles db.user_global_roles h)

-- bootstrap_platform_admins takes no global role from a user.
contains-bootstrap :
    (n : String) (v : Uuid) (emails : List String) (db : Db)
    → contains n (role_names v db) ≡ true
    → contains n (role_names v (run (bootstrap_platform_admins emails) db).1) ≡ true
unfolding bootstrap_platform_admins
contains-bootstrap n v emails db h = elim (Bool-cases (is_empty (normalized_emails emails))) [
  | inl none_given ↦ rw none_given h
  | inr given ↦ rw given (elim (Bool-cases (is_empty (admin_users (normalized_emails emails) db))) [
    | inl unknown ↦ rw unknown h
    | inr known ↦ rw known (elim (Option-cases (role_id_of platform_admin_role db.global_roles)) [
      | inl missing ↦ rw missing h
      | inr (k, found) ↦
          rw found (contains-make_admins n v k (admin_users (normalized_emails emails) db) db h)
    ])
  ])
]

guest-access :
    (v : Uuid) (app : App) (db : Db)
    → contains "guest" (role_names v db) ≡ true
    → access_of v app db ≡ no_access
unfolding access_of resolve_app_access_policy
guest-access v app db h = ground arith

-- The rows that `seed` leaves as they are found.
first-insert_new :
    {A : Type 0} (p same : A → Bool) (y x : A) (rows : List A)
    → first p rows ≡ some x
    → first p (insert_new same y rows) ≡ some x
first-insert_new p same y x rows h = elim (Bool-cases (any same rows)) [
  | inl there ↦ rw there h
  | inr missing ↦ rw missing (first-append p rows (y ∷ []) ∙ rw h refl)
]

module _ (a t c g : Uuid) (db : Db) where
  abbrev seeded : Db
  seeded = (run (seed a t c g) db).1

  first-seeded :
      (p : GlobalRole → Bool) (x : GlobalRole)
      → first p db.global_roles ≡ some x
      → first p seeded.global_roles ≡ some x
  unfolding seed
  first-seeded p x h = first-insert_new p _ _ x _ (
      first-insert_new p _ _ x _
        (first-insert_new p _ _ x _ (first-insert_new p _ _ x db.global_roles h)))

  users-seeded : seeded.users ≡ db.users
  unfolding seed
  users-seeded = refl

  held-seeded : seeded.user_global_roles ≡ db.user_global_roles
  unfolding seed
  held-seeded = refl

-- More roles take no name from a user.
names_grow :
    (n : String) (v : Uuid) (roles more : List GlobalRole) (rows : List UserGlobalRole)
    → ((k : Uuid) (x : GlobalRole) → find_role k roles ≡ some x → find_role k more ≡ some x)
    → contains n (global_names v roles rows) ≡ true
    → contains n (global_names v more rows) ≡ true
names_grow n v roles more [] grows h = h
names_grow n v roles more (r ∷ rows) grows h =
    elim (Option-cases (find_role r.global_role_id roles)) [
      | inr (role, found) ↦
          let still = grows r.global_role_id role found in
          ground (arith, found, still, names_grow n v roles more rows grows)
      | inl missing ↦ elim (Option-cases (find_role r.global_role_id more)) [
        | inl absent ↦ ground (arith, missing, absent, names_grow n v roles more rows grows)
        | inr (role, new) ↦ ground (arith, missing, new, names_grow n v roles more rows grows)
      ]
    ]

module _ (v k : Uuid) (admin : GlobalRole) (roles : List GlobalRole)
    (by_id : find_role k roles ≡ some admin) where
  held_name :
      (rows : List UserGlobalRole)
      → any (λ r. r.user_id == v && r.global_role_id == k) rows ≡ true
      → contains admin.name (global_names v roles rows) ≡ true
  held_name [] h = absurd (ground arith)
  held_name (r ∷ rows) h = elim (Bool-cases (r.user_id == v && r.global_role_id == k)) [
    | inr other ↦ ground (arith, held_name rows)
    | inl own ↦
        let same = (same_number_iff r.global_role_id k).0 (ground arith) in
        let found : find_role r.global_role_id roles ≡ some admin =
          subst (λ i. find_role i roles ≡ some admin) (sym same) by_id in
        ground (arith, found, (eq_iff admin.name admin.name).1 refl)
  ]

  held_name_snoc :
      (rows : List UserGlobalRole)
      → contains admin.name
          (global_names v roles (rows ++ record { user_id = v; global_role_id = k } ∷ []))
        ≡ true
  held_name_snoc rows =
      held_name (rows ++ record { user_id = v; global_role_id = k } ∷ []) (any_snoc_row rows)
    where
      any_snoc_row :
          (rows : List UserGlobalRole)
          → any
              (λ r. r.user_id == v && r.global_role_id == k)
              (rows ++ record { user_id = v; global_role_id = k } ∷ [])
            ≡ true
      any_snoc_row [] = rw ((same_number_iff v v).1 refl, (same_number_iff k k).1 refl) refl
      any_snoc_row (r ∷ rows) = ground (arith, any_snoc_row rows)

  added_name :
      (rows : List UserGlobalRole)
      → contains admin.name (global_names v roles (add_global_role k v rows)) ≡ true
  added_name rows = elim (Bool-cases (any (λ r. r.user_id == v && r.global_role_id == k) rows)) [
    | inl held ↦ rw held (held_name rows held)
    | inr free ↦ rw free (held_name_snoc rows)
  ]

-- Each of the users that were found becomes an administrator.
made_admin :
    (v k : Uuid) (admin : GlobalRole) (us : List User) (db : Db)
    → find_role k db.global_roles ≡ some admin
    → any (λ u. u.id == v) us ≡ true
    → contains admin.name (role_names v (make_admins k us db)) ≡ true
made_admin v k admin [] db by_id h = absurd (ground arith)
made_admin v k admin (u ∷ us) db by_id h = elim (Bool-cases (u.id == v)) [
  | inr other ↦ made_admin v k admin us _ by_id (ground arith)
  | inl own ↦
      let same = (same_number_iff u.id v).0 own in
      contains-make_admins admin.name v k us _ (
        subst
          (λ i.
            contains admin.name
              (global_names v db.global_roles (add_global_role k i db.user_global_roles))
            ≡ true)
          (sym same) (added_name v k admin db.global_roles by_id db.user_global_roles))
]

any-select :
    (p q : User → Bool) (us : List User)
    → any (λ u. p u && q u) us ≡ true
    → any p (select q us) ≡ true
any-select p q [] h = h
any-select p q (u ∷ us) h = ground (arith, any-select p q us)

any-is_empty : (p : User → Bool) (us : List User) → any p us ≡ true → is_empty us ≡ false
any-is_empty p [] h = absurd (ground arith)
any-is_empty p (u ∷ us) h = refl

listed-is_empty :
    (v : Uuid) (names : List String) (us : List User)
    → any (λ u. u.id == v && contains (lower u.email) names) us ≡ true
    → is_empty names ≡ false
listed-is_empty v (n ∷ names) us h = refl
listed-is_empty v [] [] h = absurd (ground arith)
listed-is_empty v [] (u ∷ us) h = listed-is_empty v [] us (ground arith)

-- A user whose address is configured becomes an administrator.
bootstrap-admin :
    (v : Uuid) (emails : List String) (admin : GlobalRole) (db : Db)
    → first (λ r. r.name == platform_admin_role) db.global_roles ≡ some admin
    → find_role admin.id db.global_roles ≡ some admin
    → any (λ u. u.id == v && contains (lower u.email) (normalized_emails emails)) db.users ≡ true
    → contains admin.name (role_names v (run (bootstrap_platform_admins emails) db).1) ≡ true
unfolding bootstrap_platform_admins
bootstrap-admin v emails admin db by_name by_id listed =
    let found =
      any-select (λ u. u.id == v) (λ u. contains (lower u.email) (normalized_emails emails))
        db.users listed in
    let known = any-is_empty (λ u. u.id == v) (admin_users (normalized_emails emails) db) found in
    let given = listed-is_empty v (normalized_emails emails) db.users listed in
    rw (given, known, by_name)
      (made_admin v admin.id admin (admin_users (normalized_emails emails) db) db by_id found)

lifespan_lem :
    (settings : Settings) (a t c g : Uuid) (db : Db)
    → run (lifespan settings a t c g) db
      ≡ run
          (bootstrap_platform_admins (split_commas settings.platform_admin_emails))
          (seeded a t c g db)
unfolding lifespan seed
lifespan_lem settings a t c g db = refl

-- Where the administrator role is in the table and its id is no other role's: after the start of the
-- program, a guest whose address is configured as an administrator's holds the administrator role and
-- has no access to any app.
pub lifespan-guest :
    (settings : Settings) (a t c g : Uuid) (v : Uuid) (app : App) (db : Db) (admin : GlobalRole)
    → first (λ r. r.name == platform_admin_role) db.global_roles ≡ some admin
    → find_role admin.id db.global_roles ≡ some admin
    → any
        (λ u.
          u.id == v
          && contains
              (lower u.email)
              (normalized_emails (split_commas settings.platform_admin_emails)))
        db.users
      ≡ true
    → contains default_role (role_names v db) ≡ true
    → (contains admin.name (role_names v (run (lifespan settings a t c g) db).1) ≡ true)
      × (access_of v app (run (lifespan settings a t c g) db).1 ≡ no_access)
lifespan-guest settings a t c g v app db admin by_name by_id listed guest =
    let emails = split_commas settings.platform_admin_emails in
    let start = seeded a t c g db in
    let grown =
      names_grow default_role v db.global_roles start.global_roles db.user_global_roles
        (λ k. first-seeded a t c g db (λ r. r.id == k)) guest in
    rw (lifespan_lem settings a t c g db) (
      bootstrap-admin v emails admin start
          (first-seeded a t c g db (λ r. r.name == platform_admin_role) admin by_name)
          (first-seeded a t c g db (λ r. r.id == admin.id) admin by_id)
          (rw (users-seeded a t c g db) listed),
      guest-access v app _
          (contains-bootstrap default_role v emails start (rw (held-seeded a t c g db) grown)),
    )
