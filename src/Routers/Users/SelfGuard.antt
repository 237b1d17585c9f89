-- ===== src/Routers/Users/SelfGuard.antt =====
-- An administrator's own account under the administrator's requests.
use orbita_backend.Prelude.{
  ◌≡◌, refl, sym, Bool, true, false, not, ◌&&◌, ◌==◌, number_comparable, same_number_iff, Option,
  none, some, List, [], ◌∷◌, first, select, update, contains, map, is_empty, arith, inl, inr,
  Bool-cases, Option-cases, subst,
}
use orbita_backend.Data.{Db, Uuid, Time, User}
use orbita_backend.Exec.{run}
use orbita_backend.Access.Grants.{existing}
use orbita_backend.Users.{
  find_user, set_active_status, soft_delete_user, bulk_set_active_status, bulk_soft_delete,
  set_user, set_users, soft_deleted,
}
use orbita_backend.Sso.Client.{user_is_unavailable}
use orbita_backend.Routers.Users.{
  update_user_status, delete_user, bulk_update_user_status, bulk_delete_users,
}

-- the requests that enable, disable or delete users
pub data Change : Type 0 where
  status : Uuid → Bool → Change
  removal : Uuid → Change
  bulk_status : List Uuid → Bool → Change
  bulk_removal : List Uuid → Change

-- What the committed rows are after the request of an administrator at a time.
abbrev pub serve : Time → User → Change → Db → Db
serve now admin (status id b) db = (run (update_user_status now admin id b) db).1
serve now admin (removal id) db = (run (delete_user now admin id) db).1
serve now admin (bulk_status ids b) db = (run (bulk_update_user_status now admin ids b) db).1
serve now admin (bulk_removal ids) db = (run (bulk_delete_users now admin ids) db).1

abbrev pub serve_all : User → List (Time × Change) → Db → Db
serve_all admin [] db = db
serve_all admin ((now, change) ∷ changes) db = serve_all admin changes (serve now admin change db)

abbrev usable : Option User → Bool
usable none = false
usable (some u) = not (user_is_unavailable u)

-- the account exists, is active and is not deleted
abbrev pub is_usable : Uuid → Db → Bool
is_usable id db = usable (find_user id db)

module _ (k : Uuid) (p : User → Bool) (f : User → User) (keeps : (u : User) → (f u).id ≡ u.id)
    (spares : (u : User)
      → u.id ≡ k
      → p u ≡ true
      → usable (some u) ≡ true
      → usable (some (f u)) ≡ true) where
  usable-update :
      (rows : List User)
      → usable (first (λ u. u.id == k) rows) ≡ true
      → usable (first (λ u. u.id == k) (update p f rows)) ≡ true
  usable-update [] h = h
  usable-update (u ∷ rows) h = elim (Bool-cases (u.id == k)) [
    | inl own ↦
        let same = (same_number_iff u.id k).0 own in
        elim (Bool-cases (p u)) [
          | inl hit ↦
              let alive : usable (some u) ≡ true = ground (arith, own, h) in
              let spared = spares u same hit alive in ground (arith, keeps u, own, hit, spared)
          | inr miss ↦ ground (arith, own, miss, h)
        ]
    | inr other ↦ ground (arith, keeps u, other, h, usable-update rows)
  ]

first_id :
    (id : Uuid) (rows : List User) (u : User) → first (λ x. x.id == id) rows ≡ some u → u.id ≡ id
first_id id [] u h = absurd (ground (arith, h))
first_id id (x ∷ rows) u h = ground (arith, same_number_iff x.id id, first_id id rows u)

contains-existing :
    (id : Uuid) (ids : List Uuid) (rows : List User)
    → contains id (map (λ u. u.id) (select (λ u. contains u.id ids) rows)) ≡ true
    → contains id ids ≡ true
contains-existing id ids [] h = absurd (ground (arith, h))
contains-existing id ids (u ∷ rows) h =
    ground (arith, same_number_iff id u.id, contains-existing id ids rows)

module _ (now : Time) (admin : User) (db : Db) (alive : is_usable admin.id db ≡ true) where
  status_kept :
      (id : Uuid) (b : Bool) (user : User)
      → (id == admin.id && not b) ≡ false
      → find_user id db ≡ some user
      → is_usable admin.id (set_user user.id (λ u. record u { is_active = b }) db) ≡ true
  status_kept id b user other found =
      let named = first_id id db.users user found in
      usable-update admin.id (λ u. u.id == user.id) (λ u. record u { is_active = b }) (λ u. refl)
        (λ u same hit ok. ground (
          arith,
          same,
          hit,
          ok,
          named,
          other,
          same_number_iff u.id user.id,
          same_number_iff id admin.id,
        ))
        db.users alive

  -- The sessions that a disabled user loses are no part of the account.
  status_runs :
      (id : Uuid) (b : Bool) (user : User)
      → (id == admin.id && not b) ≡ false
      → find_user id db ≡ some user
      → (run (update_user_status now admin id b) db).1.users
        ≡ (set_user user.id (λ u. record u { is_active = b }) db).users
  unfolding update_user_status set_active_status
  status_runs id true user other found = rw (other, found) refl
  status_runs id false user other found = rw (other, found) refl

  status_spares :
      (id : Uuid) (b : Bool)
      → is_usable admin.id (run (update_user_status now admin id b) db).1 ≡ true
  unfolding update_user_status
  status_spares id b = elim (Bool-cases (id == admin.id && not b)) [
    | inl own ↦ rw own alive
    | inr other ↦ elim (Option-cases (find_user id db)) [
      | inl absent ↦ rw (other, absent) alive
      | inr (user, found) ↦
          subst (λ rows. usable (first (λ u. u.id == admin.id) rows) ≡ true)
            (sym (status_runs id b user other found)) (status_kept id b user other found)
    ]
  ]

  removal_spares : (id : Uuid) → is_usable admin.id (run (delete_user now admin id) db).1 ≡ true
  unfolding delete_user soft_delete_user
  removal_spares id = elim (Bool-cases (id == admin.id)) [
    | inl own ↦ rw own alive
    | inr other ↦ elim (Option-cases (find_user id db)) [
      | inl absent ↦ rw (other, absent) alive
      | inr (user, found) ↦
          let named = first_id id db.users user found in
          rw (other, found)
            (usable-update admin.id (λ u. u.id == user.id) (soft_deleted now) (λ u. refl)
              (λ u same hit ok. absurd (
                ground (
                  arith,
                  same,
                  hit,
                  named,
                  other,
                  same_number_iff u.id user.id,
                  same_number_iff id admin.id,
                )))
              db.users alive)
    ]
  ]

  bulk_status_runs :
      (ids : List Uuid) (b : Bool)
      → (not b && contains admin.id ids) ≡ false
      → is_empty (existing ids db) ≡ false
      → (run (bulk_update_user_status now admin ids b) db).1.users
        ≡ (set_users (existing ids db) (λ u. record u { is_active = b }) db).users
  unfolding bulk_update_user_status bulk_set_active_status
  bulk_status_runs ids true other some_found = rw some_found refl
  bulk_status_runs ids false other some_found = rw (other, some_found) refl

  bulk_status_kept :
      (ids : List Uuid) (b : Bool)
      → (not b && contains admin.id ids) ≡ false
      → is_usable admin.id (set_users (existing ids db) (λ u. record u { is_active = b }) db) ≡ true
  bulk_status_kept ids b other =
      usable-update admin.id (λ u. contains u.id (existing ids db))
        (λ u. record u { is_active = b }) (λ u. refl)
        (λ u same hit ok.
          let listed =
            subst (λ x. contains x ids ≡ true) same (contains-existing u.id ids db.users hit) in
          ground (arith, ok, other, listed))
        db.users alive

  bulk_status_spares :
      (ids : List Uuid) (b : Bool)
      → is_usable admin.id (run (bulk_update_user_status now admin ids b) db).1 ≡ true
  unfolding bulk_update_user_status bulk_set_active_status
  bulk_status_spares ids b = elim (Bool-cases (not b && contains admin.id ids)) [
    | inl own ↦ rw own alive
    | inr other ↦ elim (Bool-cases (is_empty (existing ids db))) [
      | inl none_found ↦ rw (other, none_found) alive
      | inr some_found ↦
          subst (λ rows. usable (first (λ u. u.id == admin.id) rows) ≡ true)
            (sym (bulk_status_runs ids b other some_found)) (bulk_status_kept ids b other)
    ]
  ]

  bulk_removal_spares :
      (ids : List Uuid) → is_usable admin.id (run (bulk_delete_users now admin ids) db).1 ≡ true
  unfolding bulk_delete_users bulk_soft_delete
  bulk_removal_spares ids = elim (Bool-cases (contains admin.id ids)) [
    | inl own ↦ rw own alive
    | inr other ↦ elim (Bool-cases (is_empty (existing ids db))) [
      | inl none_found ↦ rw (other, none_found) alive
      | inr some_found ↦
          rw (other, some_found)
            (usable-update admin.id (λ u. contains u.id (existing ids db)) (soft_deleted now)
              (λ u. refl)
              (λ u same hit ok. absurd (
                ground (
                  arith,
                  same,
                  other,
                  subst (λ x. contains x ids ≡ true) same (contains-existing u.id ids db.users hit),
                )))
              db.users alive)
    ]
  ]

serve_spares :
    (now : Time) (admin : User) (change : Change) (db : Db)
    → is_usable admin.id db ≡ true
    → is_usable admin.id (serve now admin change db) ≡ true
serve_spares now admin (status id b) db alive = status_spares now admin db alive id b
serve_spares now admin (removal id) db alive = removal_spares now admin db alive id
serve_spares now admin (bulk_status ids b) db alive = bulk_status_spares now admin db alive ids b
serve_spares now admin (bulk_removal ids) db alive = bulk_removal_spares now admin db alive ids

-- Whatever users an administrator enables, disables and deletes, one at a time or in bulk, in any order:
-- the administrator's own account stays, active and not deleted.
pub serve_all-is_usable :
    (admin : User) (changes : List (Time × Change)) (db : Db)
    → is_usable admin.id db ≡ true
    → is_usable admin.id (serve_all admin changes db) ≡ true
serve_all-is_usable admin [] db alive = alive
serve_all-is_usable admin ((now, change) ∷ changes) db alive =
    serve_all-is_usable admin changes (serve now admin change db)
      (serve_spares now admin change db alive)
