-- ===== src/Listings/Users.antt =====
-- The listing of users: its pages, its order, and what a listing no longer shows.
use orbita_backend.Prelude.{
  ℕ, suc, ◌≤◌, String, Bool, ◌≡◌, refl, ap, sym, ◌∙◌, true, false, not, ◌&&◌, ◌==◌, text_comparable,
  Option, some, List, [], ◌∷◌, select, count, arith, update, number_comparable,
}
use orbita_backend.Prelude.Pages.{
  order_by, pages, length, pages-page, count-order_by, IsOrdered, order_by-IsOrdered,
  text_before_asym,
}
use orbita_backend.Data.{Db, Time, Uuid, User}
use orbita_backend.Exec.{run}
use orbita_backend.Users.{soft_delete_user, soft_deleted, set_active_status}
use orbita_backend.Listings.{list_users, is_listed, email_before}

length-count : (rows : List User) → length rows ≡ count (λ u. true) rows
length-count [] = refl
length-count (u ∷ rows) = ap suc (length-count rows)

length-select : (p : User → Bool) (rows : List User) → length (select p rows) ≤ length rows
length-select p [] = omega arith
length-select p (u ∷ rows) = ground (arith, length-select p rows)

count-select :
    (p q : User → Bool) (rows : List User) → count q (select p rows) ≡ count (λ u. p u && q u) rows
count-select p q [] = refl
count-select p q (u ∷ rows) = ground (arith, count-select p q rows)

module _ (ilike : String → String → Bool) (include_deleted : Bool) (is_active : Option Bool)
    (search : Option String) (db : Db) where
  abbrev listed : User → Bool
  listed = is_listed ilike include_deleted is_active search

  -- all users that the filters let through, in the order of the listing
  abbrev pub whole : List User
  whole = order_by email_before (select listed db.users)

  length-whole : length whole ≤ length db.users
  length-whole =
      let ordered : length whole ≡ length (select listed db.users) =
        length-count whole
        ∙ count-order_by email_before (λ u. true) (select listed db.users)
        ∙ sym (length-count (select listed db.users)) in
      omega (arith, ordered, length-select listed db.users)

  -- Pages of one user at least, as many as there are users, hold in the order of the addresses each
  -- user whom the filters let through as often as the table does, and no other.
  pub list_users-pages :
      (limit n : ℕ)
      → 1 ≤ limit
      → length db.users ≤ n
      → (pages
            (λ offset. list_users ilike include_deleted is_active search limit offset db)
            limit
            n
            0
          ≡ whole)
        × IsOrdered email_before whole
        × ((p : User → Bool)
            → count p whole
              ≡ count (λ u. is_listed ilike include_deleted is_active search u && p u) db.users)
  unfolding list_users
  list_users-pages limit n positive enough =
      let short = length-whole in
      (
        pages-page limit n 0 whole positive (omega (arith, short, enough)),
        order_by-IsOrdered email_before (λ a b. text_before_asym a.email b.email)
            (select listed db.users),
        λ p.
            count-order_by email_before p (select listed db.users) ∙ count-select listed p db.users,
      )

length-update :
    (p : User → Bool) (f : User → User) (rows : List User) → length (update p f rows) ≡ length rows
length-update p f [] = refl
length-update p f (u ∷ rows) = ap suc (length-update p f rows)

-- Rows that a change takes out of a filter.
count-update :
    (listed p q : User → Bool) (f : User → User) (rows : List User)
    → ((u : User) → listed (f u) ≡ false)
    → count (λ u. listed u && p u) (update q f rows)
      ≡ count (λ u. listed u && (not (q u) && p u)) rows
count-update listed p q f [] gone = refl
count-update listed p q f (u ∷ rows) gone =
    ground (arith, gone u, count-update listed p q f rows gone)

module _ (ilike : String → String → Bool) (search : Option String) (limit n : ℕ)
    (positive : 1 ≤ limit) where
  -- all pages of a listing, one behind the other
  abbrev pub all_pages : Bool → Option Bool → Db → List User
  all_pages include_deleted is_active db =
      pages (λ offset. list_users ilike include_deleted is_active search limit offset db) limit n 0

  count-all_pages :
      (include_deleted : Bool) (is_active : Option Bool) (db : Db) (p : User → Bool)
      → length db.users ≤ n
      → count p (all_pages include_deleted is_active db)
        ≡ count (λ u. is_listed ilike include_deleted is_active search u && p u) db.users
  count-all_pages include_deleted is_active db p enough =
      let (read, _, counted) =
        list_users-pages ilike include_deleted is_active search db limit n positive enough in
      rw read (counted p)

  -- A change of one user's row that takes the row out of a listing.
  taken_out :
      (include_deleted : Bool) (is_active : Option Bool) (id : Uuid) (f : User → User)
      (db after : Db) (p : User → Bool)
      → length db.users ≤ n
      → after.users ≡ update (λ u. u.id == id) f db.users
      → ((u : User) → is_listed ilike include_deleted is_active search (f u) ≡ false)
      → count p (all_pages include_deleted is_active after)
        ≡ count (λ u. not (u.id == id) && p u) (all_pages include_deleted is_active db)
  taken_out include_deleted is_active id f db after p enough changed gone =
      let listed = is_listed ilike include_deleted is_active search in
      let same : length after.users ≡ length db.users =
        ap length changed ∙ length-update (λ u. u.id == id) f db.users in
      count-all_pages include_deleted is_active after p (omega (arith, same, enough))
      ∙ ap (count (λ u. listed u && p u)) changed
      ∙ count-update listed p (λ u. u.id == id) f db.users gone
      ∙ sym (count-all_pages include_deleted is_active db (λ u. not (u.id == id) && p u) enough)

  -- Pages of one user at least, as many as there are users: after a user is soft-deleted, the pages of
  -- a listing without the deleted users hold what they held, less that user, whatever the other
  -- filters; and after a user is disabled, so do the pages of a listing of the active users.
  pub list_users-removed :
      (now : Time) (user : User) (db : Db) (include_deleted : Bool) (is_active : Option Bool)
      (p : User → Bool)
      → length db.users ≤ n
      → (count p (all_pages false is_active (run (soft_delete_user now user) db).1)
          ≡ count (λ u. not (u.id == user.id) && p u) (all_pages false is_active db))
        × (count p
              (all_pages include_deleted (some true) (run (set_active_status now user false) db).1)
            ≡ count (λ u. not (u.id == user.id) && p u) (all_pages include_deleted (some true) db))
  unfolding soft_delete_user set_active_status
  list_users-removed now user db include_deleted is_active p enough = (
    taken_out false is_active user.id (soft_deleted now) db _ p enough refl (λ u. refl),
    taken_out include_deleted (some true) user.id (λ u. record u { is_active = false }) db _ p
        enough refl (λ u. ground arith),
  )
