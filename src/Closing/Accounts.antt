-- ===== src/Closing/Accounts.antt =====
-- Disabling and deleting accounts.
use orbita_backend.Prelude.{
  ◌≡◌, refl, false, Option, none, some, ◌==◌, number_comparable, first, arith, update,
  if◌then◌else◌, same_number_iff,
}
use orbita_backend.Prelude.Queries.{map_option, first-update}
use orbita_backend.Data.{Db, Time, Uuid, User}
use orbita_backend.Exec.{run}
use orbita_backend.Users.{find_user, set_active_status, soft_delete_user, soft_deleted}
use orbita_backend.Sso.Client.{available_user}
use orbita_backend.Sso.Service.Revocation.{Revokes, Revokes-of_eq}

-- an answer about another user than `id`
abbrev pub if_other : Uuid → Uuid → Option User → Option User
if_other id v o = if v == id then none else o

-- The user can no longer act, no other user changed, and exactly the app sessions of the user are
-- closed.
pub record Disabled (id : Uuid) (db db' : Db) : Type 0 where
  pub unavailable : available_user (find_user id db') ≡ none
  pub others : (v : Uuid) → if_other id v (find_user v db') ≡ if_other id v (find_user v db)
  pub sessions : Revokes (λ s. s.user_id == id) db.app_sessions db'.app_sessions

abbrev Refuses : (User → User) → Type 0
Refuses f = (u : User) → available_user (some (f u)) ≡ none

available-map :
    (f : User → User) → Refuses f → (o : Option User) → available_user (map_option f o) ≡ none
available-map f h none = refl
available-map f h (some u) = h u

module _ (f : User → User) (keeps : (u : User) → (f u).id ≡ u.id) (refuses : Refuses f) where
  refused :
      (id : Uuid) (db : Db)
      → available_user (first (λ u. u.id == id) (update (λ u. u.id == id) f db.users)) ≡ none
  refused id db =
      rw (first-update (λ (u : User). u.id) f keeps id id db.users, (same_number_iff id id).1 refl)
        (available-map f refuses (find_user id db))

  unchanged :
      (id v : Uuid) (db : Db)
      → if_other id v (first (λ u. u.id == v) (update (λ u. u.id == id) f db.users))
        ≡ if_other id v (find_user v db)
  unchanged id v db = ground (arith, first-update (λ (u : User). u.id) f keeps v id db.users)

-- After a user is disabled, and after a user is soft-deleted, the user can no longer act, the other
-- users are as before, and exactly the app sessions of the user are closed.
pub disable_user :
    (now : Time) (user : User) (db : Db)
    → Disabled user.id db (run (set_active_status now user false) db).1
      × Disabled user.id db (run (soft_delete_user now user) db).1
unfolding set_active_status soft_delete_user
disable_user now user db = (
  record {
    unavailable = refused (λ u. record u { is_active = false }) (λ u. refl) (λ u. refl) user.id db;
    others =
        λ v. unchanged (λ u. record u { is_active = false }) (λ u. refl) (λ u. refl) user.id v db;
    sessions = Revokes-of_eq now (λ s. s.user_id == user.id) db.app_sessions _ refl;
  },
  record {
    unavailable = refused (soft_deleted now) (λ u. refl) (λ u. refl) user.id db;
    others = λ v. unchanged (soft_deleted now) (λ u. refl) (λ u. refl) user.id v db;
    sessions = Revokes-of_eq now (λ s. s.user_id == user.id) db.app_sessions _ refl;
  },
)
