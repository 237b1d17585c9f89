-- ===== src/Routers/Launcher/Members.antt =====
-- Which applications the launcher shows.
use orbita_backend.Prelude.{
  ◌≡◌, refl, Bool, ◌&&◌, ◌||◌, ◌==◌, number_comparable, List, [], ◌∷◌, any, select, arith, ◌∙◌, ap,
  inl, inr, Bool-cases, if◌then◌else◌,
}
use orbita_backend.Data.{Db, Uuid, Application, App}
use orbita_backend.Routers.Launcher.{
  authorized_applications, in_catalog, enters_app, put, put_apps, put_all, insert_by_name, by_name,
}

abbrev pub has_id : Uuid → List Application → Bool
has_id k = any (λ a. a.id == k)

any-put :
    (k : Uuid) (a : Application) (xs : List Application)
    → has_id k (put a xs) ≡ (a.id == k || has_id k xs)
any-put k a [] = refl
any-put k a (b ∷ xs) = ground (arith, any-put k a xs)

any-insert_by_name :
    (k : Uuid) (a : Application) (xs : List Application)
    → has_id k (insert_by_name a xs) ≡ (a.id == k || has_id k xs)
any-insert_by_name k a [] = refl
any-insert_by_name k a (b ∷ xs) = ground (arith, any-insert_by_name k a xs)

any-by_name : (k : Uuid) (xs : List Application) → has_id k (by_name xs) ≡ has_id k xs
any-by_name k [] = refl
any-by_name k (a ∷ xs) = ground (arith, any-insert_by_name k a (by_name xs), any-by_name k xs)

module _ (user_id : Uuid) (db : Db) (k : Uuid) where
  any-put_apps :
      (a : Application) (apps : List App) (xs : List Application)
      → has_id k (put_apps user_id db a apps xs)
        ≡ ((a.id == k && any (enters_app user_id db a) apps) || has_id k xs)
  any-put_apps a [] xs = ground arith
  any-put_apps a (app ∷ apps) xs = elim (Bool-cases (enters_app user_id db a app)) [
    | inl enters ↦ rw enters (ground (arith, any-put_apps a apps (put a xs), any-put k a xs))
    | inr other ↦ rw other (any-put_apps a apps xs)
  ]

  -- an active application with an app that the user may enter
  abbrev pub opens_app : Application → Bool
  opens_app a = a.is_active && any (enters_app user_id db a) db.apps

  any-put_all :
      (as' xs : List Application)
      → has_id k (put_all user_id db as' xs)
        ≡ (any (λ a. a.id == k && opens_app a) as' || has_id k xs)
  any-put_all [] xs = refl
  any-put_all (a ∷ as') xs =
      let added = put_apps user_id db a db.apps xs in
      any-put_all as' (if a.is_active then added else xs)
      ∙ ground (arith, any-put_apps a db.apps xs)

  any-select :
      (p : Application → Bool) (xs : List Application)
      → has_id k (select p xs) ≡ any (λ a. a.id == k && p a) xs
  any-select p [] = refl
  any-select p (a ∷ xs) = ground (arith, any-select p xs)

  any-or :
      (p q : Application → Bool) (xs : List Application)
      → (any (λ a. a.id == k && q a) xs || any (λ a. a.id == k && p a) xs)
        ≡ any (λ a. a.id == k && (p a || q a)) xs
  any-or p q [] = refl
  any-or p q (a ∷ xs) = ground (arith, any-or p q xs)

  -- The launcher shows an application exactly where it is an active catalog application that a global
  -- role of the user or a grant opens, or an active application with an active SSO client in which the
  -- user has a role or migration access, as the authorization and the token exchange decide it.
  pub authorized_applications_iff :
      has_id k (authorized_applications user_id db)
      ≡ any (λ a. a.id == k && (in_catalog user_id db a || opens_app a)) db.applications
  unfolding authorized_applications
  authorized_applications_iff =
      let catalogued = select (in_catalog user_id db) db.applications in
      any-by_name k (put_all user_id db db.applications catalogued)
      ∙ any-put_all db.applications catalogued
      ∙ ap (λ b. any (λ a. a.id == k && opens_app a) db.applications || b)
          (any-select (in_catalog user_id db) db.applications)
      ∙ any-or (in_catalog user_id db) opens_app db.applications
