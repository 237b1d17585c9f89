-- ===== src/Apps/Catalog/Declared.antt =====
-- The roles of an app after it has declared its catalog.
use orbita_backend.Prelude.{
  String, ◌≡◌, refl, sym, subst, Bool, true, false, not, ◌&&◌, ◌||◌, ◌==◌, number_comparable,
  text_comparable, any, contains, update, is_empty, List, [], ◌∷◌, ◌++◌, inl, inr, Bool-cases,
  arith, same_number_iff,
}
use text.Mathlib.TextEquality.{eq_iff}
use orbita_backend.Data.{Db, Uuid, Time, App, Role}
use orbita_backend.Exec.{run}
use orbita_backend.Apps.Roles.{named}
use orbita_backend.Apps.Catalog.{
  RoleCatalogEntry, keys, upsert, upsert_all, retire, retires, sync_catalog, refreshed, new_role,
  retired_names,
}

any-retire :
    (app_id : Uuid) (declared : List String) (roles : List Role)
    → any (retires app_id declared) (retire app_id declared roles) ≡ false
any-retire app_id declared [] = refl
any-retire app_id declared (r ∷ roles) = ground (arith, any-retire app_id declared roles)

-- the role of an entry is there, active and managed by the app
abbrev pub is_declared : Uuid → String → Role → Bool
is_declared app_id key r = named app_id key r && (r.is_active && r.managed_by_app)

retire-is_declared :
    (app_id : Uuid) (key : String) (declared : List String) (roles : List Role)
    → contains key declared ≡ true
    → any (is_declared app_id key) (retire app_id declared roles)
      ≡ any (is_declared app_id key) roles
retire-is_declared app_id key declared [] h = refl
retire-is_declared app_id key declared (r ∷ roles) h = elim (Bool-cases (r.name == key)) [
  | inl same ↦
      let listed : contains r.name declared ≡ true =
        subst (λ k. contains k declared ≡ true) (sym ((eq_iff r.name key).0 same)) h in
      ground (arith, retire-is_declared app_id key declared roles h)
  | inr differ ↦ ground (arith, retire-is_declared app_id key declared roles h)
]

any-append_true : (p : Role → Bool) (xs ys : List Role) → any p (xs ++ ys) ≡ (any p xs || any p ys)
any-append_true p [] ys = refl
any-append_true p (x ∷ xs) ys = ground (arith, any-append_true p xs ys)

module _ (fresh : String → Uuid) (app_id : Uuid) where
  update-is_declared :
      (e : RoleCatalogEntry) (roles : List Role)
      → any (named app_id e.key) roles ≡ true
      → any (is_declared app_id e.key) (update (named app_id e.key) (refreshed e) roles) ≡ true
  update-is_declared e [] h = absurd (ground arith)
  update-is_declared e (r ∷ roles) h = ground (arith, update-is_declared e roles)

  update_keeps :
      (e : RoleCatalogEntry) (key : String) (roles : List Role)
      → any (is_declared app_id key) roles ≡ true
      → any (is_declared app_id key) (update (named app_id e.key) (refreshed e) roles) ≡ true
  update_keeps e key [] h = h
  update_keeps e key (r ∷ roles) h = ground (arith, update_keeps e key roles)

  upsert-is_declared :
      (e : RoleCatalogEntry) (roles : List Role)
      → any (is_declared app_id e.key) (upsert fresh app_id e roles) ≡ true
  upsert-is_declared e roles = ground (
    arith,
    update-is_declared e roles,
    (same_number_iff app_id app_id).1 refl,
    (eq_iff e.key e.key).1 refl,
    any-append_true (is_declared app_id e.key) roles (new_role fresh app_id e ∷ []),
  )

  upsert_keeps :
      (e : RoleCatalogEntry) (key : String) (roles : List Role)
      → any (is_declared app_id key) roles ≡ true
      → any (is_declared app_id key) (upsert fresh app_id e roles) ≡ true
  upsert_keeps e key roles h = ground (
    arith,
    update_keeps e key roles h,
    any-append_true (is_declared app_id key) roles (new_role fresh app_id e ∷ []),
  )

  upsert_all_keeps :
      (es : List RoleCatalogEntry) (key : String) (roles : List Role)
      → any (is_declared app_id key) roles ≡ true
      → any (is_declared app_id key) (upsert_all fresh app_id es roles) ≡ true
  unfolding upsert_all
  upsert_all_keeps [] key roles h = h
  upsert_all_keeps (e ∷ es) key roles h =
      upsert_all_keeps es key (upsert fresh app_id e roles) (upsert_keeps e key roles h)

  upsert_all-is_declared :
      (es : List RoleCatalogEntry) (key : String) (roles : List Role)
      → contains key (keys es) ≡ true
      → any (is_declared app_id key) (upsert_all fresh app_id es roles) ≡ true
  unfolding upsert_all
  upsert_all-is_declared [] key roles h = absurd (ground arith)
  upsert_all-is_declared (e ∷ es) key roles h = elim (Bool-cases (key == e.key)) [
    | inl same ↦ upsert_all_keeps es key (upsert fresh app_id e roles) (
        subst (λ k. any (is_declared app_id k) (upsert fresh app_id e roles) ≡ true)
          (sym ((eq_iff key e.key).0 same)) (upsert-is_declared e roles))
    | inr differ ↦ upsert_all-is_declared es key (upsert fresh app_id e roles) (ground arith)
  ]

declared_or_missing :
    (fresh : String → Uuid) (app_id : Uuid) (entries : List RoleCatalogEntry) (key : String)
    (rows : List Role)
    → (not (contains key (keys entries))
        || any
            (is_declared app_id key)
            (retire app_id (keys entries) (upsert_all fresh app_id entries rows)))
      ≡ true
declared_or_missing fresh app_id entries key rows =
    elim (Bool-cases (contains key (keys entries))) [
      | inr missing ↦ rw missing refl
      | inl h ↦
          rw
            (
              h,
              retire-is_declared app_id key (keys entries) (upsert_all fresh app_id entries rows) h,
            )
            (upsert_all-is_declared fresh app_id entries key rows h)
    ]

-- After an app has declared its catalog, also an empty one, each role of the declaration is there,
-- active and managed by the app, and no managed role that is missing from the declaration is active.
pub sync_catalog-is_declared :
    (fresh : String → Uuid) (now : Time) (app : App) (entries : List RoleCatalogEntry)
    (key : String) (db : Db)
    → ((not (contains key (keys entries))
          || any (is_declared app.id key) (run (sync_catalog fresh now app entries) db).1.roles)
        ≡ true)
      × (any (retires app.id (keys entries)) (run (sync_catalog fresh now app entries) db).1.roles
          ≡ false)
unfolding sync_catalog
sync_catalog-is_declared fresh now app entries key db =
    let roles = upsert_all fresh app.id entries db.roles in
    let retired = any-retire app.id (keys entries) roles in
    let declared = declared_or_missing fresh app.id entries key db.roles in
    elim (Bool-cases (is_empty (retired_names app.id (keys entries) db.roles))) [
      | inl nothing ↦ rw nothing (declared, retired)
      | inr some_retired ↦ rw some_retired (declared, retired)
    ]
