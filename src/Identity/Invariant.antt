-- ===== src/Identity/Invariant.antt =====
-- What a resolution does to the links, for any property that the two kinds of change keep.
use orbita_backend.Prelude.{
  String, ◌≡◌, refl, Bool, false, ◌&&◌, ◌==◌, text_comparable, number_comparable, Option, none,
  some, List, [], ◌∷◌, ◌++◌, first, update, inl, inr, any, not, Option-cases, Bool-cases, arith,
}
use orbita_backend.Data.{Db, Uuid, User, Provider, ExternalIdentity}
use orbita_backend.Settings.{Settings}
use orbita_backend.Exec.{run, session}
use orbita_backend.Users.{find_user}
use orbita_backend.Identity.Links.{Result-cases}
use orbita_backend.Identity.{
  Draw, Account, resolve, new_link, new_user, resolve_new, resolve_linked, is_link, active_provider,
  get_provider, has_email, can_auto_link_email, normalize_email, is_institutional_email,
  refresh_existing_link,
}

unused_pair :
    (id provider_id : Uuid) (rows : List ExternalIdentity)
    → any (λ x. x.user_id == id) rows ≡ false
    → any (λ x. x.user_id == id && x.provider_id == provider_id) rows ≡ false
unused_pair id provider_id [] h = refl
unused_pair id provider_id (x ∷ rows) h = ground (arith, unused_pair id provider_id rows)

-- A property of the links that a change of other columns keeps, and a new link with its provider found,
-- its account not linked and its user without a link of the provider.
abbrev pub KeepsKeys : (ExternalIdentity → ExternalIdentity) → Type 0
KeepsKeys f =
    (x : ExternalIdentity)
    → ((f x).provider_id ≡ x.provider_id)
      × ((f x).provider_user_id ≡ x.provider_user_id)
      × ((f x).provider_tenant_id ≡ x.provider_tenant_id)
      × ((f x).user_id ≡ x.user_id)

module _ (validate_email : String → Option String) (settings : Settings) (draw : Draw)
    (account : Account) (activate : Bool) (db : Db) (P : List ExternalIdentity → Type 0)
    (updates : (id : Uuid) (f : ExternalIdentity → ExternalIdentity)
      → KeepsKeys f
      → (rows : List ExternalIdentity) → P rows
      → P (update (λ y. y.id == id) f rows))
    (adds : (provider : Provider) (email : String) (user : User)
      → active_provider (get_provider account.provider_code db) ≡ some provider
      → first (is_link provider.id account.user_id account.tenant_id) db.external_identities ≡ none
      → any (λ x. x.user_id == user.id && x.provider_id == provider.id) db.external_identities
        ≡ false
      → P db.external_identities
      → P (
          db.external_identities
          ++ new_link validate_email settings draw account provider (some email) user ∷ [])) where
  refresh-preserves :
      (user : User) (link : ExternalIdentity) (email : Option String)
      → P db.external_identities
      → P
          (refresh_existing_link validate_email settings account.provider_code user link email
            (session db)).1.db.external_identities
  unfolding refresh_existing_link
  refresh-preserves user link none h = h
  refresh-preserves user link (some incoming) h =
      elim (Bool-cases (is_institutional_email (some incoming) settings)) [
        | inr outside ↦ rw outside h
        | inl inside ↦
            rw inside
              (elim (Bool-cases
                (any (λ u. has_email incoming u && not (u.id == user.id)) db.users)) [
                  | inl taken ↦ rw taken h
                  | inr free ↦ rw free (
                      updates link.id (λ x. record x { provider_email = some incoming })
                        (λ x. (refl, refl, refl, refl)) db.external_identities h)
                ])
      ]

  refresh-saved :
      (user : User) (link : ExternalIdentity) (email : Option String)
      → (refresh_existing_link validate_email settings account.provider_code user link email
          (session db)).1.saved
        ≡ db
  unfolding refresh_existing_link
  refresh-saved user link none = refl
  refresh-saved user link (some incoming) = ground arith

  linked-preserves :
      (email : Option String) (link : ExternalIdentity)
      → P db.external_identities
      → P
          (resolve_linked validate_email settings draw account email link
            (session db)).1.saved.external_identities
  linked-preserves email link h = elim (Option-cases (find_user link.user_id db)) [
    | inl e ↦ rw e h
    | inr (user, found) ↦
        let r =
          refresh_existing_link validate_email settings account.provider_code user link email
            (session db) in
        elim (Result-cases r.0) [
          | inl (e, failed) ↦ rw (found, failed, refresh-saved user link email) h
          | inr (x, refreshed) ↦
              rw (found, refreshed)
                (updates link.id (λ y. record y { last_seen_at = some draw.now })
                  (λ y. (refl, refl, refl, refl)) r.1.db.external_identities
                  (refresh-preserves user link email h))
        ]
  ]

  new-preserves :
      (provider : Provider) (email : Option String)
      → active_provider (get_provider account.provider_code db) ≡ some provider
      → first (is_link provider.id account.user_id account.tenant_id) db.external_identities ≡ none
      → any (λ x. x.user_id == draw.user_id) db.external_identities ≡ false
      → P db.external_identities
      → P
          (resolve_new validate_email settings draw account provider activate email
            (session db)).1.saved.external_identities
  new-preserves provider none found unlinked unused h = h
  new-preserves provider (some email) found unlinked unused h =
      elim (Bool-cases (can_auto_link_email account.provider_code (some email) settings)) [
        | inr refused ↦ rw refused h
        | inl allowed ↦ elim (Option-cases (first (has_email email) db.users)) [
          | inl unknown ↦
              let user = record (new_user validate_email settings draw account email) {
                is_active = activate;
              } in
              rw (allowed, unknown)
                (adds provider email user found unlinked
                  (unused_pair draw.user_id provider.id db.external_identities unused) h)
          | inr (user, known) ↦
              elim (Bool-cases (
                any (λ x. x.user_id == user.id && x.provider_id == provider.id)
                  db.external_identities)) [
                    | inl linked ↦ rw (allowed, known, linked) h
                    | inr other ↦
                        rw (allowed, known, other) (adds provider email user found unlinked other h)
                  ]
        ]
      ]

  -- Whatever a resolution answers, the property holds of the links that are committed.
  pub resolve-preserves :
      any (λ x. x.user_id == draw.user_id) db.external_identities ≡ false
      → P db.external_identities
      → P (run (resolve validate_email settings draw account activate) db).1.external_identities
  unfolding resolve
  resolve-preserves unused h =
      elim (Option-cases (active_provider (get_provider account.provider_code db))) [
        | inl e ↦ rw e h
        | inr (provider, found) ↦
            elim (Option-cases (
              first (is_link provider.id account.user_id account.tenant_id)
                db.external_identities)) [
                  | inl unlinked ↦
                      rw (found, unlinked)
                        (new-preserves provider
                          (normalize_email validate_email settings account.email) found unlinked
                          unused h)
                  | inr (link, linked) ↦
                      rw (found, linked)
                        (linked-preserves (normalize_email validate_email settings account.email)
                          link h)
                ]
      ]
