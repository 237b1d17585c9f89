-- ===== src/Identity/Links.antt =====
-- The user that an external account is linked to, before and after a resolution.
use orbita_backend.Prelude.{
  String, ◌≡◌, refl, sym, subst, ap, ◌∙◌, Bool, true, ◌&&◌, ◌==◌, text_comparable,
  number_comparable, same_option_iff, Option, none, some, List, [], ◌∷◌, ◌++◌, first, update, inl,
  inr, any, not, ◌⊎◌, Option-cases, Bool-cases, arith, same_number_iff,
}
use orbita_backend.Prelude.Queries.{or_first, map_option}
use text.Mathlib.TextEquality.{eq_iff}
use orbita_backend.Data.{Db, Uuid, User, Provider, ExternalIdentity}
use orbita_backend.Settings.{Settings}
use orbita_backend.Exec.{run, ok, err, Result, Error, session}
use orbita_backend.Users.{find_user}
use orbita_backend.Identity.{
  Draw, Account, IdentityResolution, resolve, new_link, new_user, canonical, resolve_new,
  resolve_linked, is_link, active_provider, get_provider, has_email, can_auto_link_email,
  normalize_email, is_institutional_email, refresh_existing_link, Event,
}

-- The user that an account is linked to, in a table of links.
abbrev pub linked_user : Uuid → Account → List ExternalIdentity → Option Uuid
linked_user provider_id account rows =
    map_option (λ (x : ExternalIdentity). x.user_id)
      (first (is_link provider_id account.user_id account.tenant_id) rows)

-- A change of a link that keeps its key and its user keeps the answer.
linked_user-update :
    (provider_id id : Uuid) (account : Account) (f : ExternalIdentity → ExternalIdentity)
    → ((x : ExternalIdentity) → (f x).provider_id ≡ x.provider_id)
    → ((x : ExternalIdentity) → (f x).provider_user_id ≡ x.provider_user_id)
    → ((x : ExternalIdentity) → (f x).provider_tenant_id ≡ x.provider_tenant_id)
    → ((x : ExternalIdentity) → (f x).user_id ≡ x.user_id)
    → (rows : List ExternalIdentity)
    → linked_user provider_id account (update (λ x. x.id == id) f rows)
      ≡ linked_user provider_id account rows
linked_user-update provider_id id account f p u t w [] = refl
linked_user-update provider_id id account f p u t w (x ∷ rows) =
    ground (arith, p x, u x, t x, w x, linked_user-update provider_id id account f p u t w rows)

found_id :
    (id : Uuid) (users : List User) (u : User) → first (λ x. x.id == id) users ≡ some u → u.id ≡ id
found_id id [] u h = cc
found_id id (x ∷ users) u h = ground (arith, same_number_iff x.id id, found_id id users u)

-- A new link is found for its account, where there was none.
linked_user-new :
    (provider_id : Uuid) (account : Account) (link : ExternalIdentity)
    (rows : List ExternalIdentity)
    → is_link provider_id account.user_id account.tenant_id link ≡ true
    → first (is_link provider_id account.user_id account.tenant_id) rows ≡ none
    → linked_user provider_id account (rows ++ link ∷ []) ≡ some link.user_id
linked_user-new provider_id account link [] own fresh = rw own refl
linked_user-new provider_id account link (x ∷ rows) own fresh =
    ground (arith, linked_user-new provider_id account link rows own)

-- the user of a refresh that succeeded
abbrev SameUser : User → Result (User × ExternalIdentity × List Event) → Type 0
SameUser user (ok x) = x.0.id ≡ user.id
SameUser user (err e) = Unit

pub Result-cases :
    {A : Type 0} (r : Result A) → ((e : Error) × (r ≡ err e)) ⊎ ((a : A) × (r ≡ ok a))
Result-cases (ok a) = inr (a, refl)
Result-cases (err e) = inl (e, refl)

module _ (validate_email : String → Option String) (settings : Settings) (draw : Draw)
    (account : Account) (activate : Bool) (db : Db) (provider : Provider)
    (res : IdentityResolution) where
  own :
      (email : String) (user : User)
      → is_link provider.id account.user_id account.tenant_id
          (new_link validate_email settings draw account provider (some email) user)
        ≡ true
  own email user = ground (
    arith,
    (same_number_iff provider.id provider.id).1 refl,
    (eq_iff account.user_id account.user_id).1 refl,
    (same_option_iff account.tenant_id account.tenant_id).1 refl,
  )

  same_user :
      (user : User) (incoming : String)
      → (canonical validate_email settings account.provider_code user incoming).0.id ≡ user.id
  same_user user incoming = ground arith

  new_links :
      (email : Option String)
      → (resolve_new validate_email settings draw account provider activate email (session db)).0
        ≡ ok res
      → first (is_link provider.id account.user_id account.tenant_id) db.external_identities ≡ none
      → linked_user provider.id account
          (resolve_new validate_email settings draw account provider activate email
            (session db)).1.saved.external_identities
        ≡ some res.user.id
  new_links none h fresh = absurd (ground arith)
  new_links (some email) h fresh =
      elim (Bool-cases (can_auto_link_email account.provider_code (some email) settings)) [
        | inr refused ↦ absurd (ground arith)
        | inl allowed ↦ elim (Option-cases (first (has_email email) db.users)) [
          | inl unknown ↦
              let row =
                new_link validate_email settings draw account provider (some email)
                  (record (new_user validate_email settings draw account email) {
                    is_active = activate;
                  }) in
              let found =
                linked_user-new provider.id account row db.external_identities
                  (own email (record (new_user validate_email settings draw account email) {
                    is_active = activate;
                  }))
                  fresh in
              rw (allowed, unknown) (ground (arith, found))
          | inr (user, known) ↦
              let row = new_link validate_email settings draw account provider (some email) user in
              let found =
                linked_user-new provider.id account row db.external_identities (own email user)
                  fresh in
              rw (allowed, known) (ground (arith, found))
        ]
      ]

  -- A refresh of a link leaves every account linked to the user that it had.
  refresh_keeps :
      (user : User) (link : ExternalIdentity) (email : Option String)
      → (linked_user provider.id account
            (refresh_existing_link validate_email settings account.provider_code user link email
              (session db)).1.db.external_identities
          ≡ linked_user provider.id account db.external_identities)
        × SameUser user
            (refresh_existing_link validate_email settings account.provider_code user link email
              (session db)).0
  unfolding refresh_existing_link
  refresh_keeps user link none = (refl, refl)
  refresh_keeps user link (some incoming) =
      elim (Bool-cases (is_institutional_email (some incoming) settings)) [
        | inr outside ↦ rw outside (refl, refl)
        | inl inside ↦
            rw inside
              (elim (Bool-cases
                (any (λ u. has_email incoming u && not (u.id == user.id)) db.users)) [
                  | inl taken ↦ rw taken (refl, tt)
                  | inr free ↦ rw free (
                    linked_user-update provider.id link.id account
                        (λ x. record x { provider_email = some incoming }) (λ x. refl) (λ x. refl)
                        (λ x. refl) (λ x. refl) db.external_identities,
                    same_user user incoming,
                  )
                ])
      ]

  linked_links :
      (email : Option String) (link : ExternalIdentity)
      → (resolve_linked validate_email settings draw account email link (session db)).0 ≡ ok res
      → first (is_link provider.id account.user_id account.tenant_id) db.external_identities
        ≡ some link
      → (linked_user provider.id account
            (resolve_linked validate_email settings draw account email link
              (session db)).1.saved.external_identities
          ≡ some res.user.id)
        × (link.user_id ≡ res.user.id)
  linked_links email link h linked = elim (Option-cases (find_user link.user_id db)) [
    | inl e ↦ absurd (ground arith)
    | inr (user, found) ↦
        let r =
          refresh_existing_link validate_email settings account.provider_code user link email
            (session db) in
        let (kept, same) = refresh_keeps user link email in
        elim (Result-cases r.0) [
          | inl (e, failed) ↦ absurd (ground arith)
          | inr (x, refreshed) ↦
              let named : x.0.id ≡ user.id = subst (SameUser user) refreshed same in
              let owner : user.id ≡ link.user_id = found_id link.user_id db.users user found in
              let answer : x.0.id ≡ res.user.id = ground arith in
              let id : link.user_id ≡ res.user.id = sym owner ∙ sym named ∙ answer in
              let seen =
                linked_user-update provider.id link.id account
                  (λ y. record y { last_seen_at = some draw.now }) (λ y. refl) (λ y. refl)
                  (λ y. refl) (λ y. refl) r.1.db.external_identities in
              let linked_to : linked_user provider.id account db.external_identities
                  ≡ some link.user_id =
                rw linked refl in
              rw (found, refreshed) (seen ∙ kept ∙ linked_to ∙ ap some id, id)
        ]
  ]

module _ (validate_email : String → Option String) (settings : Settings) (draw : Draw)
    (account : Account) (activate : Bool) (db : Db) where
  -- A resolution that succeeds answers with the user whom the account is linked to from then on. An
  -- account that was linked before keeps its user, whatever address the provider reports now.
  pub resolve_links :
      (res : IdentityResolution)
      → (run (resolve validate_email settings draw account activate) db).0 ≡ ok res
      → (provider : Provider) × (active_provider (get_provider account.provider_code db)
          ≡ some provider)
        × (linked_user provider.id account
              (run (resolve validate_email settings draw account activate) db).1.external_identities
            ≡ some res.user.id)
        × (or_first (linked_user provider.id account db.external_identities) (some res.user.id)
            ≡ some res.user.id)
  unfolding resolve
  resolve_links res h =
      elim (Option-cases (active_provider (get_provider account.provider_code db))) [
        | inl e ↦ absurd (ground arith)
        | inr (provider, found) ↦
            elim (Option-cases (
              first (is_link provider.id account.user_id account.tenant_id)
                db.external_identities)) [
                  | inl fresh ↦
                      let step : (resolve_new validate_email settings draw account provider activate
                            (normalize_email validate_email settings account.email) (session db)).0
                          ≡ ok res =
                        ground arith in
                      let links =
                        new_links validate_email settings draw account activate db provider res _
                          step fresh in
                      (provider, found, rw (found, fresh) links, rw fresh refl)
                  | inr (link, linked) ↦
                      let step : (resolve_linked validate_email settings draw account
                            (normalize_email validate_email settings account.email) link
                            (session db)).0
                          ≡ ok res =
                        ground arith in
                      let (links, same) =
                        linked_links validate_email settings draw account activate db provider res _
                          link step linked in
                      (provider, found, rw (found, linked) links, rw linked (ap some same))
                ]
      ]
