-- ===== src/Sso/Adopt/Fresh.antt =====
-- What a role adoption that succeeds rests on.
use text.Mathlib.TextEquality.{eq_iff}
use orbita_backend.Prelude.{
  ◌<◌, List, [], ◌∷◌, first, subst, sym, ap, ◌∙◌, same_number_iff, if◌then◌else◌, Bool, ◌&&◌, ◌==◌,
  number_comparable, text_comparable, ◌≡◌, true, none, some, inl, inr, arith, Option-cases,
  Bool-cases, is_empty, String, Option,
}
use orbita_backend.Data.{Db, Uuid, Time, User, App, AppSession}
use orbita_backend.Http.{Request}
use orbita_backend.Crypto.{Crypto, Claims}
use orbita_backend.Exec.{ok, run}
use orbita_backend.Apps.{access_of, explicit_roles, mapped_roles, role_names}
use orbita_backend.Apps.Policy.Resolution.{resolve_app_access_policy_lem}
use orbita_backend.Users.{find_user}
use orbita_backend.Sso.Tokens.{decode_app_token}
use orbita_backend.Sso.Service.{active_session, active}
use orbita_backend.Sso.Client.{client_of, available_user}
use orbita_backend.Sso.Adopt.{
  RoleAdoptionRequest, both, is_migration, is_true, no_roles, owns, adopt_legacy_app_role,
}

pub data IsRow (s : AppSession) : List AppSession → Type 0 where
  is_head : (rows : List AppSession) → IsRow s (s ∷ rows)
  is_later : (x : AppSession) (rows : List AppSession) → IsRow s rows → IsRow s (x ∷ rows)

module _ (crypto : Crypto) (id : Uuid) (now : Time) (request : Request)
    (payload : RoleAdoptionRequest) (db : Db) where
  -- A client that may adopt, a token with the migration flag and no roles that names a session of
  -- this client, which is stored, not revoked and not expired, and the user of both, who has the
  -- migration access and no explicit role.
  pub record Adopted (app : App) (session : AppSession) (user : User) : Type 0 where
    pub client : client_of crypto now payload.client_id payload.client_secret db ≡ some app
    pub enabled : app.jit_role_adoption_enabled ≡ true
    pub named : (decode_app_token crypto now payload.token payload.client_id).jti ≡ some session.jti
    pub subject :
        (decode_app_token crypto now payload.token payload.client_id).sub
        ≡ some (crypto.uuid_text session.user_id)
    pub flagged :
        (decode_app_token crypto now payload.token payload.client_id).migration ≡ some true
    pub without_roles :
        (decode_app_token crypto now payload.token payload.client_id).roles ≡ some []
    pub stored : IsRow session db.app_sessions
    pub own : session.app_id ≡ app.id
    pub not_revoked : session.revoked_at ≡ none
    pub in_time : now < session.expires_at
    pub owner : available_user (find_user session.user_id db) ≡ some user
    pub migration : (access_of user.id app db).migration ≡ true
    pub no_role : is_empty (explicit_roles user.id app db) ≡ true

migration-is_empty :
    (id : Uuid) (app : App) (db : Db)
    → (access_of id app db).migration ≡ true
    → is_empty (explicit_roles id app db) ≡ true
unfolding access_of
migration-is_empty id app db h = ground (
  arith,
  (resolve_app_access_policy_lem "" (role_names id db) (explicit_roles id app db)
      (mapped_roles id app db) app.role_cardinality app.migration_access_enabled).1,
)

-- What the claims and the rows say of the session that an adoption reads.
record Opened (crypto : Crypto) (now : Time) (app : App) (jti sub : String) (rows : List AppSession)
    (s : AppSession) : Type 0 where
  named : s.jti ≡ jti
  subject : crypto.uuid_text s.user_id ≡ sub
  stored : IsRow s rows
  own : s.app_id ≡ app.id
  not_revoked : s.revoked_at ≡ none
  in_time : now < s.expires_at

owns-own :
    (crypto : Crypto) (app : App) (sub : String) (x s : AppSession)
    → owns crypto app sub (some x) ≡ some s
    → (x ≡ s) × (x.app_id ≡ app.id) × (crypto.uuid_text x.user_id ≡ sub)
owns-own crypto app sub x s h =
    elim (Bool-cases (x.app_id == app.id && crypto.uuid_text x.user_id == sub)) [
      | inr other ↦ absurd (ground arith)
      | inl own ↦
          let wrapped : some x ≡ some s = sym (ap (λ b. if b then some x else none) own) ∙ h in
          (
            cc,
            (same_number_iff x.app_id app.id).0 (ground arith),
            (eq_iff (crypto.uuid_text x.user_id) sub).0 (ground arith),
          )
    ]

owns-Opened :
    (crypto : Crypto) (now : Time) (app : App) (jti sub : String) (rows : List AppSession)
    (s : AppSession)
    → owns crypto app sub (first (active now jti) rows) ≡ some s
    → Opened crypto now app jti sub rows s
owns-Opened crypto now app jti sub [] s h = absurd (ground arith)
owns-Opened crypto now app jti sub (x ∷ rows) s h = elim (Bool-cases (active now jti x)) [
  | inr other ↦
      let later = owns-Opened crypto now app jti sub rows s (ground arith) in
      record {
        named = later.named;
        subject = later.subject;
        stored = is_later x rows later.stored;
        own = later.own;
        not_revoked = later.not_revoked;
        in_time = later.in_time;
      }
  | inl alive ↦
      let found : owns crypto app sub (some x) ≡ some s =
        sym
          (ap (λ b. owns crypto app sub (if b then some x else first (active now jti) rows)) alive)
        ∙ h in
      let (same, app_id, user_id) = owns-own crypto app sub x s found in
      subst (λ s. Opened crypto now app jti sub (x ∷ rows) s) same
        (record {
          named = (eq_iff x.jti jti).0 (ground arith);
          subject = user_id;
          stored = is_head rows;
          own = app_id;
          not_revoked = ground arith;
          in_time = ground arith;
        })
]

both-claims :
    (a b : Option String) {jti sub : String}
    → both a b ≡ some (jti, sub)
    → (a ≡ some jti) × (b ≡ some sub)
both-claims none b h = absurd (ground arith)
both-claims (some a) none h = absurd (ground arith)
both-claims (some a) (some b) h = ground arith

flagged_claims :
    (m : Option Bool) (r : Option (List String))
    → (is_true m && no_roles r) ≡ true
    → (m ≡ some true) × (r ≡ some [])
flagged_claims none r h = absurd (ground arith)
flagged_claims (some m) none h = absurd (ground arith)
flagged_claims (some m) (some []) h = ground arith
flagged_claims (some m) (some (x ∷ xs)) h = absurd (ground arith)

is_migration-flagged :
    (c : Claims) → is_migration c ≡ true → (c.migration ≡ some true) × (c.roles ≡ some [])
is_migration-flagged c h = flagged_claims c.migration c.roles h

module _ (crypto : Crypto) (id : Uuid) (now : Time) (request : Request)
    (payload : RoleAdoptionRequest) (db : Db) where
  -- An adoption that succeeds comes from a client that may adopt, with a token that has the migration
  -- flag and no roles and names a stored session of this client that is neither revoked nor expired
  -- and its user, who has the migration access and no explicit role: a user who has one, also the one
  -- that is asked for, is refused.
  pub adopt_sound :
      {r : String}
      → (run (adopt_legacy_app_role crypto id now request payload) db).0 ≡ ok r
      → (app : App) × (session : AppSession) × (user : User) × Adopted crypto id now request payload
          db app session user
  unfolding adopt_legacy_app_role
  adopt_sound h =
      elim (Option-cases (client_of crypto now payload.client_id payload.client_secret db)) [
        | inl e ↦ absurd (ground arith)
        | inr (app, client) ↦ elim (Bool-cases app.jit_role_adoption_enabled) [
          | inr e ↦ absurd (ground arith)
          | inl enabled ↦
              let claims = decode_app_token crypto now payload.token payload.client_id in
              elim (Option-cases (both claims.jti claims.sub)) [
                | inl e ↦ absurd (ground arith)
                | inr ((jti, sub), named) ↦ elim (Bool-cases (is_migration claims)) [
                  | inr e ↦ absurd (ground arith)
                  | inl carried ↦
                      elim (Option-cases (owns crypto app sub (active_session now jti db))) [
                        | inl e ↦ absurd (ground arith)
                        | inr (session, owned) ↦
                            elim (Option-cases (available_user (find_user session.user_id db))) [
                              | inl e ↦ absurd (ground arith)
                              | inr (user, owner) ↦
                                  elim (Bool-cases (access_of user.id app db).migration) [
                                    | inr e ↦ absurd (ground arith)
                                    | inl migration ↦
                                        let (jti_named, sub_named) =
                                          both-claims claims.jti claims.sub named in
                                        let (flag, empty) = is_migration-flagged claims carried in
                                        let opened =
                                          owns-Opened crypto now app jti sub db.app_sessions session
                                            owned in
                                        (
                                          app,
                                          session,
                                          user,
                                          record {
                                            client = client;
                                            enabled = enabled;
                                            named = jti_named ∙ ap (λ x. some x) (sym opened.named);
                                            subject =
                                                sub_named ∙ ap (λ x. some x) (sym opened.subject);
                                            flagged = flag;
                                            without_roles = empty;
                                            stored = opened.stored;
                                            own = opened.own;
                                            not_revoked = opened.not_revoked;
                                            in_time = opened.in_time;
                                            owner = owner;
                                            migration = migration;
                                            no_role = migration-is_empty user.id app db migration;
                                          },
                                        )
                                  ]
                            ]
                      ]
                ]
              ]
        ]
      ]
