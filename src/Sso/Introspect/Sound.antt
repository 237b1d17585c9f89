-- ===== src/Sso/Introspect/Sound.antt =====
-- What an introspection that answers `active` rests on.
use orbita_backend.Prelude.{String, ◌≡◌, true, none, some, inl, inr, List, arith, Option-cases}
use orbita_backend.Prelude.Names.{same_set}
use orbita_backend.Data.{Db, Time, User, App, AppSession}
use orbita_backend.Crypto.{Claims}
use orbita_backend.Apps.{access_of}
use orbita_backend.Users.{find_user}
use orbita_backend.Sso.Service.{active_session}
use orbita_backend.Sso.Introspect.{claims_migration, introspect_claims}

module _ (now : Time) (app : App) (claims : Claims) (db : Db) where
  -- An open session of this app, whose user may act, and a token with the roles that the user has.
  pub record Live (jti : String) (session : AppSession) (user : User) (roles : List String)
      : Type 0 where
    pub named : claims.jti ≡ some jti
    pub open_session : active_session now jti db ≡ some session
    pub own : session.app_id ≡ app.id
    pub owner : find_user session.user_id db ≡ some user
    pub enabled : user.is_active ≡ true
    pub not_deleted : user.deleted_at ≡ none
    pub carried : claims.roles ≡ some roles
    pub current : same_set (access_of user.id app db).roles roles ≡ true
    pub migration : claims_migration claims.migration ≡ (access_of user.id app db).migration

  -- An answer `active` means that the token names an open session of the app that asks, that its user
  -- is active and not deleted, and that the roles and the migration flag of the token are those that
  -- the user has now.
  pub introspect_sound :
      (introspect_claims now app claims db).active ≡ true
      → (jti : String) × (session : AppSession) × (user : User) × (roles : List String) × Live jti
          session user roles
  unfolding introspect_claims
  introspect_sound h = elim (Option-cases claims.jti) [
    | inl e ↦ absurd (ground arith)
    | inr (jti, named) ↦ elim (Option-cases (active_session now jti db)) [
      | inl e ↦ absurd (ground arith)
      | inr (session, open_session) ↦ elim (Option-cases (find_user session.user_id db)) [
        | inl e ↦ absurd (ground arith)
        | inr (user, owner) ↦ elim (Option-cases claims.roles) [
          | inl e ↦ absurd (ground arith)
          | inr (roles, carried) ↦ (jti, session, user, roles, ground arith)
        ]
      ]
    ]
  ]
