-- ===== src/Auth/Guard/Session.antt =====
-- The guard of the routes and the optional lookup of /authorize read the same session.
use orbita_backend.Prelude.{
  ◌≡◌, ◌↔◌, refl, Bool, false, not, ◌&&◌, ◌==◌, text_comparable, contains, none, Option, some,
  arith, inl, inr, Bool-cases, Option-cases, ap, subst,
}
use mathlib.Core.Option.{some-injective}
use text.Mathlib.TextEquality.{eq_iff}
use orbita_backend.Data.{Db, Time, User}
use orbita_backend.Http.{Request}
use orbita_backend.Crypto.{Crypto}
use orbita_backend.Exec.{
  Action, Result, Session, session, run, ok, err, http, pure, raise_if, ◌>>=◌, ◌>>◌,
}
use orbita_backend.Access.Sources.{platform_admin_role}
use orbita_backend.Users.{find_user}
use orbita_backend.Sso.Tokens.{decode_access_token}
use orbita_backend.Sso.Browser.{get_optional_current_user, local_password_change_required, is_local}
use orbita_backend.Sso.Client.{user_is_unavailable}
use orbita_backend.Auth.Guard.{
  get_current_user, get_current_platform_admin, has_global_role, password_change_allowed_paths,
}

abbrev found_of : Result User → Option User
found_of (ok user) = some user
found_of (err e) = none

-- The two ways to write the guard on a temporary password.
gated :
    (found user : User) (local allowed : Bool) (s : Session)
    → ((raise_if
              (found.must_change_password && (local && not allowed))
              (http 403 "password_change_required")
            >> pure found)
          s).0
        ≡ ok user
      ↔ (some found ≡ some user) × (((user.must_change_password && local) && not allowed) ≡ false)
gated found user local allowed s =
    elim (Bool-cases (found.must_change_password && (local && not allowed))) [
      | inl due ↦ rw due (
        λ h. absurd (ground (arith, h)),
        λ (same, free). absurd (ground (arith, same, free, due)),
      )
      | inr free ↦ rw free (
        λ h.
            let same = ap found_of h in
            (
              same,
              subst (λ u. ((u.must_change_password && local) && not allowed) ≡ false)
                  (some-injective found user same) (ground (arith, free)),
            ),
        λ (same, h). ground (arith, same),
      )
    ]

module _ (crypto : Crypto) (now : Time) (request : Request) (db : Db) (user : User) where
  -- The guard lets a user in exactly where the optional lookup finds that user, and no change of a
  -- temporary password is due (or the path is one of those that allow it), where neither the empty
  -- text nor the empty token is a valid one.
  pub get_current_user_iff :
      crypto.parse_uuid "" ≡ none
      → (decode_access_token crypto now "").sub ≡ none
      → ((run (get_current_user crypto now request) db).0 ≡ ok user) ↔ (
          (get_optional_current_user crypto now request db ≡ some user)
          × ((local_password_change_required crypto now request user
                && not (contains request.path password_change_allowed_paths))
              ≡ false))
  unfolding get_current_user get_optional_current_user local_password_change_required
  get_current_user_iff no_id no_token = elim (Option-cases request.access_cookie) [
    | inl e ↦ rw e (ground arith)
    | inr (token, e) ↦ elim (Option-cases (decode_access_token crypto now token).sub) [
      | inl f ↦ rw (e, f) (ground arith)
      | inr (sub, f) ↦
          let spelt : (token == "") ≡ false = elim (Bool-cases (token == "")) [
            | inr other ↦ other
            | inl blank ↦
                let gone =
                  subst (λ t. (decode_access_token crypto now t).sub ≡ some sub)
                    ((eq_iff token "").0 blank) f in
                absurd (ground (arith, gone, no_token))
          ] in
          elim (Option-cases (crypto.parse_uuid sub)) [
            | inl g ↦ rw (e, f, g, spelt) (ground arith)
            | inr (id, g) ↦
                let named : (sub == "") ≡ false = elim (Bool-cases (sub == "")) [
                  | inr other ↦ other
                  | inl blank ↦
                      let gone =
                        subst (λ t. crypto.parse_uuid t ≡ some id) ((eq_iff sub "").0 blank) g in
                      absurd (ground (arith, gone, no_id))
                ] in
                elim (Option-cases (find_user id db)) [
                  | inl h ↦ rw (e, f, g, h, spelt, named) (ground arith)
                  | inr (found, h) ↦ elim (Bool-cases (user_is_unavailable found)) [
                    | inl out ↦ rw (e, f, g, h, spelt, named, out) (ground arith)
                    | inr free ↦
                        let local =
                          is_local crypto (decode_access_token crypto now token).auth_method in
                        let open_path = contains request.path password_change_allowed_paths in
                        rw (e, f, g, h, spelt, named, free)
                          (gated found user local open_path (session db))
                  ]
                ]
          ]
    ]
  ]

module _ (crypto : Crypto) (now : Time) (request : Request) where
  -- The guard writes nothing.
  pub reads_user : (s : Session) → (get_current_user crypto now request s).1 ≡ s
  unfolding get_current_user
  reads_user s = elim (Option-cases request.access_cookie) [
    | inl e ↦ rw e refl
    | inr (token, e) ↦ elim (Option-cases (decode_access_token crypto now token).sub) [
      | inl f ↦ rw (e, f) refl
      | inr (sub, f) ↦ elim (Option-cases (crypto.parse_uuid sub)) [
        | inl g ↦ rw (e, f, g) refl
        | inr (id, g) ↦ elim (Option-cases (find_user id s.db)) [
          | inl h ↦ rw (e, f, g, h) refl
          | inr (found, h) ↦ rw (e, f, g, h) (ground arith)
        ]
      ]
    ]
  ]

  -- A user who may enter, as one step of the session.
  pub enters :
      (user : User) (s : Session)
      → (get_current_user crypto now request s).0 ≡ ok user
      → get_current_user crypto now request s ≡ (ok user, s)
  enters user s entered = ground (arith, entered, reads_user s)

  -- An endpoint behind the guard for administrators answers 403 to a signed-in user who is not one,
  -- and the committed rows stay as they were.
  pub refused_without_admin :
      {A : Type 0} (user : User) (db : Db) (endpoint : User → Action A)
      → (run (get_current_user crypto now request) db).0 ≡ ok user
      → has_global_role user.id platform_admin_role db ≡ false
      → run (get_current_platform_admin crypto now request >>= endpoint) db
        ≡ (err (http 403 "Platform admin privileges required"), db)
  unfolding get_current_platform_admin
  refused_without_admin user db endpoint entered other =
      rw (enters user (session db) entered, other) refl
