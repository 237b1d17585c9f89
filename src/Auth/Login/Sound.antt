-- ===== src/Auth/Login/Sound.antt =====
-- The branches of a password login, and what a central session rests on.
use orbita_backend.Prelude.{
  String, ◌≡◌, ◌↔◌, refl, Bool, true, false, not, ◌&&◌, none, some, [], ◌∷◌, arith, inl, inr,
  Bool-cases, Option-cases, ◌==◌, number_comparable, ap, ◌∙◌, if◌then◌else◌, any, delete,
  text_comparable, ◌++◌,
}
use orbita_backend.Data.{Db, Uuid, User}
use orbita_backend.Http.{Request}
use orbita_backend.Settings.{Settings}
use orbita_backend.Crypto.{Crypto}
use orbita_backend.Exec.{Result, Session, run, ok, err, http, session, rate_limited, raise_if, ◌>>◌}
use orbita_backend.Access.Audit.{audit, log_row, add_log}
use orbita_backend.Access.Sources.{
  ensure_default_role, reconcile_effective_role, role_id_of, default_role,
}
use orbita_backend.RateLimit.{
  ensure_allowed, record_attempt, clear_success, drop_expired, cutoff_of, attempt, subject_key,
  ip_key,
}
use orbita_backend.RateLimit.Lockout.{is_limited, ensure_allowed_step}
use orbita_backend.Users.{find_by_email}
use orbita_backend.Sso.Client.{user_is_unavailable}
use orbita_backend.Auth.Passwords.{verify_password}
use orbita_backend.Auth.Login.{
  Draw, PasswordLoginRequest, password_login, issue_central_session, throttle_subject,
  matching_user, session_token, try_password, too_many_attempts, account_disabled,
}

-- Giving the default role never fails.
pub default_given : (user_id : Uuid) (s : Session) → (ensure_default_role user_id true s).0 ≡ ok tt
unfolding ensure_default_role reconcile_effective_role
default_given user_id s = elim (Bool-cases (any (λ r. r.user_id == user_id) s.db.role_sources)) [
  | inl sourced ↦ rw sourced refl
  | inr unsourced ↦ elim (Option-cases (role_id_of default_role s.db.global_roles)) [
    | inl absent ↦ rw (unsourced, absent) refl
    | inr (role_id, e) ↦ rw (unsourced, e) refl
  ]
]

module _ (crypto : Crypto) (settings : Settings) (draw : Draw) (payload : PasswordLoginRequest)
    (request : Request) (db : Db) where
  abbrev pub limited : Bool
  limited =
      is_limited crypto settings (throttle_subject crypto settings payload.email) request draw.now
        db

  abbrev pub login : Result String × Db
  login = run (password_login crypto settings draw payload request) db

  -- A session is never refused for want of credentials.
  issued :
      (user : User) (s : Session)
      → user_is_unavailable user ≡ false
      → (token : String) × ((issue_central_session crypto settings draw.now draw.jti user request
            "local" "login.local" s).0
          ≡ ok token)
  unfolding issue_central_session audit
  issued user s usable = (
    session_token crypto settings draw.now draw.jti user (ensure_default_role user.id true s).1.db
        "local",
    rw (usable, default_given user.id s) refl,
  )

  -- With local login enabled, the login begins with the limiter.
  begins :
      settings.enable_local_login ≡ true
      → login ≡ run (try_password crypto settings draw payload request) db
  unfolding password_login
  begins on =
      ap
        (λ b.
          run
            (raise_if (not b) (http 404 "Local login is disabled")
              >> try_password crypto settings draw payload request)
            db)
        on

  pub disabled :
      settings.enable_local_login ≡ false → login ≡ (err (http 404 "Local login is disabled"), db)
  unfolding password_login
  disabled off =
      ap
        (λ b.
          run
            (raise_if (not b) (http 404 "Local login is disabled")
              >> try_password crypto settings draw payload request)
            db)
        off

  limiter :
      ensure_allowed crypto settings draw.now
        (throttle_subject crypto settings payload.email)
        request
        (session db)
      ≡ (
        if limited then err rate_limited else ok tt,
        session (drop_expired (cutoff_of settings draw.now) db),
      )
  limiter =
      ensure_allowed_step crypto settings (throttle_subject crypto settings payload.email) request
        draw.now db

  pub too_many :
      settings.enable_local_login ≡ true
      → limited ≡ true
      → login.0 ≡ err (http 429 too_many_attempts)
  too_many on full = ap (λ r. r.0) (begins on) ∙ rw (limiter, full) refl

  -- the rows after a refused password
  abbrev pub after_refusal : Db
  after_refusal =
      let dropped = drop_expired (cutoff_of settings draw.now) db in
      add_log
        (log_row "login.password_failed" none (some request) none
          (("email", some payload.email) ∷ []))
        (record dropped {
          login_failures =
              dropped.login_failures
              ++ attempt crypto settings draw.now (throttle_subject crypto settings payload.email)
                  request
                ∷ [];
        })

  pub wrong_password :
      settings.enable_local_login ≡ true
      → limited ≡ false
      → matching_user crypto settings payload.password (find_by_email payload.email db) ≡ none
      → login ≡ (err (http 401 "Invalid email or password"), after_refusal)
  unfolding record_attempt audit
  wrong_password on free absent = begins on ∙ rw (limiter, free, absent) refl

  pub unusable :
      (user : User)
      → settings.enable_local_login ≡ true
      → limited ≡ false
      → matching_user crypto settings payload.password (find_by_email payload.email db) ≡ some user
      → user_is_unavailable user ≡ true
      → login.0 ≡ err (http 403 account_disabled)
  unfolding audit
  unusable user on free found out = ap (λ r. r.0) (begins on) ∙ rw (limiter, free, found, out) refl

  pub admitted :
      (user : User)
      → settings.enable_local_login ≡ true
      → limited ≡ false
      → matching_user crypto settings payload.password (find_by_email payload.email db) ≡ some user
      → user_is_unavailable user ≡ false
      → (token : String) × (login.0 ≡ ok token)
  unfolding clear_success
  admitted user on free found usable =
      let dropped = drop_expired (cutoff_of settings draw.now) db in
      let (token, e) =
        issued user
          (session (record dropped {
            login_failures =
                delete
                  (λ f.
                    f.subject_hash
                      == subject_key crypto settings
                          (throttle_subject crypto settings payload.email)
                    && f.ip_hash == ip_key crypto settings request)
                  dropped.login_failures;
          }))
          usable in
      (token, ap (λ r. r.0) (begins on) ∙ rw (limiter, free, found, usable) e)

  found_user :
      (user : User)
      → matching_user crypto settings payload.password (find_by_email payload.email db) ≡ some user
      → (find_by_email payload.email db ≡ some user)
        × (verify_password crypto payload.password user.password_hash ≡ true)
  found_user user found = elim (Option-cases (find_by_email payload.email db)) [
    | inl e ↦ absurd (ground (arith, e))
    | inr (owner, e) ↦
        elim (Bool-cases (verify_password crypto payload.password owner.password_hash)) [
          | inr wrong ↦ absurd (ground (arith, e))
          | inl right ↦ ground (arith, e)
        ]
  ]

  -- A password login gives a session exactly where local login is enabled, the limiter does not refuse,
  -- the address belongs to a user whose stored hash accepts the password, and that user is active and
  -- not deleted.
  pub password_login_iff :
      ((token : String) × (login.0 ≡ ok token))
      ↔ (settings.enable_local_login ≡ true)
        × (limited ≡ false)
        × ((user : User) × (find_by_email payload.email db ≡ some user)
            × (verify_password crypto payload.password user.password_hash ≡ true)
            × (user_is_unavailable user ≡ false))
  password_login_iff = (
    λ (token, success). elim (Bool-cases settings.enable_local_login) [
      | inr off ↦ let e = disabled off in absurd (ground (arith, e, success))
      | inl on ↦ elim (Bool-cases limited) [
        | inl full ↦ let e = too_many on full in absurd (ground (arith, e, success))
        | inr free ↦
            elim (Option-cases
              (matching_user crypto settings payload.password (find_by_email payload.email db))) [
                | inl absent ↦
                    let e = wrong_password on free absent in absurd (ground (arith, e, success))
                | inr (user, found) ↦ elim (Bool-cases (user_is_unavailable user)) [
                  | inl out ↦
                      let e = unusable user on free found out in absurd (ground (arith, e, success))
                  | inr usable ↦
                      let (owner, right) = found_user user found in
                      (on, free, (user, owner, right, usable))
                ]
              ]
      ]
    ],
    λ (on, free, (user, owner, right, usable)).
        admitted user on free (rw (owner, right) refl) usable,
  )
