-- ===== src/Auth/Account/Password.antt =====
-- What a change of the password leaves behind.
use orbita_backend.Prelude.{
  ◌≡◌, refl, true, false, ◌==◌, text_comparable, number_comparable, same_number_iff, same_list_iff,
  none, some, [], arith, inl, inr, Bool-cases, ◌∙◌,
}
use orbita_backend.Prelude.Queries.{first-update}
use orbita_backend.Data.{Db, Time, User, is_local_account}
use orbita_backend.Http.{Request}
use orbita_backend.Crypto.{Crypto, Bytes, IsBase64}
use orbita_backend.Exec.{run, ok, err, http, session}
use orbita_backend.Access.Audit.{audit, log_row, add_log}
use orbita_backend.Apps.Roles.{revoke_sessions}
use orbita_backend.Users.{find_user, set_user}
use orbita_backend.Sso.Service.{revoke_all_for_user}
use orbita_backend.Sso.Service.Revocation.{Revokes, revoke_where-Revokes}
use orbita_backend.Auth.Passwords.{iterations, verify_password}
use orbita_backend.Auth.Passwords.RoundTrip.{verify_password-hash_password}
use orbita_backend.Auth.Guard.{get_current_user}
use orbita_backend.Auth.Guard.Session.{enters}
use orbita_backend.Auth.Account.{
  PasswordChangeRequest, change_current_user_password, new_password_set, external_account,
}

module _ (crypto : Crypto) (law : IsBase64 crypto) (now : Time) (salt : Bytes)
    (payload : PasswordChangeRequest) (request : Request) (db : Db) (user : User) where
  -- the rows after a change
  abbrev after : Db
  after = add_log (log_row "user.password_changed" (some user.id) (some request) none []) (
      revoke_sessions now (λ s. s.user_id == user.id)
        (set_user user.id (new_password_set crypto salt payload.new_password) db))

  -- The three guards, and the change.
  change_runs :
      (run (get_current_user crypto now request) db).0 ≡ ok user
      → is_local_account user ≡ true
      → verify_password crypto payload.current_password user.password_hash ≡ true
      → (payload.current_password == payload.new_password) ≡ false
      → run (change_current_user_password crypto now salt payload request) db ≡ (ok tt, after)
  unfolding change_current_user_password audit revoke_all_for_user
  change_runs entered internal right other =
      rw (enters crypto now request user (session db) entered, internal, right, other) refl

  change_allowed :
      (run (get_current_user crypto now request) db).0 ≡ ok user
      → (run (change_current_user_password crypto now salt payload request) db).0 ≡ ok tt
      → (is_local_account user ≡ true)
        × (verify_password crypto payload.current_password user.password_hash ≡ true)
        × ((payload.current_password == payload.new_password) ≡ false)
  unfolding change_current_user_password
  change_allowed entered success =
      let step = enters crypto now request user (session db) entered in
      elim (Bool-cases (is_local_account user)) [
        | inr external ↦
            let e : (run (change_current_user_password crypto now salt payload request) db).0
                ≡ err (http 409 external_account) =
              rw (step, external) refl in
            absurd (ground (arith, e, success))
        | inl internal ↦
            elim (Bool-cases (verify_password crypto payload.current_password user.password_hash)) [
              | inr wrong ↦
                  let e : (run (change_current_user_password crypto now salt payload request) db).0
                      ≡ err (http 400 "La contraseña actual no coincide") =
                    rw (step, internal, wrong) refl in
                  absurd (ground (arith, e, success))
              | inl right ↦ elim (Bool-cases (payload.current_password == payload.new_password)) [
                | inl same ↦
                    let e : (run (change_current_user_password crypto now salt payload request)
                          db).0
                        ≡ err (http 400 "La nueva contraseña debe ser diferente") =
                      rw (step, internal, right, same) refl in
                    absurd (ground (arith, e, success))
                | inr other ↦ (internal, right, other)
              ]
            ]
      ]

  -- The new password is stored.
  stored :
      find_user user.id db ≡ some user
      → find_user user.id after ≡ some (new_password_set crypto salt payload.new_password user)
  stored known =
      let found =
        first-update (λ u. u.id) (new_password_set crypto salt payload.new_password) (λ u. refl)
          user.id user.id db.users in
      found ∙ rw ((same_number_iff user.id user.id).1 refl, known) refl

  -- Where base64 gives back what it encoded, for a user whom the guard lets in and whose row is the
  -- one found by its id: a change of the password that succeeds means that the user gave the right
  -- password; afterwards the stored hash accepts the new one, no further change is asked for, and
  -- the user keeps no active app session, while the sessions of others stay as they were.
  pub password_changed :
      (run (get_current_user crypto now request) db).0 ≡ ok user
      → find_user user.id db ≡ some user
      → (run (change_current_user_password crypto now salt payload request) db).0 ≡ ok tt
      → (verify_password crypto payload.current_password user.password_hash ≡ true)
        × ((changed : User) × (find_user user.id
                (run (change_current_user_password crypto now salt payload request) db).1
              ≡ some changed)
            × (verify_password crypto payload.new_password changed.password_hash ≡ true)
            × (changed.must_change_password ≡ false))
        × Revokes
            (λ s. s.user_id == user.id)
            db.app_sessions
            (run (change_current_user_password crypto now salt payload request) db).1.app_sessions
  password_changed entered known success =
      let (internal, right, other) = change_allowed entered success in
      rw (change_runs entered internal right other) (
        right,
        (
          new_password_set crypto salt payload.new_password user,
          stored known,
          verify_password-hash_password crypto law salt payload.new_password payload.new_password
              ∙ (same_list_iff (crypto.pbkdf2 payload.new_password salt iterations)
                    (crypto.pbkdf2 payload.new_password salt iterations)).1
                  refl,
          refl,
        ),
        revoke_where-Revokes now (λ s. s.user_id == user.id) db.app_sessions,
      )
