-- ===== src/Auth/Login/Guessing.antt =====
-- Guessing a password against the limiter.
use orbita_backend.Prelude.{
  ℕ, ◌+◌, ◌≤◌, String, ◌≡◌, refl, true, List, [], ◌∷◌, Option-cases, Bool-cases, arith, inl, inr,
  leb, count,
}
use text.Mathlib.TextEquality.{eq_iff}
use orbita_backend.Data.{Db, Time}
use orbita_backend.Http.{Request}
use orbita_backend.Settings.{Settings}
use orbita_backend.Crypto.{Crypto}
use orbita_backend.Exec.{err, http}
use orbita_backend.RateLimit.{of_pair, subject_key, ip_key, cutoff_of, attempt, drop_expired}
use orbita_backend.RateLimit.Lockout.{length, count-append, count_after_drop}
use orbita_backend.Sso.Client.{user_is_unavailable}
use orbita_backend.Users.{find_by_email}
use orbita_backend.Auth.Login.{
  Draw, PasswordLoginRequest, throttle_subject, matching_user, too_many_attempts,
}
use orbita_backend.Auth.Login.Sound.{login, limited, too_many, wrong_password, unusable, admitted}

-- one attempt: what its request draws, and the password
abbrev pub Guess : Type 0
Guess = Draw × String

module _ (crypto : Crypto) (settings : Settings) (email : String) (request : Request) where
  abbrev pub guess : Guess → PasswordLoginRequest
  guess (draw, password) = record { email = email; password = password }

  abbrev pub failures : Time → Db → ℕ
  failures cutoff db =
      count
        (of_pair (subject_key crypto settings (throttle_subject crypto settings email))
          (ip_key crypto settings request) cutoff)
        db.login_failures

  -- Each of the attempts in turn, from the first on, was answered 401, at a time from `cutoff` up to
  -- `now`.
  abbrev pub AllRefused : Time → List Guess → Db → Type 0
  AllRefused now [] db = Unit {0}
  AllRefused now ((draw, password) ∷ guesses) db =
      (draw.now ≤ now)
      × (leb (cutoff_of settings now) draw.now ≡ true)
      × ((login crypto settings draw (guess (draw, password)) request db).0
          ≡ err (http 401 "Invalid email or password"))
      × AllRefused now guesses (login crypto settings draw (guess (draw, password)) request db).1

  abbrev pub after_guesses : List Guess → Db → Db
  after_guesses [] db = db
  after_guesses ((draw, password) ∷ guesses) db =
      after_guesses guesses (login crypto settings draw (guess (draw, password)) request db).1

  -- A refused attempt is counted.
  counted :
      (now : Time) (draw : Draw) (password : String) (db : Db)
      → settings.enable_local_login ≡ true
      → draw.now ≤ now
      → leb (cutoff_of settings now) draw.now ≡ true
      → (login crypto settings draw (guess (draw, password)) request db).0
        ≡ err (http 401 "Invalid email or password")
      → failures
          (cutoff_of settings now)
          (login crypto settings draw (guess (draw, password)) request db).1
        ≡ failures (cutoff_of settings now) db + 1
  counted now draw password db on before recent refused =
      elim (Bool-cases (limited crypto settings draw (guess (draw, password)) request db)) [
        | inl full ↦
            let e = too_many crypto settings draw (guess (draw, password)) request db on full in
            absurd (ground (arith, e, refused))
        | inr free ↦
            elim (Option-cases (matching_user crypto settings password (find_by_email email db))) [
              | inl absent ↦
                  let e =
                    wrong_password crypto settings draw (guess (draw, password)) request db on free
                      absent in
                  let subject =
                    subject_key crypto settings (throttle_subject crypto settings email) in
                  let ip = ip_key crypto settings request in
                  let dropped = drop_expired (cutoff_of settings draw.now) db in
                  let kept =
                    count_after_drop subject ip (cutoff_of settings now)
                      (cutoff_of settings draw.now) db.login_failures (omega arith) in
                  let added =
                    count-append (of_pair subject ip (cutoff_of settings now))
                      dropped.login_failures
                      (attempt crypto settings draw.now (throttle_subject crypto settings email)
                          request
                        ∷ []) in
                  rw e (
                    ground (
                      arith,
                      kept,
                      added,
                      recent,
                      (eq_iff subject subject).1 refl,
                      (eq_iff ip ip).1 refl,
                    ))
              | inr (user, found) ↦ elim (Bool-cases (user_is_unavailable user)) [
                | inl out ↦
                    let e =
                      unusable crypto settings draw (guess (draw, password)) request db user on free
                        found out in
                    absurd (ground (arith, e, refused))
                | inr usable ↦
                    let (token, e) =
                      admitted crypto settings draw (guess (draw, password)) request db user on free
                        found usable in
                    absurd (ground (arith, e, refused))
              ]
            ]
      ]

  all_counted :
      (now : Time) (guesses : List Guess) (db : Db)
      → settings.enable_local_login ≡ true
      → AllRefused now guesses db
      → failures (cutoff_of settings now) (after_guesses guesses db)
        ≡ failures (cutoff_of settings now) db + length guesses
  all_counted now [] db on refused = omega arith
  all_counted now ((draw, password) ∷ guesses) db on (before, recent, answer, rest) =
      let one = counted now draw password db on before recent answer in
      let others =
        all_counted now guesses (login crypto settings draw (guess (draw, password)) request db).1
          on rest in
      ground (arith, one, others)

  -- With local login enabled: once attempts from one address for one email have been answered 401
  -- as often as the limit of the pair allows, all at times within the window, the next one is
  -- answered 429, whether its password is right or not.
  pub guessing_is_limited :
      (guesses : List Guess) (draw : Draw) (password : String) (db : Db)
      → settings.enable_local_login ≡ true
      → AllRefused draw.now guesses db
      → settings.moodle_login_pair_limit ≤ length guesses
      → (login crypto settings draw (guess (draw, password)) request (after_guesses guesses db)).0
        ≡ err (http 429 too_many_attempts)
  guessing_is_limited guesses draw password db on refused enough =
      let total = all_counted draw.now guesses db on refused in
      let rows = after_guesses guesses db in
      let full : limited crypto settings draw (guess (draw, password)) request rows ≡ true =
        ground (arith, total) in
      too_many crypto settings draw (guess (draw, password)) request rows on full
