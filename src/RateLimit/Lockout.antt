-- ===== src/RateLimit/Lockout.antt =====
-- When the limiter refuses.
use orbita_backend.Prelude.{
  ℕ, ◌+◌, ◌≤◌, String, ◌≡◌, refl, ◌∙◌, Bool, true, ◌||◌, text_comparable, ltb, leb, List, [], ◌∷◌,
  ◌++◌, count, delete, arith, all, suc, Bool-cases, if◌then◌else◌, inl, inr,
}
use text.Mathlib.TextEquality.{eq_iff}
use orbita_backend.Data.{Db, Time, MoodleLoginFailure}
use orbita_backend.Http.{Request}
use orbita_backend.Settings.{Settings}
use orbita_backend.Crypto.{Crypto}
use orbita_backend.Exec.{run, err, ok, session, rate_limited}
use orbita_backend.RateLimit.{
  ensure_allowed, record_attempt, of_pair, of_ip, subject_key, ip_key, cutoff_of, attempt,
  drop_expired,
}

abbrev pub length {ℓ} : {A : Type ℓ} → List A → ℕ
length [] = 0
length (x ∷ xs) = suc (length xs)

pub count-append :
    (p : MoodleLoginFailure → Bool) (rows more : List MoodleLoginFailure)
    → count p (rows ++ more) ≡ count p rows + count p more
count-append p [] more = ground arith
count-append p (r ∷ rows) more = ground (arith, count-append p rows more)

-- Dropping the expired rows takes none from the counts.
pub count-drop_expired :
    (s i : String) (cutoff : Time) (rows : List MoodleLoginFailure)
    → (count (of_pair s i cutoff) (delete (λ f. ltb f.failed_at cutoff) rows)
        ≡ count (of_pair s i cutoff) rows)
      × (count (of_ip i cutoff) (delete (λ f. ltb f.failed_at cutoff) rows)
          ≡ count (of_ip i cutoff) rows)
count-drop_expired s i cutoff [] = (refl, refl)
count-drop_expired s i cutoff (f ∷ rows) = ground (arith, count-drop_expired s i cutoff rows)

-- Nor does dropping the rows before an earlier time.
pub count_after_drop :
    (s i : String) (cutoff earlier : Time) (rows : List MoodleLoginFailure)
    → earlier ≤ cutoff
    → count (of_pair s i cutoff) (delete (λ f. ltb f.failed_at earlier) rows)
      ≡ count (of_pair s i cutoff) rows
count_after_drop s i cutoff earlier [] h = refl
count_after_drop s i cutoff earlier (f ∷ rows) h =
    ground (arith, count_after_drop s i cutoff earlier rows h)

module _ (crypto : Crypto) (settings : Settings) (username : String) (request : Request) where
  abbrev pub is_limited : Time → Db → Bool
  is_limited now db =
      leb settings.moodle_login_pair_limit (
        count
          (of_pair (subject_key crypto settings username) (ip_key crypto settings request)
            (cutoff_of settings now))
          db.login_failures)
      || leb settings.moodle_login_ip_limit (
          count (of_ip (ip_key crypto settings request) (cutoff_of settings now)) db.login_failures)

  -- the attempts at these times, in their order
  abbrev pub attempts : List Time → Db → Db
  attempts [] db = db
  attempts (t ∷ ts) db = attempts ts (run (record_attempt crypto settings t username request) db).1

  count-attempts :
      (cutoff : Time) (ts : List Time) (db : Db)
      → all (leb cutoff) ts ≡ true
      → count
          (of_pair (subject_key crypto settings username) (ip_key crypto settings request) cutoff)
          (attempts ts db).login_failures
        ≡ count
            (of_pair (subject_key crypto settings username) (ip_key crypto settings request) cutoff)
            db.login_failures
          + length ts
  unfolding record_attempt
  count-attempts cutoff [] db h = ground arith
  count-attempts cutoff (t ∷ ts) db h =
      let counted =
        count-append
          (of_pair (subject_key crypto settings username) (ip_key crypto settings request) cutoff)
          db.login_failures (attempt crypto settings t username request ∷ []) in
      ground (
        arith,
        counted,
        (eq_iff (subject_key crypto settings username) (subject_key crypto settings username)).1
            refl,
        (eq_iff (ip_key crypto settings request) (ip_key crypto settings request)).1 refl,
        count-attempts cutoff ts (run (record_attempt crypto settings t username request) db).1
            (ground arith),
      )

  -- The answer of the limiter, and the rows that it leaves.
  pub ensure_allowed_step :
      (now : Time) (db : Db)
      → ensure_allowed crypto settings now username request (session db) ≡ (
        if is_limited now db then err rate_limited else ok tt,
        session (drop_expired (cutoff_of settings now) db),
      )
  unfolding ensure_allowed
  ensure_allowed_step now db =
      let kept =
        count-drop_expired (subject_key crypto settings username) (ip_key crypto settings request)
          (cutoff_of settings now) db.login_failures in
      rw (kept.0, kept.1)
        (elim (Bool-cases (is_limited now db)) [
          | inl limited ↦ rw limited refl
          | inr free ↦ rw free refl
        ])

  -- The limiter refuses exactly where the pair of the user name and the address, or the address, has
  -- reached its limit within the window.
  pub ensure_allowed-is_limited :
      (now : Time) (db : Db)
      → (run (ensure_allowed crypto settings now username request) db).0
        ≡ (if is_limited now db then err rate_limited else ok tt)
  ensure_allowed-is_limited now db = rw (ensure_allowed_step now db) refl

  -- After as many attempts within the window as the limit of the pair allows, at whatever times and
  -- whatever was there before, the next one of the same user name and address is refused.
  pub lockout :
      (now : Time) (ts : List Time) (db : Db)
      → all (leb (cutoff_of settings now)) ts ≡ true
      → settings.moodle_login_pair_limit ≤ length ts
      → (run (ensure_allowed crypto settings now username request) (attempts ts db)).0
        ≡ err rate_limited
  lockout now ts db recent enough =
      let counted = count-attempts (cutoff_of settings now) ts db recent in
      let limited : is_limited now (attempts ts db) ≡ true = ground (arith, counted) in
      ensure_allowed-is_limited now (attempts ts db) ∙ rw limited refl
