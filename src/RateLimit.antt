-- ===== src/RateLimit.antt =====
-- app/modules/auth/rate_limit.py: MoodleLoginRateLimiter
pub mod Lockout
use orbita_backend.Prelude.{
  ℕ, ◌-◌, String, Bool, ◌&&◌, ◌||◌, ◌==◌, text_comparable, ltb, leb, Option, none, some, List, [],
  ◌∷◌, ◌++◌, count, delete,
}
use orbita_backend.Prelude.Text.{strip, lower}
use orbita_backend.Data.{Db, Time, minutes, MoodleLoginFailure}
use orbita_backend.Http.{Request}
use orbita_backend.Settings.{Settings, rate_limit_signing_secret}
use orbita_backend.Crypto.{Crypto}
use orbita_backend.Exec.{Action, gets, modify, commit, raise_if, rate_limited, ◌>>=◌, ◌>>◌}

abbrev host_or_unknown : Option String → String
host_or_unknown none = "unknown"
host_or_unknown (some host) = host

-- the two counting queries
abbrev pub of_pair : String → String → Time → MoodleLoginFailure → Bool
of_pair subject_hash ip_hash cutoff f =
    f.subject_hash == subject_hash && (f.ip_hash == ip_hash && leb cutoff f.failed_at)

abbrev pub of_ip : String → Time → MoodleLoginFailure → Bool
of_ip ip_hash cutoff f = f.ip_hash == ip_hash && leb cutoff f.failed_at

-- the DELETE of expired rows
abbrev pub drop_expired : Time → Db → Db
drop_expired cutoff db = record db {
  login_failures = delete (λ f. ltb f.failed_at cutoff) db.login_failures;
}

-- the start of the window at a time; no clock shows a time within the first window of the epoch
abbrev pub cutoff_of : Settings → Time → Time
cutoff_of settings now = now - minutes settings.moodle_login_window_minutes

module _ (crypto : Crypto) (settings : Settings) where
  abbrev hash_value : String → String
  hash_value value = crypto.hmac_hex (rate_limit_signing_secret settings) value

  -- MoodleLoginRateLimiter._keys
  abbrev pub subject_key : String → String
  subject_key username = hash_value (lower (strip username))

  abbrev pub ip_key : Request → String
  ip_key request = hash_value (host_or_unknown request.client_host)

  unfoldable pub ensure_allowed : Time → String → Request → Action Unit
  ensure_allowed now username request = do
    modify (drop_expired (cutoff_of settings now))
    pair_failures ← gets (λ db.
        count (of_pair (subject_key username) (ip_key request) (cutoff_of settings now))
          db.login_failures)
    ip_failures ←
        gets (λ db. count (of_ip (ip_key request) (cutoff_of settings now)) db.login_failures)
    commit
    raise_if
        (leb settings.moodle_login_pair_limit pair_failures
          || leb settings.moodle_login_ip_limit ip_failures)
        rate_limited

  abbrev pub attempt : Time → String → Request → MoodleLoginFailure
  attempt now username request = record {
    subject_hash = subject_key username;
    ip_hash = ip_key request;
    failed_at = now;
  }

  -- `now` is the server default of `failed_at`
  unfoldable pub record_attempt : Time → String → Request → Action Unit
  record_attempt now username request = do
    modify (λ db. record db {
      login_failures = db.login_failures ++ attempt now username request ∷ [];
    })
    commit

  abbrev pub record_failure : Time → String → Request → Action Unit
  record_failure = record_attempt

  unfoldable pub clear_success : String → Request → Action Unit
  clear_success username request = do
    modify (λ db. record db {
      login_failures =
          delete (λ f. f.subject_hash == subject_key username && f.ip_hash == ip_key request)
            db.login_failures;
    })
    commit
