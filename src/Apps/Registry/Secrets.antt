-- ===== src/Apps/Registry/Secrets.antt =====
-- The client secret of an app, before and after a rotation.
use Prim.Native.Char.{code}
use orbita_backend.Prelude.{
  String, ◌<>◌, ◌≡◌, refl, ap, ◌∙◌, Bool, false, ◌&&◌, ◌||◌, ◌==◌, text_comparable,
  number_comparable, ltb, arith,
}
use text.Mathlib.TextLemmas.{nil-append, cons-append}
use orbita_backend.Data.{Time, App}
use orbita_backend.Crypto.{Crypto}
use orbita_backend.Apps.Registry.{
  before_dollar, after_dollar, verify_secret, hash_client_secret, pbkdf2_iterations, rotated,
  verify_client_secret, previous_accepts,
}

abbrev pub has_dollar : String → Bool
has_dollar String.[] = false
has_dollar (String.◌∷◌ c s) = code c == b'$' || has_dollar s

dollar-append : (digest : String) → ("$" <> digest) ≡ String.◌∷◌ "$" digest
dollar-append digest =
    cons-append "$" String.[] digest ∙ ap (λ d. String.◌∷◌ "$" d) (nil-append digest)

before-append :
    (salt digest : String)
    → has_dollar salt ≡ false
    → before_dollar (salt <> ("$" <> digest)) ≡ salt
before-append String.[] digest h = rw (nil-append ("$" <> digest), dollar-append digest) refl
before-append (String.◌∷◌ c s) digest h =
    rw (cons-append c s ("$" <> digest)) (ground (arith, before-append s digest))

after-append :
    (salt digest : String)
    → has_dollar salt ≡ false
    → after_dollar (salt <> ("$" <> digest)) ≡ digest
after-append String.[] digest h = rw (nil-append ("$" <> digest), dollar-append digest) refl
after-append (String.◌∷◌ c s) digest h =
    rw (cons-append c s ("$" <> digest)) (ground (arith, after-append s digest))

module _ (crypto : Crypto) (salt raw : String) (no_dollar : has_dollar salt ≡ false)
    (salted : (salt == "") ≡ false) where
  -- A hash accepts exactly the secrets with the digest of the secret that it was made from.
  verify-hash :
      (secret : String)
      → (crypto.pbkdf2_hex raw salt pbkdf2_iterations == "") ≡ false
      → verify_secret crypto secret (hash_client_secret crypto salt raw) ≡ (
          crypto.pbkdf2_hex secret salt pbkdf2_iterations
          == crypto.pbkdf2_hex raw salt pbkdf2_iterations)
  unfolding verify_secret hash_client_secret
  verify-hash secret digested =
      let digest = crypto.pbkdf2_hex raw salt pbkdf2_iterations in
      rw (before-append salt digest no_dollar, after-append salt digest no_dollar, salted, digested)
        refl

  -- Where the salt has no dollar and is not empty, and the digest is not empty and the stored hash is
  -- not either: after a rotation the app accepts a secret at a time exactly if it has the digest of
  -- the new one, or if the grace period is not over and the app accepted it as its secret before.
  pub rotate_client_secret_lem :
      (app : App) (expires_at now : Time) (secret : String)
      → (crypto.pbkdf2_hex raw salt pbkdf2_iterations == "") ≡ false
      → (app.client_secret_hash == "") ≡ false
      → verify_client_secret crypto now (rotated crypto raw salt expires_at app) secret ≡ (
          crypto.pbkdf2_hex secret salt pbkdf2_iterations
            == crypto.pbkdf2_hex raw salt pbkdf2_iterations
          || (ltb now expires_at && verify_secret crypto secret app.client_secret_hash))
  unfolding verify_client_secret previous_accepts
  rotate_client_secret_lem app expires_at now secret digested stored =
      rw (verify-hash secret digested, stored) refl
