-- ===== src/Auth/Passwords/RoundTrip.antt =====
-- A password and the hash that was made of another one.
use orbita_backend.Prelude.{
  String, ◌<>◌, ◌≡◌, refl, sym, inl, inr, Bool-cases, ◌∙◌, ap, false, ◌==◌, text_comparable,
  number_comparable, same_list, some, arith,
}
use text.Mathlib.TextEquality.{eq_iff}
use orbita_backend.Prelude.Text.{split_four, split_four-append, char-append}
use orbita_backend.Prelude.Number.{str, int-str, has_code-str}
use orbita_backend.Crypto.{Crypto, Bytes, IsBase64}
use orbita_backend.Auth.Passwords.{iterations, hash_password, verify_password}

module _ (crypto : Crypto) (law : IsBase64 crypto) (salt : Bytes) (password : String) where
  parts :
      split_four b'$' (hash_password crypto salt password)
      ≡ some (
        "pbkdf2_sha256",
        str iterations,
        crypto.b64encode salt,
        crypto.b64encode (crypto.pbkdf2 password salt iterations),
      )
  unfolding hash_password
  parts =
      let digest = crypto.b64encode (crypto.pbkdf2 password salt iterations) in
      let third = String.◌∷◌ "$" digest in
      let second = String.◌∷◌ "$" (crypto.b64encode salt <> third) in
      rw
        (
          char-append "$" digest,
          char-append "$" (crypto.b64encode salt <> third),
          char-append "$" (str iterations <> second),
        )
        (split_four-append "$" "pbkdf2_sha256" (str iterations) (crypto.b64encode salt) digest refl
          (has_code-str b'$' iterations (omega arith)) (law.no_dollar salt))

  not_blank : (hash_password crypto salt password == "") ≡ false
  not_blank = elim (Bool-cases (hash_password crypto salt password == "")) [
    | inr other ↦ other
    | inl blank ↦
        let empty = (eq_iff (hash_password crypto salt password) "").0 blank in
        let none_left = sym (ap (split_four b'$') empty) ∙ parts in
        absurd (ground (arith, none_left))
  ]

  -- Where base64 gives back what it encoded: the hash of a password accepts exactly the passwords with
  -- the same digest under its salt.
  pub verify_password-hash_password :
      (other : String)
      → verify_password crypto other (some (hash_password crypto salt password))
        ≡ same_list (crypto.pbkdf2 password salt iterations) (crypto.pbkdf2 other salt iterations)
  unfolding verify_password
  verify_password-hash_password other =
      let digest = crypto.pbkdf2 password salt iterations in
      rw (not_blank, parts, law.decode-encode salt, int-str iterations, law.decode-encode digest)
        refl
