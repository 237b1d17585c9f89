-- ===== src/Auth/Csrf/RoundTrip.antt =====
-- A CSRF token that was issued, and the sessions that it is accepted for.
use text.Mathlib.TextEquality.{eq_iff}
use text.Mathlib.TextLemmas.{append_assoc}
use orbita_backend.Prelude.{
  ◌+◌, String, ◌<>◌, ◌≡◌, refl, sym, ap, ◌∙◌, subst, false, ◌&&◌, ◌==◌, text_comparable, leb, some,
  inl, inr, Bool-cases, arith, same_list_iff, number_comparable,
}
use orbita_backend.Prelude.Text.{has_code, split_four, split_four-append, char-append, strip_equals}
use orbita_backend.Prelude.Number.{str, int-str, has_code-str}
use orbita_backend.Data.{Time, minutes}
use orbita_backend.Settings.{Settings, csrf_signing_secret}
use orbita_backend.Crypto.{Crypto, IsUrlsafeBase64}
use orbita_backend.Auth.Csrf.{
  timestamp, csrf_ttl_minutes, csrf_payload, issue_csrf_token, verify_csrf_token,
}

module _ (crypto : Crypto) (settings : Settings) (law : IsUrlsafeBase64 crypto) (now : Time)
    (nonce jti : String) (plain : has_code b'.' jti ≡ false)
    (fresh : has_code b'.' nonce ≡ false) where
  abbrev expiry : String
  expiry = str (timestamp (now + minutes csrf_ttl_minutes))

  abbrev signature : String
  signature = strip_equals (
      crypto.urlsafe_b64encode
        (crypto.hmac_digest (csrf_signing_secret settings) (csrf_payload jti expiry nonce)))

  parts :
      split_four b'.' (issue_csrf_token crypto settings now nonce jti)
      ≡ some (jti, expiry, nonce, signature)
  unfolding issue_csrf_token
  parts =
      let third = String.◌∷◌ "." signature in
      let second = String.◌∷◌ "." (nonce <> third) in
      rw
        (
          append_assoc jti ("." <> (expiry <> ("." <> nonce))) ("." <> signature),
          append_assoc "." (expiry <> ("." <> nonce)) ("." <> signature),
          append_assoc expiry ("." <> nonce) ("." <> signature),
          append_assoc "." nonce ("." <> signature),
          char-append "." signature,
          char-append "." (nonce <> third),
          char-append "." (expiry <> second),
        )
        (split_four-append "." jti expiry nonce signature plain
          (has_code-str b'.' (timestamp (now + minutes csrf_ttl_minutes)) (omega arith)) fresh)

  not_blank : (issue_csrf_token crypto settings now nonce jti == "") ≡ false
  not_blank = elim (Bool-cases (issue_csrf_token crypto settings now nonce jti == "")) [
    | inr other ↦ other
    | inl blank ↦
        let empty = (eq_iff (issue_csrf_token crypto settings now nonce jti) "").0 blank in
        let none_left = sym (ap (split_four b'.') empty) ∙ parts in
        absurd (ground (arith, none_left))
  ]

  -- Where base64 gives back what it encoded, and the session id and the nonce are not empty and
  -- have no dot: a CSRF token is accepted exactly for the session that it was issued for, and until
  -- the second in which it expires.
  pub verify_csrf-issue_csrf :
      (later : Time) (other : String)
      → (jti == "") ≡ false
      → (nonce == "") ≡ false
      → verify_csrf_token crypto settings later
          (some (issue_csrf_token crypto settings now nonce jti))
          (some other)
        ≡ (jti == other && leb (timestamp later) (timestamp (now + minutes csrf_ttl_minutes)))
  unfolding verify_csrf_token
  verify_csrf-issue_csrf later other named drawn =
      let deadline = timestamp (now + minutes csrf_ttl_minutes) in
      let signed =
        same_list_iff
          (crypto.hmac_digest (csrf_signing_secret settings) (csrf_payload jti expiry nonce))
          (crypto.hmac_digest (csrf_signing_secret settings) (csrf_payload jti expiry nonce)) in
      rw
        (
          not_blank,
          parts,
          int-str deadline,
          drawn,
          law.decode-padded
              (crypto.hmac_digest (csrf_signing_secret settings) (csrf_payload jti expiry nonce)),
          signed.1 refl,
        )
        (elim (Bool-cases (jti == other)) [
          | inr apart ↦ rw apart (ground arith)
          | inl same ↦
              let this : (other == "") ≡ false =
                subst (λ x. (x == "") ≡ false) ((eq_iff jti other).0 same) named in
              rw (same, this) (ground arith)
        ])
