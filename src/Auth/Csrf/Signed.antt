-- ===== src/Auth/Csrf/Signed.antt =====
-- The CSRF tokens that verify_csrf_token accepts, whoever made them.
use text.Mathlib.TextEquality.{eq_iff}
use orbita_backend.Prelude.{
  ℕ, ◌≤◌, String, ◌≡◌, ◌⊎◌, refl, sym, ap, ◌∙◌, subst, true, false, ◌==◌, text_comparable,
  number_comparable, Option, none, some, inl, inr, Bool-cases, Option-cases, arith, same_list_iff,
}
use orbita_backend.Prelude.Text.{split_four, padded}
use orbita_backend.Prelude.Number.{int}
use orbita_backend.Data.{Time}
use orbita_backend.Settings.{Settings, csrf_signing_secret}
use orbita_backend.Crypto.{Crypto, Bytes}
use orbita_backend.Auth.Passwords.{same_bytes}
use orbita_backend.Auth.Csrf.{timestamp, csrf_payload, verify_csrf_token}

module _ (crypto : Crypto) (settings : Settings) (now : Time) where
  -- A header with four parts: the id of the session, a time that has not passed, a nonce that is not
  -- empty, and the HMAC of the three under the secret of the server.
  pub record Signed (header session : Option String) (token jti raw_expiry nonce signature : String)
      (expires_at : ℕ) : Type 0 where
    pub sent : header ≡ some token
    pub own : session ≡ some jti
    pub split : split_four b'.' token ≡ some (jti, raw_expiry, nonce, signature)
    pub named : (jti == "") ≡ false
    pub drawn : (nonce == "") ≡ false
    pub read : int raw_expiry ≡ some expires_at
    pub in_time : timestamp now ≤ expires_at
    pub signed :
        crypto.urlsafe_b64decode (padded signature)
        ≡ some
            (crypto.hmac_digest (csrf_signing_secret settings) (csrf_payload jti raw_expiry nonce))

  abbrev pub IsSigned : Option String → Option String → Type 0
  IsSigned header session =
      (token : String) × (jti : String) × (raw_expiry : String) × (nonce : String)
      × (signature : String) × (expires_at : ℕ) × Signed header session token jti raw_expiry nonce
          signature expires_at

same_bytes_iff :
    (o : Option Bytes) (b : Bytes)
    → (same_bytes o b ≡ true → o ≡ some b) × (o ≡ some b → same_bytes o b ≡ true)
same_bytes_iff none b = (λ h. cc, λ h. cc)
same_bytes_iff (some a) b =
    (λ h. ap (λ x. some x) ((same_list_iff a b).0 h), λ h. (same_list_iff a b).1 cc)

module _ (crypto : Crypto) (settings : Settings) (now : Time) where
  verify_csrf-IsSigned :
      (header session : Option String)
      → verify_csrf_token crypto settings now header session ≡ true
      → IsSigned crypto settings now header session
  unfolding verify_csrf_token
  verify_csrf-IsSigned none session h = absurd (ground arith)
  verify_csrf-IsSigned (some token) none h = absurd (ground arith)
  verify_csrf-IsSigned (some token) (some session) h = elim (Option-cases (split_four b'.' token)) [
    | inl e ↦ absurd (ground arith)
    | inr ((jti, raw, nonce, signature), split) ↦ elim (Option-cases (int raw)) [
      | inl e ↦ absurd (ground arith)
      | inr (deadline, read) ↦
          let mac =
            same_bytes_iff (crypto.urlsafe_b64decode (padded signature))
              (crypto.hmac_digest (csrf_signing_secret settings) (csrf_payload jti raw nonce)) in
          let same : jti ≡ session = (eq_iff jti session).0 (ground arith) in
          let named : (session == "") ≡ false = ground arith in
          (
            token,
            jti,
            raw,
            nonce,
            signature,
            deadline,
            record {
              sent = refl;
              own = ap (λ x. some x) (sym same);
              split = split;
              named = subst (λ x. (x == "") ≡ false) (sym same) named;
              drawn = ground arith;
              read = read;
              in_time = ground arith;
              signed = mac.0 (ground arith);
            },
          )
    ]
  ]

  IsSigned-verify_csrf :
      (header session : Option String)
      → IsSigned crypto settings now header session
      → verify_csrf_token crypto settings now header session ≡ true
  unfolding verify_csrf_token
  IsSigned-verify_csrf header session (token, jti, raw, nonce, signature, deadline, s) =
      let mac =
        same_bytes_iff (crypto.urlsafe_b64decode (padded signature))
          (crypto.hmac_digest (csrf_signing_secret settings) (csrf_payload jti raw nonce)) in
      let filled : (token == "") ≡ false = elim (Bool-cases (token == "")) [
        | inr other ↦ other
        | inl blank ↦
            let none_left = sym (ap (split_four b'.') ((eq_iff token "").0 blank)) ∙ s.split in
            absurd (ground (arith, none_left))
      ] in
      rw
        (
          s.sent,
          s.own,
          filled,
          s.split,
          s.named,
          s.read,
          s.drawn,
          mac.1 s.signed,
          (eq_iff jti jti).1 refl,
        )
        (ground (arith, s.in_time))

  -- The token is signed and accepted, or it is neither.
  pub verify_csrf_token_cases :
      (header session : Option String)
      → (IsSigned crypto settings now header session
          × (verify_csrf_token crypto settings now header session ≡ true))
        ⊎ ((¬ IsSigned crypto settings now header session)
            × (verify_csrf_token crypto settings now header session ≡ false))
  verify_csrf_token_cases header session =
      elim (Bool-cases (verify_csrf_token crypto settings now header session)) [
        | inl e ↦ inl (verify_csrf-IsSigned header session e, e)
        | inr e ↦ inr (λ signed. let accepted = IsSigned-verify_csrf header session signed in cc, e)
      ]
