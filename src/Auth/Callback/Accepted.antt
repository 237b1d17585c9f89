-- ===== src/Auth/Callback/Accepted.antt =====
-- The accounts of Microsoft that get a central session.
use orbita_backend.Prelude.{
  String, ◌<>◌, ◌≡◌, ap, subst, ◌∙◌, if◌then◌else◌, ◌⊎◌, inl, inr, refl, true, false, ◌==◌,
  text_comparable, same_option, same_option_iff, Option, none, some, arith, Bool-cases,
  Option-cases,
}
use orbita_backend.Data.{Db, Uuid, Time}
use orbita_backend.Http.{Request}
use orbita_backend.Settings.{Settings}
use orbita_backend.Crypto.{Crypto}
use orbita_backend.Exec.{Result, pure, run, ok}
use orbita_backend.Access.Audit.{audit}
use orbita_backend.Sso.Service.{Redirect, to_frontend}
use orbita_backend.Auth.External.{LoginDraw}
use orbita_backend.Auth.Microsoft.{
  MicrosoftClaims, Refusal, Identity, validate_microsoft_claims, expected_issuer, in_audience,
  is_expired, text_or_blank, tenant_not_allowed, not_accepted,
}
use orbita_backend.Auth.Callback.{handle_microsoft_callback, resolve_callback}

-- What the claims of an accepted account say.
pub record IsAccepted (settings : Settings) (now : Time) (claims : MicrosoftClaims) : Type 0 where
  pub tenant : claims.tid ≡ some settings.microsoft_tenant_id
  pub issuer : claims.iss ≡ some (expected_issuer settings)
  pub audience : in_audience settings.microsoft_client_id claims.aud ≡ true
  pub lasting : is_expired now claims.exp ≡ false
  pub account : (text_or_blank claims.oid == "") ≡ false
  pub address : (text_or_blank claims.email == "") ≡ false

validate_microsoft_claims-IsAccepted :
    (settings : Settings) (now : Time) (claims : MicrosoftClaims) (identity : Identity)
    → validate_microsoft_claims settings now claims ≡ inr identity
    → IsAccepted settings now claims
unfolding validate_microsoft_claims
validate_microsoft_claims-IsAccepted settings now claims identity h =
    elim (Bool-cases (same_option claims.tid (some settings.microsoft_tenant_id))) [
      | inr other ↦ absurd (ground (arith, other, h))
      | inl tenant ↦ elim (Bool-cases (same_option claims.iss (some (expected_issuer settings)))) [
        | inr other ↦ absurd (ground (arith, other, tenant, h))
        | inl issuer ↦ record {
          tenant = (same_option_iff claims.tid (some settings.microsoft_tenant_id)).0 tenant;
          issuer = (same_option_iff claims.iss (some (expected_issuer settings))).0 issuer;
          audience = ground (arith, tenant, issuer, h);
          lasting = ground (arith, tenant, issuer, h);
          account = ground (arith, tenant, issuer, h);
          address = ground (arith, tenant, issuer, h);
        }
      ]
    ]

Refusal-cases :
    (r : Refusal ⊎ Identity)
    → ((refusal : Refusal) × (r ≡ inl refusal)) ⊎ ((identity : Identity) × (r ≡ inr identity))
Refusal-cases (inl refusal) = inl (refusal, refl)
Refusal-cases (inr identity) = inr (identity, refl)

module _ (validate_email : String → Option String) (crypto : Crypto) (settings : Settings)
    (draw : LoginDraw) (code_id : Uuid) (fresh_code : String) (request : Request) (db : Db) where
  abbrev answer : Option MicrosoftClaims → Result (Redirect × Option String)
  answer userinfo =
      (run
        (handle_microsoft_callback validate_email crypto settings userinfo draw code_id fresh_code
          request)
        db).0

  disabled :
      (userinfo : Option MicrosoftClaims)
      → settings.enable_microsoft_login ≡ false
      → answer userinfo ≡ ok (to_frontend "/auth/callback?error=provider_unavailable", none)
  unfolding handle_microsoft_callback
  disabled userinfo off =
      ap
        (λ b.
          (run
            (if b
              then resolve_callback validate_email crypto settings userinfo draw code_id fresh_code
                  request
              else pure (to_frontend "/auth/callback?error=provider_unavailable", none))
            db).0)
        off

  begins :
      (userinfo : Option MicrosoftClaims)
      → settings.enable_microsoft_login ≡ true
      → answer userinfo
        ≡ (run
            (resolve_callback validate_email crypto settings userinfo draw code_id fresh_code
              request)
            db).0
  unfolding handle_microsoft_callback
  begins userinfo on =
      ap
        (λ b.
          (run
            (if b
              then resolve_callback validate_email crypto settings userinfo draw code_id fresh_code
                  request
              else pure (to_frontend "/auth/callback?error=provider_unavailable", none))
            db).0)
        on

  abbrev failed_page : Redirect
  failed_page = to_frontend ("/auth/callback?error=" <> "authentication_failed")

  refused_claims :
      (claims : MicrosoftClaims) (refusal : Refusal)
      → settings.enable_microsoft_login ≡ true
      → validate_microsoft_claims settings draw.identity.now claims ≡ inl refusal
      → answer (some claims) ≡ ok (failed_page, none)
  unfolding audit
  refused_claims claims not_accepted on e = begins (some claims) on ∙ rw e refl
  refused_claims claims (tenant_not_allowed tenant) on e = begins (some claims) on ∙ rw e refl

  -- The callback sets the cookie only for claims of the configured tenant and its issuer, for this
  -- client, that have not expired and that name an account and an address, and only while the login
  -- with Microsoft is enabled.
  pub callback_sound :
      (userinfo : Option MicrosoftClaims) (page : Redirect) (token : String)
      → (run
          (handle_microsoft_callback validate_email crypto settings userinfo draw code_id fresh_code
            request)
          db).0
        ≡ ok (page, some token)
      → (settings.enable_microsoft_login ≡ true)
        × ((claims : MicrosoftClaims) × (userinfo ≡ some claims)
            × IsAccepted settings draw.identity.now claims)
  callback_sound userinfo page token success = elim (Bool-cases settings.enable_microsoft_login) [
    | inr off ↦ let e = disabled userinfo off in absurd (ground (arith, e, success))
    | inl on ↦ elim (Option-cases userinfo) [
      | inl absent ↦
          let e = begins none on in
          let refused = subst (λ u. answer u ≡ ok (page, some token)) absent success in
          absurd (ground (arith, e, refused))
      | inr (claims, e) ↦
          let given = subst (λ u. answer u ≡ ok (page, some token)) e success in
          elim (Refusal-cases (validate_microsoft_claims settings draw.identity.now claims)) [
            | inl (refusal, refused) ↦
                let f = refused_claims claims refusal on refused in
                absurd (ground (arith, f, given))
            | inr (identity, valid) ↦ (
              on,
              (
                claims,
                e,
                validate_microsoft_claims-IsAccepted settings draw.identity.now claims identity
                    valid,
              ),
            )
          ]
    ]
  ]
