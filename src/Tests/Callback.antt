-- ===== src/Tests/Callback.antt =====
-- The theorem on the callback of Microsoft at a concrete token.
use orbita_backend.Prelude.{◌≡◌, refl, true, text_comparable, number_comparable, some, [], ◌∷◌}
use orbita_backend.Access.Audit.{audit}
use orbita_backend.Prelude.Text.{split_commas, strip, lower, btrim, after_last_at}
use orbita_backend.Data.{Db}
use orbita_backend.Exec.{run, ok}
use orbita_backend.Sso.Tokens.{create_access_token, access_claims}
use orbita_backend.Settings.{Settings, identity_email_domains}
use orbita_backend.Prelude.Names.{sorted_set, order_by_name}
use orbita_backend.Access.Startup.{bootstrap_platform_admins}
use orbita_backend.Access.Sources.{ensure_default_role}
use orbita_backend.Identity.{resolve, can_auto_link_email, is_institutional_email}
use orbita_backend.Sso.Service.{to_frontend}
use orbita_backend.Auth.Microsoft.{MicrosoftClaims, one, validate_microsoft_claims}
use orbita_backend.Auth.External.{LoginDraw}
use orbita_backend.Auth.Callback.{handle_microsoft_callback}
use orbita_backend.Auth.Callback.Accepted.{IsAccepted, callback_sound}
use orbita_backend.Auth.Login.{issue_central_session}
use orbita_backend.Tests.Sample.{db, settings, request}
use orbita_backend.Tests.Library.{crypto}

-- a tenant with a client, and the claims of its token for Ana
abbrev tenant_settings : Settings
tenant_settings = record settings { microsoft_tenant_id = "riwi"; microsoft_client_id = "orbita" }

abbrev claims : MicrosoftClaims
claims = record {
  tid = some "riwi";
  oid = some "oid";
  email = some "ana@riwi.io";
  iss = some "https://login.microsoftonline.com/riwi/v2.0";
  aud = one (some "orbita");
  exp = some 60;
  name = some "Ana";
}

abbrev microsoft_db : Db
microsoft_db = record db {
  providers =
      record { id = 70; code = "microsoft"; name = "Microsoft"; kind = "oidc"; active = true } ∷ [];
}

abbrev callback_draw : LoginDraw
callback_draw = record {
  identity = record { now = 0; user_id = 2; link_id = 80 };
  jti = "fresh";
  attribute_id = 90;
}

called_back :
    (run
      (handle_microsoft_callback
        (λ text. some text)
        crypto
        tenant_settings
        (some claims)
        callback_draw
        100
        "code"
        request)
      microsoft_db).0
    ≡ ok (to_frontend "/auth/callback", some "other")
unfolding handle_microsoft_callback validate_microsoft_claims resolve can_auto_link_email lower
    strip is_institutional_email after_last_at identity_email_domains split_commas btrim
    bootstrap_platform_admins sorted_set order_by_name issue_central_session ensure_default_role
    audit create_access_token access_claims
called_back = refl

callback_sound_example :
    (tenant_settings.enable_microsoft_login ≡ true)
    × ((given : MicrosoftClaims) × (some claims ≡ some given) × IsAccepted tenant_settings 0 given)
callback_sound_example =
    callback_sound (λ text. some text) crypto tenant_settings callback_draw 100 "code" request
      microsoft_db (some claims) (to_frontend "/auth/callback") "other" called_back
