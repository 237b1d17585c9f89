-- ===== src/Tests/Adapter.antt =====
-- The theorems on the client adapter and the discovery document at concrete servers.
use orbita_backend.Prelude.{
  String, ◌≡◌, refl, true, false, ◌==◌, text_comparable, none, some, [], ◌∷◌, any, all, leb, ltb,
  if◌then◌else◌, arith,
}
use orbita_backend.Prelude.Queries.{map_option}
use orbita_backend.Prelude.Text.{replace, strip_slashes, padded}
use orbita_backend.Data.{App, User, AuthorizationCode}
use orbita_backend.Sso.Exchange.{released_clan}
use orbita_backend.Sso.Exchange.Atomic.{Redeemed, issued_claims}
use orbita_backend.Sso.Tokens.Jwks.{
  encode_uint_as_base64url, to_bytes, value_after, first_byte, decode-encode_uint,
}
use orbita_backend.Apps.{access_of}
use orbita_backend.Adapter.{
  OrbitaSsoConfig, Web, Url, Jwk, Discovery, answer, failure, Failure, fresh_client, exchange_code,
  verify_token, accept_discovery, value_error,
}
use orbita_backend.Adapter.Cached.{posts_secret, posts_secret_away}
use orbita_backend.Adapter.Posts.{exchange_code-posts_home, exchange_code-rejected}
use orbita_backend.Adapter.Accepts.{IsPublished, as_object, is_complete, exchange-verify_token}
use orbita_backend.Adapter.Served.{
  IsServer, issuer_of, orbita_configuration, as_document, accept_discovery-orbita_configuration,
}
use orbita_backend.Tests.Sample.{db, draw, exchange, settings}
use orbita_backend.Tests.Library.{crypto, crypto-IsLawful, crypto-IsUrlsafeBase64}
use orbita_backend.Tests.Sso.{exchanged}

abbrev config : OrbitaSsoConfig
config = record {
  base_url = "http://localhost:8000";
  client_id = "campus";
  client_secret = "secret";
  redirect_uri = "https://campus.riwi.io/callback";
}

abbrev home : Url
home = record { scheme = "http"; netloc = "localhost:8000" }

abbrev key : Jwk
key = record { kid = some "2026"; material = "" }

abbrev document : Discovery
document = as_document (orbita_configuration settings)

-- a server whose addresses are all at home
abbrev web : Web
web = record {
  urlparse = λ address. home;
  urlencode = λ fields. "";
  configuration = λ sent. some document;
  key_set = λ sent. some (record { keys = some (key ∷ []) });
  token = λ sent. some (some "token");
  catalog = λ sent. none;
  get_unverified_header = λ token. some (record { alg = some "RS256"; kid = some "2026" });
  decode = λ now token key audience. map_option as_object (crypto.decode now (some audience) token);
}

exchange_code-posts_home_example :
    any (posts_secret_away web config) (exchange_code web config 0 "code" fresh_client).1.sent
    ≡ false
exchange_code-posts_home_example =
    exchange_code-posts_home web config 0 "code" fresh_client refl refl

abbrev elsewhere : String
elsewhere = "https://evil.example/token"

-- a server whose document names a token endpoint elsewhere
abbrev forged_document : Discovery
forged_document field = if field == "token_endpoint" then some elsewhere else document field

abbrev forged_web : Web
forged_web = record web {
  urlparse = λ address.
      if address == elsewhere then record { scheme = "https"; netloc = "evil.example" } else home;
  configuration = λ sent. some forged_document;
}

far : replace "{client_id}" "client" elsewhere ≡ elsewhere
unfolding replace
far = refl

exchange_code-rejected_example :
    ((e : Failure) × ((exchange_code forged_web config 0 "code" fresh_client).0 ≡ failure e))
    × (any
          (posts_secret_away forged_web config)
          (exchange_code forged_web config 0 "code" fresh_client).1.sent
        ≡ false)
    × ((exchange_code forged_web config 0 "code" fresh_client).1.known_discovery
        ≡ some forged_document)
    × (any
          (posts_secret forged_web config (λ a. a == elsewhere))
          (exchange_code forged_web config 1 "again"
            (exchange_code forged_web config 0 "code" fresh_client).1).1.sent
        ≡ true)
exchange_code-rejected_example =
    exchange_code-rejected forged_web config 0 1 "code" "again" elsewhere forged_document refl refl
      far refl

server : IsServer web (issuer_of settings) config.base_url
server = record { scheme = λ path. refl; netloc = λ path. refl }

accept_discovery-orbita_configuration_example :
    accept_discovery web config document fresh_client
    ≡ (answer document, record fresh_client { known_discovery = some document })
unfolding strip_slashes
accept_discovery-orbita_configuration_example =
    accept_discovery-orbita_configuration web config settings server refl fresh_client refl

published : IsPublished web crypto "token" "2026" key
published = record { header = refl; decode-published = λ now audience. refl }

exchange-verify_token_example :
    (app : App) × (code : AuthorizationCode) × (user : User) × Redeemed crypto draw exchange db app
      code user
    × ((verify_token web config 1000000 "token"
          (record fresh_client { known_jwks = some (record { keys = some (key ∷ []) }) })).0
        ≡ (if is_complete
              (crypto.uuid_text user.id)
              user.email
              user.full_name
              (access_of user.id app db).roles
              draw.jti
            then answer (
                as_object (
                  issued_claims crypto draw app user
                    (access_of user.id app db)
                    (released_clan user app (access_of user.id app db) db)))
            else failure (value_error "Orbita JWT is missing required claims")))
exchange-verify_token_example =
    exchange-verify_token web config crypto draw exchange db "2026" key (key ∷ []) 1000000
      fresh_client exchanged refl crypto-IsLawful published (omega arith) refl

decode-encode_uint_example :
    (map_option
        (value_after 0)
        (crypto.urlsafe_b64decode (padded (encode_uint_as_base64url crypto 65537)))
      ≡ some 65537)
    × (all (λ b. leb b 255) (to_bytes 65537) ≡ true)
    × (ltb 0 (first_byte (to_bytes 65537)) ≡ ltb 0 65537)
decode-encode_uint_example = decode-encode_uint crypto 65537 crypto-IsUrlsafeBase64
