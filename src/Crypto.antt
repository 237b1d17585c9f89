-- ===== src/Crypto.antt =====
-- The cryptographic libraries that the program calls and does not implement: hashlib, hmac, base64
-- and python-jose. They are parameters. `IsLawful` states what python-jose documents of a token that
-- was signed with the key: decoding gives the claims back while the token is not expired and the
-- audience is the one asked for.
use orbita_backend.Prelude.{ℕ, ◌≤◌, ◌*◌, String, Bool, false, Option, none, some, List, ◌≡◌}
use orbita_backend.Prelude.Text.{has_code, padded, strip_equals}
use orbita_backend.Data.{Time}

-- The payload of a JWT, as the dict that a decoder returns: a claim that is missing is none.
pub record Claims : Type 0 where
  pub sub : Option String
  pub email : Option String
  pub name : Option String
  pub aud : Option String
  pub roles : Option (List String)
  pub auth_method : Option String
  pub jti : Option String
  -- seconds since the epoch
  pub exp : Option ℕ
  pub migration : Option Bool
  pub clan : Option String

-- `{}`, which both decoders return for a token that is refused
abbrev pub no_claims : Claims
no_claims = record {
  sub = none;
  email = none;
  name = none;
  aud = none;
  roles = none;
  auth_method = none;
  jti = none;
  exp = none;
  migration = none;
  clan = none;
}

-- bytes
abbrev pub Bytes : Type 0
Bytes = List ℕ

pub record Crypto : Type 0 where
  -- hashlib.sha256(text.encode("utf-8")).hexdigest()
  pub sha256 : String → String
  -- hashlib.pbkdf2_hmac("sha256", secret, bytes.fromhex(salt), iterations).hex()
  pub pbkdf2_hex : String → String → ℕ → String
  -- hmac.new(secret, text, hashlib.sha256).hexdigest()
  pub hmac_hex : String → String → String
  -- hmac.new(secret, text, hashlib.sha256).digest()
  pub hmac_digest : String → String → Bytes
  -- hashlib.pbkdf2_hmac("sha256", password, salt, iterations), for a positive count
  pub pbkdf2 : String → Bytes → ℕ → Bytes
  -- base64.b64encode and base64.b64decode, and the same with the URL-safe alphabet; none where the
  -- decoder raises binascii.Error
  pub b64encode : Bytes → String
  pub b64decode : String → Option Bytes
  pub urlsafe_b64encode : Bytes → String
  pub urlsafe_b64decode : String → Option Bytes
  -- jwt.encode(payload, key, …), and jwt.decode(token, key, …) at a time, for an audience
  pub encode : Claims → String
  pub decode : Time → Option String → String → Option Claims
  -- uuid.UUID(text), and str(id)
  pub parse_uuid : String → Option ℕ
  pub uuid_text : ℕ → String

-- The token decodes to the claims that it was made from.
pub record IsLawful (c : Crypto) (token : String) : Type 0 where
  pub decode-encode :
      (now : Time) (payload : Claims) (exp : ℕ)
      → token ≡ c.encode payload
      → payload.exp ≡ some exp
      → now ≤ exp * 1000000
      → c.decode now payload.aud token ≡ some payload

-- What base64 documents: encoding and then decoding gives the bytes back, and the alphabet of the
-- encoder has letters, digits, `+`, `/` and `=` only, so that no dollar occurs.
pub record IsBase64 (c : Crypto) : Type 0 where
  pub decode-encode : (bytes : Bytes) → c.b64decode (c.b64encode bytes) ≡ some bytes
  pub no_dollar : (bytes : Bytes) → has_code b'$' (c.b64encode bytes) ≡ false

-- The URL-safe encoder pads to a multiple of four: without its padding, and padded again, its text
-- decodes to the bytes.
pub record IsUrlsafeBase64 (c : Crypto) : Type 0 where
  pub decode-padded :
      (bytes : Bytes)
      → c.urlsafe_b64decode (padded (strip_equals (c.urlsafe_b64encode bytes))) ≡ some bytes
