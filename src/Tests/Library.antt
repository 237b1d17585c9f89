-- ===== src/Tests/Library.antt =====
-- A concrete stand-in for the cryptographic libraries: digests that keep the text, and two tokens that
-- decode to the claims that they stand for.
use orbita_backend.Prelude.{
  String, ◌≡◌, refl, sym, ap, Bool, true, false, ◌&&◌, ◌==◌, text_comparable, number_comparable,
  same_option, same_option_iff, same_list, same_list_iff, Comparable, not, ◌↔◌, Option, none, some,
  List, [], ◌∷◌, if◌then◌else◌, arith,
}
use text.Mathlib.TextEquality.{eq_iff}
use orbita_backend.Crypto.{Crypto, Claims, no_claims, IsLawful, IsBase64, IsUrlsafeBase64}
use orbita_backend.Tests.Unary.{
  size, unary, read_unary, read_unary-unary, read_unary-padded, unary_plain,
}
use orbita_backend.Sso.Tokens.{app_claims}

instance abbrev names_comparable : Comparable (List String)
names_comparable = record { same = same_list; same_iff = same_list_iff }

abbrev same_flag : Bool → Bool → Bool
same_flag true b = b
same_flag false b = not b

same_flag_iff : (a b : Bool) → (same_flag a b ≡ true) ↔ (a ≡ b)
same_flag_iff a b = ground arith

instance abbrev flag_comparable : Comparable Bool
flag_comparable = record { same = same_flag; same_iff = same_flag_iff }

-- the claims of the app token of Ana, and of her central session
abbrev pub issued : Claims
issued = app_claims 0 "1" "ana@riwi.io" "Ana" "campus" ("editor" ∷ []) false none "fresh"

abbrev pub central : Claims
central = record no_claims { sub = some "1" }

-- The claims of a migration token.
abbrev pub migrating : Claims
migrating = app_claims 0 "1" "ana@riwi.io" "Ana" "campus" [] true none "earlier"

-- The claims of a central session.
abbrev pub signed_in : Claims
signed_in = record no_claims {
  sub = some "1";
  email = some "ana@riwi.io";
  roles = some ("coder" ∷ []);
  auth_method = some "local";
  jti = some "jti";
  exp = some 3600;
}

abbrev same_claims : Claims → Claims → Bool
same_claims c d =
    same_option c.sub d.sub
    && (same_option c.email d.email
        && (same_option c.name d.name
            && (same_option c.aud d.aud
                && (same_option c.roles d.roles
                    && (same_option c.auth_method d.auth_method
                        && (same_option c.jti d.jti
                            && (same_option c.exp d.exp
                                && (same_option c.migration d.migration
                                    && same_option c.clan d.clan))))))))

abbrev decode_text : String → Option Claims
decode_text text =
    if text == "token"
    then some issued
    else if text == "cookie"
    then some central
    else if text == "migration"
    then some migrating
    else if text == "session"
    then some signed_in
    else none

abbrev pub crypto : Crypto
crypto = record {
  sha256 = λ text. text;
  pbkdf2_hex = λ secret salt iterations. secret;
  hmac_hex = λ secret text. text;
  hmac_digest = λ secret text. size text ∷ [];
  pbkdf2 = λ password salt iterations. size password ∷ [];
  b64encode = unary;
  b64decode = read_unary;
  urlsafe_b64encode = unary;
  urlsafe_b64decode = read_unary;
  encode = λ claims.
      if same_claims claims issued
      then "token"
      else if same_claims claims signed_in
      then "session"
      else "other";
  decode = λ now audience text. decode_text text;
  parse_uuid = λ text. if text == "1" then some 1 else none;
  uuid_text = λ id. if id == 1 then "1" else "0";
}

is_issued : (c : Claims) → same_claims c issued ≡ true → c ≡ issued
is_issued c h = ground (
  arith,
  same_option_iff c.sub issued.sub,
  same_option_iff c.email issued.email,
  same_option_iff c.name issued.name,
  same_option_iff c.aud issued.aud,
  same_option_iff c.roles issued.roles,
  same_option_iff c.auth_method issued.auth_method,
  same_option_iff c.jti issued.jti,
  same_option_iff c.exp issued.exp,
  same_option_iff c.migration issued.migration,
  same_option_iff c.clan issued.clan,
)

is_signed_in : (c : Claims) → same_claims c signed_in ≡ true → c ≡ signed_in
is_signed_in c h = ground (
  arith,
  same_option_iff c.sub signed_in.sub,
  same_option_iff c.email signed_in.email,
  same_option_iff c.name signed_in.name,
  same_option_iff c.aud signed_in.aud,
  same_option_iff c.roles signed_in.roles,
  same_option_iff c.auth_method signed_in.auth_method,
  same_option_iff c.jti signed_in.jti,
  same_option_iff c.exp signed_in.exp,
  same_option_iff c.migration signed_in.migration,
  same_option_iff c.clan signed_in.clan,
)

abbrev text_for : Bool → Bool → String
text_for b c = if b then "token" else if c then "session" else "other"

token_issued : (b c : Bool) → "token" ≡ text_for b c → b ≡ true
token_issued true c h = refl
token_issued false true h = let same = (eq_iff "token" "session").1 h in absurd (ground arith)
token_issued false false h = let same = (eq_iff "token" "other").1 h in absurd (ground arith)

session_issued : (b c : Bool) → "session" ≡ text_for b c → c ≡ true
session_issued b true h = refl
session_issued true false h = let same = (eq_iff "session" "token").1 h in absurd (ground arith)
session_issued false false h = let same = (eq_iff "session" "other").1 h in absurd (ground arith)

-- The token of Ana decodes to the claims that it was made from.
pub crypto-IsLawful : IsLawful crypto "token"
crypto-IsLawful = record {
  decode-encode = λ now payload exp made dated soon.
      let same = token_issued (same_claims payload issued) (same_claims payload signed_in) made in
      ap some (sym (is_issued payload same));
}

-- So does the token of her central session.
pub session-IsLawful : IsLawful crypto "session"
session-IsLawful = record {
  decode-encode = λ now payload exp made dated soon.
      let same = session_issued (same_claims payload issued) (same_claims payload signed_in) made in
      ap some (sym (is_signed_in payload same));
}

pub crypto-IsBase64 : IsBase64 crypto
crypto-IsBase64 = record {
  decode-encode = read_unary-unary;
  no_dollar = unary_plain b'$' (omega arith);
}

pub crypto-IsUrlsafeBase64 : IsUrlsafeBase64 crypto
crypto-IsUrlsafeBase64 = record { decode-padded = read_unary-padded }
