-- ===== src/Sso/Tokens/Jwks.antt =====
-- The published key set of app/modules/auth/jwt.py: a number as the base64url text of its bytes. The
-- numbers of the public key come from the package cryptography.
use Prim.Native.Nat.{ℕ, ◌+◌, ◌*◌, ◌/◌, ◌%◌, ◌<◌, ◌≤◌}
use mathlib.Core.Path.{◌≡◌, ap, ◌∙◌}
use mathlib.Core.Logic.{dite, ite}
use mathlib.Core.WellFounded
use mathlib.Core.WellFounded.{Acc, WellFounded, Acc-prop}
use native.Mathlib.Omega.{arith}
use native.Mathlib.Decide.{dec_lt}
use orbita_backend.Prelude.{String, true, leb, ltb, some, List, [], ◌∷◌, all}
use orbita_backend.Prelude.Queries.{map_option}
use orbita_backend.Prelude.Text.{strip_equals, padded}
use orbita_backend.Prelude.Number.{lt_wf}
use orbita_backend.Crypto.{Crypto, Bytes, IsUrlsafeBase64}

abbrev smaller_part : {n : ℕ} → 0 < n → n / 256 < n
smaller_part h = omega arith

-- the bytes of a number in front of others, none for 0
abbrev bytes_before : (n : ℕ) → Acc ◌<◌ n → Bytes → Bytes
bytes_before n (Acc.intro _ smaller) out =
    dite (dec_lt 0 n)
      (λ h. bytes_before (n / 256) (smaller (n / 256) (smaller_part h)) (n % 256 ∷ out)) (λ _. out)

-- `value.to_bytes((value.bit_length() + 7) // 8, byteorder="big")`
unfoldable pub to_bytes : ℕ → Bytes
to_bytes n = bytes_before n (lt_wf.apply n) []

-- `int.from_bytes(raw, "big")`, as a reader of the key set computes it
abbrev pub value_after : ℕ → Bytes → ℕ
value_after n [] = n
value_after n (b ∷ bytes) = value_after (256 * n + b) bytes

unfoldable pub encode_uint_as_base64url : Crypto → ℕ → String
unfolding to_bytes
encode_uint_as_base64url crypto value = strip_equals (crypto.urlsafe_b64encode (to_bytes value))

pub record Key : Type 0 where
  pub kty : String
  pub use_for : String
  pub alg : String
  pub kid : String
  pub n : String
  pub e : String

-- for the numbers of the public key, and the settings jwt_algorithm and jwt_kid
unfoldable pub get_jwks : Crypto → String → String → ℕ → ℕ → List Key
get_jwks crypto jwt_algorithm jwt_kid modulus exponent =
    record {
      kty = "RSA";
      use_for = "sig";
      alg = jwt_algorithm;
      kid = jwt_kid;
      n = encode_uint_as_base64url crypto modulus;
      e = encode_uint_as_base64url crypto exponent;
    }
    ∷ []

bytes_step :
    (n : ℕ) (w : Acc ◌<◌ n) (w' : Acc ◌<◌ (n / 256)) (out : Bytes)
    → bytes_before n w out ≡ ite (dec_lt 0 n) (bytes_before (n / 256) w' (n % 256 ∷ out)) out
bytes_step n (Acc.intro _ smaller) w' out = λ i.
    dite (dec_lt 0 n)
      (λ h.
        bytes_before (n / 256) (Acc-prop (smaller (n / 256) (smaller_part h)) w' i) (n % 256 ∷ out))
      (λ _. out)

-- What the bytes are read as, and that each is one.
abbrev Reads : ℕ → Bytes → Bytes → Type 0
Reads n out bytes =
    (value_after 0 bytes ≡ value_after n out)
    × (all (λ b. leb b 255) bytes ≡ all (λ b. leb b 255) out)

bytes_before-Reads : (n : ℕ) (w : Acc ◌<◌ n) (out : Bytes) → Reads n out (bytes_before n w out)
bytes_before-Reads n =
    WellFounded.induction lt_wf
      {C = λ n. (w : Acc ◌<◌ n) (out : Bytes) → Reads n out (bytes_before n w out)} n
      λ n ih w out.
        let whole : 256 * (n / 256) + n % 256 ≡ n = omega arith in
        let byte : n % 256 ≤ 255 = omega arith in
        let again =
          λ (h : 0 < n). ih (n / 256) (smaller_part h) (lt_wf.apply (n / 256)) (n % 256 ∷ out) in
        ground (arith, bytes_step n w (lt_wf.apply (n / 256)) out, whole, byte, again)

abbrev pub first_byte : Bytes → ℕ
first_byte [] = 0
first_byte (b ∷ bytes) = b

first_byte-bytes_before :
    (n : ℕ) → 0 < n → (w : Acc ◌<◌ n) (out : Bytes) → 0 < first_byte (bytes_before n w out)
first_byte-bytes_before n =
    WellFounded.induction lt_wf
      {C = λ n. 0 < n → (w : Acc ◌<◌ n) (out : Bytes) → 0 < first_byte (bytes_before n w out)} n
      λ n ih positive w out. elim (dec_lt 0 (n / 256)) [
        | yes more ↦
            let again =
              ih (n / 256) (smaller_part positive) more (lt_wf.apply (n / 256)) (n % 256 ∷ out) in
            ground (arith, bytes_step n w (lt_wf.apply (n / 256)) out, again, positive)
        | no last ↦
            let zero_part : n / 256 ≡ 0 = omega (arith, last) in
            let low : 0 < n % 256 = omega (arith, last, positive) in
            ground (
              arith,
              bytes_step n w (lt_wf.apply (n / 256)) out,
              positive,
              bytes_step (n / 256) (lt_wf.apply (n / 256)) (lt_wf.apply (n / 256 / 256))
                  (n % 256 ∷ out),
              zero_part,
              low,
            )
      ]

leading : (n : ℕ) → ltb 0 (first_byte (to_bytes n)) ≡ ltb 0 n
unfolding to_bytes
leading n = ground (
  arith,
  λ (positive : 0 < n). first_byte-bytes_before n positive (lt_wf.apply n) [],
  bytes_step n (lt_wf.apply n) (lt_wf.apply (n / 256)) [],
)

-- Where base64 gives back what it encoded, a number of the key set is read back from its text: its
-- bytes are bytes, they are read as the number, and a number that is not 0 has no leading zero byte.
pub decode-encode_uint :
    (crypto : Crypto) (n : ℕ)
    → IsUrlsafeBase64 crypto
    → (map_option
          (value_after 0)
          (crypto.urlsafe_b64decode (padded (encode_uint_as_base64url crypto n)))
        ≡ some n)
      × (all (λ b. leb b 255) (to_bytes n) ≡ true)
      × (ltb 0 (first_byte (to_bytes n)) ≡ ltb 0 n)
unfolding encode_uint_as_base64url to_bytes
decode-encode_uint crypto n base64 =
    let (read, bytes) = bytes_before-Reads n (lt_wf.apply n) [] in
    (
      ap (map_option (value_after 0)) (base64.decode-padded (bytes_before n (lt_wf.apply n) []))
          ∙ ap some read,
      bytes,
      leading n,
    )
