-- ===== src/Auth/Passwords.antt =====
-- app/modules/auth/passwords.py
pub mod RoundTrip
use orbita_backend.Prelude.{
  ℕ, String, ◌<>◌, Bool, false, ◌==◌, text_comparable, number_comparable, same_list, Option, none,
  some, if◌then◌else◌,
}
use orbita_backend.Prelude.Text.{Four, split_four}
use orbita_backend.Prelude.Number.{str, int}
use orbita_backend.Crypto.{Crypto, Bytes}

-- ITERATIONS
abbrev pub iterations : ℕ
iterations = 600000

abbrev pub same_bytes : Option Bytes → Bytes → Bool
same_bytes none b = false
same_bytes (some a) b = same_list a b

module _ (crypto : Crypto) where
  -- `salt` is the value of os.urandom(16)
  unfoldable pub hash_password : Bytes → String → String
  hash_password salt password =
      let digest = crypto.pbkdf2 password salt iterations in
      "pbkdf2_sha256"
      <> ("$"
          <> (str iterations
              <> ("$" <> (crypto.b64encode salt <> ("$" <> crypto.b64encode digest)))))

  -- the comparison, for a salt and a count that were read; a count of 0 is a ValueError of hashlib
  abbrev verify_with : String → String → Option Bytes → Option ℕ → Bool
  verify_with password digest (some salt) (some count) =
      if count == 0
      then false
      else same_bytes (crypto.b64decode digest) (crypto.pbkdf2 password salt count)
  verify_with password digest _ _ = false

  abbrev verify_parts : String → Option Four → Bool
  verify_parts password none = false
  verify_parts password (some (algorithm, count, salt, digest)) =
      if algorithm == "pbkdf2_sha256"
      then verify_with password digest (crypto.b64decode salt) (int count)
      else false

  unfoldable pub verify_password : String → Option String → Bool
  verify_password password none = false
  verify_password password (some encoded) =
      if encoded == "" then false else verify_parts password (split_four b'$' encoded)
