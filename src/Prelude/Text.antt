-- ===== src/Prelude/Text.antt =====
-- Python's `str.strip` and `str.lower` on ASCII letters and white space.
use Prim.Native.Nat.{ℕ, zero, suc, ◌+◌, ◌-◌, ◌%◌, ◌≤◌}
use Prim.Native.Char.{Char, char, code, IsScalar}
use Prim.Native.String.{String, ◌++◌ as ◌<>◌}
use text.Mathlib.TextLemmas.{nil-append, cons-append}
use mathlib.Core.Path.{◌≡◌, refl, ap, ◌∙◌}
use mathlib.Core.Logic.{dite}
use mathlib.Core.Bool.{Bool, ◌&&◌, ◌||◌}
use mathlib.Core.Option.{Option, none, some}
use mathlib.Core.List.{List, [], ◌∷◌}
use native.Mathlib.Omega.{arith}
use native.Mathlib.Decide.{dec_le}
use orbita_backend.Prelude.Tests.{◌==◌, number_comparable, text_comparable, if◌then◌else◌, leb}

-- The ASCII characters are scalar values.
pub ascii-IsScalar : (n : ℕ) → n ≤ 127 → IsScalar n
ascii-IsScalar n h = ground arith

-- `chr` of the lower-case letter of A … Z, and any other character itself
unfoldable pub lower_char : Char → Char
unfolding dec_le
lower_char c =
    dite (dec_le 65 (code c))
      (λ low.
        dite (dec_le (code c) 90)
          (λ high. char (code c + 32) (ascii-IsScalar (code c + 32) (omega arith))) (λ _. c))
      (λ _. c)

-- `s.lower()`
unfoldable pub lower : String → String
unfolding lower_char
lower String.[] = String.[]
lower (String.◌∷◌ c s) = String.◌∷◌ (lower_char c) (lower s)

-- ' ', \t, \n, \v, \f, \r
abbrev pub is_space : Char → Bool
is_space c = code c == 32 || (leb 9 (code c) && leb (code c) 13)

-- `s.lstrip()`
abbrev pub lstrip : String → String
lstrip String.[] = String.[]
lstrip (String.◌∷◌ c s) = let rest = lstrip s in if is_space c then rest else String.◌∷◌ c s

abbrev pub add_unless_blank : Char → String → String
add_unless_blank c String.[] = if is_space c then String.[] else String.◌∷◌ c String.[]
add_unless_blank c (String.◌∷◌ d s) = String.◌∷◌ c (String.◌∷◌ d s)

-- `s.rstrip()`
abbrev pub rstrip : String → String
rstrip String.[] = String.[]
rstrip (String.◌∷◌ c s) = add_unless_blank c (rstrip s)

-- SQL's `btrim(text)`, which removes spaces only
abbrev ltrim : String → String
ltrim String.[] = String.[]
ltrim (String.◌∷◌ c s) = let rest = ltrim s in if code c == 32 then rest else String.◌∷◌ c s

abbrev add_unless_space : Char → String → String
add_unless_space c String.[] = if code c == 32 then String.[] else String.◌∷◌ c String.[]
add_unless_space c (String.◌∷◌ d s) = String.◌∷◌ c (String.◌∷◌ d s)

abbrev rtrim : String → String
rtrim String.[] = String.[]
rtrim (String.◌∷◌ c s) = add_unless_space c (rtrim s)

unfoldable pub btrim : String → String
btrim s = rtrim (ltrim s)

-- `s.rstrip("/")`
abbrev add_unless_slash : Char → String → String
add_unless_slash c String.[] = if code c == b'/' then String.[] else String.◌∷◌ c String.[]
add_unless_slash c (String.◌∷◌ d s) = String.◌∷◌ c (String.◌∷◌ d s)

unfoldable pub strip_slashes : String → String
strip_slashes String.[] = String.[]
strip_slashes (String.◌∷◌ c s) = add_unless_slash c (strip_slashes s)

-- `s.split(",")`
abbrev add_to_first : Char → List String → List String
add_to_first c [] = String.◌∷◌ c String.[] ∷ []
add_to_first c (w ∷ ws) = String.◌∷◌ c w ∷ ws

unfoldable pub split_commas : String → List String
split_commas String.[] = String.[] ∷ []
split_commas (String.◌∷◌ c s) =
    let rest = split_commas s in if code c == b',' then String.[] ∷ rest else add_to_first c rest

-- `"@" in s`, and `s.rsplit("@", 1)[1]` where it holds: the text after the last at sign
unfoldable pub after_last_at : String → Option String
after_last_at String.[] = none
after_last_at (String.◌∷◌ c s) = elim (after_last_at s) [
  | some domain ↦ some domain
  | none ↦ if code c == b'@' then some s else none
]

-- `s.strip()`
unfoldable pub strip : String → String
strip s = rstrip (lstrip s)

-- `s.rstrip("=")`, and `s + "=" * (-len(s) % 4)`
abbrev add_unless_equals : Char → String → String
add_unless_equals c String.[] = if code c == b'=' then String.[] else String.◌∷◌ c String.[]
add_unless_equals c (String.◌∷◌ d s) = String.◌∷◌ c (String.◌∷◌ d s)

unfoldable pub strip_equals : String → String
strip_equals String.[] = String.[]
strip_equals (String.◌∷◌ c s) = add_unless_equals c (strip_equals s)

abbrev size : String → ℕ
size String.[] = 0
size (String.◌∷◌ c s) = suc (size s)

abbrev pub repeat_equals : ℕ → String
repeat_equals zero = ""
repeat_equals (suc n) = "=" <> repeat_equals n

unfoldable pub padded : String → String
padded s = s <> repeat_equals ((4 - size s % 4) % 4)

-- `text.partition(c)` where the character with this code occurs: what stands before it and after it
abbrev before_cut : Char → Option (String × String) → Option (String × String)
before_cut c none = none
before_cut c (some (a, b)) = some (String.◌∷◌ c a, b)

abbrev pub cut : ℕ → String → Option (String × String)
cut k String.[] = none
cut k (String.◌∷◌ c s) =
    let rest = before_cut c (cut k s) in if code c == k then some (String.[], s) else rest

-- `a, b, c, d = text.split(…, 3)`, or none for fewer parts
abbrev pub Four : Type 0
Four = String × String × String × String

abbrev last_cut : String → String → Option (String × String) → Option Four
last_cut a b none = none
last_cut a b (some (c, d)) = some (a, b, c, d)

abbrev second_cut : ℕ → String → Option (String × String) → Option Four
second_cut k a none = none
second_cut k a (some (b, rest)) = last_cut a b (cut k rest)

abbrev first_cut : ℕ → Option (String × String) → Option Four
first_cut k none = none
first_cut k (some (a, rest)) = second_cut k a (cut k rest)

abbrev pub split_four : ℕ → String → Option Four
split_four k text = first_cut k (cut k text)

abbrev pub has_code : ℕ → String → Bool
has_code k String.[] = Bool.false
has_code k (String.◌∷◌ c s) = code c == k || has_code k s

-- `text.endswith(suffix)`
abbrev pub ends_with : String → String → Bool
ends_with suffix String.[] = suffix == ""
ends_with suffix (String.◌∷◌ c s) = String.◌∷◌ c s == suffix || ends_with suffix s

-- `text.replace(old, new)`, for an `old` that is not empty
abbrev pub is_prefix : String → String → Bool
is_prefix String.[] s = Bool.true
is_prefix (String.◌∷◌ d old) String.[] = Bool.false
is_prefix (String.◌∷◌ d old) (String.◌∷◌ c s) = code c == code d && is_prefix old s

-- what stands after a prefix
abbrev pub drop_prefix : String → String → String
drop_prefix String.[] s = s
drop_prefix (String.◌∷◌ d old) String.[] = String.[]
drop_prefix (String.◌∷◌ d old) (String.◌∷◌ c s) = drop_prefix old s

-- from a count of characters that a match still covers
abbrev pub replace_after : String → String → ℕ → String → String
replace_after old new n String.[] = String.[]
replace_after old new (suc n) (String.◌∷◌ c s) = replace_after old new n s
replace_after old new zero (String.◌∷◌ c s) =
    let found = is_prefix old (String.◌∷◌ c s) in
    let rest = replace_after old new (if found then size old - 1 else 0) s in
    if found then new <> rest else String.◌∷◌ c rest

unfoldable pub replace : String → String → String → String
replace old new s = replace_after old new 0 s

pub cut-append :
    (c : Char) (a b : String)
    → has_code (code c) a ≡ Bool.false
    → cut (code c) (a <> String.◌∷◌ c b) ≡ some (a, b)
cut-append c String.[] b h = rw (nil-append (String.◌∷◌ c b)) (ground arith)
cut-append c (String.◌∷◌ d a) b h =
    rw (cons-append d a (String.◌∷◌ c b)) (ground (arith, cut-append c a b))

-- a text of one character in front of another text
pub char-append : (k : Char) (s : String) → (String.◌∷◌ k String.[] <> s) ≡ String.◌∷◌ k s
char-append k s = cons-append k String.[] s ∙ ap (λ t. String.◌∷◌ k t) (nil-append s)

-- Four parts are found again, where the first three do not have the separator.
pub split_four-append :
    (k : Char) (a b c d : String)
    → has_code (code k) a ≡ Bool.false
    → has_code (code k) b ≡ Bool.false
    → has_code (code k) c ≡ Bool.false
    → split_four (code k) (a <> String.◌∷◌ k (b <> String.◌∷◌ k (c <> String.◌∷◌ k d)))
      ≡ some (a, b, c, d)
split_four-append k a b c d ha hb hc =
    rw
      (
        cut-append k a (b <> String.◌∷◌ k (c <> String.◌∷◌ k d)) ha,
        cut-append k b (c <> String.◌∷◌ k d) hb,
        cut-append k c d hc,
      )
      refl

strip-lower_example : lower (strip "  Ana@Riwi.IO ") ≡ "ana@riwi.io"
unfolding lower strip
strip-lower_example = refl
