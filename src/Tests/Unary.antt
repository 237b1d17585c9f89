-- ===== src/Tests/Unary.antt =====
-- A text for every list of bytes: each byte in unary, with `b` at its end. It stands for base64.
use Prim.Native.Char.{Char, code}
use text.Mathlib.TextLemmas.{nil-append, cons-append}
use orbita_backend.Prelude.{
  ℕ, zero, suc, ◌+◌, ◌<◌, String, ◌<>◌, ◌≡◌, refl, ap, ◌∙◌, false, ◌==◌, number_comparable, Option,
  none, some, List, [], ◌∷◌, arith, if◌then◌else◌,
}
use orbita_backend.Prelude.Text.{has_code, strip_equals, padded, repeat_equals}

abbrev pub size : String → ℕ
size String.[] = 0
size (String.◌∷◌ c s) = suc (size s)

abbrev ones : ℕ → String → String
ones zero t = t
ones (suc n) t = String.◌∷◌ "a" (ones n t)

abbrev write : List ℕ → String → String
write [] t = t
write (n ∷ ns) t = ones n (String.◌∷◌ "b" (write ns t))

abbrev pub unary : List ℕ → String
unary ns = write ns ""

abbrev put : ℕ → Option (List ℕ) → Option (List ℕ)
put n none = none
put n (some ns) = some (n ∷ ns)

abbrev read : ℕ → String → Option (List ℕ)
read n String.[] = some []
read n (String.◌∷◌ c s) =
    let more = read (suc n) s in
    let rest = put n (read 0 s) in
    if code c == b'a' then more else if code c == b'b' then rest else some []

abbrev pub read_unary : String → Option (List ℕ)
read_unary = read 0

read-ones : (m n : ℕ) (t : String) → read m (ones n t) ≡ read (n + m) t
read-ones m zero t = let same : m ≡ 0 + m = omega arith in ap (λ k. read k t) same
read-ones m (suc n) t = ground (arith, read-ones (suc m) n t)

read-write : (ns : List ℕ) (t : String) → read 0 t ≡ some [] → read 0 (write ns t) ≡ some ns
read-write [] t h = h
read-write (n ∷ ns) t h =
    read-ones 0 n (String.◌∷◌ "b" (write ns t)) ∙ ground (arith, read-write ns t h)

pub read_unary-unary : (ns : List ℕ) → read_unary (unary ns) ≡ some ns
read_unary-unary ns = read-write ns "" refl

plain_ones : (k n : ℕ) (t : String) → k < 97 → has_code k t ≡ false → has_code k (ones n t) ≡ false
plain_ones k zero t h plain = plain
plain_ones k (suc n) t h plain = ground (arith, plain_ones k n t h plain)

pub unary_plain : (k : ℕ) → k < 97 → (ns : List ℕ) → has_code k (unary ns) ≡ false
unary_plain k h [] = refl
unary_plain k h (n ∷ ns) =
    plain_ones k n (String.◌∷◌ "b" (unary ns)) h (ground (arith, unary_plain k h ns))

-- no `=` at the end
unstripped :
    (c : Char) (s : String)
    → (code c == b'=') ≡ false
    → strip_equals s ≡ s
    → strip_equals (String.◌∷◌ c s) ≡ String.◌∷◌ c s
unfolding strip_equals
unstripped c String.[] h same = ground (arith, h)
unstripped c (String.◌∷◌ d s) h same = rw same refl

strip_ones : (n : ℕ) (t : String) → strip_equals t ≡ t → strip_equals (ones n t) ≡ ones n t
strip_ones zero t h = h
strip_ones (suc n) t h = unstripped "a" (ones n t) refl (strip_ones n t h)

strip_unary : (ns : List ℕ) → strip_equals (unary ns) ≡ unary ns
unfolding strip_equals
strip_unary [] = refl
strip_unary (n ∷ ns) =
    strip_ones n (String.◌∷◌ "b" (unary ns)) (unstripped "b" (unary ns) refl (strip_unary ns))

append_ones : (n : ℕ) (t u : String) → (ones n t <> u) ≡ ones n (t <> u)
append_ones zero t u = refl
append_ones (suc n) t u =
    cons-append "a" (ones n t) u ∙ ap (λ s. String.◌∷◌ "a" s) (append_ones n t u)

append_write : (ns : List ℕ) (t u : String) → (write ns t <> u) ≡ write ns (t <> u)
append_write [] t u = refl
append_write (n ∷ ns) t u =
    append_ones n (String.◌∷◌ "b" (write ns t)) u
    ∙ ap (ones n)
        (cons-append "b" (write ns t) u ∙ ap (λ s. String.◌∷◌ "b" s) (append_write ns t u))

read_equals : (k : ℕ) → read 0 (repeat_equals k) ≡ some []
read_equals zero = refl
read_equals (suc k) = rw (cons-append "=" "" (repeat_equals k)) refl

read-append : (ns : List ℕ) (k : ℕ) → read_unary (unary ns <> repeat_equals k) ≡ some ns
read-append ns k =
    rw (append_write ns "" (repeat_equals k), nil-append (repeat_equals k))
      (read-write ns (repeat_equals k) (read_equals k))

pub read_unary-padded : (ns : List ℕ) → read_unary (padded (strip_equals (unary ns))) ≡ some ns
unfolding padded
read_unary-padded ns = rw (strip_unary ns) (read-append ns _)
