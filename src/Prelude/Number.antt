-- ===== src/Prelude/Number.antt =====
-- Python's `str(n)` and `int(text)` on natural numbers, in ASCII digits. A negative number is none:
-- the callers refuse it.
use Prim.Native.Nat.{ℕ, zero, suc, ◌+◌, ◌-◌, ◌*◌, ◌/◌, ◌%◌, ◌<◌}
use Prim.Native.Char.{Char, char, code}
use Prim.Native.String.{String}
use mathlib.Core.Path.{◌≡◌, refl, ◌∙◌, subst}
use mathlib.Core.Logic.{dite, ite}
use mathlib.Core.Bool.{Bool, true, false, ◌&&◌}
use mathlib.Core.Option.{Option, none, some}
use mathlib.Core.WellFounded
use mathlib.Core.WellFounded.{Acc, WellFounded, Acc-prop}
use native.Mathlib.Omega.{arith}
use native.Mathlib.Decide.{dec_lt}
use orbita_backend.Prelude.Tests.{◌==◌, number_comparable, if◌then◌else◌, leb}
use orbita_backend.Prelude.Text.{
  strip, has_code, add_unless_blank, rstrip, is_space, ascii-IsScalar,
}

acc_below : (k n : ℕ) → n < k → Acc ◌<◌ n
acc_below zero n h = absurd (omega arith)
acc_below (suc k) n h = Acc.intro n λ m lt. acc_below k m (omega arith)

-- the last digit of a number
abbrev last_digit : ℕ → Char
last_digit n = char (48 + n % 10) (ascii-IsScalar (48 + n % 10) (omega arith))

abbrev tenth_lt : {n : ℕ} → 0 < n → n / 10 < n
tenth_lt h = omega arith

pub lt_wf : WellFounded ◌<◌
unfolding acc_below
lt_wf = record { apply = λ n. acc_below (suc n) n (omega arith) }

-- the digits of a number in front of a text, none for 0
abbrev digits : (n : ℕ) → Acc ◌<◌ n → String → String
digits n (Acc.intro _ smaller) out =
    dite (dec_lt 0 n)
      (λ h. digits (n / 10) (smaller (n / 10) (tenth_lt h)) (String.◌∷◌ (last_digit n) out))
      (λ _. out)

-- `str(n)`
unfoldable pub str : ℕ → String
unfolding lt_wf acc_below
str zero = "0"
str (suc n) = digits (suc n) (lt_wf.apply (suc n)) String.[]

abbrev is_digit : Char → Bool
is_digit c = leb 48 (code c) && leb (code c) 57

-- Digits with single underscores between them, from a value and whether a digit came last.
unfoldable pub digits_value : ℕ → Bool → String → Option ℕ
digits_value n last String.[] = if last then some n else none
digits_value n last (String.◌∷◌ c s) = elim (is_digit c) [
  | true ↦ digits_value (10 * n + (code c - 48)) true s
  | false ↦ elim (code c == 95 && last) [ true ↦ digits_value n false s | false ↦ none ]
]

abbrev signed : String → Option ℕ
signed String.[] = none
signed (String.◌∷◌ c s) =
    if code c == 43 then digits_value 0 false s else digits_value 0 false (String.◌∷◌ c s)

-- `int(text)`
unfoldable pub int : String → Option ℕ
unfolding digits_value
int text = signed (strip text)

digits_step :
    (n : ℕ) (w : Acc ◌<◌ n) (w' : Acc ◌<◌ (n / 10)) (out : String)
    → digits n w out ≡ ite (dec_lt 0 n) (digits (n / 10) w' (String.◌∷◌ (last_digit n) out)) out
digits_step n (Acc.intro _ smaller) w' out = λ i.
    dite (dec_lt 0 n)
      (λ h.
        digits (n / 10) (Acc-prop (smaller (n / 10) (tenth_lt h)) w' i)
          (String.◌∷◌ (last_digit n) out))
      (λ _. out)

-- a last digit, read after the digits before it
digits_value-last_digit :
    (n m : ℕ) (b : Bool) (out : String)
    → digits_value n b (String.◌∷◌ (last_digit m) out) ≡ digits_value (10 * n + m % 10) true out
unfolding digits_value
digits_value-last_digit n m b out = ground arith

step :
    (n : ℕ)
    → ((k : ℕ)
        → k < n
        → (m : ℕ) (w : Acc ◌<◌ k) (out : String)
        → digits_value 0 false (digits k w (String.◌∷◌ (last_digit m) out))
          ≡ digits_value (10 * k + m % 10) true out)
    → (out : String) → 0 < n
    → digits_value 0 false (digits (n / 10) (lt_wf.apply (n / 10)) (String.◌∷◌ (last_digit n) out))
      ≡ digits_value n true out
step n ih out h =
    let whole : 10 * (n / 10) + n % 10 ≡ n = omega arith in
    subst
      (λ k.
        digits_value 0 false
          (digits (n / 10) (lt_wf.apply (n / 10)) (String.◌∷◌ (last_digit n) out))
        ≡ digits_value k true out)
      whole (ih (n / 10) (tenth_lt h) n (lt_wf.apply (n / 10)) out)

-- Reading a number that was printed in front of a digit.
digits_value-digits :
    (n m : ℕ) (w : Acc ◌<◌ n) (out : String)
    → digits_value 0 false (digits n w (String.◌∷◌ (last_digit m) out))
      ≡ digits_value (10 * n + m % 10) true out
digits_value-digits n =
    WellFounded.induction lt_wf
      {C = λ n.
        (m : ℕ) (w : Acc ◌<◌ n) (out : String)
        → digits_value 0 false (digits n w (String.◌∷◌ (last_digit m) out))
          ≡ digits_value (10 * n + m % 10) true out}
      n
      λ n ih m w out.
        let rest = String.◌∷◌ (last_digit m) out in
        ground (
          arith,
          digits_step n w (lt_wf.apply (n / 10)) rest,
          digits_value-last_digit 0 m false out,
          digits_value-last_digit (n / 10) n true rest,
          digits_value-last_digit n m true out,
          step n ih rest,
        )

abbrev all_digits : String → Bool
all_digits String.[] = true
all_digits (String.◌∷◌ c s) = is_digit c && all_digits s

all_digits-digits :
    (n : ℕ) (w : Acc ◌<◌ n) (out : String)
    → all_digits out ≡ true
    → all_digits (digits n w out) ≡ true
all_digits-digits n =
    WellFounded.induction lt_wf
      {C = λ n.
        (w : Acc ◌<◌ n) (out : String) → all_digits out ≡ true → all_digits (digits n w out) ≡ true}
      n
      λ n ih w out h.
        let rest = String.◌∷◌ (last_digit n) out in
        let written : all_digits rest ≡ true = ground (arith, h) in
        ground (
          arith,
          digits_step n w (lt_wf.apply (n / 10)) out,
          h,
          λ (p : 0 < n). ih (n / 10) (tenth_lt p) (lt_wf.apply (n / 10)) rest written,
        )

add_unless_blank_digit :
    (c : Char) (s : String) → is_space c ≡ false → add_unless_blank c s ≡ String.◌∷◌ c s
add_unless_blank_digit c String.[] h = rw h refl
add_unless_blank_digit c (String.◌∷◌ d s) h = refl

rstrip_digits : (s : String) → all_digits s ≡ true → rstrip s ≡ s
rstrip_digits String.[] h = refl
rstrip_digits (String.◌∷◌ c s) h =
    rw (rstrip_digits s (ground arith)) (add_unless_blank_digit c s (ground arith))

strip_digits : (s : String) → all_digits s ≡ true → strip s ≡ s
unfolding strip
strip_digits String.[] h = refl
strip_digits (String.◌∷◌ c s) h =
    let other : is_space c ≡ false = ground arith in rw other (rstrip_digits (String.◌∷◌ c s) h)

signed_digits : (s : String) → all_digits s ≡ true → signed s ≡ digits_value 0 false s
unfolding digits_value
signed_digits String.[] h = refl
signed_digits (String.◌∷◌ c s) h = ground arith

int_digits : (s : String) → all_digits s ≡ true → int s ≡ digits_value 0 false s
unfolding int
int_digits s h = rw (strip_digits s h) (signed_digits s h)

digits_value_written :
    (n : ℕ) → 0 < n → digits_value 0 false (digits n (lt_wf.apply n) String.[]) ≡ some n
unfolding digits_value
digits_value_written n h = ground (
  arith,
  digits_step n (lt_wf.apply n) (lt_wf.apply (n / 10)) String.[],
  step n (λ k lt m w out. digits_value-digits k m w out) String.[] h,
)

-- A number is read back from its print.
pub int-str : (n : ℕ) → int (str n) ≡ some n
unfolding str digits_value
int-str zero = int_digits "0" refl
int-str (suc n) =
    int_digits (digits (suc n) (lt_wf.apply (suc n)) String.[])
      (all_digits-digits (suc n) (lt_wf.apply (suc n)) String.[] refl)
    ∙ digits_value_written (suc n) (omega arith)

has_code_digits : (k : ℕ) (s : String) → k < 48 → all_digits s ≡ true → has_code k s ≡ false
has_code_digits k String.[] low h = refl
has_code_digits k (String.◌∷◌ c s) low h = ground (arith, has_code_digits k s low)

-- No separator occurs in the print of a number.
pub has_code-str : (k n : ℕ) → k < 48 → has_code k (str n) ≡ false
unfolding str
has_code-str k zero low = has_code_digits k "0" low refl
has_code-str k (suc n) low =
    has_code_digits k (digits (suc n) (lt_wf.apply (suc n)) String.[]) low
      (all_digits-digits (suc n) (lt_wf.apply (suc n)) String.[] refl)
