-- ===== src/Prelude/Queries.antt =====
-- Laws of the table operations: what a query by a key finds after an UPDATE, DELETE or INSERT.
use mathlib.Core.Path.{◌≡◌, refl}
use mathlib.Core.Bool.{Bool, true, false}
use mathlib.Core.Option.{Option, none, some}
use mathlib.Core.List.{List, [], ◌∷◌, ◌++◌}
use native.Mathlib.Omega.{arith}
use Prim.Native.Nat.{ℕ}
use orbita_backend.Prelude.Tests.{◌==◌, number_comparable, if◌then◌else◌}
use orbita_backend.Prelude.Tables.{first, any, delete, update}

abbrev pub map_option {ℓ κ} : {A : Type ℓ} {B : Type κ} → (A → B) → Option A → Option B
map_option f none = none
map_option f (some a) = some (f a)

-- `a`, or else the second answer
abbrev pub or_first {ℓ} : {A : Type ℓ} → Option A → Option A → Option A
or_first none b = b
or_first (some a) b = some a

module _ {ℓ} {A : Type ℓ} (key : A → ℕ) (f : A → A) (keeps : (x : A) → key (f x) ≡ key x) where
  -- A query by key after an UPDATE by key.
  pub first-update :
      (j k : ℕ) (rows : List A)
      → first (λ x. key x == j) (update (λ x. key x == k) f rows) ≡ (
          if j == k
          then map_option f (first (λ x. key x == j) rows)
          else first (λ x. key x == j) rows)
  first-update j k [] = ground arith
  first-update j k (x ∷ rows) = ground (arith, keeps x, first-update j k rows)

module _ {ℓ} {A : Type ℓ} where
  pub first-append :
      (p : A → Bool) (xs ys : List A) → first p (xs ++ ys) ≡ or_first (first p xs) (first p ys)
  first-append p [] ys = refl
  first-append p (x ∷ xs) ys = ground (arith, first-append p xs ys)

  pub any-append : (p : A → Bool) (xs ys : List A) → any p xs ≡ false → any p (xs ++ ys) ≡ any p ys
  any-append p [] ys h = refl
  any-append p (x ∷ xs) ys h = ground (arith, any-append p xs ys)

  pub any-delete_self : (p : A → Bool) (xs : List A) → any p (delete p xs) ≡ false
  any-delete_self p [] = refl
  any-delete_self p (x ∷ xs) = ground (arith, any-delete_self p xs)

  pub delete_absent : (p : A → Bool) (xs : List A) → any p xs ≡ false → delete p xs ≡ xs
  delete_absent p [] h = refl
  delete_absent p (x ∷ xs) h = ground (arith, delete_absent p xs)

module _ {ℓ} {A : Type ℓ} where
  pub delete-append :
      (p : A → Bool) (xs ys : List A) → delete p (xs ++ ys) ≡ delete p xs ++ delete p ys
  delete-append p [] ys = refl
  delete-append p (x ∷ xs) ys = ground (arith, delete-append p xs ys)

  pub delete_idem : (p : A → Bool) (xs : List A) → delete p (delete p xs) ≡ delete p xs
  delete_idem p xs = delete_absent p (delete p xs) (any-delete_self p xs)

  pub delete_then_add :
      (p : A → Bool) (xs : List A) (y : A)
      → p y ≡ true
      → delete p (delete p xs ++ y ∷ []) ≡ delete p xs
  delete_then_add p [] y h = ground arith
  delete_then_add p (x ∷ xs) y h = ground (arith, delete_then_add p xs y h)
