-- ===== src/Prelude/Tables.antt =====
-- A table is the list of its rows. These are the statements that the services send: SELECT, DELETE,
-- UPDATE and the counting and existence queries, with the condition as a Boolean test of a row.
use Prim.Native.Nat.{ℕ, suc}
use mathlib.Core.Bool.{Bool, true, false, not, ◌&&◌, ◌||◌}
use mathlib.Core.Option.{Option, none, some}
use mathlib.Core.List.{List, [], ◌∷◌, ◌++◌, map}
use orbita_backend.Prelude.Tests.{if◌then◌else◌, ◌==◌, Comparable}

module _ {ℓ} {A : Type ℓ} where
  -- SELECT … WHERE p
  abbrev pub select : (A → Bool) → List A → List A
  select p [] = []
  select p (x ∷ xs) = if p x then x ∷ select p xs else select p xs

  -- the first row of the result, or None
  abbrev pub first : (A → Bool) → List A → Option A
  first p [] = none
  first p (x ∷ xs) = if p x then some x else first p xs

  -- whether a row satisfies `p`
  abbrev pub any : (A → Bool) → List A → Bool
  any p [] = false
  any p (x ∷ xs) = p x || any p xs

  abbrev pub all : (A → Bool) → List A → Bool
  all p [] = true
  all p (x ∷ xs) = p x && all p xs

  -- SELECT count(*) WHERE p
  abbrev pub count : (A → Bool) → List A → ℕ
  count p [] = 0
  count p (x ∷ xs) = if p x then suc (count p xs) else count p xs

  -- DELETE … WHERE p
  abbrev pub delete : (A → Bool) → List A → List A
  delete p = select (λ x. not (p x))

  -- UPDATE … SET f WHERE p
  abbrev pub update : (A → Bool) → (A → A) → List A → List A
  update p f = map (λ x. if p x then f x else x)

  -- INSERT … ON CONFLICT DO NOTHING, for a row that `same` identifies by its key
  abbrev pub insert_new : (A → Bool) → A → List A → List A
  insert_new same row rows = if any same rows then rows else rows ++ row ∷ []

module _ {ℓ} {A : Type ℓ} ⦃c : Comparable A⦄ where
  -- `x in xs`
  abbrev pub contains : A → List A → Bool
  contains x = any (λ y. x == y)
