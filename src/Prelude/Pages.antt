-- ===== src/Prelude/Pages.antt =====
-- SQL's ORDER BY, LIMIT and OFFSET on the rows of a query, and what the pages of a listing hold. Rows
-- that the order does not tell apart stay as they stood.
use Prim.Native.Nat.{ℕ, zero, suc, ◌+◌, ◌≤◌, Ordering}
use Prim.Native.String.{String, compare}
use Prim.Native.String.compare
use mathlib.Core.Path.{◌≡◌, refl, ap, sym, subst, ◌∙◌}
use mathlib.Core.Logic.{inl, inr}
use mathlib.Core.Bool.{Bool, true, false}
use mathlib.Core.List.{List, [], ◌∷◌, ◌++◌}
use native.Mathlib.Omega.{arith}
use orbita_backend.Prelude.Tests.{if◌then◌else◌, Bool-cases}
use orbita_backend.Prelude.Tables.{count}

-- the order of texts
abbrev pub text_before : String → String → Bool
text_before a b = elim (compare a b) [ Ordering.lt ↦ true | _ ↦ false ]

module _ {ℓ} {A : Type ℓ} where
  abbrev pub take : ℕ → List A → List A
  take zero rows = []
  take (suc n) [] = []
  take (suc n) (x ∷ rows) = x ∷ take n rows

  abbrev pub drop : ℕ → List A → List A
  drop zero rows = rows
  drop (suc n) [] = []
  drop (suc n) (x ∷ rows) = drop n rows

  abbrev pub length : List A → ℕ
  length [] = 0
  length (x ∷ rows) = suc (length rows)

  -- LIMIT … OFFSET …
  abbrev pub page : ℕ → ℕ → List A → List A
  page limit offset rows = take limit (drop offset rows)

  -- the pages from an offset on, one behind the other, as many as asked for
  abbrev pub pages : (ℕ → List A) → ℕ → ℕ → ℕ → List A
  pages read limit zero offset = []
  pages read limit (suc n) offset = read offset ++ pages read limit n (offset + limit)

  take-drop : (n : ℕ) (rows : List A) → take n rows ++ drop n rows ≡ rows
  take-drop zero rows = refl
  take-drop (suc n) [] = refl
  take-drop (suc n) (x ∷ rows) = ap (λ r. x ∷ r) (take-drop n rows)

  drop_nil : (n : ℕ) → drop n [] ≡ []
  drop_nil zero = refl
  drop_nil (suc n) = refl

  drop-drop : (n m : ℕ) (rows : List A) → drop (n + m) rows ≡ drop m (drop n rows)
  drop-drop zero m rows = ground arith
  drop-drop (suc n) m [] = drop_nil (suc n + m) ∙ sym (drop_nil m)
  drop-drop (suc n) m (x ∷ rows) =
      let e : suc n + m ≡ suc (n + m) = omega arith in rw e (drop-drop n m rows)

  drop_all : (n : ℕ) (rows : List A) → length rows ≤ n → drop n rows ≡ []
  drop_all n [] h = drop_nil n
  drop_all zero (x ∷ rows) h = absurd (omega arith)
  drop_all (suc n) (x ∷ rows) h = drop_all n rows (omega arith)

  -- As many pages as there are rows, of one row at least, hold every row once and in order.
  pub pages-page :
      (limit n offset : ℕ) (rows : List A)
      → 1 ≤ limit
      → length rows ≤ offset + n
      → pages (λ o. page limit o rows) limit n offset ≡ drop offset rows
  pages-page limit zero offset rows some_rows h = sym (drop_all offset rows (omega arith))
  pages-page limit (suc n) offset rows some_rows h =
      rw
        (
          pages-page limit n (offset + limit) rows some_rows (omega arith),
          drop-drop offset limit rows,
        )
        (take-drop limit (drop offset rows))

module _ {ℓ} {A : Type ℓ} (before : A → A → Bool) where
  abbrev insert_row : A → List A → List A
  insert_row x [] = x ∷ []
  insert_row x (y ∷ rows) =
      let rest = insert_row x rows in if before y x then y ∷ rest else x ∷ y ∷ rows

  -- ORDER BY
  unfoldable pub order_by : List A → List A
  order_by [] = []
  order_by (x ∷ rows) = insert_row x (order_by rows)

  count-insert_row :
      (p : A → Bool) (x : A) (rows : List A) → count p (insert_row x rows) ≡ count p (x ∷ rows)
  count-insert_row p x [] = refl
  count-insert_row p x (y ∷ rows) = ground (arith, count-insert_row p x rows)

  -- The rows are the same.
  pub count-order_by : (p : A → Bool) (rows : List A) → count p (order_by rows) ≡ count p rows
  unfolding order_by
  count-order_by p [] = refl
  count-order_by p (x ∷ rows) =
      ground (arith, count-insert_row p x (order_by rows), count-order_by p rows)

  -- no row stands before one that the order puts first
  abbrev pub IsOrdered : List A → Type 0
  IsOrdered [] = Unit
  IsOrdered (x ∷ []) = Unit
  IsOrdered (x ∷ y ∷ rows) = (before y x ≡ false) × IsOrdered (y ∷ rows)

  module _ (asym : (x y : A) → before x y ≡ true → before y x ≡ false) where
    insert_row-IsOrdered : (x : A) (rows : List A) → IsOrdered rows → IsOrdered (insert_row x rows)
    insert_row-IsOrdered x [] h = tt
    insert_row-IsOrdered x (y ∷ []) h = elim (Bool-cases (before y x)) [
      | inl e ↦ rw e (asym y x e, tt)
      | inr e ↦ rw e (e, tt)
    ]
    insert_row-IsOrdered x (y ∷ z ∷ rows) (first_two, h) =
        let rest = insert_row-IsOrdered x (z ∷ rows) h in
        elim (Bool-cases (before y x)) [
          | inl e ↦ elim (Bool-cases (before z x)) [
            | inl f ↦
                rw (e, f)
                  (
                    first_two,
                    subst IsOrdered (ap (λ b. if b then z ∷ insert_row x rows else x ∷ z ∷ rows) f)
                        rest,
                  )
            | inr f ↦ rw (e, f) (asym y x e, (f, h))
          ]
          | inr e ↦ rw e (e, (first_two, h))
        ]

    -- The rows are in order.
    pub order_by-IsOrdered : (rows : List A) → IsOrdered (order_by rows)
    unfolding order_by
    order_by-IsOrdered [] = tt
    order_by-IsOrdered (x ∷ rows) = insert_row-IsOrdered x (order_by rows) (order_by-IsOrdered rows)

pub text_before_asym : (a b : String) → text_before a b ≡ true → text_before b a ≡ false
text_before_asym String.[] String.[] h = refl
text_before_asym String.[] (String.◌∷◌ d t) h = ground (arith, compare.cons-nil d t)
text_before_asym (String.◌∷◌ c s) String.[] h = absurd (ground (arith, compare.cons-nil c s))
text_before_asym (String.◌∷◌ c s) (String.◌∷◌ d t) h =
    ground (arith, compare.cons-cons c d s t, compare.cons-cons d c t s, text_before_asym s t)
