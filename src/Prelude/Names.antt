-- ===== src/Prelude/Names.antt =====
-- Python's `sorted(set(names))` and `set(a) == set(b)` on lists of texts. Texts are ordered by code
-- points, as Python orders them.
use Prim.Native.Nat.{Ordering}
use Prim.Native.String.{String, compare}
use mathlib.Core.Path.{◌≡◌, refl}
use mathlib.Core.Bool.{Bool, ◌&&◌, ◌||◌}
use mathlib.Core.List.{List, [], ◌∷◌}
use native.Mathlib.Omega.{arith}
use text.Mathlib.TextEquality.{eq_iff}
use orbita_backend.Prelude.Tests.{◌==◌, text_comparable}
use orbita_backend.Prelude.Tables.{contains, all}

abbrev pub add_name : String → List String → List String
add_name n [] = n ∷ []
add_name n (m ∷ ms) = elim (compare n m) [
  | Ordering.lt ↦ n ∷ m ∷ ms
  | Ordering.eq ↦ m ∷ ms
  | Ordering.gt ↦ m ∷ add_name n ms
]

-- `sorted(set(names))`
unfoldable pub sorted_set : List String → List String
sorted_set [] = []
sorted_set (n ∷ ns) = add_name n (sorted_set ns)

-- ORDER BY name
abbrev insert_name : String → List String → List String
insert_name n [] = n ∷ []
insert_name n (m ∷ ms) = elim (compare n m) [ Ordering.gt ↦ m ∷ insert_name n ms | _ ↦ n ∷ m ∷ ms ]

unfoldable pub order_by_name : List String → List String
order_by_name [] = []
order_by_name (n ∷ ns) = insert_name n (order_by_name ns)

-- `set(a) <= set(b)`
abbrev pub is_subset : List String → List String → Bool
is_subset a b = all (λ x. contains x b) a

-- `set(a) == set(b)`
abbrev pub same_set : List String → List String → Bool
same_set a b = is_subset a b && is_subset b a

-- Inserting a name adds it to the members and nothing else.
pub contains-add_name :
    (x n : String) (ms : List String) → contains x (add_name n ms) ≡ (x == n || contains x ms)
contains-add_name x n [] = refl
contains-add_name x n (m ∷ ms) =
    ground (arith, eq_iff n m, eq_iff x n, eq_iff x m, contains-add_name x n ms)

-- `sorted(set(names))` has the members of `names`.
pub contains-sorted_set :
    (x : String) (ns : List String) → contains x (sorted_set ns) ≡ contains x ns
unfolding sorted_set
contains-sorted_set x [] = refl
contains-sorted_set x (n ∷ ns) =
    ground (arith, contains-add_name x n (sorted_set ns), contains-sorted_set x ns)
