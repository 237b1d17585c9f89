-- ===== src/Apps/Policy/Resolution.antt =====
-- What resolve_app_access_policy answers, without its sorted sets and its order of tests.
use orbita_backend.Prelude.{
  String, ◌≡◌, refl, ap, Bool, true, false, not, ◌&&◌, ◌||◌, ◌==◌, text_comparable, is_empty,
  contains, all, List, [], ◌∷◌, inl, inr, Bool-cases, if◌then◌else◌, arith,
}
use orbita_backend.Prelude.Names.{sorted_set, add_name, contains-sorted_set}
use text.Mathlib.TextEquality.{eq_iff}
use orbita_backend.Apps.Policy.{resolve_app_access_policy, is_single}

-- all the names are the same one
abbrev pub agree : List String → Bool
agree [] = true
agree (n ∷ ns) = all (λ m. m == n) ns

abbrev pub is_member : List String → Bool
is_member global_roles = not (is_empty global_roles || contains "guest" global_roles)

-- the explicit roles, or else the mapped ones
abbrev pub candidates : List String → List String → List String
candidates explicit_roles mapped_roles =
    if is_empty explicit_roles then mapped_roles else explicit_roles

is_empty-add_name : (n : String) (ms : List String) → is_empty (add_name n ms) ≡ false
is_empty-add_name n [] = refl
is_empty-add_name n (m ∷ ms) = ground arith

is_single-add_name :
    (n : String) (ms : List String)
    → is_single (add_name n ms) ≡ (is_empty ms || (is_single ms && contains n ms))
is_single-add_name n [] = refl
is_single-add_name n (m ∷ []) = ground (arith, eq_iff n m)
is_single-add_name n (m ∷ m' ∷ ms) = ground (arith, is_empty-add_name n (m' ∷ ms))

is_empty-sorted_set : (ns : List String) → is_empty (sorted_set ns) ≡ is_empty ns
unfolding sorted_set
is_empty-sorted_set [] = refl
is_empty-sorted_set (n ∷ ns) = is_empty-add_name n (sorted_set ns)

all-contains :
    (n m : String) (ms : List String)
    → (m == n) ≡ false
    → all (λ x. x == m) ms ≡ true
    → contains n ms ≡ false
all-contains n m [] h a = refl
all-contains n m (x ∷ ms) h a =
    ground (arith, eq_iff x m, eq_iff n x, eq_iff m n, all-contains n m ms h)

agree_step :
    (n m : String) (ms : List String) → (agree (m ∷ ms) && contains n (m ∷ ms)) ≡ agree (n ∷ m ∷ ms)
agree_step n m ms = elim (Bool-cases (m == n)) [
  | inl same ↦
      ground (arith, eq_iff n m, eq_iff m n, ap (λ k. all (λ x. x == k) ms) ((eq_iff m n).0 same))
  | inr differ ↦ elim (Bool-cases (all (λ x. x == m) ms)) [
    | inl agreed ↦ ground (arith, eq_iff n m, eq_iff m n, all-contains n m ms differ agreed)
    | inr mixed ↦ ground arith
  ]
]

is_single-sorted_set :
    (n : String) (ns : List String) → is_single (sorted_set (n ∷ ns)) ≡ agree (n ∷ ns)
unfolding sorted_set
is_single-sorted_set n [] = refl
is_single-sorted_set n (m ∷ ms) =
    rw
      (
        is_single-add_name n (sorted_set (m ∷ ms)),
        is_empty-add_name m (sorted_set ms),
        is_single-sorted_set m ms,
        contains-sorted_set n (m ∷ ms),
      )
      (agree_step n m ms)

single_or_empty : (ns : List String) → (is_empty ns || is_single (sorted_set ns)) ≡ agree ns
single_or_empty [] = refl
single_or_empty (n ∷ ns) = is_single-sorted_set n ns

-- A user with a global role and without guest has the explicit roles, or where there is none the
-- mapped ones, unless the app allows one role and they are several; anyone else has none. The
-- migration access is given exactly to such a user without explicit and mapped roles, where the app
-- allows it.
pub resolve_app_access_policy_lem :
    (n : String) (global_roles explicit_roles mapped_roles : List String)
    (role_cardinality : String) (migration : Bool)
    → let access =
        resolve_app_access_policy global_roles explicit_roles mapped_roles role_cardinality
          migration in
      let names = candidates explicit_roles mapped_roles in
      (contains n access.roles ≡ (
        is_member global_roles
        && ((not (role_cardinality == "single") || agree names) && contains n names)))
      × (access.migration ≡ (is_member global_roles && (is_empty names && migration)))
unfolding resolve_app_access_policy
resolve_app_access_policy_lem n g e m c migration = ground (
  arith,
  is_empty-sorted_set e,
  is_empty-sorted_set m,
  single_or_empty e,
  single_or_empty m,
  contains-sorted_set n e,
  contains-sorted_set n m,
)
