-- ===== src/Auth/Moodle/Priority.antt =====
-- The role that the Moodle roles of a user map to.
use orbita_backend.Prelude.{
  ℕ, String, ◌≡◌, refl, ◌||◌, ◌==◌, text_comparable, leb, Option, none, some, List, [], ◌∷◌, ◌++◌,
  arith, if◌then◌else◌,
}
use orbita_backend.Auth.Moodle.{mapped_orbita_role, mapped_roles, has_role}

-- how much a role may do
abbrev pub rank : Option String → ℕ
rank none = 0
rank (some role) =
    if role == "admin"
    then 3
    else if role == "teamleader"
    then 2
    else if role == "coder"
    then 1
    else 0

abbrev pub higher : Option String → Option String → Option String
higher a b = if leb (rank b) (rank a) then a else b

has_role-append :
    (role : String) (xs ys : List String)
    → has_role role (mapped_roles (xs ++ ys))
      ≡ (has_role role (mapped_roles xs) || has_role role (mapped_roles ys))
has_role-append role [] ys = refl
has_role-append role (x ∷ xs) ys = ground (arith, has_role-append role xs ys)

-- The roles of two lists together map to the higher of the roles that each maps to: neither their
-- order nor how often they occur matters, and one more role never takes a higher one away.
pub mapped_orbita_role-append :
    (xs ys : List String)
    → mapped_orbita_role (xs ++ ys) ≡ higher (mapped_orbita_role xs) (mapped_orbita_role ys)
unfolding mapped_orbita_role
mapped_orbita_role-append xs ys =
    rw
      (
        has_role-append "admin" xs ys,
        has_role-append "teamleader" xs ys,
        has_role-append "coder" xs ys,
      )
      (ground arith)
