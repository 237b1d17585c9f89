-- ===== src/Auth/Guard/Paths.antt =====
-- The path of an app as a text: how it ends, and which fixed paths it differs from.
use text.Mathlib.TextLemmas.{nil-append, cons-append, head-eq_of_cons-eq, tail-eq_of_cons-eq}
use orbita_backend.Prelude.{
  String, ◌<>◌, ◌≡◌, refl, ap, ◌∙◌, false, ◌==◌, text_comparable, number_comparable, arith, inl,
  inr, Bool-cases,
}
use orbita_backend.Prelude.Text.{has_code, ends_with}
use Prim.Native.Char.{Char, code}

pub cons_differs :
    (c d : Char) (s t : String)
    → (code c == code d) ≡ false
    → (String.◌∷◌ c s == String.◌∷◌ d t) ≡ false
cons_differs c d s t h = elim (Bool-cases (String.◌∷◌ c s == String.◌∷◌ d t)) [
  | inr e ↦ e
  | inl e ↦
      let same =
        ap code
          (head-eq_of_cons-eq ((text_comparable.same_iff (String.◌∷◌ c s) (String.◌∷◌ d t)).0 e)) in
      ground (arith, same, h)
]

pub cons_same : (c : Char) (s t : String) → (String.◌∷◌ c s == String.◌∷◌ c t) ≡ (s == t)
cons_same c s t = elim (Bool-cases (s == t)) [
  | inl e ↦
      let longer =
        (text_comparable.same_iff (String.◌∷◌ c s) (String.◌∷◌ c t)).1
          (ap (λ u. String.◌∷◌ c u) ((text_comparable.same_iff s t).0 e)) in
      rw (e, longer) refl
  | inr e ↦ elim (Bool-cases (String.◌∷◌ c s == String.◌∷◌ c t)) [
    | inl longer ↦
        let tails =
          tail-eq_of_cons-eq
            ((text_comparable.same_iff (String.◌∷◌ c s) (String.◌∷◌ c t)).0 longer) in
        let same = (text_comparable.same_iff s t).1 tails in cc
    | inr longer ↦ rw (e, longer) refl
  ]
]

abbrev pub suffix : String
suffix = "/role-catalog"

-- A text without a slash does not end in the suffix.
ends_with_plain : (s : String) → has_code b'/' s ≡ false → ends_with suffix s ≡ false
ends_with_plain String.[] h = refl
ends_with_plain (String.◌∷◌ c s) h =
    ground (arith, cons_differs c "/" s "role-catalog", ends_with_plain s)

-- One that has a slash before it does where it is the name after the slash.
ends_with_name :
    (s : String)
    → has_code b'/' s ≡ false
    → ends_with suffix (String.◌∷◌ "/" s) ≡ (s == "role-catalog")
ends_with_name s h = rw (cons_same "/" s "role-catalog", ends_with_plain s h) (ground arith)

abbrev pub app_path : String → String
app_path client_id = "/api/apps/" <> client_id

pub app_path_lem :
    (s : String)
    → app_path s
      ≡ String.◌∷◌ "/" (
          String.◌∷◌ "a" (
            String.◌∷◌ "p" (
              String.◌∷◌ "i" (
                String.◌∷◌ "/" (
                  String.◌∷◌ "a"
                    (String.◌∷◌ "p" (String.◌∷◌ "p" (String.◌∷◌ "s" (String.◌∷◌ "/" s)))))))))
app_path_lem s =
    rw
      (
        cons-append "/" "api/apps/" s,
        cons-append "a" "pi/apps/" s,
        cons-append "p" "i/apps/" s,
        cons-append "i" "/apps/" s,
        cons-append "/" "apps/" s,
        cons-append "a" "pps/" s,
        cons-append "p" "ps/" s,
        cons-append "p" "s/" s,
        cons-append "s" "/" s,
        cons-append "/" "" s,
        nil-append s,
      )
      refl

-- It is none of the fixed paths.
pub auth_path_differs :
    (s t : String)
    → (String.◌∷◌ "/" (
          String.◌∷◌ "a"
            (String.◌∷◌ "p" (String.◌∷◌ "i" (String.◌∷◌ "/" (String.◌∷◌ "a" (String.◌∷◌ "p" s))))))
        == String.◌∷◌ "/" (
            String.◌∷◌ "a" (
              String.◌∷◌ "p"
                (String.◌∷◌ "i" (String.◌∷◌ "/" (String.◌∷◌ "a" (String.◌∷◌ "u" t)))))))
      ≡ false
auth_path_differs s t =
    cons_same _ _ _
    ∙ cons_same _ _ _
    ∙ cons_same _ _ _
    ∙ cons_same _ _ _
    ∙ cons_same _ _ _
    ∙ cons_same _ _ _
    ∙ cons_differs _ _ _ _ refl

-- The suffix starts neither at another letter nor at a slash that another letter follows.
ends_with_later :
    (c : Char) (s : String)
    → (code c == b'/') ≡ false
    → ends_with suffix (String.◌∷◌ c s) ≡ ends_with suffix s
ends_with_later c s h = rw (cons_differs c "/" s "role-catalog" h) refl

ends_with_slash :
    (c : Char) (s : String)
    → (code c == b'r') ≡ false
    → ends_with suffix (String.◌∷◌ "/" (String.◌∷◌ c s)) ≡ ends_with suffix (String.◌∷◌ c s)
ends_with_slash c s h =
    rw (cons_same "/" (String.◌∷◌ c s) "role-catalog", cons_differs c "r" s "ole-catalog" h) refl

pub ends_with_path :
    (s : String) → has_code b'/' s ≡ false → ends_with suffix (app_path s) ≡ (s == "role-catalog")
ends_with_path s h = rw (app_path_lem s) (
    ends_with_slash "a"
      (String.◌∷◌ "p" (
        String.◌∷◌ "i" (
          String.◌∷◌ "/" (
            String.◌∷◌ "a" (String.◌∷◌ "p" (String.◌∷◌ "p" (String.◌∷◌ "s" (String.◌∷◌ "/" s))))))))
      refl
    ∙ ends_with_later "a"
        (String.◌∷◌ "p" (
          String.◌∷◌ "i" (
            String.◌∷◌ "/" (
              String.◌∷◌ "a"
                (String.◌∷◌ "p" (String.◌∷◌ "p" (String.◌∷◌ "s" (String.◌∷◌ "/" s))))))))
        refl
    ∙ ends_with_later "p"
        (String.◌∷◌ "i" (
          String.◌∷◌ "/"
            (String.◌∷◌ "a" (String.◌∷◌ "p" (String.◌∷◌ "p" (String.◌∷◌ "s" (String.◌∷◌ "/" s)))))))
        refl
    ∙ ends_with_later "i"
        (String.◌∷◌ "/"
          (String.◌∷◌ "a" (String.◌∷◌ "p" (String.◌∷◌ "p" (String.◌∷◌ "s" (String.◌∷◌ "/" s))))))
        refl
    ∙ ends_with_slash "a" (String.◌∷◌ "p" (String.◌∷◌ "p" (String.◌∷◌ "s" (String.◌∷◌ "/" s)))) refl
    ∙ ends_with_later "a" (String.◌∷◌ "p" (String.◌∷◌ "p" (String.◌∷◌ "s" (String.◌∷◌ "/" s)))) refl
    ∙ ends_with_later "p" (String.◌∷◌ "p" (String.◌∷◌ "s" (String.◌∷◌ "/" s))) refl
    ∙ ends_with_later "p" (String.◌∷◌ "s" (String.◌∷◌ "/" s)) refl
    ∙ ends_with_later "s" (String.◌∷◌ "/" s) refl
    ∙ ends_with_name s h)
