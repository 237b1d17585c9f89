-- ===== src/Routers/Schemas/Claims.antt =====
-- The claims that an app can have released.
use orbita_backend.Prelude.{
  String, ◌≡◌, ◌⊎◌, inl, inr, refl, Bool, true, ◌&&◌, text_comparable, some, List, [], ◌∷◌, all,
  contains, arith, Bool-cases, subst,
}
use text.Mathlib.TextEquality.{eq_iff}
use orbita_backend.Prelude.Names.{sorted_set, add_name, is_subset}
use orbita_backend.Prelude.Text.{strip, lower}
use orbita_backend.Settings.{map_nonblank}
use orbita_backend.Routers.Schemas.{validate_released_claims}

abbrev is_clan : String → Bool
is_clan x = contains x ("clan" ∷ [])

all-add_name :
    (n : String) (ms : List String) → all is_clan (add_name n ms) ≡ (is_clan n && all is_clan ms)
all-add_name n [] = refl
all-add_name n (m ∷ ms) = ground (arith, eq_iff n m, all-add_name n ms)

abbrev AtMostClan : List String → Type 0
AtMostClan claims = (claims ≡ []) ⊎ (claims ≡ "clan" ∷ [])

add_clan :
    (n : String) (ms : List String) → is_clan n ≡ true → AtMostClan ms → AtMostClan (add_name n ms)
add_clan n ms named (inl e) =
    let same : n ≡ "clan" = (eq_iff n "clan").0 (ground (arith, named)) in inr (rw (e, same) refl)
add_clan n ms named (inr e) =
    let same : n ≡ "clan" = (eq_iff n "clan").0 (ground (arith, named)) in inr (rw (e, same) refl)

sorted_clans : (ns : List String) → all is_clan (sorted_set ns) ≡ true → AtMostClan (sorted_set ns)
unfolding sorted_set
sorted_clans [] h = inl refl
sorted_clans (n ∷ ns) h =
    let both = all-add_name n (sorted_set ns) in
    add_clan n (sorted_set ns) (ground (arith, both, h)) (sorted_clans ns (ground (arith, both, h)))

-- Whatever an administrator sends, the claims that an app is registered with are none, or the clan
-- alone.
pub released_claims_bounded :
    (values claims : List String)
    → validate_released_claims values ≡ some claims
    → (claims ≡ []) ⊎ (claims ≡ "clan" ∷ [])
unfolding validate_released_claims
released_claims_bounded values claims accepted =
    let normalized = sorted_set (map_nonblank (λ value. lower (strip value)) values) in
    elim (Bool-cases (is_subset normalized ("clan" ∷ []))) [
      | inr other ↦ absurd (ground (arith, other, accepted))
      | inl allowed ↦
          let same : normalized ≡ claims = ground (arith, allowed, accepted) in
          subst AtMostClan same
            (sorted_clans (map_nonblank (λ value. lower (strip value)) values) allowed)
    ]
