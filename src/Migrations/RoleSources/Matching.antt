-- ===== src/Migrations/RoleSources/Matching.antt =====
-- A role is granted where a source gives it, after the new table of sources is filled.
use orbita_backend.Prelude.{
  Bool, ◌≡◌, refl, ap, true, ◌&&◌, ◌||◌, ◌==◌, text_comparable, number_comparable, same_number_iff,
  List, [], ◌∷◌, ◌++◌, any, all, arith, Bool-cases, inl, inr,
}
use orbita_backend.Data.{Db, Uuid, User, GlobalRole, UserGlobalRole, UserGlobalRoleSource}
use orbita_backend.Migrations.{named}
use orbita_backend.Migrations.PlatformAdmins.{any-insert_grants, named-is_role}
use orbita_backend.Migrations.RoleSources.{
  is_role, manual_sources, fallback_rows, fallback_sources, guest_grants, with_sources,
}

module _ (user_id role_id : Uuid) where
  abbrev granted : UserGlobalRole → Bool
  granted g = g.user_id == user_id && g.global_role_id == role_id

  abbrev sourced : UserGlobalRoleSource → Bool
  sourced s = s.user_id == user_id && s.global_role_id == role_id

  manual-sourced :
      (grants : List UserGlobalRole) → any sourced (manual_sources grants) ≡ any granted grants
  manual-sourced [] = refl
  manual-sourced (g ∷ grants) = ground (arith, manual-sourced grants)

  guest-granted :
      (roles : List GlobalRole) (sources : List UserGlobalRoleSource)
      → any granted (guest_grants roles sources)
        ≡ (is_role "guest" roles role_id && any sourced sources)
  guest-granted roles [] = ground arith
  guest-granted roles (s ∷ sources) = elim (Bool-cases (s.global_role_id == role_id)) [
    | inl e ↦
        let same = ap (is_role "guest" roles) ((same_number_iff s.global_role_id role_id).0 e) in
        ground (arith, e, same, guest-granted roles sources)
    | inr e ↦ ground (arith, e, guest-granted roles sources)
  ]

  rows-sourced :
      (roles : List GlobalRole) (id : Uuid) (rs : List GlobalRole)
      → all (λ r. is_role "guest" roles r.id) rs ≡ true
      → any sourced (fallback_rows id rs)
        ≡ (is_role "guest" roles role_id && any sourced (fallback_rows id rs))
  rows-sourced roles id [] h = ground arith
  rows-sourced roles id (r ∷ rs) h = elim (Bool-cases (r.id == role_id)) [
    | inl e ↦
        let same = ap (is_role "guest" roles) ((same_number_iff r.id role_id).0 e) in
        ground (arith, e, same, h)
    | inr e ↦ ground (arith, e, rows-sourced roles id rs)
  ]

  any-append :
      (xs ys : List UserGlobalRoleSource)
      → any sourced (xs ++ ys) ≡ (any sourced xs || any sourced ys)
  any-append [] ys = refl
  any-append (x ∷ xs) ys = ground (arith, any-append xs ys)

  fallback-sourced :
      (roles : List GlobalRole) (grants : List UserGlobalRole) (users : List User)
      → any sourced (fallback_sources roles grants users)
        ≡ (is_role "guest" roles role_id && any sourced (fallback_sources roles grants users))
  fallback-sourced roles grants [] = ground arith
  fallback-sourced roles grants (u ∷ users) =
      elim (Bool-cases (any (λ g. g.user_id == u.id) grants)) [
        | inl e ↦ rw e (fallback-sourced roles grants users)
        | inr e ↦ rw e (
            let own = rows-sourced roles u.id (named "guest" roles) (named-is_role "guest" roles) in
            let joined =
              any-append (fallback_rows u.id (named "guest" roles))
                (fallback_sources roles grants users) in
            ground (arith, joined, own, fallback-sourced roles grants users))
      ]

  -- A role is granted where a source gives it.
  pub matching :
      (db : Db)
      → any sourced (with_sources db).role_sources ≡ any granted (with_sources db).user_global_roles
  unfolding with_sources
  matching db =
      let fallback = fallback_sources db.global_roles db.user_global_roles db.users in
      let sources = manual_sources db.user_global_roles ++ fallback in
      ground (
        arith,
        any-append (manual_sources db.user_global_roles) fallback,
        manual-sourced db.user_global_roles,
        fallback-sourced db.global_roles db.user_global_roles db.users,
        guest-granted db.global_roles sources,
        any-insert_grants granted (guest_grants db.global_roles sources) db.user_global_roles,
      )
