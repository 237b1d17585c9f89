-- ===== src/Migrations/PlatformAdmins.antt =====
-- l0a1b2c3d4e5: a platform administrator is one who holds the global role, no more one with a flag.
use orbita_backend.Prelude.{
  String, Bool, ◌≡◌, refl, ap, subst, ◌∙◌, true, false, not, ◌&&◌, ◌||◌, ◌==◌, text_comparable,
  number_comparable, same_number_iff, some, List, [], ◌∷◌, ◌++◌, map, any, all, insert_new, arith,
  Bool-cases, inl, inr,
}
use orbita_backend.Data.{Uuid, User, GlobalRole, UserGlobalRole}
use orbita_backend.Migrations.{
  FlaggedUser, same_grant, insert_grants, named, grants_of, flagged_grants, upgrade_platform_admins,
  downgrade_platform_admins, holds,
}

same_key :
    (g r : UserGlobalRole) → g.user_id ≡ r.user_id → g.global_role_id ≡ r.global_role_id → g ≡ r
same_key g r e f = λ i. record { user_id = e i; global_role_id = f i }

module _ (p : UserGlobalRole → Bool) where
  any-snoc :
      (rows : List UserGlobalRole) (g : UserGlobalRole)
      → any p (rows ++ g ∷ []) ≡ (any p rows || p g)
  any-snoc [] g = ground arith
  any-snoc (r ∷ rows) g = ground (arith, any-snoc rows g)

  present :
      (g : UserGlobalRole) (rows : List UserGlobalRole)
      → any (same_grant g) rows ≡ true
      → (any p rows || p g) ≡ any p rows
  present g [] h = cc
  present g (r ∷ rows) h = elim (Bool-cases (same_grant g r)) [
    | inl e ↦
        let same =
          same_key g r (ground (arith, same_number_iff g.user_id r.user_id))
            (ground (arith, same_number_iff g.global_role_id r.global_role_id)) in
        let equal = ap p same in ground (arith, equal)
    | inr e ↦ ground (arith, e, present g rows)
  ]

  any-insert :
      (g : UserGlobalRole) (rows : List UserGlobalRole)
      → any p (insert_new (same_grant g) g rows) ≡ (any p rows || p g)
  any-insert g rows = elim (Bool-cases (any (same_grant g) rows)) [
    | inl e ↦ rw e (ground (arith, present g rows e))
    | inr e ↦ rw e (any-snoc rows g)
  ]

  -- What an INSERT that skips the rows that are there adds.
  pub any-insert_grants :
      (grants rows : List UserGlobalRole)
      → any p (insert_grants grants rows) ≡ (any p rows || any p grants)
  any-insert_grants [] rows = ground arith
  any-insert_grants (g ∷ grants) rows =
      ground (arith, any-insert_grants grants (insert_new (same_grant g) g rows), any-insert g rows)

-- whether an id is that of a role of the name
abbrev pub is_role : String → List GlobalRole → Uuid → Bool
is_role name roles id = any (λ r. id == r.id && r.name == name) roles

all_mono :
    (p q : GlobalRole → Bool) (rows : List GlobalRole)
    → ((r : GlobalRole) → p r ≡ true → q r ≡ true)
    → all p rows ≡ true
    → all q rows ≡ true
all_mono p q [] sub h = refl
all_mono p q (r ∷ rows) sub h = ground (arith, sub r, all_mono p q rows sub)

pub named-is_role :
    (name : String) (roles : List GlobalRole)
    → all (λ r. is_role name roles r.id) (named name roles) ≡ true
named-is_role name [] = refl
named-is_role name (r ∷ roles) =
    let later =
      all_mono (λ x. is_role name roles x.id) (λ x. is_role name (r ∷ roles) x.id)
        (named name roles) (λ x h. ground (arith, h)) (named-is_role name roles) in
    elim (Bool-cases (r.name == name)) [
      | inl e ↦ rw e (ground (arith, e, later, same_number_iff r.id r.id))
      | inr e ↦ rw e (ground (arith, later, e))
    ]

module _ (roles : List GlobalRole) (id : Uuid) where
  abbrev grants_admin : UserGlobalRole → Bool
  grants_admin g = g.user_id == id && is_role "admin" roles g.global_role_id

  -- whether a user of the id has the flag
  abbrev pub is_flagged : List FlaggedUser → Bool
  is_flagged users = any (λ u. u.user.id == id && u.is_platform_admin) users

  any-grants_of :
      (user_id : Uuid) (some_roles : List GlobalRole)
      → all (λ r. is_role "admin" roles r.id) some_roles ≡ true
      → any grants_admin (grants_of user_id some_roles)
        ≡ (user_id == id && any (λ r. true) some_roles)
  any-grants_of user_id [] h = ground arith
  any-grants_of user_id (r ∷ rs) h = ground (arith, any-grants_of user_id rs)

  any-named :
      (rs : List GlobalRole) → any (λ r. true) (named "admin" rs) ≡ any (λ r. r.name == "admin") rs
  any-named [] = refl
  any-named (r ∷ rs) = ground (arith, any-named rs)

  any-append :
      (xs ys : List UserGlobalRole)
      → any grants_admin (xs ++ ys) ≡ (any grants_admin xs || any grants_admin ys)
  any-append [] ys = refl
  any-append (x ∷ xs) ys = ground (arith, any-append xs ys)

  any-flagged_grants :
      (users : List FlaggedUser)
      → any (λ r. r.name == "admin") roles ≡ true
      → any grants_admin (flagged_grants users roles) ≡ is_flagged users
  any-flagged_grants [] h = refl
  any-flagged_grants (u ∷ users) h =
      let own = any-grants_of u.user.id (named "admin" roles) (named-is_role "admin" roles) in
      elim (Bool-cases u.is_platform_admin) [
        | inl e ↦ rw e (
            any-append (grants_of u.user.id (named "admin" roles)) (flagged_grants users roles)
            ∙ ground (arith, own, any-named roles, h, any-flagged_grants users h))
        | inr e ↦ rw e (ground (arith, any-flagged_grants users h))
      ]

unflagged :
    (users : List FlaggedUser) (roles : List GlobalRole)
    → any (λ u. u.is_platform_admin) users ≡ false
    → flagged_grants users roles ≡ []
unflagged [] roles h = refl
unflagged (u ∷ users) roles h = ground (arith, unflagged users roles)

unflagged-is_flagged :
    (roles : List GlobalRole) (id : Uuid) (users : List FlaggedUser)
    → any (λ u. u.is_platform_admin) users ≡ false
    → is_flagged roles id users ≡ false
unflagged-is_flagged roles id [] h = refl
unflagged-is_flagged roles id (u ∷ users) h = ground (arith, unflagged-is_flagged roles id users)

-- The flagged users hold the role, and nobody else comes to hold it.
holds-insert_grants :
    (users : List FlaggedUser) (roles : List GlobalRole) (grants : List UserGlobalRole) (id : Uuid)
    → (any (λ u. u.is_platform_admin) users && not (any (λ r. r.name == "admin") roles)) ≡ false
    → holds "admin" roles (insert_grants (flagged_grants users roles) grants) id
      ≡ (is_flagged roles id users || holds "admin" roles grants id)
holds-insert_grants users roles grants id h =
    let added = any-insert_grants (grants_admin roles id) (flagged_grants users roles) grants in
    elim (Bool-cases (any (λ u. u.is_platform_admin) users)) [
      | inl e ↦ ground (arith, added, any-flagged_grants roles id users (ground arith))
      | inr e ↦ rw (unflagged users roles e) (ground (arith, unflagged-is_flagged roles id users e))
    ]

flags :
    (users : List FlaggedUser) (roles : List GlobalRole) (after : List UserGlobalRole)
    (now : Uuid → Bool)
    → ((id : Uuid) → holds "admin" roles after id ≡ now id)
    → downgrade_platform_admins (map (λ u. u.user) users) roles after
      ≡ map (λ u. record { user = u.user; is_platform_admin = now u.user.id }) users
unfolding downgrade_platform_admins
flags [] roles after now h = refl
flags (u ∷ users) roles after now h = rw (h u.user.id) (
    ap (λ rest. record { user = u.user; is_platform_admin = now u.user.id } ∷ rest)
      (flags users roles after now h))

-- The rows after the upgrade: who holds the role, and what the downgrade makes of them.
abbrev pub Preserved :
    List FlaggedUser
    → List GlobalRole
    → List UserGlobalRole
    → List User × List UserGlobalRole
    → Type 0
Preserved users roles grants (kept, after) =
    ((id : Uuid)
      → holds "admin" roles after id ≡ (is_flagged roles id users || holds "admin" roles grants id))
    × (downgrade_platform_admins kept roles after
        ≡ map
            (λ u. record {
              user = u.user;
              is_platform_admin =
                  is_flagged roles u.user.id users || holds "admin" roles grants u.user.id;
            })
            users)

-- Where the upgrade does not stop: exactly the users who had the flag or held the role hold it
-- afterwards, and the downgrade gives every user back, flagged exactly where they had the flag or
-- held the role. (A user had the flag where a row with the user's id has it.)
pub upgrade-Preserved :
    (users : List FlaggedUser) (roles : List GlobalRole) (grants : List UserGlobalRole)
    (after : List User × List UserGlobalRole)
    → upgrade_platform_admins users roles grants ≡ some after
    → Preserved users roles grants after
unfolding upgrade_platform_admins
upgrade-Preserved users roles grants after h =
    elim (Bool-cases
      (any (λ u. u.is_platform_admin) users && not (any (λ r. r.name == "admin") roles))) [
        | inl e ↦ absurd (ground (arith, h, e))
        | inr e ↦
            let made : (map (λ u. u.user) users, insert_grants (flagged_grants users roles) grants)
                ≡ after =
              ground (arith, h, e) in
            let held = λ (id : Uuid). holds-insert_grants users roles grants id e in
            subst (Preserved users roles grants) made (held, flags users roles _ _ held)
      ]
