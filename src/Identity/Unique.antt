-- ===== src/Identity/Unique.antt =====
-- The two unique constraints of external_identities, which the resolver's own tests keep.
use orbita_backend.Prelude.{
  String, ◌≡◌, refl, ◌∙◌, Bool, false, ◌&&◌, ◌||◌, ◌==◌, text_comparable, number_comparable, Option,
  none, some, List, [], ◌∷◌, ◌++◌, first, update, inl, inr, any, Bool-cases, arith,
}
use orbita_backend.Data.{Db, Uuid, ExternalIdentity}
use orbita_backend.Settings.{Settings}
use orbita_backend.Exec.{run}
use orbita_backend.Identity.Invariant.{KeepsKeys, resolve-preserves}
use orbita_backend.Identity.{Draw, Account, resolve, new_link, is_link}

-- Two links that one of the constraints forbids: of one user and one provider, or of one account.
abbrev clash : ExternalIdentity → ExternalIdentity → Bool
clash x y =
    (x.user_id == y.user_id && x.provider_id == y.provider_id)
    || is_link y.provider_id y.provider_user_id y.provider_tenant_id x

abbrev pub HasUniqueLinks : List ExternalIdentity → Type 0
HasUniqueLinks [] = Unit
HasUniqueLinks (x ∷ rest) = (any (λ y. clash x y) rest ≡ false) × HasUniqueLinks rest

-- A change that keeps the keys keeps them apart.
module _ (id : Uuid) (f : ExternalIdentity → ExternalIdentity) (keeps : KeepsKeys f) where
  any-update :
      (x : ExternalIdentity) (rows : List ExternalIdentity)
      → any (λ y. clash x y) (update (λ y. y.id == id) f rows) ≡ any (λ y. clash x y) rows
  any-update x [] = refl
  any-update x (y ∷ rows) = ground (arith, keeps y, any-update x rows)

  changed :
      (x : ExternalIdentity) (rows : List ExternalIdentity)
      → any (λ y. clash (f x) y) rows ≡ any (λ y. clash x y) rows
  changed x rows = let (p, u, t, w) = keeps x in rw (p, u, t, w) refl

  update-HasUniqueLinks :
      (rows : List ExternalIdentity)
      → HasUniqueLinks rows
      → HasUniqueLinks (update (λ y. y.id == id) f rows)
  update-HasUniqueLinks [] h = tt
  update-HasUniqueLinks (x ∷ rows) (apart, rest) = elim (Bool-cases (x.id == id)) [
    | inl e ↦ rw e (any-update (f x) rows ∙ changed x rows ∙ apart, update-HasUniqueLinks rows rest)
    | inr e ↦ rw e (any-update x rows ∙ apart, update-HasUniqueLinks rows rest)
  ]

-- A new link that clashes with none.
any-snoc :
    (x link : ExternalIdentity) (rows : List ExternalIdentity)
    → any (λ y. clash x y) rows ≡ false
    → clash x link ≡ false
    → any (λ y. clash x y) (rows ++ link ∷ []) ≡ false
any-snoc x link [] h e = ground arith
any-snoc x link (y ∷ rows) h e = ground (arith, any-snoc x link rows)

append-HasUniqueLinks :
    (link : ExternalIdentity) (rows : List ExternalIdentity)
    → HasUniqueLinks rows
    → any (λ x. clash x link) rows ≡ false
    → HasUniqueLinks (rows ++ link ∷ [])
append-HasUniqueLinks link [] h e = (refl, tt)
append-HasUniqueLinks link (x ∷ rows) (apart, rest) e = (
  any-snoc x link rows apart (ground (arith, e)),
  append-HasUniqueLinks link rows rest (ground (arith, e)),
)

-- A link of a user without one at the provider, for an account without one.
fresh_link :
    (link : ExternalIdentity) (rows : List ExternalIdentity)
    → first (is_link link.provider_id link.provider_user_id link.provider_tenant_id) rows ≡ none
    → any (λ x. x.user_id == link.user_id && x.provider_id == link.provider_id) rows ≡ false
    → any (λ x. clash x link) rows ≡ false
fresh_link link [] a b = refl
fresh_link link (x ∷ rows) a b = ground (arith, fresh_link link rows)

module _ (validate_email : String → Option String) (settings : Settings) (draw : Draw)
    (account : Account) (activate : Bool) (db : Db) where
  -- Whatever a resolution answers, it keeps the links apart: no two of one user at one provider, and
  -- no two for one account, where the id that it draws for a new user has no link yet.
  pub resolve-HasUniqueLinks :
      any (λ x. x.user_id == draw.user_id) db.external_identities ≡ false
      → HasUniqueLinks db.external_identities
      → HasUniqueLinks
          (run (resolve validate_email settings draw account activate) db).1.external_identities
  resolve-HasUniqueLinks =
      resolve-preserves validate_email settings draw account activate db HasUniqueLinks
        update-HasUniqueLinks
        (λ provider email user found unlinked other h.
          let row = new_link validate_email settings draw account provider (some email) user in
          append-HasUniqueLinks row db.external_identities h
            (fresh_link row db.external_identities unlinked other))
