-- ===== src/Migrations/Providers/Tenants.antt =====
-- The links that a resolution writes, and the trigger on their tenants.
use orbita_backend.Prelude.{
  String, Bool, ◌≡◌, refl, true, false, not, ◌&&◌, ◌==◌, text_comparable, number_comparable,
  is_some, is_none, Option, none, some, List, [], ◌∷◌, ◌++◌, first, any, all, update, arith,
}
use text.Mathlib.TextEquality.{eq_iff}
use orbita_backend.Data.{Db, Uuid, Provider, ExternalIdentity}
use orbita_backend.Settings.{Settings}
use orbita_backend.Exec.{run}
use orbita_backend.Identity.{Draw, Account, resolve, active_provider, get_provider, new_link}
use orbita_backend.Identity.Invariant.{KeepsKeys, resolve-preserves}
use orbita_backend.Migrations.Providers.{enforce_tenant}

-- The account of a Moodle login has no tenant, and that of a Microsoft login has one.
abbrev pub has_fitting_tenant : Account → Bool
has_fitting_tenant account =
    not (account.provider_code == "moodle" && is_some account.tenant_id)
    && not (account.provider_code == "microsoft" && is_none account.tenant_id)

found_code :
    (code : String) (providers : List Provider) (p : Provider)
    → first (λ q. q.code == code) providers ≡ some p
    → p.code ≡ code
found_code code [] p h = cc
found_code code (q ∷ providers) p h =
    ground (arith, eq_iff q.code code, found_code code providers p)

active_found : (o : Option Provider) (p : Provider) → active_provider o ≡ some p → o ≡ some p
active_found none p h = cc
active_found (some q) p h = ground arith

module _ (providers : List Provider) where
  update-enforced :
      (id : Uuid) (f : ExternalIdentity → ExternalIdentity)
      → KeepsKeys f
      → (rows : List ExternalIdentity) → all (enforce_tenant providers) rows ≡ true
      → all (enforce_tenant providers) (update (λ y. y.id == id) f rows) ≡ true
  update-enforced id f keeps [] h = refl
  update-enforced id f keeps (x ∷ rows) h =
      let (p, u, t, w) = keeps x in
      let same : enforce_tenant providers (f x) ≡ enforce_tenant providers x = rw (p, t) refl in
      ground (arith, h, same, update-enforced id f keeps rows)

  append-enforced :
      (link : ExternalIdentity) (rows : List ExternalIdentity)
      → all (enforce_tenant providers) rows ≡ true
      → enforce_tenant providers link ≡ true
      → all (enforce_tenant providers) (rows ++ link ∷ []) ≡ true
  append-enforced link [] h e = ground (arith, e)
  append-enforced link (x ∷ rows) h e = ground (arith, append-enforced link rows, h, e)

module _ (validate_email : String → Option String) (settings : Settings) (draw : Draw)
    (account : Account) (activate : Bool) (db : Db) where
  -- Where the account's tenant fits its provider and a provider is found by its id, every link that a
  -- resolution commits passes the trigger, if those before did: the database refuses none of them for
  -- its tenant.
  pub resolve-enforce_tenant :
      has_fitting_tenant account ≡ true
      → ((p : Provider)
          → get_provider account.provider_code db ≡ some p
          → first (λ q. q.id == p.id) db.providers ≡ some p)
      → all (enforce_tenant db.providers) db.external_identities ≡ true
      → any (λ x. x.user_id == draw.user_id) db.external_identities ≡ false
      → all
          (enforce_tenant db.providers)
          (run (resolve validate_email settings draw account activate) db).1.external_identities
        ≡ true
  resolve-enforce_tenant fits keyed before unused =
      resolve-preserves validate_email settings draw account activate db
        (λ rows. all (enforce_tenant db.providers) rows ≡ true) (update-enforced db.providers)
        (λ provider email user found unlinked other h.
          let row = new_link validate_email settings draw account provider (some email) user in
          let named = active_found (get_provider account.provider_code db) provider found in
          let code = found_code account.provider_code db.providers provider named in
          append-enforced db.providers row db.external_identities h
            (rw (keyed provider named, code) fits))
        unused before
