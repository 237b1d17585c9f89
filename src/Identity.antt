-- ===== src/Identity.antt =====
-- app/modules/identity/service.py: external accounts (Microsoft, Moodle) resolved into one user.
-- The function `validate_email` of the package email_validator is a parameter: the normalized form
-- of an address, or none where it raises EmailNotValidError.
pub mod Links
pub mod Invariant
pub mod Unique
use orbita_backend.Prelude.{
  String, Bool, true, false, not, ◌&&◌, ◌||◌, ◌==◌, text_comparable, number_comparable, same_option,
  is_some, Option, none, some, List, [], ◌∷◌, ◌++◌, first, any, update, contains, if◌then◌else◌,
}
use orbita_backend.Prelude.Text.{strip, lower, btrim, after_last_at}
use orbita_backend.Data.{Db, Uuid, Time, User, Provider, ExternalIdentity}
use orbita_backend.Settings.{Settings, identity_email_domains}
use orbita_backend.Exec.{
  Action, pure, raise, gets, modify, commit, raise_if, or_raise, provider_unavailable,
  invalid_institutional_email, identity_link_conflict, ◌>>=◌, ◌>>◌,
}
use orbita_backend.Users.{find_user}

-- The events of a resolution, with the values of their dicts.
pub data Event : Type 0 where
  provider_email_changed : String → Option String → String → Event
  canonical_email_promoted : String → String → Event
  email_mismatch : String → Option String → String → Event

pub record IdentityResolution : Type 0 where
  pub user : User
  pub external_identity : ExternalIdentity
  pub events : List Event

abbrev lower_option : Option String → Option String
lower_option none = none
lower_option (some s) = some (lower s)

abbrev in_domains : Option String → List String → Bool
in_domains none domains = false
in_domains (some domain) domains = contains domain domains

unfoldable pub is_institutional_email : Option String → Settings → Bool
is_institutional_email none settings = false
is_institutional_email (some email) settings =
    in_domains (after_last_at email) (identity_email_domains settings)

unfoldable pub can_auto_link_email : String → Option String → Settings → Bool
can_auto_link_email provider_code none settings = false
can_auto_link_email provider_code (some email) settings =
    not (email == "")
    && (is_institutional_email (some email) settings
        || (provider_code == "moodle" && settings.allow_moodle_noninstitutional_email_linking))

-- IdentityResolver.get_provider
abbrev pub get_provider : String → Db → Option Provider
get_provider code db = first (λ p. p.code == code) db.providers

abbrev pub active_provider : Option Provider → Option Provider
active_provider none = none
active_provider (some p) = if p.active then some p else none

-- the key of uq_external_identity: the provider, the account and the tenant
abbrev pub is_link : Uuid → String → Option String → ExternalIdentity → Bool
is_link provider_id account tenant x =
    x.provider_id == provider_id
    && (x.provider_user_id == account && same_option x.provider_tenant_id tenant)

-- func.lower(func.btrim(User.email)) == email
abbrev pub has_email : String → User → Bool
has_email email u = lower (btrim u.email) == email

abbrev pub set_user : Uuid → (User → User) → Db → Db
set_user id f db = record db { users = update (λ u. u.id == id) f db.users }

abbrev pub set_link : Uuid → (ExternalIdentity → ExternalIdentity) → Db → Db
set_link id f db = record db {
  external_identities = update (λ x. x.id == id) f db.external_identities;
}

-- `full_name.strip() or normalized_email`
abbrev name_or : String → String → String
name_or full_name email = if strip full_name == "" then email else strip full_name

-- what the request draws: the time, and the ids of a new user and of a new link
pub record Draw : Type 0 where
  pub now : Time
  pub user_id : Uuid
  pub link_id : Uuid

-- the external account, as the provider describes it
pub record Account : Type 0 where
  pub provider_code : String
  pub user_id : String
  pub tenant_id : Option String
  pub email : Option String
  pub full_name : String

module _ (validate_email : String → Option String) (settings : Settings) where
  unfoldable pub normalize_email : Option String → Option String
  normalize_email none = none
  normalize_email (some value) =
      if value == "" then none else lower_option (validate_email (strip value))

  -- the events, and the user and the link with their new values, for an institutional address
  abbrev email_changed : String → ExternalIdentity → String → List Event
  email_changed code link incoming =
      if same_option link.provider_email (some incoming)
      then []
      else provider_email_changed code link.provider_email incoming ∷ []

  abbrev pub canonical : String → User → String → User × List Event
  canonical code user incoming =
      let current = normalize_email (some user.email) in
      if not (is_institutional_email current settings)
      then (record user { email = incoming }, canonical_email_promoted code incoming ∷ [])
      else if same_option current (some incoming)
      then (user, [])
      else (user, email_mismatch code current incoming ∷ [])

  abbrev refresh_with :
      String → User → ExternalIdentity → String → Action (User × ExternalIdentity × List Event)
  refresh_with code user link incoming = do
    taken ← gets (λ db. any (λ u. has_email incoming u && not (u.id == user.id)) db.users)
    raise_if taken (identity_link_conflict "provider_email_owned_by_another_user")
    let link' = record link { provider_email = some incoming }
    let (user', promoted) = canonical code user incoming
    modify (set_link link.id (λ x. record x { provider_email = some incoming }))
    modify (set_user user.id (λ u. record u { email = user'.email }))
    pure (user', link', email_changed code link incoming ++ promoted)

  unfoldable pub refresh_existing_link :
      String
      → User
      → ExternalIdentity
      → Option String
      → Action (User × ExternalIdentity × List Event)
  unfolding normalize_email
  refresh_existing_link code user link none = pure (user, link, [])
  refresh_existing_link code user link (some incoming) =
      if is_institutional_email (some incoming) settings
      then refresh_with code user link incoming
      else pure (user, link, [])

  -- the branch of an account that is linked already
  abbrev pub resolve_linked :
      Draw → Account → Option String → ExternalIdentity → Action IdentityResolution
  resolve_linked draw account email link = do
    found ← gets (find_user link.user_id)
    user ← or_raise found (identity_link_conflict "external_identity_without_user")
    (user', link', events) ← refresh_existing_link account.provider_code user link email
    modify (set_link link.id (λ x. record x { last_seen_at = some draw.now }))
    commit
    pure (record {
      user = user';
      external_identity = record link' { last_seen_at = some draw.now };
      events = events;
    })

  abbrev pub new_user : Draw → Account → String → User
  new_user draw account email = record {
    id = draw.user_id;
    microsoft_id = none;
    email = email;
    full_name = name_or account.full_name email;
    is_active = true;
    password_hash = none;
    must_change_password = false;
    deleted_at = none;
  }

  abbrev pub new_link : Draw → Account → Provider → Option String → User → ExternalIdentity
  new_link draw account provider email user = record {
    id = draw.link_id;
    user_id = user.id;
    provider_id = provider.id;
    provider_user_id = account.user_id;
    provider_tenant_id = account.tenant_id;
    provider_email = email;
    last_seen_at = some draw.now;
  }

  -- the user with the address, who must not have a link of this provider, or a new user
  abbrev pub owner_of : Draw → Account → Provider → Bool → String → Option User → Action User
  owner_of draw account provider activate email (some user) = do
    linked ← gets (λ db.
        any (λ x. x.user_id == user.id && x.provider_id == provider.id) db.external_identities)
    raise_if linked (identity_link_conflict "user_already_has_provider")
    pure user
  owner_of draw account provider activate email none = do
    let user = record (new_user draw account email) { is_active = activate }
    modify (λ db. record db { users = db.users ++ user ∷ [] })
    pure user

  abbrev pub resolve_new :
      Draw → Account → Provider → Bool → Option String → Action IdentityResolution
  resolve_new draw account provider activate none = raise invalid_institutional_email
  resolve_new draw account provider activate (some email) = do
    raise_if (not (can_auto_link_email account.provider_code (some email) settings))
        invalid_institutional_email
    existing ← gets (λ db. first (has_email email) db.users)
    user ← owner_of draw account provider activate email existing
    let link = new_link draw account provider (some email) user
    modify (λ db. record db { external_identities = db.external_identities ++ link ∷ [] })
    commit
    pure (record { user = user; external_identity = link; events = [] })

  abbrev pub resolve_account :
      Draw → Account → Provider → Bool → Option ExternalIdentity → Action IdentityResolution
  resolve_account draw account provider activate (some link) =
      resolve_linked draw account (normalize_email account.email) link
  resolve_account draw account provider activate none =
      resolve_new draw account provider activate (normalize_email account.email)

  -- IdentityResolver.resolve
  unfoldable pub resolve : Draw → Account → Bool → Action IdentityResolution
  unfolding refresh_existing_link normalize_email
  resolve draw account activate = do
    found ← gets (λ db. active_provider (get_provider account.provider_code db))
    provider ← or_raise found provider_unavailable
    link ←
        gets (λ db.
          first (is_link provider.id account.user_id account.tenant_id) db.external_identities)
    resolve_account draw account provider activate link
