-- ===== src/Adapter/Cached.antt =====
-- The discovery document that a client keeps: what the tests of its origins pass.
use orbita_backend.Prelude.{
  String, ◌<>◌, Bool, ◌≡◌, refl, true, false, not, ◌&&◌, ◌||◌, ◌==◌, text_comparable, Option, none,
  some, List, [], ◌∷◌, ◌++◌, all, any, arith, Bool-cases, Option-cases, inl, inr,
}
use orbita_backend.Prelude.Text.{strip_slashes, replace}
use orbita_backend.Adapter.{
  OrbitaSsoConfig, OrbitaSsoClient, Web, Sent, get, post, put, Discovery, Reply, answer,
  same_origin, check_fields, checked_fields, endpoint_of, is_absolute, is_supported, discovery,
  validate_discovery_origins, fetch_discovery, kept_or_fetched, accept_discovery,
}

pub any-snoc :
    (p : Sent → Bool) (xs : List Sent) (y : Sent) → any p (xs ++ y ∷ []) ≡ (any p xs || p y)
any-snoc p [] y = ground arith
any-snoc p (x ∷ xs) y = ground (arith, any-snoc p xs y)

module _ (web : Web) (config : OrbitaSsoConfig) where
  -- without the placeholder that the validation fills and an exchange leaves as it is
  abbrev is_literal : String → Bool
  is_literal address = replace "{client_id}" "client" address == address

  abbrev pub is_away : String → Bool
  is_away address = is_literal address && not (same_origin web config address)

  -- a post that carries the client secret, to an address that passes a test
  abbrev pub posts_secret : (String → Bool) → Sent → Bool
  posts_secret to (get address) = false
  posts_secret to (post address request) =
      request.client_secret == config.client_secret && to address
  posts_secret to (put address request) = false

  -- a post of the client secret to an address outside the configured origin
  abbrev pub posts_secret_away : Sent → Bool
  posts_secret_away = posts_secret is_away

  unfoldable pub is_valid : Discovery → Bool
  is_valid document =
      is_supported web config document
      && (is_absolute web config
          && all (λ f. same_origin web config (endpoint_of document f)) checked_fields)

  abbrev pub is_trusted : Option Discovery → Bool
  is_trusted none = true
  is_trusted (some document) = is_valid document

  check_fields-same_origin :
      (document : Discovery) (fields : List String) (c : OrbitaSsoClient)
      → ((check_fields web config document fields c).1 ≡ c)
        × ((check_fields web config document fields c).0 ≡ answer tt
            → all (λ f. same_origin web config (endpoint_of document f)) fields ≡ true)
  check_fields-same_origin document [] c = (refl, λ h. refl)
  check_fields-same_origin document (f ∷ fields) c =
      ground (arith, check_fields-same_origin document fields c)

  -- Validation leaves the client as it is, and passes only what is valid.
  validate-valid :
      (document : Discovery) (c : OrbitaSsoClient)
      → ((validate_discovery_origins web config document c).1 ≡ c)
        × ((validate_discovery_origins web config document c).0 ≡ answer tt
            → (is_absolute web config
                && all (λ f. same_origin web config (endpoint_of document f)) checked_fields)
              ≡ true)
  unfolding validate_discovery_origins
  validate-valid document c =
      let fields = check_fields-same_origin document checked_fields c in
      elim (Bool-cases (is_absolute web config)) [
        | inl e ↦ rw e fields
        | inr e ↦ rw e (refl, λ h. cc)
      ]

  pub accept_discovery-valid :
      (d : Discovery) (c : OrbitaSsoClient) {document : Discovery}
      → ((accept_discovery web config d c).1 ≡ record c { known_discovery = some d })
        × ((accept_discovery web config d c).0 ≡ answer document
            → ((document ≡ d) × (is_valid d ≡ true)))
  unfolding is_valid
  accept_discovery-valid d c {document} =
      let checked = validate-valid d (record c { known_discovery = some d }) in
      ground (arith, checked)

  abbrev pub configuration_url : String
  configuration_url = strip_slashes config.base_url <> "/api/.well-known/orbita-configuration"

  module _ (to : String → Bool) where
    -- What a client that trusts its document reads is valid, and it posts nothing for it.
    abbrev Reads : OrbitaSsoClient → Reply Discovery × OrbitaSsoClient → Type 0
    Reads c r =
        (any (posts_secret to) r.1.sent ≡ any (posts_secret to) c.sent)
        × ((document : Discovery)
            → r.0 ≡ answer document
            → (is_valid document ≡ true) × (r.1.known_discovery ≡ some document))

    pub fetch_discovery-Reads : (c : OrbitaSsoClient) → Reads c (fetch_discovery web config c)
    fetch_discovery-Reads c =
        let sent = c.sent ++ get configuration_url ∷ [] in
        let same = any-snoc (posts_secret to) c.sent (get configuration_url) in
        elim (Option-cases (web.configuration sent)) [
          | inl e ↦ rw e (ground (arith, same), λ document h. cc)
          | inr (d, e) ↦
              let accepted = λ (document : Discovery).
                accept_discovery-valid d (record c { sent = sent }) {document = document} in
              rw e (
                ground (arith, same, accepted d),
                λ document h. ground (arith, accepted document, h),
              )
        ]

    kept_or_fetched-Reads :
        (known : Option Discovery) (c : OrbitaSsoClient)
        → known ≡ c.known_discovery
        → is_trusted known ≡ true
        → Reads c (kept_or_fetched web config known c)
    kept_or_fetched-Reads none c same kept = fetch_discovery-Reads c
    kept_or_fetched-Reads (some d) c same kept = (refl, λ document h. ground (arith, same, kept, h))

    pub discovery-Reads :
        (c : OrbitaSsoClient)
        → is_trusted c.known_discovery ≡ true
        → Reads c (discovery web config c)
    unfolding discovery
    discovery-Reads c kept = kept_or_fetched-Reads c.known_discovery c refl kept
