-- ===== src/Adapter/Posts.antt =====
-- Where a client posts its secret when it exchanges a code.
use text.Mathlib.TextEquality.{eq_iff}
use orbita_backend.Prelude.{
  String, Bool, ◌≡◌, refl, ◌∙◌, sym, subst, ap, true, false, ◌||◌, ◌==◌, Bool-cases,
  text_comparable, Option, some, [], ◌∷◌, ◌++◌, any, arith, Option-cases, inl, inr,
}
use orbita_backend.Prelude.Text.{replace}
use orbita_backend.Data.{Time}
use orbita_backend.Adapter.{
  OrbitaSsoConfig, OrbitaSsoClient, Web, get, post, Discovery, Reply, exchange_at, token_request,
  ClaimSet, proceed, http_error, Call, ◌>>=◌, or_fail, key_error, answer, failure, Failure,
  fresh_client, same_origin, endpoint_of, or_blank, discovery, endpoint, verify_token,
  exchange_code, kept_or_fetched, accept_discovery, send,
}
use orbita_backend.Adapter.Cached.{
  any-snoc, posts_secret, is_away, posts_secret_away, is_valid, is_trusted, discovery-Reads,
  accept_discovery-valid, configuration_url,
}
use orbita_backend.Adapter.Quiet.{proceed-Quiet, Quiet-bind, or_fail-Quiet, verify_token-Quiet}

module _ (web : Web) (config : OrbitaSsoConfig) where
  -- What a post adds, and what follows it.
  module _ (to : String → Bool) where
    post-sent :
        (address code : String) (c : OrbitaSsoClient)
        → any
            (posts_secret web config to)
            (send (post address (token_request web config code)) web.token c).1.sent
          ≡ (any (posts_secret web config to) c.sent || to address)
    post-sent address code c =
        let request = post address (token_request web config code) in
        or_fail-Quiet web config to (web.token (c.sent ++ request ∷ [])) http_error
          (record c { sent = c.sent ++ request ∷ [] })
        ∙ any-snoc (posts_secret web config to) c.sent request
        ∙ ground (arith, (eq_iff config.client_secret config.client_secret).1 refl)

    exchange_at-sent :
        (now : Time) (code address : String) (c : OrbitaSsoClient)
        → any (posts_secret web config to) (exchange_at web config now code address c).1.sent
          ≡ (any (posts_secret web config to) c.sent || to address)
    unfolding exchange_at
    exchange_at-sent now code address c =
        let posted = send (post address (token_request web config code)) web.token c in
        proceed-Quiet web config to posted.0 _ posted.1 posted.1 refl (λ body c1.
          Quiet-bind web config to {B = String × ClaimSet} (or_fail body (key_error "access_token"))
            _ c1 (or_fail-Quiet web config to body (key_error "access_token") c1)
            λ token c2.
              Quiet-bind web config to {B = String × ClaimSet} (verify_token web config now token) _
                c2 (verify_token-Quiet web config to now token c2) λ claims c3. refl)
        ∙ post-sent address code c

  valid_token_endpoint :
      (d : Discovery) (address : String)
      → is_valid web config d ≡ true
      → d "token_endpoint" ≡ some address
      → is_away web config address ≡ false
  unfolding is_valid
  valid_token_endpoint d address valid e =
      let at_home : same_origin web config (endpoint_of d "token_endpoint") ≡ true = ground arith in
      let named : same_origin web config (replace "{client_id}" "client" address) ≡ true =
        subst (λ o. same_origin web config (replace "{client_id}" "client" (or_blank o)) ≡ true) e
          at_home in
      elim (Bool-cases (replace "{client_id}" "client" address == address)) [
        | inr filled ↦ rw filled refl
        | inl literal ↦
            let same = (eq_iff (replace "{client_id}" "client" address) address).0 literal in
            let home : same_origin web config address ≡ true =
              subst (λ a. same_origin web config a ≡ true) same named in
            ground (arith, home)
      ]

  abbrev exchange_with : Time → String → Discovery → Call (String × ClaimSet)
  exchange_with now code d =
      or_fail (d "token_endpoint") (key_error "token_endpoint") >>= exchange_at web config now code

  exchange_with-sent :
      (now : Time) (code : String) (r : Reply Discovery) (c : OrbitaSsoClient)
      → any (posts_secret_away web config) c.sent ≡ false
      → ((d : Discovery) → r ≡ answer d → is_valid web config d ≡ true)
      → any (posts_secret_away web config) (proceed r (exchange_with now code) c).1.sent ≡ false
  exchange_with-sent now code (failure e) c none_sent valid = none_sent
  exchange_with-sent now code (answer d) c none_sent valid =
      elim (Option-cases (d "token_endpoint")) [
        | inl e ↦ rw e none_sent
        | inr (a, e) ↦ rw e (
            rw
              (
                exchange_at-sent (is_away web config) now code a c,
                none_sent,
                valid_token_endpoint d a (valid d refl) e,
              )
              refl)
      ]

  proceed_assoc :
      {A B C : Type 0} (r : Reply A) (f : A → Call B) (g : B → Call C) (c : OrbitaSsoClient)
      → proceed (proceed r f c).0 g (proceed r f c).1 ≡ proceed r (λ a. f a >>= g) c
  proceed_assoc (answer a) f g c = refl
  proceed_assoc (failure e) f g c = refl

  exchange_code_lem :
      (now : Time) (code : String) (c : OrbitaSsoClient)
      → exchange_code web config now code c
        ≡ proceed (discovery web config c).0 (exchange_with now code) (discovery web config c).1
  unfolding exchange_code endpoint
  exchange_code_lem now code c =
      proceed_assoc (discovery web config c).0
        (λ d. or_fail (d "token_endpoint") (key_error "token_endpoint"))
        (exchange_at web config now code) (discovery web config c).1

  -- A client that keeps no document, or one that passes the tests, and that has posted no secret
  -- outside the configured origin, posts none there when it exchanges a code, whether the exchange
  -- succeeds or not. An address with the placeholder of the client id, which the validation fills and
  -- the exchange does not, is left out.
  pub exchange_code-posts_home :
      (now : Time) (code : String) (c : OrbitaSsoClient)
      → any (posts_secret_away web config) c.sent ≡ false
      → is_trusted web config c.known_discovery ≡ true
      → any (posts_secret_away web config) (exchange_code web config now code c).1.sent ≡ false
  exchange_code-posts_home now code c none_sent kept =
      let (quiet, valid) = discovery-Reads web config (is_away web config) c kept in
      rw (exchange_code_lem now code c) (
        exchange_with-sent now code (discovery web config c).0 (discovery web config c).1
          (quiet ∙ none_sent) (λ d e. (valid d e).0))

  -- An exchange over a document that was kept.
  exchange_code-kept :
      (to : String → Bool) (now : Time) (code address : String) (d : Discovery)
      (c : OrbitaSsoClient)
      → c.known_discovery ≡ some d
      → d "token_endpoint" ≡ some address
      → to address ≡ true
      → any (posts_secret web config to) (exchange_code web config now code c).1.sent ≡ true
  unfolding discovery
  exchange_code-kept to now code address d c kept named there =
      let posted = exchange_at-sent to now code address c in
      let after = λ (o : Option Discovery). kept_or_fetched web config o c in
      let at_endpoint : any (posts_secret web config to) (exchange_with now code d c).1.sent
          ≡ true =
        rw named (posted ∙ ground (arith, there)) in
      rw (exchange_code_lem now code c) (
        ap
          (λ o.
            any (posts_secret web config to)
              (proceed (after o).0 (exchange_with now code) (after o).1).1.sent)
          kept
        ∙ at_endpoint)

  -- A document with a token endpoint elsewhere is kept and refused.
  accept_discovery-refuses :
      (d : Discovery) (address : String) (c : OrbitaSsoClient)
      → d "token_endpoint" ≡ some address
      → is_away web config address ≡ true
      → (e : Failure) × (accept_discovery web config d c
          ≡ (failure e, record c { known_discovery = some d }))
  accept_discovery-refuses d address c named far = refused (accept_discovery web config d c) refl
    where
      refused :
          (r : Reply Discovery × OrbitaSsoClient)
          → accept_discovery web config d c ≡ r
          → (e : Failure) × (accept_discovery web config d c
              ≡ (failure e, record c { known_discovery = some d }))
      refused (failure e, after) same = (
        e,
        let state = (accept_discovery-valid web config d c {document = d}).0 in
            same ∙ ap (λ s. (failure e, s)) (sym (ap (λ r. r.1) same) ∙ state),
      )
      refused (answer document, after) same =
          let valid =
            (accept_discovery-valid web config d c {document = document}).1 (ap (λ r. r.0) same) in
          let home = valid_token_endpoint d address valid.1 named in absurd cc

  -- Where the discovery document names a token endpoint outside the configured origin, with no
  -- placeholder: the first exchange of a new client fails and posts the client secret nowhere outside
  -- that origin, but the document is kept, and the second exchange posts the client secret to that
  -- endpoint.
  pub exchange_code-rejected :
      (now later : Time) (code again address : String) (d : Discovery)
      → web.configuration (get (configuration_url web config) ∷ []) ≡ some d
      → d "token_endpoint" ≡ some address
      → replace "{client_id}" "client" address ≡ address
      → same_origin web config address ≡ false
      → ((e : Failure) × ((exchange_code web config now code fresh_client).0 ≡ failure e))
        × (any
              (posts_secret_away web config)
              (exchange_code web config now code fresh_client).1.sent
            ≡ false)
        × ((exchange_code web config now code fresh_client).1.known_discovery ≡ some d)
        × (any
              (posts_secret web config (λ a. a == address))
              (exchange_code web config later again
                (exchange_code web config now code fresh_client).1).1.sent
            ≡ true)
  unfolding discovery
  exchange_code-rejected now later code again address d served named literal outside =
      let asked = record fresh_client { sent = get (configuration_url web config) ∷ [] } in
      let plain = (eq_iff (replace "{client_id}" "client" address) address).1 literal in
      let far : is_away web config address ≡ true = rw (plain, outside) refl in
      let (e, refused) = accept_discovery-refuses d address asked named far in
      let first_call : exchange_code web config now code fresh_client
          ≡ (failure e, record asked { known_discovery = some d }) =
        exchange_code_lem now code fresh_client ∙ rw (served, refused) refl in
      (
        (e, ap (λ r. r.0) first_call),
        exchange_code-posts_home now code fresh_client refl refl,
        ap (λ r. r.1.known_discovery) first_call,
        rw first_call (
            exchange_code-kept (λ a. a == address) later again address d
              (record asked { known_discovery = some d }) refl named
              ((eq_iff address address).1 refl)),
      )
