-- ===== src/Adapter/Quiet.antt =====
-- What a client reads: the document, the key set and a token, none of which posts anything.
use orbita_backend.Prelude.{
  String, Bool, ◌≡◌, refl, ◌∙◌, true, false, not, text_comparable, same_option, Option, none, some,
  List, [], ◌∷◌, ◌++◌, any, arith,
}
use orbita_backend.Data.{Time}
use orbita_backend.Adapter.{
  OrbitaSsoConfig, OrbitaSsoClient, Web, Sent, get, Discovery, Reply, ◌>>◌, return, ClaimSet,
  has_required_claims, checked_claims, proceed, fetch_jwks, kept_jwks, refreshed_key, find_key,
  Jwks, Jwk, http_error, jwt_error, value_error, Call, ◌>>=◌, or_fail, fail_if, key_error, answer,
  failure, Failure, discovery, endpoint, jwks, verify_token, kept_or_fetched, send,
}
use orbita_backend.Adapter.Cached.{any-snoc, posts_secret, fetch_discovery-Reads}

module _ (web : Web) (config : OrbitaSsoConfig) (to : String → Bool) where
  -- Neither reading the document or the keys nor testing a token posts anything.
  abbrev pub Quiet : {A : Type 0} → OrbitaSsoClient → Reply A × OrbitaSsoClient → Type 0
  Quiet c r = any (posts_secret web config to) r.1.sent ≡ any (posts_secret web config to) c.sent

  pub proceed-Quiet :
      {A B : Type 0} (r : Reply A) (f : A → Call B) (c d : OrbitaSsoClient)
      → any (posts_secret web config to) d.sent ≡ any (posts_secret web config to) c.sent
      → ((a : A) (d : OrbitaSsoClient) → Quiet d (f a d))
      → Quiet c (proceed r f d)
  proceed-Quiet (answer a) f c d start next = next a d ∙ start
  proceed-Quiet (failure e) f c d start next = start

  pub Quiet-bind :
      {A B : Type 0} (m : Call A) (f : A → Call B) (c : OrbitaSsoClient)
      → Quiet c (m c)
      → ((a : A) (d : OrbitaSsoClient) → Quiet d (f a d))
      → Quiet c ((m >>= f) c)
  Quiet-bind m f c start next = proceed-Quiet (m c).0 f c (m c).1 start next

  kept-Quiet :
      (known : Option Discovery) (c : OrbitaSsoClient)
      → Quiet c (kept_or_fetched web config known c)
  kept-Quiet none c = (fetch_discovery-Reads web config to c).0
  kept-Quiet (some d) c = refl

  discovery-Quiet : (c : OrbitaSsoClient) → Quiet c (discovery web config c)
  unfolding discovery
  discovery-Quiet c = kept-Quiet c.known_discovery c

  pub or_fail-Quiet :
      {A : Type 0} (o : Option A) (e : Failure) (c : OrbitaSsoClient) → Quiet c (or_fail o e c)
  or_fail-Quiet none e c = refl
  or_fail-Quiet (some a) e c = refl

  pub fail_if-Quiet : (b : Bool) (e : Failure) (c : OrbitaSsoClient) → Quiet c (fail_if b e c)
  fail_if-Quiet true e c = refl
  fail_if-Quiet false e c = refl

  endpoint-Quiet : (field : String) (c : OrbitaSsoClient) → Quiet c (endpoint web config field c)
  unfolding endpoint
  endpoint-Quiet field c =
      Quiet-bind (discovery web config) (λ d. or_fail (d field) (key_error field)) c
        (discovery-Quiet c) (λ d c'. or_fail-Quiet (d field) (key_error field) c')

  get-Quiet :
      {A : Type 0} (address : String) (reply : List Sent → Option A) (c : OrbitaSsoClient)
      → Quiet c (send (get address) reply c)
  get-Quiet address reply c =
      or_fail-Quiet (reply (c.sent ++ get address ∷ [])) http_error
        (record c { sent = c.sent ++ get address ∷ [] })
      ∙ any-snoc (posts_secret web config to) c.sent (get address)
      ∙ ground arith

  fetch_jwks-Quiet : (c : OrbitaSsoClient) → Quiet c (fetch_jwks web config c)
  fetch_jwks-Quiet c =
      Quiet-bind (endpoint web config "jwks_uri") _ c (endpoint-Quiet "jwks_uri" c) λ address c'.
        Quiet-bind (send (get address) web.key_set) _ c' (get-Quiet address web.key_set c')
          λ keys c''. refl

  kept_jwks-Quiet :
      (known : Option Jwks) (c : OrbitaSsoClient) → Quiet c (kept_jwks web config known c)
  kept_jwks-Quiet none c = fetch_jwks-Quiet c
  kept_jwks-Quiet (some keys) c = refl

  refreshed_key-Quiet :
      (kid : Option String) (found : Option Jwk) (c : OrbitaSsoClient)
      → Quiet c (refreshed_key web config kid found c)
  unfolding jwks
  refreshed_key-Quiet kid (some key) c = refl
  refreshed_key-Quiet kid none c =
      Quiet-bind (fetch_jwks web config) _ c (fetch_jwks-Quiet c) λ fetched c'.
        Quiet-bind (or_fail fetched.keys (key_error "keys")) _ c'
          (or_fail-Quiet fetched.keys (key_error "keys") c')
          λ keys c''.
            or_fail-Quiet (find_key kid keys) (value_error "Orbita JWT key id is unknown") c''

  guard-Quiet :
      {A : Type 0} (b : Bool) (e : Failure) (m : Call A) (c : OrbitaSsoClient)
      → ((d : OrbitaSsoClient) → Quiet d (m d))
      → Quiet c ((fail_if b e >> m) c)
  guard-Quiet true e m c next = refl
  guard-Quiet false e m c next = next c

  checked_claims-Quiet :
      (now : Time) (token : String) (key : Jwk) (c : OrbitaSsoClient)
      → Quiet c (checked_claims web config now token key c)
  checked_claims-Quiet now token key c =
      Quiet-bind (or_fail (web.decode now token key config.client_id) jwt_error) _ c
        (or_fail-Quiet (web.decode now token key config.client_id) jwt_error c)
        λ claims d.
          guard-Quiet (not (has_required_claims claims))
            (value_error "Orbita JWT is missing required claims") (return claims) d λ d'. refl

  pub verify_token-Quiet :
      (now : Time) (token : String) (c : OrbitaSsoClient)
      → Quiet c (verify_token web config now token c)
  unfolding verify_token jwks
  verify_token-Quiet now token c =
      Quiet-bind (jwks web config false) _ c (kept_jwks-Quiet c.known_jwks c) λ known c1.
        Quiet-bind {B = ClaimSet} (or_fail (web.get_unverified_header token) jwt_error) _ c1
          (or_fail-Quiet (web.get_unverified_header token) jwt_error c1)
          λ header c2.
            guard-Quiet (not (same_option header.alg (some "RS256")))
              (value_error "Orbita JWT algorithm is not RS256") _ c2
              λ c3.
                Quiet-bind {B = ClaimSet} (or_fail known.keys (key_error "keys")) _ c3
                  (or_fail-Quiet known.keys (key_error "keys") c3)
                  λ keys c4.
                    Quiet-bind {B = ClaimSet}
                      (refreshed_key web config header.kid (find_key header.kid keys))
                      (checked_claims web config now token) c4
                      (refreshed_key-Quiet header.kid (find_key header.kid keys) c4)
                      λ key c5. checked_claims-Quiet now token key c5
