-- ===== src/Adapter/Base.antt =====
-- The data of the client adapter: its configuration and state, the documents that it reads, what it
-- sends, and its calls as actions on its state.
use orbita_backend.Prelude.{
  String, Bool, text_comparable, Option, none, some, List, [], ◌∷◌, ◌++◌, if◌then◌else◌,
}
use orbita_backend.Data.{Time}
use orbita_backend.Sso.Exchange.{TokenExchangeRequest}

pub record OrbitaSsoConfig : Type 0 where
  pub base_url : String
  pub client_id : String
  pub client_secret : String
  pub redirect_uri : String

-- A JSON object whose values are texts, as a function of its keys: a missing key is none.
abbrev pub Discovery : Type 0
Discovery = String → Option String

pub record Jwk : Type 0 where
  pub kid : Option String
  pub material : String

-- the key set's "keys"
pub record Jwks : Type 0 where
  pub keys : Option (List Jwk)

-- A claim's value. The code does not tell numbers, Booleans, objects and null apart.
pub data Item : Type 0 where
  text : String → Item
  other : Item

pub data Value : Type 0 where
  text : String → Value
  array : List Item → Value
  other : Value

abbrev pub ClaimSet : Type 0
ClaimSet = String → Option Value

pub record Header : Type 0 where
  pub alg : Option String
  pub kid : Option String

pub record RoleCatalogRequest : Type 0 where
  pub client_secret : String
  -- key and name of each role
  pub roles : List (String × String)

-- a request and its address
pub data Sent : Type 0 where
  get : String → Sent
  post : String → TokenExchangeRequest → Sent
  put : String → RoleCatalogRequest → Sent

pub record Url : Type 0 where
  pub scheme : String
  pub netloc : String

pub record Web : Type 0 where
  pub urlparse : String → Url
  pub urlencode : List (String × String) → String
  -- the body of the answer to the last request, none where raise_for_status or the parser raises
  pub configuration : List Sent → Option Discovery
  pub key_set : List Sent → Option Jwks
  -- the token endpoint's "access_token", if the body has one
  pub token : List Sent → Option (Option String)
  pub catalog : List Sent → Option String
  -- jwt.get_unverified_header, and jwt.decode for RS256, a key and an audience, at a time
  pub get_unverified_header : String → Option Header
  pub decode : Time → String → Jwk → String → Option ClaimSet

pub data Failure : Type 0 where
  http_error jwt_error : Failure
  value_error key_error : String → Failure

pub data Reply (A : Type 0) : Type 0 where
  answer : A → Reply A
  failure : Failure → Reply A

pub record OrbitaSsoClient : Type 0 where
  -- self._discovery and self._jwks
  pub known_discovery : Option Discovery
  pub known_jwks : Option Jwks
  pub sent : List Sent

-- __init__
abbrev pub fresh_client : OrbitaSsoClient
fresh_client = record { known_discovery = none; known_jwks = none; sent = [] }

abbrev pub Call : Type 0 → Type 0
Call A = OrbitaSsoClient → Reply A × OrbitaSsoClient

module _ {A : Type 0} where
  abbrev pub return : A → Call A
  return a c = (answer a, c)

  abbrev pub fail : Failure → Call A
  fail e c = (failure e, c)

  abbrev pub or_fail : Option A → Failure → Call A
  or_fail none e c = (failure e, c)
  or_fail (some a) e c = (answer a, c)

  -- a request, and the answer that its log decides
  abbrev pub send : Sent → (List Sent → Option A) → Call A
  send request reply c =
      let sent = c.sent ++ request ∷ [] in
      or_fail (reply sent) http_error (record c { sent = sent })

abbrev pub fail_if : Bool → Failure → Call (Unit {0})
fail_if b e c = if b then (failure e, c) else (answer tt, c)

module _ {A B : Type 0} where
  abbrev pub proceed : Reply A → (A → Call B) → Call B
  proceed (answer a) f c = f a c
  proceed (failure e) f c = (failure e, c)

infixl 5 ◌>>=◌ ◌>>◌
abbrev pub ◌>>=◌ : {A B : Type 0} → Call A → (A → Call B) → Call B
◌>>=◌ m f c = let (r, c') = m c in proceed r f c'

abbrev pub ◌>>◌ : {A B : Type 0} → Call A → Call B → Call B
m >> k = m >>= λ _. k

abbrev pub keep_discovery : Discovery → Call (Unit {0})
keep_discovery document c = (answer tt, record c { known_discovery = some document })

abbrev pub keep_jwks : Jwks → Call (Unit {0})
keep_jwks keys c = (answer tt, record c { known_jwks = some keys })
