-- ===== src/Sso/Exchange/SingleUse.antt =====
-- How often an authorization code can be exchanged at POST /auth/token.
use orbita_backend.Prelude.{
  String, ◌≡◌, ◌≢◌, refl, sym, false, ◌&&◌, ◌==◌, text_comparable, is_none, any, first, update,
  none, some, inl, inr, List, [], ◌∷◌, arith, Bool-cases, subst,
}
use text.Mathlib.TextEquality.{eq_iff}
use orbita_backend.Data.{Db, Time, App, AuthorizationCode}
use orbita_backend.Crypto.{Crypto}
use orbita_backend.Exec.{ok, run}
use orbita_backend.Sso.Service.{redeems}
use orbita_backend.Sso.Exchange.{
  Draw, TokenExchangeRequest, TokenResponse, exchange_code_for_app_token,
}
use orbita_backend.Sso.Exchange.Atomic.{exchange_sound}

-- The unique column `code_hash`: no hash stands in two rows.
abbrev pub HasUniqueHashes : List AuthorizationCode → Type 0
HasUniqueHashes [] = Unit
HasUniqueHashes (c ∷ cs) = (any (λ d. d.code_hash == c.code_hash) cs ≡ false) × HasUniqueHashes cs

-- Every row with this hash is used.
abbrev pub IsSpent : String → List AuthorizationCode → Type 0
IsSpent hash cs = any (λ c. c.code_hash == hash && is_none c.used_at) cs ≡ false

module _ (crypto : Crypto) (now : Time) (code : String) (app : App) (uri : String) where
  none_left :
      (cs : List AuthorizationCode)
      → any (λ d. d.code_hash == crypto.sha256 code) cs ≡ false
      → IsSpent
          (crypto.sha256 code)
          (update (redeems crypto now code app uri) (λ d. record d { used_at = some now }) cs)
  none_left [] h = refl
  none_left (d ∷ ds) h = ground (arith, none_left ds)

  unmatched :
      (cs : List AuthorizationCode)
      → any (λ d. d.code_hash == crypto.sha256 code) cs ≡ false
      → first (redeems crypto now code app uri) cs ≡ none
  unmatched [] h = refl
  unmatched (d ∷ ds) h = ground (arith, unmatched ds)

  redeem-IsSpent :
      (cs : List AuthorizationCode) (c : AuthorizationCode)
      → HasUniqueHashes cs
      → first (redeems crypto now code app uri) cs ≡ some c
      → IsSpent
          (crypto.sha256 code)
          (update (redeems crypto now code app uri) (λ d. record d { used_at = some now }) cs)
  redeem-IsSpent [] c u h = cc
  redeem-IsSpent (d ∷ ds) c u h = elim (Bool-cases (d.code_hash == crypto.sha256 code)) [
    | inl same ↦
        let e = (eq_iff d.code_hash (crypto.sha256 code)).0 same in
        let others = subst (λ k. any (λ x. x.code_hash == k) ds ≡ false) e u.0 in
        ground (arith, none_left ds others, unmatched ds others)
    | inr differ ↦ ground (arith, redeem-IsSpent ds c)
  ]

  -- A code whose rows are all used cannot be redeemed.
  IsSpent-first :
      (cs : List AuthorizationCode)
      → IsSpent (crypto.sha256 code) cs
      → first (redeems crypto now code app uri) cs ≡ none
  IsSpent-first [] h = refl
  IsSpent-first (d ∷ ds) h = ground (arith, IsSpent-first ds)

module _ (crypto : Crypto) (first_draw : Draw) (payload : TokenExchangeRequest) (db : Db) where
  -- After a successful exchange every row with the hash of the code is used.
  pub exchange-IsSpent :
      {r : TokenResponse}
      → HasUniqueHashes db.authorization_codes
      → (run (exchange_code_for_app_token crypto first_draw payload) db).0 ≡ ok r
      → IsSpent
          (crypto.sha256 payload.code)
          (run (exchange_code_for_app_token crypto first_draw payload) db).1.authorization_codes
  exchange-IsSpent unique success =
      let (app, code, user, rests, after, token) =
        exchange_sound crypto first_draw payload db success in
      rw after (
        redeem-IsSpent crypto first_draw.now payload.code app payload.redirect_uri
          db.authorization_codes code unique rests.open_code)

  pub IsSpent-exchange :
      (draw : Draw) (again : TokenExchangeRequest) (d : Db) {r : TokenResponse}
      → again.code ≡ payload.code
      → IsSpent (crypto.sha256 payload.code) d.authorization_codes
      → (run (exchange_code_for_app_token crypto draw again) d).0 ≢ ok r
  IsSpent-exchange draw again d same spent success =
      let (app, code, user, rests, after, token) = exchange_sound crypto draw again d success in
      let spent' = subst (λ k. IsSpent (crypto.sha256 k) d.authorization_codes) (sym same) spent in
      let closed =
        IsSpent-first crypto draw.now again.code app again.redirect_uri d.authorization_codes
          spent' in
      cc (closed, rests.open_code)

  -- Where no two rows have the same code hash, a code that was exchanged is refused by a second
  -- exchange on the rows that the first one left, whatever client and URI it names and at any time.
  pub exchange_once :
      (draw : Draw) (again : TokenExchangeRequest) {r r' : TokenResponse}
      → HasUniqueHashes db.authorization_codes
      → (run (exchange_code_for_app_token crypto first_draw payload) db).0 ≡ ok r
      → again.code ≡ payload.code
      → (run
          (exchange_code_for_app_token crypto draw again)
          (run (exchange_code_for_app_token crypto first_draw payload) db).1).0
        ≢ ok r'
  exchange_once draw again unique success same =
      IsSpent-exchange draw again _ same (exchange-IsSpent unique success)
