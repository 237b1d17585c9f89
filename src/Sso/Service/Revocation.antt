-- ===== src/Sso/Service/Revocation.antt =====
-- Revoking sessions: what `UPDATE app_sessions SET revoked_at` does to the query for an active one.
use orbita_backend.Prelude.{String, ◌≡◌, refl, Bool, not, ◌&&◌, first, List, [], ◌∷◌, arith}
use orbita_backend.Data.{Time, AppSession}
use orbita_backend.Apps.Roles.{revoke_where}
use orbita_backend.Sso.Service.{active}

-- From `rows` to `rows'` the sessions that satisfy `p` were revoked and no other: the query for an
-- active session, at any time and for any token, passes over them and is otherwise as before.
abbrev pub Revokes : (AppSession → Bool) → List AppSession → List AppSession → Type 0
Revokes p rows rows' =
    (now : Time) (jti : String)
    → first (active now jti) rows' ≡ first (λ s. active now jti s && not (p s)) rows

pub revoke_where-Revokes :
    (at : Time) (p : AppSession → Bool) (rows : List AppSession)
    → Revokes p rows (revoke_where at p rows)
revoke_where-Revokes at p [] = λ now jti. refl
revoke_where-Revokes at p (s ∷ rows) =
    λ now jti. ground (arith, revoke_where-Revokes at p rows now jti)

pub Revokes-of_eq :
    (at : Time) (p : AppSession → Bool) (rows rows' : List AppSession)
    → rows' ≡ revoke_where at p rows
    → Revokes p rows rows'
Revokes-of_eq at p rows rows' e = rw e (revoke_where-Revokes at p rows)
