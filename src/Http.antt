-- ===== src/Http.antt =====
-- What a handler reads of a Starlette `Request`, and the cookies and pages that it answers with.
use orbita_backend.Prelude.{String, Option}

-- request.session["pending_authorize"]: the signed session cookie of SessionMiddleware. The keys of
-- the stored dict are optional, since the code guards against a missing one.
pub record PendingAuthorize : Type 0 where
  pub client_id : Option String
  pub redirect_uri : Option String
  pub state : Option String

pub record Request : Type 0 where
  pub method : String
  pub path : String
  pub client_host : Option String
  pub user_agent : Option String
  pub origin : Option String
  pub csrf_header : Option String
  -- request.cookies.get(settings.access_cookie_name)
  pub access_cookie : Option String
  pub pending_authorize : Option PendingAuthorize
