-- ===== src/Tests/Sample.antt =====
-- The rows, the settings and the requests of the tests.
use orbita_backend.Prelude.{
  String, true, false, text_comparable, number_comparable, none, some, [], ◌∷◌,
}
use orbita_backend.Data.{
  Db, empty_db, Uuid, User, GlobalRole, Application, App, Role, UserAppRole, AppSession,
  AuthorizationCode, sso_role,
}
use orbita_backend.Http.{Request}
use orbita_backend.Settings.{Settings}
use orbita_backend.Sso.Exchange.{Draw, TokenExchangeRequest}

abbrev pub ana : User
ana = record {
  id = 1;
  microsoft_id = none;
  email = "ana@riwi.io";
  full_name = "Ana";
  is_active = true;
  password_hash = none;
  must_change_password = false;
  deleted_at = none;
}

abbrev global_role : Uuid → String → GlobalRole
global_role id name = record { id = id; name = name; description = none }

abbrev pub tile : Application
tile = record {
  id = 5;
  slug = "campus";
  name = "Campus";
  description = "";
  url = "https://campus.riwi.io";
  icon = none;
  access_policy = sso_role;
  is_active = true;
}

abbrev pub campus : App
campus = record {
  id = 10;
  application_id = some 5;
  client_id = "campus";
  client_secret_hash = "salt$secret";
  previous_client_secret_hash = none;
  previous_secret_expires_at = none;
  name = "Campus";
  is_active = true;
  role_cardinality = "single";
  migration_access_enabled = true;
  jit_role_adoption_enabled = true;
  released_claims = [];
}

abbrev pub editor : Role
editor = record {
  id = 20;
  app_id = 10;
  name = "editor";
  display_name = "Editor";
  description = none;
  is_active = true;
  managed_by_app = true;
}

abbrev pub editor_of_ana : UserAppRole
editor_of_ana = record { id = 30; user_id = 1; app_id = 10; role_id = 20; source = "manual" }

abbrev pub open_code : AuthorizationCode
open_code = record {
  id = 40;
  code_hash = "code";
  user_id = 1;
  app_id = 10;
  redirect_uri = "https://campus.riwi.io/callback";
  expires_at = 60000000;
  used_at = none;
}

abbrev pub open_session : AppSession
open_session = record {
  id = 50;
  jti = "earlier";
  user_id = 1;
  app_id = 10;
  expires_at = 1800000000;
  revoked_at = none;
}

abbrev pub db : Db
db = record empty_db {
  users = ana ∷ [];
  global_roles = global_role 1 "admin" ∷ global_role 2 "guest" ∷ global_role 3 "coder" ∷ [];
  user_global_roles = record { user_id = 1; global_role_id = 3 } ∷ [];
  role_sources = record { user_id = 1; global_role_id = 3; source = "moodle" } ∷ [];
  applications = tile ∷ [];
  apps = campus ∷ [];
  roles = editor ∷ [];
  user_app_roles = editor_of_ana ∷ [];
  authorization_codes = open_code ∷ [];
  app_sessions = open_session ∷ [];
}

abbrev pub request : Request
request = record {
  method = "POST";
  path = "/api/auth/logout";
  client_host = some "10.0.0.1";
  user_agent = none;
  origin = none;
  csrf_header = none;
  access_cookie = some "cookie";
  pending_authorize = none;
}

abbrev pub exchange : TokenExchangeRequest
exchange = record {
  code = "code";
  client_id = "campus";
  client_secret = "secret";
  redirect_uri = "https://campus.riwi.io/callback";
}

abbrev pub draw : Draw
draw = record { now = 0; jti = "fresh"; session_id = 51 }

abbrev pub settings : Settings
settings = record {
  environment = "production";
  frontend_url = "https://orbita.riwi.io";
  frontend_origins = "";
  public_base_url = "";
  local_base_url = "http://localhost:8000";
  enable_microsoft_login = true;
  microsoft_tenant_id = "";
  microsoft_client_id = "";
  moodle_base_url = "";
  moodle_service = "";
  enable_local_login = true;
  allowed_identity_email_domains = "riwi.io";
  allow_moodle_noninstitutional_email_linking = false;
  moodle_login_pair_limit = 2;
  moodle_login_ip_limit = 20;
  moodle_login_window_minutes = 15;
  jwt_secret = "secret";
  jwt_expire_minutes = 60;
  csrf_secret = "";
  rate_limit_secret = "";
  platform_admin_emails = "";
}
