-- ===== src/Data/Database.antt =====
-- The tables of the database.
use orbita_backend.Prelude.{List, []}
use orbita_backend.Data.Users.{User, UserFederatedAttribute}
use orbita_backend.Data.Access.{
  UserGlobalRole, UserGlobalRoleSource, ApplicationGlobalRole, UserApplication, GlobalRole,
  Application, AuditLog,
}
use orbita_backend.Data.Apps.{
  App, AppRedirectUri, AppPostLogoutUri, Role, UserAppRole, AppGlobalRoleMapping,
}
use orbita_backend.Data.Sso.{AuthorizationCode, AppSession, LogoutTicket}
use orbita_backend.Data.Identity.{Provider, ExternalIdentity, MoodleLoginFailure}

pub record Db : Type 0 where
  pub users : List User
  pub attributes : List UserFederatedAttribute
  pub user_global_roles : List UserGlobalRole
  pub role_sources : List UserGlobalRoleSource
  pub application_global_roles : List ApplicationGlobalRole
  pub user_applications : List UserApplication
  pub global_roles : List GlobalRole
  pub applications : List Application
  pub audit_logs : List AuditLog
  pub apps : List App
  pub redirect_uris : List AppRedirectUri
  pub post_logout_uris : List AppPostLogoutUri
  pub roles : List Role
  pub user_app_roles : List UserAppRole
  pub role_mappings : List AppGlobalRoleMapping
  pub authorization_codes : List AuthorizationCode
  pub app_sessions : List AppSession
  pub logout_tickets : List LogoutTicket
  pub providers : List Provider
  pub external_identities : List ExternalIdentity
  pub login_failures : List MoodleLoginFailure

abbrev pub empty_db : Db
empty_db = record {
  users = [];
  attributes = [];
  user_global_roles = [];
  role_sources = [];
  application_global_roles = [];
  user_applications = [];
  global_roles = [];
  applications = [];
  audit_logs = [];
  apps = [];
  redirect_uris = [];
  post_logout_uris = [];
  roles = [];
  user_app_roles = [];
  role_mappings = [];
  authorization_codes = [];
  app_sessions = [];
  logout_tickets = [];
  providers = [];
  external_identities = [];
  login_failures = [];
}
