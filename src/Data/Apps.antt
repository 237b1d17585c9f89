-- ===== src/Data/Apps.antt =====
-- app/modules/apps/models.py
use orbita_backend.Prelude.{String, Bool, Option, List}
use orbita_backend.Data.Ids.{Uuid, Time}

pub record App : Type 0 where
  pub id : Uuid
  pub application_id : Option Uuid
  pub client_id : String
  pub client_secret_hash : String
  pub previous_client_secret_hash : Option String
  pub previous_secret_expires_at : Option Time
  pub name : String
  pub is_active : Bool
  pub role_cardinality : String
  pub migration_access_enabled : Bool
  pub jit_role_adoption_enabled : Bool
  pub released_claims : List String

pub record AppRedirectUri : Type 0 where
  pub id : Uuid
  pub app_id : Uuid
  pub redirect_uri : String

pub record AppPostLogoutUri : Type 0 where
  pub id : Uuid
  pub app_id : Uuid
  pub post_logout_uri : String

pub record Role : Type 0 where
  pub id : Uuid
  pub app_id : Uuid
  pub name : String
  pub display_name : String
  pub description : Option String
  pub is_active : Bool
  pub managed_by_app : Bool

pub record UserAppRole : Type 0 where
  pub id : Uuid
  pub user_id : Uuid
  pub app_id : Uuid
  pub role_id : Uuid
  pub source : String

pub record AppGlobalRoleMapping : Type 0 where
  pub id : Uuid
  pub app_id : Uuid
  pub global_role_id : Uuid
  pub app_role_id : Uuid
