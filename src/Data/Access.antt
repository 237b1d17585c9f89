-- ===== src/Data/Access.antt =====
-- app/modules/access/models.py
use orbita_backend.Prelude.{String, Bool, Option, List}
use orbita_backend.Data.Ids.{Uuid}

pub data ApplicationAccessPolicy : Type 0 where
  catalog sso_role : ApplicationAccessPolicy

-- a row of user_global_roles
pub record UserGlobalRole : Type 0 where
  pub user_id : Uuid
  pub global_role_id : Uuid

-- a row of user_global_role_sources
pub record UserGlobalRoleSource : Type 0 where
  pub user_id : Uuid
  pub global_role_id : Uuid
  pub source : String

-- a row of application_global_roles
pub record ApplicationGlobalRole : Type 0 where
  pub application_id : Uuid
  pub global_role_id : Uuid

-- a row of user_applications
pub record UserApplication : Type 0 where
  pub user_id : Uuid
  pub application_id : Uuid

pub record GlobalRole : Type 0 where
  pub id : Uuid
  pub name : String
  pub description : Option String

pub record Application : Type 0 where
  pub id : Uuid
  pub slug : String
  pub name : String
  pub description : String
  pub url : String
  pub icon : Option String
  pub access_policy : ApplicationAccessPolicy
  pub is_active : Bool

-- `details` is a JSON object of texts: its keys with their values.
pub record AuditLog : Type 0 where
  pub user_id : Option Uuid
  pub event : String
  pub application_id : Option Uuid
  pub ip_address : Option String
  pub user_agent : Option String
  pub details : List (String × Option String)
