-- ===== src/Data/Users.antt =====
-- app/modules/users/models.py
use orbita_backend.Prelude.{String, Bool, Option, is_some}
use orbita_backend.Data.Ids.{Uuid, Time}

pub record User : Type 0 where
  pub id : Uuid
  pub microsoft_id : Option Uuid
  pub email : String
  pub full_name : String
  pub is_active : Bool
  pub password_hash : Option String
  pub must_change_password : Bool
  pub deleted_at : Option Time

-- the property `User.is_local_account`
abbrev pub is_local_account : User → Bool
is_local_account u = is_some u.password_hash

pub record UserFederatedAttribute : Type 0 where
  pub id : Uuid
  pub user_id : Uuid
  pub name : String
  pub value : Option String
  pub source : String
  pub sync_status : String
  pub observed_at : Time
