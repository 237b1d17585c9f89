-- ===== src/Data/Sso.antt =====
-- app/modules/auth/models.py
use orbita_backend.Prelude.{String, Option}
use orbita_backend.Data.Ids.{Uuid, Time}

pub record AuthorizationCode : Type 0 where
  pub id : Uuid
  pub code_hash : String
  pub user_id : Uuid
  pub app_id : Uuid
  pub redirect_uri : String
  pub expires_at : Time
  pub used_at : Option Time

pub record AppSession : Type 0 where
  pub id : Uuid
  pub jti : String
  pub user_id : Uuid
  pub app_id : Uuid
  pub expires_at : Time
  pub revoked_at : Option Time

pub record LogoutTicket : Type 0 where
  pub id : Uuid
  pub ticket_hash : String
  pub app_id : Uuid
  pub post_logout_uri : String
  pub expires_at : Time
  pub used_at : Option Time
