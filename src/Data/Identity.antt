-- ===== src/Data/Identity.antt =====
-- app/modules/identity/models.py
use orbita_backend.Prelude.{String, Bool, Option}
use orbita_backend.Data.Ids.{Uuid, Time}

pub record Provider : Type 0 where
  pub id : Uuid
  pub code : String
  pub name : String
  pub kind : String
  pub active : Bool

pub record ExternalIdentity : Type 0 where
  pub id : Uuid
  pub user_id : Uuid
  pub provider_id : Uuid
  pub provider_user_id : String
  pub provider_tenant_id : Option String
  pub provider_email : Option String
  pub last_seen_at : Option Time

pub record MoodleLoginFailure : Type 0 where
  pub subject_hash : String
  pub ip_hash : String
  pub failed_at : Time
