-- ===== src/Access/Audit.antt =====
-- AccessService.audit and AccessService.sync_moodle_clan
use orbita_backend.Prelude.{
  String, Bool, ◌&&◌, ◌==◌, text_comparable, number_comparable, same_option, Option, none, some,
  List, [], ◌∷◌, ◌++◌, first, delete, update, if◌then◌else◌,
}
use orbita_backend.Data.{Db, Uuid, Time, AuditLog, UserFederatedAttribute}
use orbita_backend.Http.{Request}
use orbita_backend.Exec.{Action, gets, modify, commit, only_if, ◌>>=◌, ◌>>◌}

abbrev client_host : Option Request → Option String
client_host none = none
client_host (some r) = r.client_host

abbrev user_agent : Option Request → Option String
user_agent none = none
user_agent (some r) = r.user_agent

abbrev pub Details : Type 0
Details = List (String × Option String)

unfoldable pub log_row : String → Option Uuid → Option Request → Option Uuid → Details → AuditLog
log_row event user_id request application_id details = record {
  user_id = user_id;
  event = event;
  application_id = application_id;
  ip_address = client_host request;
  user_agent = user_agent request;
  details = details;
}

abbrev pub add_log : AuditLog → Db → Db
add_log row db = record db { audit_logs = db.audit_logs ++ row ∷ [] }

-- AccessService.audit(db, event=, user_id=, request=, application_id=, details=, commit=)
unfoldable pub audit :
    String → Option Uuid → Option Request → Option Uuid → Details → Bool → Action Unit
audit event user_id request application_id details commits = do
  modify (add_log (log_row event user_id request application_id details))
  only_if commits commit

abbrev is_clan_of : Uuid → UserFederatedAttribute → Bool
is_clan_of user_id a = a.user_id == user_id && a.name == "clan"

-- The row that `sync_moodle_clan` leaves: the clan if Moodle gave exactly one, and otherwise none.
abbrev pub synced_value : Option String → String → Option String
synced_value clan status = if status == "synced" then clan else none

abbrev new_clan : Uuid → Uuid → Time → Option String → String → UserFederatedAttribute
new_clan id user_id now clan status = record {
  id = id;
  user_id = user_id;
  name = "clan";
  value = synced_value clan status;
  source = "moodle";
  sync_status = status;
  observed_at = now;
}

abbrev refresh_clan :
    Time → Option String → String → UserFederatedAttribute → UserFederatedAttribute
refresh_clan now clan status a = record a {
  value = synced_value clan status;
  source = "moodle";
  sync_status = status;
  observed_at = now;
}

abbrev write_clan :
    Uuid → Time → Uuid → Option String → String → Option UserFederatedAttribute → Db → Db
write_clan id now user_id clan status none db = record db {
  attributes = db.attributes ++ new_clan id user_id now clan status ∷ [];
}
write_clan id now user_id clan status (some existing) db = record db {
  attributes = update (λ a. a.id == existing.id) (refresh_clan now clan status) db.attributes;
}

-- AccessService.sync_moodle_clan; `id` and `now` are the defaults of the id and of observed_at.
unfoldable pub sync_moodle_clan :
    Uuid → Time → Uuid → Option String → Option String → String → Action Unit
sync_moodle_clan id now user_id role_name clan status =
    if same_option role_name (some "coder")
    then (do
      existing ← gets (λ db. first (is_clan_of user_id) db.attributes)
      modify (write_clan id now user_id clan status existing)
      commit)
    else (do
      modify (λ db. record db { attributes = delete (is_clan_of user_id) db.attributes })
      commit)
