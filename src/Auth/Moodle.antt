-- ===== src/Auth/Moodle.antt =====
-- app/modules/auth/moodle.py: what Orbita makes of the roles and groups that Moodle reports. The
-- answers of Moodle's web services come over HTTP: `authenticate` takes them as they were decoded.
pub mod Priority
use orbita_backend.Prelude.{
  ◌⊎◌, inl, inr, String, Bool, true, false, not, ◌&&◌, ◌||◌, ◌==◌, text_comparable,
  number_comparable, same_option, is_some, is_empty, Option, none, some, List, [], ◌∷◌, ◌++◌, map,
  any, contains, if◌then◌else◌,
}
use orbita_backend.Prelude.Names.{sorted_set}
use orbita_backend.Prelude.Text.{strip, lower}
use orbita_backend.Settings.{Settings, moodle_configured, map_nonblank}
use orbita_backend.Identity.{normalize_email}

-- MOODLE_ROLE_MAP.get
unfoldable pub moodle_role : String → Option String
moodle_role name =
    if name == "manager" || name == "gestor"
    then some "admin"
    else if name == "editingteacher" || name == "teacher"
    then some "teamleader"
    else if name == "student"
    then some "coder"
    else none

-- MOODLE_ROLE_PRIORITY
abbrev pub moodle_role_priority : List String
moodle_role_priority = "admin" ∷ "teamleader" ∷ "coder" ∷ []

-- the members of the set `mapped`
abbrev pub mapped_roles : List String → List (Option String)
mapped_roles = map (λ role. moodle_role (lower (strip role)))

abbrev pub has_role : String → List (Option String) → Bool
has_role role = any (λ r. same_option r (some role))

-- `next((role for role in names if role in mapped), None)`
abbrev first_role : List (Option String) → List String → Option String
first_role mapped [] = none
first_role mapped (role ∷ names) =
    if has_role role mapped then some role else first_role mapped names

unfoldable pub mapped_orbita_role : List String → Option String
mapped_orbita_role role_shortnames = first_role (mapped_roles role_shortnames) moodle_role_priority

abbrev clan_of : List String → Option String × String
clan_of [] = (none, "missing")
clan_of (name ∷ []) = (some name, "synced")
clan_of (a ∷ b ∷ names) = (none, "ambiguous")

unfoldable pub resolve_moodle_clan : List String → Option String × String
resolve_moodle_clan group_names = clan_of (sorted_set (map_nonblank strip group_names))

-- What `authenticate` raises, or the user.
pub data Outcome : Type 0 where
  credentials_error unavailable_error : Outcome

pub record MoodleAuthenticatedUser : Type 0 where
  pub user_id : String
  pub email : String
  pub full_name : String
  pub role_shortnames : List String
  pub clan_name : Option String
  pub clan_status : String

-- a profile of core_user_get_users_by_field
pub record Profile : Type 0 where
  pub id : String
  pub email : Option String
  pub fullname : String

-- a profile of core_user_get_course_user_profiles, with the short names of its roles and the names
-- of its groups
pub record CourseProfile : Type 0 where
  pub id : String
  pub roles : List String
  pub groups : List String

-- The answers of the services, in the order of the calls: none is an answer of another form, an HTTP
-- error, or an exception that Moodle reports.
pub record Answers : Type 0 where
  -- `token` and `errorcode` of login/token.php
  pub token_payload : Option (Option String × Option String)
  pub userid : Option String
  pub profiles : Option (List Profile)
  -- one for each course with an id, or none where the courses are not a list
  pub course_profiles : Option (List (Option (List CourseProfile)))

abbrev roles_of : List String → List String
roles_of [] = []
roles_of (r ∷ rs) = if r == "" then roles_of rs else lower (strip r) ∷ roles_of rs

abbrev groups_of : CourseProfile → List String
groups_of p = if contains "student" (roles_of p.roles) then map_nonblank strip p.groups else []

-- profile_access
abbrev Access : Type 0
Access = List String × List String

abbrev profile_access : String → Option (List CourseProfile) → Option Access
profile_access user_id (some (p ∷ [])) =
    if p.id == user_id then some (roles_of p.roles, groups_of p) else none
profile_access user_id _ = none

abbrev joined : Option Access → Option Access → Option Access
joined (some (roles, groups)) (some (more, others)) = some (roles ++ more, groups ++ others)
joined _ _ = none

-- asyncio.gather, and the roles and the groups of all courses
abbrev all_access : String → List (Option (List CourseProfile)) → Option Access
all_access user_id [] = some ([], [])
all_access user_id (c ∷ cs) = joined (profile_access user_id c) (all_access user_id cs)

abbrev access_of_courses : String → Option (List (Option (List CourseProfile))) → Option Access
access_of_courses user_id none = none
access_of_courses user_id (some cs) = all_access user_id cs

-- the one profile, if it is the user's
abbrev own_profile : String → Option (List Profile) → Option Profile
own_profile user_id (some (p ∷ [])) = if p.id == user_id then some p else none
own_profile user_id _ = none

-- `a or ""`
abbrev text_or_blank : Option String → String
text_or_blank none = ""
text_or_blank (some s) = s

abbrev pub Reply : Type 0
Reply = Outcome ⊎ MoodleAuthenticatedUser

module _ (validate_email : String → Option String) (settings : Settings) where
  abbrev moodle_user : String → Option Access → Option Profile → Reply
  moodle_user user_id (some (roles, groups)) (some profile) =
      let (clan_name, clan_status) = resolve_moodle_clan groups in
      inr (record {
        user_id = user_id;
        email = text_or_blank (normalize_email validate_email settings profile.email);
        full_name = profile.fullname;
        role_shortnames = sorted_set roles;
        clan_name = clan_name;
        clan_status = clan_status;
      })
  moodle_user user_id _ _ = inl unavailable_error

  abbrev with_user : Answers → Option String → Reply
  with_user answers none = inl unavailable_error
  with_user answers (some user_id) =
      if user_id == ""
      then inl unavailable_error
      else moodle_user user_id (access_of_courses user_id answers.course_profiles)
          (own_profile user_id answers.profiles)

  -- `token_payload.get("errorcode") in {"invalidlogin", "invalidtoken"}`
  abbrev refused : Option String → Outcome
  refused none = unavailable_error
  refused (some e) =
      if e == "invalidlogin" || e == "invalidtoken" then credentials_error else unavailable_error

  abbrev with_token : Answers → Option (Option String × Option String) → Reply
  with_token answers none = inl unavailable_error
  with_token answers (some (token, errorcode)) =
      if text_or_blank token == ""
      then inl (refused errorcode)
      else with_user answers answers.userid

  unfoldable pub authenticate : Answers → Reply
  authenticate answers =
      if moodle_configured settings
      then with_token answers answers.token_payload
      else inl unavailable_error
