-- ===== src/Auth/Tests.antt =====
-- Runs of app/security/auth.py on one configuration: an application key, and two keys in the JSON
-- text of which one has an unknown role.
use smart_sre_copilot.Prelude.{
  ℕ, String, ◌≡◌, ◌≢◌, refl, true, false, Option, none, some, [], ◌∷◌, lookup, insert, str_eq, ◌↔◌,
}
use smart_sre_copilot.Auth.{
  Document, object, Settings, StartupSettings, Principal, principal, refused,
  authentication_required, cleared, is_cached, is_known_role, role_capabilities, add_roles,
  add_subjects, set_default, api_key_roles, api_key_subjects, load_api_key_roles,
  load_api_key_subjects, api_key_subject, find_role, has_capability, get_current_principal,
  require_capability, validate_security_configuration,
}
use smart_sre_copilot.Auth.Keys.{
  get_current_principal_sound, get_current_principal_complete, require_capability_iff,
}
use smart_sre_copilot.Auth.Caching.{local_admin, later_request_ignores_key, start_refuses_requests}

abbrev loads : String → Document
loads text = object (("k1", "viewer") ∷ ("k2", "root") ∷ [])

abbrev name_of : ℕ → String
name_of i = "key:configured-1"

abbrev settings : Settings
settings = record { app_api_key = "main"; api_keys_json = "{...}"; is_production = false }

abbrev start : StartupSettings
start = record {
  auth = record settings { is_production = true };
  cors_origins = [];
  decision_provider = "deterministic";
  dashscope_api_key = "";
  task_queue_backend = "database";
  redis_password = "";
  redis_netloc_has_at = false;
}

loaded_roles : api_key_roles loads settings ≡ ("k1", "viewer") ∷ ("main", "admin") ∷ []
unfolding api_key_roles add_roles is_known_role set_default role_capabilities lookup insert
loaded_roles = refl

abbrev viewer : Principal
viewer = record { role = "viewer"; subject = "key:configured-1" }

first_request :
    (get_current_principal loads name_of settings (some "k1") cleared).0 ≡ principal viewer
unfolding get_current_principal api_key_roles add_roles is_known_role set_default role_capabilities
    lookup insert load_api_key_roles is_cached find_role api_key_subject load_api_key_subjects
    api_key_subjects add_subjects
first_request = refl

roles_nonempty : api_key_roles loads settings ≢ []
roles_nonempty e = cc (loaded_roles)

get_current_principal_sound_example :
    (key : String) × (◌≡◌ {A = Option String} (some "k1") (some key))
    × (lookup key (api_key_roles loads settings) ≡ some "viewer")
    × (is_known_role "viewer" ≡ true)
unfolding is_cached
get_current_principal_sound_example =
    get_current_principal_sound loads name_of settings (some "k1") cleared {p = viewer} refl
      roles_nonempty first_request

get_current_principal_complete_example :
    (p : Principal) × ((get_current_principal loads name_of settings (some "main") cleared).0
      ≡ principal p)
    × (p.role ≡ "admin")
unfolding api_key_roles add_roles is_known_role set_default role_capabilities lookup insert
    is_cached
get_current_principal_complete_example =
    get_current_principal_complete loads name_of settings "main" cleared refl refl refl

require_capability_iff_example :
    ((p : Principal) × ((require_capability loads name_of "knowledge:read" settings
          (some "k1")
          cleared).0
        ≡ principal p)
      × (p.role ≡ "viewer"))
    ↔ ((key : String) × (◌≡◌ {A = Option String} (some "k1") (some key))
        × (str_eq key "" ≡ false)
        × (lookup key (api_key_roles loads settings) ≡ some "viewer")
        × (has_capability "viewer" "knowledge:read" ≡ true))
unfolding is_cached
require_capability_iff_example =
    require_capability_iff loads name_of "knowledge:read" settings (some "k1") cleared "viewer" refl
      roles_nonempty

viewer_cannot_write : has_capability "viewer" "knowledge:write" ≡ false
unfolding has_capability role_capabilities lookup
viewer_cannot_write = refl

later_request_ignores_key_example :
    (get_current_principal loads name_of settings
      (some "wrong")
      (get_current_principal loads name_of settings (some "k1") cleared).1).0
    ≡ principal local_admin
later_request_ignores_key_example =
    later_request_ignores_key loads name_of settings (some "k1") (some "wrong") cleared

start_refuses_requests_example :
    (get_current_principal loads name_of start.auth
      (some "main")
      (validate_security_configuration loads start cleared).1).0
    ≡ refused authentication_required
start_refuses_requests_example =
    start_refuses_requests loads name_of start (some "main") cleared refl

start_is_valid : (validate_security_configuration loads start cleared).0 ≡ none
unfolding validate_security_configuration api_key_roles add_roles is_known_role set_default
    role_capabilities lookup insert load_api_key_roles is_cached
start_is_valid = refl
