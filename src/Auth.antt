-- ===== src/Auth.antt =====
-- Authentication and capability checks (app/security/auth.py): the role table, the two loaders of
-- API keys with their module-level caches, and the resolution of a request's principal.
-- `json.loads` is a parameter: what it makes of the text of API_KEYS_JSON is a `Document`.
pub mod Keys
pub mod Caching
mod Tests
use smart_sre_copilot.Prelude.{
  ℕ, ◌+◌, String, ◌≡◌, Bool, true, false, not, ◌&&◌, ◌||◌, Option, none, some, List, [], ◌∷◌,
  lookup, insert, contains, str_eq, if◌then◌else◌,
}

-- `ROLE_CAPABILITIES`, read by `.get(role)`.
unfoldable pub role_capabilities : List (String × List String)
role_capabilities =
    ("viewer", "chat:read" ∷ "knowledge:read" ∷ [])
    ∷ ("operator", "chat:use" ∷ "chat:read" ∷ "knowledge:read" ∷ "aiops:run" ∷ [])
    ∷ ("knowledge_admin", "chat:use" ∷ "chat:read" ∷ "knowledge:read" ∷ "knowledge:write" ∷ [])
    ∷ ("admin", "*" ∷ [])
    ∷ []

-- `role in ROLE_CAPABILITIES`
unfoldable pub is_known_role : String → Bool
is_known_role role = elim (lookup role role_capabilities) [ none ↦ false | some _ ↦ true ]

pub record Principal : Type 0 where
  pub role : String
  pub subject : String

-- The settings that this module reads; `is_production` is the property of that name.
pub record Settings : Type 0 where
  pub app_api_key : String
  pub api_keys_json : String
  pub is_production : Bool

-- What `json.loads` returns: an error, a value that is no object, or the items of an object with
-- `str(value)` for each value.
pub data Document : Type 0 where
  invalid : Document
  other : Document
  object : List (String × String) → Document

abbrev pub CacheKey : Type 0
CacheKey = String × String

-- `_api_key_roles_cache` and `_api_key_subjects_cache`: each holds the key of the last load.
pub record Caches : Type 0 where
  pub roles : Option CacheKey
  pub subjects : Option CacheKey

abbrev pub cleared : Caches
cleared = record { roles = none; subjects = none }

pub clear_auth_caches : Caches → Caches
clear_auth_caches _ = cleared

abbrev pub cache_key : Settings → CacheKey
cache_key s = (s.app_api_key, s.api_keys_json)

-- `_api_key_roles_cache == cache_key`
unfoldable pub is_cached : Option CacheKey → CacheKey → Bool
is_cached none k = false
is_cached (some (a, j)) (a', j') = str_eq a a' && str_eq j j'

-- `mapping.setdefault(key, value)`
unfoldable pub set_default : String → String → List (String × String) → List (String × String)
set_default k v m = elim (lookup k m) [ none ↦ insert k v m | some _ ↦ m ]

unfoldable pub is_auth_configured : Settings → Bool
is_auth_configured s =
    if str_eq s.app_api_key "" then (if str_eq s.api_keys_json "" then false else true) else true

-- The loop of `load_api_key_roles` over the items of the object.
unfoldable pub add_roles : List (String × String) → List (String × String) → List (String × String)
add_roles mapping [] = mapping
add_roles mapping ((key, role) ∷ items) =
    add_roles (if is_known_role role then insert key role mapping else mapping) items

-- The loop of `load_api_key_subjects`; `configured i` is `f"key:configured-{i}"`.
unfoldable pub add_subjects :
    (ℕ → String) → ℕ → List (String × String) → List (String × String) → List (String × String)
add_subjects configured i subjects [] = subjects
add_subjects configured i subjects ((key, role) ∷ items) =
    add_subjects configured (if is_known_role role then i + 1 else i)
      (if is_known_role role then insert key (configured i) subjects else subjects) items

abbrev pub items_of : Document → List (String × String)
items_of (object items) = items
items_of _ = []

-- `"*" in capabilities or capability in capabilities`
unfoldable pub has_capability : String → String → Bool
has_capability role capability =
    let capabilities : List String = elim (lookup role role_capabilities) [
      | none ↦ []
      | some names ↦ names
    ] in
    contains "*" capabilities || contains capability capabilities

-- The HTTP errors that the dependencies raise.
pub data HttpError : Type 0 where
  authentication_required : HttpError  -- 401, in production with no keys
  invalid_api_key : HttpError  -- 401
  missing_capability : String → HttpError  -- 403

pub data Outcome : Type 0 where
  principal : Principal → Outcome
  refused : HttpError → Outcome

-- `x_api_key and x_api_key in api_key_roles`, and the role found.
unfoldable pub find_role : Option String → List (String × String) → Option (String × String)
find_role none roles = none
find_role (some key) roles =
    if str_eq key ""
    then none
    else (elim (lookup key roles) [ none ↦ none | some role ↦ some (key, role) ])

check_capability : String → Outcome → Outcome
check_capability capability (refused e) = refused e
check_capability capability (principal p) =
    if has_capability p.role capability
    then principal p
    else refused (missing_capability capability)

-- What `validate_security_configuration` reads beside them. Texts are as the code normalises them:
-- the provider stripped and in lower case, the two secrets stripped, the host part of REDIS_URL.
pub record StartupSettings : Type 0 where
  pub auth : Settings
  pub open auth use *
  pub cors_origins : List String
  pub decision_provider : String
  pub dashscope_api_key : String
  pub task_queue_backend : String
  pub redis_password : String
  pub redis_netloc_has_at : Bool

-- The RuntimeErrors of the start, in the order of the tests.
pub data StartupError : Type 0 where
  api_keys_missing wildcard_cors dashscope_key_missing redis_password_missing : StartupError

abbrev is_empty : List (String × String) → Bool
is_empty [] = true
is_empty (x ∷ xs) = false

check_settings : StartupSettings → List (String × String) → Option StartupError
check_settings s roles =
    if s.is_production && is_empty roles
    then some api_keys_missing
    else if s.is_production && contains "*" s.cors_origins
    then some wildcard_cors
    else if s.is_production && (str_eq s.decision_provider "qwen" && str_eq s.dashscope_api_key "")
    then some dashscope_key_missing
    else if s.is_production
        && (str_eq s.task_queue_backend "redis"
            && (str_eq s.redis_password "" && not s.redis_netloc_has_at))
    then some redis_password_missing
    else none

module _ (json_loads : String → Document) where
  -- The mapping that a load computes when its cache is empty.
  unfoldable pub api_key_roles : Settings → List (String × String)
  api_key_roles s =
      let mapping : List (String × String) =
        if str_eq s.api_keys_json ""
        then []
        else add_roles [] (items_of (json_loads s.api_keys_json)) in
      if str_eq s.app_api_key "" then mapping else set_default s.app_api_key "admin" mapping

  -- A hit of the cache returns the empty mapping, as the source does.
  unfoldable pub load_api_key_roles : Settings → Caches → List (String × String) × Caches
  load_api_key_roles s c =
      if is_cached c.roles (cache_key s)
      then ([], c)
      else (api_key_roles s, record c { roles = some (cache_key s) })

  -- The error raised, if any, and the caches left behind.
  unfoldable pub validate_security_configuration :
      StartupSettings → Caches → Option StartupError × Caches
  unfolding check_settings
  validate_security_configuration s c =
      let (roles, c') = load_api_key_roles s.auth c in (check_settings s roles, c')

module _ (json_loads : String → Document) (configured : ℕ → String) where
  unfoldable pub api_key_subjects : Settings → List (String × String)
  api_key_subjects s =
      let subjects : List (String × String) =
        if str_eq s.api_keys_json ""
        then []
        else add_subjects configured 1 [] (items_of (json_loads s.api_keys_json)) in
      if str_eq s.app_api_key "" then subjects else set_default s.app_api_key "key:primary" subjects

  unfoldable pub load_api_key_subjects : Settings → Caches → List (String × String) × Caches
  load_api_key_subjects s c =
      if is_cached c.subjects (cache_key s)
      then ([], c)
      else (api_key_subjects s, record c { subjects = some (cache_key s) })

  unfoldable pub api_key_subject : Settings → String → Caches → String × Caches
  api_key_subject s api_key c =
      let (subjects, c') = load_api_key_subjects s c in
      (elim (lookup api_key subjects) [ none ↦ "key:unknown" | some name ↦ name ], c')

  resolve : Settings → Option (String × String) → Caches → Outcome × Caches
  resolve s none c = (refused invalid_api_key, c)
  resolve s (some (key, role)) c =
      let (subject, c') = api_key_subject s key c in
      (principal (record { role = role; subject = subject }), c')

  -- `not api_key_roles` is the empty mapping.
  with_roles : Settings → Option String → List (String × String) → Caches → Outcome × Caches
  with_roles s x_api_key [] c =
      if s.is_production
      then (refused authentication_required, c)
      else (principal (record { role = "admin"; subject = "local-dev" }), c)
  with_roles s x_api_key (entry ∷ roles) c = resolve s (find_role x_api_key (entry ∷ roles)) c

  unfoldable pub get_current_principal : Settings → Option String → Caches → Outcome × Caches
  unfolding with_roles resolve
  get_current_principal s x_api_key c =
      let (roles, c') = load_api_key_roles json_loads s c in with_roles s x_api_key roles c'

  unfoldable pub require_capability : String → Settings → Option String → Caches → Outcome × Caches
  unfolding check_capability
  require_capability capability s x_api_key c =
      let (outcome, c') = get_current_principal s x_api_key c in
      (check_capability capability outcome, c')
