-- ===== src/Auth/Caching.antt =====
-- What the module-level caches of app/security/auth.py do to the requests after the first.
use smart_sre_copilot.Prelude.{
  ℕ, String, ◌≡◌, refl, ◌∙◌, true, Option, none, some, List, [], ◌∷◌, eq_refl, if◌then◌else◌, arith,
  Bool-cases, inl, inr,
}
use smart_sre_copilot.Auth.{
  Document, Settings, StartupSettings, Caches, Principal, principal, refused,
  authentication_required, cache_key, CacheKey, is_cached, load_api_key_roles,
  load_api_key_subjects, get_current_principal, validate_security_configuration, with_roles,
  resolve, api_key_subject,
}

abbrev pub local_admin : Principal
local_admin = record { role = "admin"; subject = "local-dev" }

is_cached_self : (k : CacheKey) → is_cached (some k) k ≡ true
unfolding is_cached
is_cached_self (a, j) = rw (eq_refl a, eq_refl j)

module _ (json_loads : String → Document) where
  -- a load leaves the cache at the key of its settings, hit or not
  load_api_key_roles-cached :
      (s : Settings) (c : Caches)
      → is_cached (load_api_key_roles json_loads s c).1.roles (cache_key s) ≡ true
  unfolding load_api_key_roles
  load_api_key_roles-cached s c = elim (Bool-cases (is_cached c.roles (cache_key s))) [
    | inl e ↦ rw e e
    | inr e ↦ rw e (is_cached_self (cache_key s))
  ]

module _ (json_loads : String → Document) (configured : ℕ → String) where
  -- only `load_api_key_roles` writes the cache of the roles
  roles-api_key_subject :
      (s : Settings) (key : String) (c : Caches)
      → (api_key_subject json_loads configured s key c).1.roles ≡ c.roles
  unfolding api_key_subject load_api_key_subjects
  roles-api_key_subject s key c = ground arith

  roles-resolve :
      (s : Settings) (o : Option (String × String)) (c : Caches)
      → (resolve json_loads configured s o c).1.roles ≡ c.roles
  unfolding resolve
  roles-resolve s none c = refl
  roles-resolve s (some (key, role)) c = roles-api_key_subject s key c

  roles-with_roles :
      (s : Settings) (x : Option String) (roles : List (String × String)) (c : Caches)
      → (with_roles json_loads configured s x roles c).1.roles ≡ c.roles
  unfolding with_roles
  roles-with_roles s x [] c = ground arith
  roles-with_roles s x (entry ∷ roles) c = roles-resolve s _ c

  get_current_principal-cached :
      (s : Settings) (x : Option String) (c : Caches)
      → is_cached (get_current_principal json_loads configured s x c).1.roles (cache_key s) ≡ true
  unfolding get_current_principal
  get_current_principal-cached s x c =
      rw (roles-with_roles s x _ (load_api_key_roles json_loads s c).1)
        (load_api_key_roles-cached json_loads s c)

  -- A request that finds its settings in the cache is decided with no key looked at: in production
  -- it is refused, and elsewhere it acts as the local admin.
  pub get_current_principal_of_cached :
      (s : Settings) (x : Option String) (c : Caches)
      → is_cached c.roles (cache_key s) ≡ true
      → (get_current_principal json_loads configured s x c).0
        ≡ (if s.is_production then refused authentication_required else principal local_admin)
  unfolding get_current_principal load_api_key_roles with_roles
  get_current_principal_of_cached s x c hit = rw hit (ground arith)

  -- Whatever a first request presented, and whether it was let in, the next request under the same
  -- settings is decided with no key looked at: refused in production, the local admin elsewhere.
  pub later_request_ignores_key :
      (s : Settings) (x y : Option String) (c : Caches)
      → (get_current_principal json_loads configured s y
          (get_current_principal json_loads configured s x c).1).0
        ≡ (if s.is_production then refused authentication_required else principal local_admin)
  later_request_ignores_key s x y c =
      get_current_principal_of_cached s y _ (get_current_principal-cached s x c)

  -- The validation at the start fills the cache: in production every request behind it is refused,
  -- also one with a configured key.
  pub start_refuses_requests :
      (s : StartupSettings) (x : Option String) (c : Caches)
      → s.is_production ≡ true
      → (get_current_principal json_loads configured s.auth x
          (validate_security_configuration json_loads s c).1).0
        ≡ refused authentication_required
  unfolding validate_security_configuration
  start_refuses_requests s x c production =
      get_current_principal_of_cached s.auth x _ (load_api_key_roles-cached json_loads s.auth c)
      ∙ rw production
