-- ===== src/Auth/Keys.antt =====
-- What the loaders put into the mapping, and who is let in while the caches are fresh
-- (app/security/auth.py).
use smart_sre_copilot.Prelude.{
  ℕ, String, ◌≡◌, ◌≢◌, refl, inl, inr, true, false, Option, none, some, List, [], ◌∷◌, lookup,
  insert, str_eq, if◌then◌else◌, All, arith, Bool-cases, ap, sym, ◌∙◌, ◌↔◌,
}
use smart_sre_copilot.Auth.{
  Document, Settings, Caches, Principal, principal, refused, cache_key, is_cached, is_known_role,
  add_roles, items_of, set_default, api_key_roles, load_api_key_roles, api_key_subject, find_role,
  get_current_principal, require_capability, resolve, with_roles, check_capability, Outcome,
  has_capability, role_capabilities,
}

abbrev pub HasKnownRole : String × String → Type 0
HasKnownRole e = is_known_role e.1 ≡ true

insert-All :
    (k v : String) (m : List (String × String))
    → HasKnownRole (k, v)
    → All HasKnownRole m
    → All HasKnownRole (insert k v m)
unfolding insert
insert-All k v [] h a = (h, tt)
insert-All k v ((j, w) ∷ m) h a = elim (Bool-cases (str_eq j k)) [
  | inl e ↦ rw e (h, a.1)
  | inr e ↦ rw e (a.0, insert-All k v m h a.1)
]

set_default-All :
    (k v : String) (m : List (String × String))
    → HasKnownRole (k, v)
    → All HasKnownRole m
    → All HasKnownRole (set_default k v m)
unfolding set_default
set_default-All k v m h a = go (lookup k m) refl
  where
    go : (o : Option String) → lookup k m ≡ o → All HasKnownRole (set_default k v m)
    go none e = rw (e, set_default) (insert-All k v m h a)
    go (some _) e = rw (e, set_default) a

add_roles-All :
    (mapping items : List (String × String))
    → All HasKnownRole mapping
    → All HasKnownRole (add_roles mapping items)
unfolding add_roles
add_roles-All mapping [] a = a
add_roles-All mapping ((key, role) ∷ items) a = elim (Bool-cases (is_known_role role)) [
  | inl e ↦ rw e (add_roles-All (insert key role mapping) items (insert-All key role mapping e a))
  | inr e ↦ rw e (add_roles-All mapping items a)
]

lookup-All :
    (k v : String) (m : List (String × String))
    → All HasKnownRole m
    → lookup k m ≡ some v
    → is_known_role v ≡ true
unfolding lookup
lookup-All k v [] a h = cc
lookup-All k v ((j, w) ∷ m) a h = ground (arith, lookup-All k v m a.1)

json_roles-All :
    (text : String) (d : Document)
    → All HasKnownRole (if str_eq text "" then [] else add_roles [] (items_of d))
json_roles-All text d = elim (Bool-cases (str_eq text "")) [
  | inl e ↦ rw e tt
  | inr e ↦ rw e (add_roles-All [] (items_of d) tt)
]

-- The roles of the mapping come from `ROLE_CAPABILITIES`: keys of the JSON text with another role
-- are dropped, and the application key is an admin.
pub api_key_roles-All :
    (json_loads : String → Document) (s : Settings) → All HasKnownRole (api_key_roles json_loads s)
unfolding api_key_roles is_known_role role_capabilities lookup
api_key_roles-All json_loads s = elim (Bool-cases (str_eq s.app_api_key "")) [
  | inl e ↦ rw e (json_roles-All s.api_keys_json (json_loads s.api_keys_json))
  | inr e ↦ rw e (
      set_default-All s.app_api_key "admin" _ refl
        (json_roles-All s.api_keys_json (json_loads s.api_keys_json)))
]

find_role_sound :
    (x : Option String) (roles : List (String × String)) {key role : String}
    → find_role x roles ≡ some (key, role)
    → (x ≡ some key) × (lookup key roles ≡ some role) × (str_eq key "" ≡ false)
unfolding find_role
find_role_sound none roles h = cc
find_role_sound (some k) roles h = ground arith

find_role_complete :
    (key : String) (roles : List (String × String)) {role : String}
    → str_eq key "" ≡ false
    → lookup key roles ≡ some role
    → find_role (some key) roles ≡ some (key, role)
unfolding find_role
find_role_complete key roles n h = rw (n, h)

module _ (json_loads : String → Document) (configured : ℕ → String) where
  resolve_sound :
      (s : Settings) (o : Option (String × String)) (c : Caches) {p : Principal}
      → (resolve json_loads configured s o c).0 ≡ principal p
      → (key : String) × (o ≡ some (key, p.role))
  unfolding resolve
  resolve_sound s none c h = cc
  resolve_sound s (some (key, role)) c {p} h = (key, ground arith)

  with_roles_sound :
      (s : Settings) (x : Option String) (roles : List (String × String)) (c : Caches)
      {p : Principal}
      → roles ≢ []
      → (with_roles json_loads configured s x roles c).0 ≡ principal p
      → (key : String) × (x ≡ some key) × (lookup key roles ≡ some p.role) × (str_eq key "" ≡ false)
  unfolding with_roles
  with_roles_sound s x [] c n h = absurd (n refl)
  with_roles_sound s x (entry ∷ roles) c n h =
      let (key, found) = resolve_sound s (find_role x (entry ∷ roles)) c h in
      let (presented, mapped, named) = find_role_sound x (entry ∷ roles) found in
      (key, presented, mapped, named)

  principal_has_key :
      (s : Settings) (x : Option String) (c : Caches) {p : Principal}
      → is_cached c.roles (cache_key s) ≡ false
      → api_key_roles json_loads s ≢ []
      → (get_current_principal json_loads configured s x c).0 ≡ principal p
      → (key : String) × (x ≡ some key)
        × (lookup key (api_key_roles json_loads s) ≡ some p.role)
        × (str_eq key "" ≡ false)
  unfolding get_current_principal load_api_key_roles
  principal_has_key s x c fresh keys h =
      with_roles_sound s x (api_key_roles json_loads s) (record c { roles = some (cache_key s) })
        keys (rw fresh at h)

  -- With keys configured and a fresh cache, an accepted request has presented a key of the mapping
  -- and acts in exactly the role that the mapping gives it, a role of the table.
  pub get_current_principal_sound :
      (s : Settings) (x : Option String) (c : Caches) {p : Principal}
      → is_cached c.roles (cache_key s) ≡ false
      → api_key_roles json_loads s ≢ []
      → (get_current_principal json_loads configured s x c).0 ≡ principal p
      → (key : String) × (x ≡ some key)
        × (lookup key (api_key_roles json_loads s) ≡ some p.role)
        × (is_known_role p.role ≡ true)
  get_current_principal_sound s x c {p} fresh keys h =
      let (key, presented, found, named) = principal_has_key s x c fresh keys h in
      let known = api_key_roles-All json_loads s in
      (key, presented, found, lookup-All key p.role (api_key_roles json_loads s) known found)

  with_roles_complete :
      (s : Settings) (key : String) (roles : List (String × String)) (c : Caches) {role : String}
      → str_eq key "" ≡ false
      → lookup key roles ≡ some role
      → (p : Principal) × ((with_roles json_loads configured s (some key) roles c).0 ≡ principal p)
        × (p.role ≡ role)
  unfolding with_roles resolve lookup
  with_roles_complete s key [] c n h = cc
  with_roles_complete s key (entry ∷ roles) c {role} n h = (
    record { role = role; subject = (api_key_subject json_loads configured s key c).0 },
    rw (find_role_complete key (entry ∷ roles) n h),
    refl,
  )

  -- With a fresh cache, a request that presents a nonempty key of the mapping is accepted in the
  -- role that the mapping gives the key.
  pub get_current_principal_complete :
      (s : Settings) (key : String) (c : Caches) {role : String}
      → is_cached c.roles (cache_key s) ≡ false
      → str_eq key "" ≡ false
      → lookup key (api_key_roles json_loads s) ≡ some role
      → (p : Principal) × ((get_current_principal json_loads configured s (some key) c).0
          ≡ principal p)
        × (p.role ≡ role)
  unfolding get_current_principal load_api_key_roles
  get_current_principal_complete s key c fresh n h = rw fresh (
      with_roles_complete s key (api_key_roles json_loads s)
        (record c { roles = some (cache_key s) }) n h)

  check_capability_sound :
      (capability : String) (o : Outcome) {p : Principal}
      → check_capability capability o ≡ principal p
      → (o ≡ principal p) × (has_capability p.role capability ≡ true)
  unfolding check_capability
  check_capability_sound capability (refused e) h = cc
  check_capability_sound capability (principal q) h = ground arith

  check_capability_complete :
      (capability : String) (o : Outcome) {p : Principal}
      → o ≡ principal p
      → has_capability p.role capability ≡ true
      → check_capability capability o ≡ principal p
  unfolding check_capability
  check_capability_complete capability o h can = rw (h, can)

  -- With keys configured and a fresh cache, a dependency on a capability lets a request through in
  -- a role exactly if the request presents a nonempty key to which the mapping gives this role, and
  -- the role has the capability.
  pub require_capability_iff :
      (capability : String) (s : Settings) (x : Option String) (c : Caches) (role : String)
      → is_cached c.roles (cache_key s) ≡ false
      → api_key_roles json_loads s ≢ []
      → ((p : Principal) × ((require_capability json_loads configured capability s x c).0
            ≡ principal p)
          × (p.role ≡ role))
        ↔ ((key : String) × (x ≡ some key)
            × (str_eq key "" ≡ false)
            × (lookup key (api_key_roles json_loads s) ≡ some role)
            × (has_capability role capability ≡ true))
  unfolding require_capability
  require_capability_iff capability s x c role fresh keys = (
    λ (p, accepted, same).
        let (current, can) =
          check_capability_sound capability (get_current_principal json_loads configured s x c).0
            accepted in
        let (key, presented, found, named) = principal_has_key s x c fresh keys current in
        (
          key,
          presented,
          named,
          found ∙ ap some same,
          sym (ap (λ r. has_capability r capability) same) ∙ can,
        ),
    λ (key, presented, named, found, can).
        let (p, current, same) = get_current_principal_complete s key c fresh named found in
        let here = ap (λ k. (get_current_principal json_loads configured s k c).0) presented in
        (
          p,
          check_capability_complete capability _ (here ∙ current)
              (ap (λ r. has_capability r capability) same ∙ can),
          same,
        ),
  )
