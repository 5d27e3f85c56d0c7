-- ===== src/Retrieval/Caching.antt =====
-- What the semantic cache (app/agent_runtime/retrieval/semantic_cache.py) gives back, over any stores
-- and lookups.
pub mod Repeats
use smart_sre_copilot.Prelude.{
  ℕ, ◌+◌, ◌<◌, String, ◌≡◌, inl, inr, refl, sym, ap, ◌∙◌, Bool, true, false, ◌&&◌, Option, none,
  some, List, [], ◌∷◌, ltb, lt→ltb, str_eq, eq_refl, eq_iff, if◌then◌else◌, lookup, insert, remove,
  lookup-insert, lookup-remove, Bool-cases, arith,
}
use smart_sre_copilot.Retrieval.{
  Item, CacheEntry, SemanticCache, Entries, cache_key, search_similar, keep_similar, lookup_entry,
  lookup_cached, store,
}

-- A call of the cache.
pub data CacheOp : Type 0 where
  stores : ℕ → String → String → Item → List String → CacheOp
  looks_up : ℕ → String → String → CacheOp

abbrev pub call_cache : SemanticCache → CacheOp → Entries → Entries
call_cache c (stores now workspace_id query result item_ids) entries =
    store c now workspace_id query result item_ids entries
call_cache c (looks_up now workspace_id query) entries =
    (lookup_cached c now workspace_id query entries).1

abbrev pub call_all : SemanticCache → List CacheOp → Entries → Entries
call_all c [] entries = entries
call_all c (op ∷ ops) entries = call_all c ops (call_cache c op entries)

-- No store under the key, and no lookup of it at `limit` or later.
abbrev pub spares : SemanticCache → String → ℕ → CacheOp → Bool
spares c key limit (stores now workspace_id query result item_ids) =
    if str_eq (cache_key c workspace_id query) key then false else true
spares c key limit (looks_up now workspace_id query) =
    if str_eq (cache_key c workspace_id query) key then ltb now limit else true

abbrev pub all_spare : SemanticCache → String → ℕ → List CacheOp → Bool
all_spare c key limit [] = true
all_spare c key limit (op ∷ ops) = spares c key limit op && all_spare c key limit ops

-- ---------------------------------------------------------------- an entry in the cache

module _ (key other : String) (differ : str_eq other key ≡ false) where
  insert-other :
      (e : CacheEntry) (entries : Entries)
      → lookup key (insert other e entries) ≡ lookup key entries
  insert-other e entries = sym (lookup-insert other key e entries) ∙ rw differ refl

  remove-other : (entries : Entries) → lookup key (remove other entries) ≡ lookup key entries
  remove-other entries = sym (lookup-remove other key entries) ∙ rw differ refl

  keep_similar-other :
      (now : ℕ) (hit : Option (String × ℕ)) (entries : Entries)
      → lookup key (keep_similar now other hit entries).1 ≡ lookup key entries
  keep_similar-other now none entries = refl
  keep_similar-other now (some hit) entries = insert-other _ entries

  lookup_entry-other :
      (c : SemanticCache) (now : ℕ) (query : String) (found : Option CacheEntry) (entries : Entries)
      → lookup key (lookup_entry c now other query found entries).1 ≡ lookup key entries
  unfolding lookup_entry
  lookup_entry-other c now query none entries =
      keep_similar-other now (search_similar c query) entries
  lookup_entry-other c now query (some e) entries =
      elim (Bool-cases (ltb now (e.stored_at + c.ttl))) [
        | inl t ↦ rw t refl
        | inr t ↦ rw t (
            keep_similar-other now (search_similar c query) (remove other entries)
            ∙ remove-other entries)
      ]

module _ (c : SemanticCache) (key : String) (e : CacheEntry) where
  in_time :
      (now : ℕ) (query : String) (entries : Entries)
      → ltb now (e.stored_at + c.ttl) ≡ true
      → lookup_entry c now key query (some e) entries
        ≡ (some (record { result = e.result; hit_item_ids = e.item_ids }), entries)
  unfolding lookup_entry
  in_time now query entries t = rw t refl

  same_key :
      (now : ℕ) (query k : String) (entries : Entries)
      → key ≡ k
      → ltb now (e.stored_at + c.ttl) ≡ true
      → lookup key entries ≡ some e
      → lookup_entry c now k query (lookup k entries) entries
        ≡ (some (record { result = e.result; hit_item_ids = e.item_ids }), entries)
  same_key now query k entries p t there =
      ap (λ o. lookup_entry c now k query o entries) (ap (λ s. lookup s entries) (sym p) ∙ there)
      ∙ ap (λ s. lookup_entry c now s query (some e) entries) (sym p)
      ∙ in_time now query entries t

  call_cache-spared :
      (op : CacheOp) (entries : Entries)
      → spares c key (e.stored_at + c.ttl) op ≡ true
      → lookup key entries ≡ some e
      → lookup key (call_cache c op entries) ≡ some e
  unfolding store lookup_cached
  call_cache-spared (stores now ws query result ids) entries s there =
      elim (Bool-cases (str_eq (cache_key c ws query) key)) [
        | inl same ↦ ground (arith, s, same)
        | inr differ ↦ insert-other key (cache_key c ws query) differ _ entries ∙ there
      ]
  call_cache-spared (looks_up now ws query) entries s there =
      elim (Bool-cases (str_eq (cache_key c ws query) key)) [
        | inl same ↦
            let t : ltb now (e.stored_at + c.ttl) ≡ true = ground (arith, s, same) in
            let p = sym ((eq_iff (cache_key c ws query) key).0 same) in
            ap (λ r. lookup key r.1) (same_key now query (cache_key c ws query) entries p t there)
            ∙ there
        | inr differ ↦
            lookup_entry-other key (cache_key c ws query) differ c now query _ entries ∙ there
      ]

  call_all-spared :
      (ops : List CacheOp) (entries : Entries)
      → all_spare c key (e.stored_at + c.ttl) ops ≡ true
      → lookup key entries ≡ some e
      → lookup key (call_all c ops entries) ≡ some e
  call_all-spared [] entries s there = there
  call_all-spared (op ∷ ops) entries s there =
      elim (Bool-cases (spares c key (e.stored_at + c.ttl) op)) [
        | inl one ↦
            call_all-spared ops (call_cache c op entries)
              (ap (λ b. b && all_spare c key (e.stored_at + c.ttl) ops) (sym one) ∙ s)
              (call_cache-spared op entries one there)
        | inr one ↦ cc (ap (λ b. b && all_spare c key (e.stored_at + c.ttl) ops) (sym one) ∙ s)
      ]

-- A result that was stored is found again until its time is up, with the same items' ids, behind any
-- stores and lookups but stores under the same key and lookups of it that come too late.
pub lookup_stored :
    (c : SemanticCache) (stored_at now : ℕ) (workspace_id query : String) (result : Item)
    (item_ids : List String) (ops : List CacheOp) (entries : Entries)
    → all_spare c (cache_key c workspace_id query) (stored_at + c.ttl) ops ≡ true
    → now < stored_at + c.ttl
    → (lookup_cached c now workspace_id query
        (call_all c ops (store c stored_at workspace_id query result item_ids entries))).0
      ≡ some (record { result = result; hit_item_ids = item_ids })
unfolding lookup_cached store
lookup_stored c stored_at now workspace_id query result item_ids ops entries s t =
    let key = cache_key c workspace_id query in
    let e : CacheEntry = record { stored_at = stored_at; result = result; item_ids = item_ids } in
    let start = insert key e entries in
    let there =
      call_all-spared c key e ops start s
        (sym (lookup-insert key key e entries) ∙ rw (eq_refl key) refl) in
    ap (λ r. r.0)
      (same_key c key e now query key (call_all c ops start) refl (lt→ltb now (stored_at + c.ttl) t)
        there)
