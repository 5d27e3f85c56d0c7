-- ===== src/Retrieval.antt =====
-- The stages of the retrieval of knowledge (app/agent_runtime/retrieval/): the semantic cache, the
-- scene router, the reranker and the confidence gate. Scores are in hundredths, times in seconds.
-- Python's `lower`, `strip` and substring test, the vector store and the model are parameters.
pub mod Pipeline
pub mod Caching
mod Tests
use Prim.Native.String as Text
use smart_sre_copilot.Prelude.{
  ℕ, ◌+◌, max, String, Bool, true, false, ◌&&◌, Option, none, some, List, [], ◌∷◌, ltb, leb,
  if◌then◌else◌, lookup, insert, remove, any, take, map, get_elem?,
}

-- A document that a search found; the keys of its dict that are read.
pub record Document : Type 0 where
  pub content : Option String
  pub score : Option ℕ
  pub rerank_score : Option ℕ
  pub source : Option String

-- The dicts that a result holds: a document, or one of the two that the cache holds.
pub data Item : Type 0 where
  document : Document → Item
  similar : String → ℕ → Item  -- `content` and `score`
  bundle : List Document → ℕ → Item  -- `items` and `score`

abbrev pub or_zero : Option ℕ → ℕ
or_zero none = 0
or_zero (some n) = n

-- ---------------------------------------------------------------- semantic cache

pub record CacheResult : Type 0 where
  pub result : Item
  pub hit_item_ids : List String

pub record CacheEntry : Type 0 where
  pub stored_at : ℕ
  pub result : Item
  pub item_ids : List String

pub record SemanticCache : Type 0 where
  pub threshold : ℕ
  pub ttl : ℕ
  -- `query.lower().strip()`
  pub normalize : String → String
  -- `search_similar_documents` with its content and score; `none` in the result is an exception
  pub vector_search : Option (String → Option (List (String × ℕ)))

abbrev pub Entries : Type 0
Entries = List (String × CacheEntry)

abbrev pub cache_key : SemanticCache → String → String → String
cache_key c workspace_id query = Text.◌++◌ workspace_id (Text.◌++◌ "::" (c.normalize query))

-- The first document, when it is close enough.
abbrev pub close_enough : ℕ → Option (List (String × ℕ)) → Option (String × ℕ)
close_enough threshold none = none
close_enough threshold (some []) = none
close_enough threshold (some (hit ∷ hits)) = if leb threshold hit.1 then some hit else none

abbrev pub search_similar : SemanticCache → String → Option (String × ℕ)
search_similar c query = elim c.vector_search [
  | none ↦ none
  | some search ↦ close_enough c.threshold (search query)
]

abbrev pub keep_similar : ℕ → String → Option (String × ℕ) → Entries → Option CacheResult × Entries
keep_similar now key none entries = (none, entries)
keep_similar now key (some hit) entries = (
  some (record { result = similar hit.0 hit.1; hit_item_ids = [] }),
  insert key (record { stored_at = now; result = similar hit.0 hit.1; item_ids = [] }) entries,
)

unfoldable pub lookup_entry :
    SemanticCache → ℕ → String → String → Option CacheEntry → Entries → Option CacheResult × Entries
lookup_entry c now key query none entries = keep_similar now key (search_similar c query) entries
lookup_entry c now key query (some entry) entries =
    if ltb now (entry.stored_at + c.ttl)
    then (some (record { result = entry.result; hit_item_ids = entry.item_ids }), entries)
    else keep_similar now key (search_similar c query) (remove key entries)

-- `SemanticCache.lookup`
unfoldable pub lookup_cached :
    SemanticCache → ℕ → String → String → Entries → Option CacheResult × Entries
unfolding lookup_entry
lookup_cached c now workspace_id query entries =
    let key = cache_key c workspace_id query in
    lookup_entry c now key query (lookup key entries) entries

-- `SemanticCache.store`
unfoldable pub store : SemanticCache → ℕ → String → String → Item → List String → Entries → Entries
store c now workspace_id query result item_ids entries =
    insert (cache_key c workspace_id query)
      (record { stored_at = now; result = result; item_ids = item_ids }) entries

-- ---------------------------------------------------------------- scene router

pub record RetrievalScope : Type 0 where
  pub item_types : List String
  pub max_items : ℕ

abbrev investigative_keywords : List String
investigative_keywords = "为什么" ∷ "排查" ∷ "分析" ∷ "诊断" ∷ "查找" ∷ "调查" ∷ "定位" ∷ "root cause" ∷ []

abbrev narrow_keywords : List String
narrow_keywords = "怎么做" ∷ "步骤" ∷ "流程" ∷ "标准" ∷ "sop" ∷ "操作" ∷ []

-- `SceneRouter.route`; `occurs kw text` is `kw in text`
unfoldable pub route : (String → String) → (String → String → Bool) → String → RetrievalScope
route lower occurs goal =
    let goal_lower = lower goal in
    record {
      item_types =
          if any (λ kw. occurs kw goal_lower) narrow_keywords
          then "faq" ∷ "sop" ∷ []
          else if any (λ kw. occurs kw goal_lower) investigative_keywords
          then "faq" ∷ "incident" ∷ "document" ∷ []
          else "faq" ∷ "sop" ∷ "incident" ∷ "document" ∷ [];
      max_items = 10;
    }

-- ---------------------------------------------------------------- reranker

-- Python's `int`.
pub data ℤ : Type 0 where
  pos negsuc : ℕ → ℤ

pub record Reranker : Type 0 where
  -- `none` in the result is an exception
  pub provider : Option (String → List String → ℕ → Option (List (ℤ × ℕ)))
  pub enabled : Bool

abbrev pub is_available : Reranker → Bool
is_available r = r.enabled && elim r.provider [ none ↦ false | some _ ↦ true ]

-- `results[idx]` for an index in range.
abbrev pub at : List Document → ℤ → Option Document
at results (pos i) = get_elem? results i
at results (negsuc i) = none

abbrev pub add_ranked : Option Document → ℕ → List Document → List Document
add_ranked none score rest = rest
add_ranked (some item) score rest = record item { rerank_score = some score } ∷ rest

unfoldable pub collect_ranked : List Document → List (ℤ × ℕ) → List Document
collect_ranked results [] = []
collect_ranked results (r ∷ ranked) =
    let rest = collect_ranked results ranked in add_ranked (at results r.0) r.1 rest

abbrev pub content_or_empty : Document → String
content_or_empty d = elim d.content [ none ↦ "" | some t ↦ t ]

ranked_or_same : List Document → ℕ → Option (List (ℤ × ℕ)) → List Document
unfolding collect_ranked
ranked_or_same results top_k none = take top_k results
ranked_or_same results top_k (some ranked) = take top_k (collect_ranked results ranked)

-- `Reranker.rerank`
unfoldable pub rerank : Reranker → String → List Document → ℕ → List Document
unfolding ranked_or_same
rerank r query [] top_k = []
rerank r query (d ∷ ds) top_k = elim r.provider [
  | none ↦ take top_k (d ∷ ds)
  | some provider ↦
      if r.enabled
      then ranked_or_same (d ∷ ds) top_k (provider query (map content_or_empty (d ∷ ds)) top_k)
      else take top_k (d ∷ ds)
]

-- ---------------------------------------------------------------- confidence gate

pub record GateResult {ℓ} (A : Type ℓ) : Type ℓ where
  pub allowed : Bool
  pub results : List A
  pub refused : Bool
  pub best_score : ℕ
  pub missing_evidence : Option String

abbrev pub best_score_of : List Document → ℕ
best_score_of [] = 0
best_score_of (d ∷ ds) = let rest = best_score_of ds in max (or_zero d.score) rest

abbrev pub refusal : ℕ → String → GateResult Document
refusal best_score message = record {
  allowed = false;
  results = [];
  refused = true;
  best_score = best_score;
  missing_evidence = some message;
}

-- `ConfidenceGate.evaluate`
unfoldable pub evaluate : ℕ → List Document → GateResult Document
evaluate threshold [] = refusal 0 "nothing was found"
evaluate threshold (d ∷ ds) =
    if ltb (best_score_of (d ∷ ds)) threshold
    then refusal (best_score_of (d ∷ ds)) "the confidence is too low"
    else record {
      allowed = true;
      results = d ∷ ds;
      refused = false;
      best_score = best_score_of (d ∷ ds);
      missing_evidence = none;
    }
