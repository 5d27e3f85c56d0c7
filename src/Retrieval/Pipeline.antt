-- ===== src/Retrieval/Pipeline.antt =====
-- The pipeline over the stages of retrieval (app/agent_runtime/retrieval/pipeline.py). The rewriter
-- of queries and the search in the knowledge base are parameters; latencies are left out.
use smart_sre_copilot.Prelude.{
  ℕ, String, Bool, true, false, ◌&&◌, Option, none, some, List, [], ◌∷◌, ◌++◌, leb, if◌then◌else◌,
  take, map, contains,
}
use smart_sre_copilot.Retrieval.{
  Document, Item, document, similar, bundle, or_zero, CacheResult, SemanticCache, Entries,
  lookup_cached, store, RetrievalScope, route, Reranker, is_available, rerank, GateResult, evaluate,
  content_or_empty,
}

pub record Pipeline : Type 0 where
  pub rewrite : String → List String
  pub lower : String → String
  pub occurs : String → String → Bool
  -- `search_knowledge` by workspace, query, type and limit; `none` in the result is an exception
  pub searcher : Option (String → String → Option String → ℕ → Option (List Document))
  pub threshold : ℕ
  pub reranker : Reranker
  pub cache : Option SemanticCache

pub record Citation : Type 0 where
  pub content : String
  pub score : ℕ
  pub source : String

pub record RetrievalResult : Type 0 where
  pub items : List Item
  pub citations : List Citation
  pub gate : GateResult Item
  pub query_variants : List String
  pub scope : RetrievalScope

-- ---------------------------------------------------------------- recall

abbrev pub only_type : List String → Option String
only_type (t ∷ []) = some t
only_type _ = none

abbrev pub found_or_none : Option (List Document) → List Document
found_or_none none = []
found_or_none (some documents) = documents

unfoldable pub recall_each :
    (String → String → Option String → ℕ → Option (List Document))
    → String
    → RetrievalScope
    → List String
    → List Document
recall_each search workspace_id scope [] = []
recall_each search workspace_id scope (q ∷ qs) =
    found_or_none (search workspace_id q (only_type scope.item_types) scope.max_items)
    ++ recall_each search workspace_id scope qs

-- Each content once, at its first place.
unfoldable pub unique_contents : List String → List Document → List Document
unique_contents seen [] = []
unique_contents seen (d ∷ ds) =
    let skipped = unique_contents seen ds in
    let kept = unique_contents (content_or_empty d ∷ seen) ds in
    if contains (content_or_empty d) seen then skipped else d ∷ kept

unfoldable pub recall : Pipeline → String → RetrievalScope → List String → List Document
unfolding recall_each unique_contents
recall p workspace_id scope query_variants = elim p.searcher [
  | none ↦ []
  | some search ↦ unique_contents [] (recall_each search workspace_id scope (take 3 query_variants))
]

-- ---------------------------------------------------------------- the five stages

abbrev pub first_set_or : ℕ → Option ℕ → ℕ
first_set_or default none = default
first_set_or default (some n) = n

abbrev pub text_or_default : String → Option String → String
text_or_default default none = default
text_or_default default (some t) = t

abbrev pub cite : Document → Citation
cite d = record {
  content = content_or_empty d;
  score = first_set_or (or_zero d.rerank_score) d.score;
  source = text_or_default "knowledge" d.source;
}

abbrev pub as_items : GateResult Document → GateResult Item
as_items g = record {
  allowed = g.allowed;
  results = map document g.results;
  refused = g.refused;
  best_score = g.best_score;
  missing_evidence = g.missing_evidence;
}

-- `cached.result.get("score", 1.0)`
abbrev pub score_of : Item → ℕ
score_of (document d) = first_set_or 100 d.score
score_of (similar content score) = score
score_of (bundle items score) = score

-- The answer from the cache.
abbrev pub answer_cached : List String → RetrievalScope → Item → RetrievalResult
answer_cached query_variants scope result = record {
  items = result ∷ [];
  citations = [];
  gate = record {
    allowed = true;
    results = result ∷ [];
    refused = false;
    best_score = score_of result;
    missing_evidence = none;
  };
  query_variants = query_variants;
  scope = scope;
}

unfoldable pub keep_result :
    Option SemanticCache → ℕ → String → String → GateResult Document → Entries → Entries
keep_result none now workspace_id goal g entries = entries
keep_result (some c) now workspace_id goal g entries =
    if g.allowed && leb 80 g.best_score
    then store c now workspace_id goal (bundle g.results g.best_score) [] entries
    else entries

-- The stages behind the cache.
unfoldable pub answer_fresh : Pipeline → ℕ → String → String → Entries → RetrievalResult × Entries
unfolding recall route rerank evaluate keep_result
answer_fresh p later workspace_id goal entries =
    let query_variants = p.rewrite goal in
    let scope = route p.lower p.occurs goal in
    let recalled = recall p workspace_id scope query_variants in
    let ranked =
      if is_available p.reranker
      then rerank p.reranker goal recalled scope.max_items
      else recalled in
    let gate = evaluate p.threshold ranked in
    (
      record {
        items = map document gate.results;
        citations = map cite gate.results;
        gate = as_items gate;
        query_variants = query_variants;
        scope = scope;
      },
      keep_result p.cache later workspace_id goal gate entries,
    )

unfoldable pub answer :
    Pipeline → ℕ → String → String → Option CacheResult × Entries → RetrievalResult × Entries
unfolding answer_fresh
answer p later workspace_id goal (some hit, entries) =
    (answer_cached (p.rewrite goal) (route p.lower p.occurs goal) hit.result, entries)
answer p later workspace_id goal (none, entries) = answer_fresh p later workspace_id goal entries

unfoldable pub look_first :
    Option SemanticCache → ℕ → String → String → Entries → Option CacheResult × Entries
look_first none now workspace_id goal entries = (none, entries)
look_first (some c) now workspace_id goal entries = lookup_cached c now workspace_id goal entries

-- `RetrievalPipeline.retrieve`; the cache is read at `now` and written at `later`.
unfoldable pub retrieve : Pipeline → ℕ → ℕ → String → String → Entries → RetrievalResult × Entries
unfolding answer look_first
retrieve p now later workspace_id goal entries =
    answer p later workspace_id goal (look_first p.cache now workspace_id goal entries)
