-- ===== src/Retrieval/Tests.antt =====
-- Runs and witnesses of the retrieval of knowledge, on a knowledge base with one document.
use smart_sre_copilot.Prelude.{
  ◌<◌, ◌≡◌, refl, true, false, none, some, List, [], ◌∷◌, length, arith, map, lookup,
}
use smart_sre_copilot.Retrieval.{
  Document, document, bundle, SemanticCache, lookup_cached, lookup_entry, store, rerank,
  collect_ranked, pos, negsuc, evaluate,
}
use smart_sre_copilot.Retrieval.Pipeline.{
  Pipeline, retrieve, answer, look_first, answer_fresh, recall, recall_each, unique_contents,
}
use smart_sre_copilot.Retrieval.Caching.Repeats.{with_cache, retrieve_again}
use smart_sre_copilot.Retrieval.Caching.{stores, looks_up, call_all, lookup_stored}

abbrev page : Document
page = record {
  content = some "restart the api";
  score = some 90;
  rerank_score = none;
  source = some "runbook";
}

abbrev cache : SemanticCache
cache = record { threshold = 95; ttl = 3600; normalize = λ q. q; vector_search = none }

abbrev pipeline : Pipeline
pipeline = record {
  rewrite = λ goal. goal ∷ [];
  lower = λ t. t;
  occurs = λ kw t. false;
  searcher = some (λ ws q kind top_k. some (page ∷ page ∷ []));
  threshold = 60;
  reranker = record { provider = none; enabled = false };
  cache = none;
}

-- An index out of range is passed over, a negative one too.
reranked :
    rerank
      (record {
        provider = some (λ q ds k. some ((negsuc 0, 9) ∷ (pos 0, 7) ∷ (pos 4, 5) ∷ []));
        enabled = true;
      })
      "api"
      (page ∷ [])
      5
    ≡ record page { rerank_score = some 7 } ∷ []
unfolding rerank collect_ranked
reranked = refl

lookup_stored_example :
    (lookup_cached cache 3000 "ws" "api" (
      call_all cache
        (stores 50 "ws" "db" (document page) [] ∷ looks_up 60 "ws" "api" ∷ [])
        (store cache 10 "ws" "api" (document page) ("k-1" ∷ []) []))).0
    ≡ some (record { result = document page; hit_item_ids = "k-1" ∷ [] })
lookup_stored_example =
    lookup_stored cache 10 3000 "ws" "api" (document page) ("k-1" ∷ [])
      (stores 50 "ws" "db" (document page) [] ∷ looks_up 60 "ws" "api" ∷ []) [] refl (omega arith)

retrieve_again_example :
    let first = retrieve (with_cache pipeline cache) 10 11 "ws" "api" [] in
    let second = retrieve (with_cache pipeline cache) 20 21 "ws" "api" first.1 in
    (documents : List Document) × (first.0.items ≡ map document documents)
    × (0 < length first.0.citations)
    × (second.0.items ≡ bundle documents first.0.gate.best_score ∷ [])
    × (second.0.citations ≡ [])
unfolding retrieve look_first answer answer_fresh recall recall_each unique_contents evaluate
    lookup_cached lookup_entry lookup
retrieve_again_example =
    retrieve_again pipeline cache 10 11 20 21 "ws" "api" [] refl refl (omega arith) (omega arith)
