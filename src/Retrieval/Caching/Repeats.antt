-- ===== src/Retrieval/Caching/Repeats.antt =====
-- The pipeline (app/agent_runtime/retrieval/pipeline.py) on a question that comes again.
use smart_sre_copilot.Prelude.{
  ℕ, ◌+◌, ◌≤◌, ◌<◌, String, ◌≡◌, inl, inr, refl, sym, ap, ◌∙◌, true, Option, none, some, List, [],
  ◌∷◌, length, ltb, le→leb, if◌then◌else◌, Bool-cases, map, arith,
}
use smart_sre_copilot.Retrieval.{
  Document, document, bundle, CacheResult, SemanticCache, Entries, lookup_cached, store, route,
  is_available, rerank, evaluate, best_score_of, GateResult,
}
use smart_sre_copilot.Retrieval.Pipeline.{
  Pipeline, recall, cite, keep_result, answer_fresh, answer_cached, answer, look_first, retrieve,
}
use smart_sre_copilot.Retrieval.Caching.{lookup_stored}

abbrev pub with_cache : Pipeline → SemanticCache → Pipeline
with_cache p c = record p { cache = some c }

module _ (p : Pipeline) (later : ℕ) (workspace_id goal : String) where
  answer_miss :
      (found : Option CacheResult × Entries)
      → found.0 ≡ none
      → answer p later workspace_id goal found ≡ answer_fresh p later workspace_id goal found.1
  unfolding answer
  answer_miss (none, entries) n = refl
  answer_miss (some hit, entries) n = cc n

  answer_hit :
      (found : Option CacheResult × Entries) (hit : CacheResult)
      → found.0 ≡ some hit
      → (answer p later workspace_id goal found).0
        ≡ answer_cached (p.rewrite goal) (route p.lower p.occurs goal) hit.result
  unfolding answer
  answer_hit (none, entries) hit e = cc e
  answer_hit (some other, entries) hit e =
      ap
        (λ o.
          answer_cached (p.rewrite goal) (route p.lower p.occurs goal)
            (elim o [ none ↦ hit.result | some h ↦ h.result ]))
        e

evaluate-results :
    (threshold : ℕ) (documents : List Document)
    → (evaluate threshold documents).allowed ≡ true
    → 0 < length (map cite (evaluate threshold documents).results)
unfolding evaluate
evaluate-results threshold [] a = cc a
evaluate-results threshold (d ∷ ds) a = elim (Bool-cases (ltb (best_score_of (d ∷ ds)) threshold)) [
  | inl low ↦ cc (low, a)
  | inr high ↦ rw high (omega arith)
]

keep_result-kept :
    (c : SemanticCache) (later : ℕ) (workspace_id goal : String) (g : GateResult Document)
    (entries : Entries)
    → g.allowed ≡ true
    → 80 ≤ g.best_score
    → keep_result (some c) later workspace_id goal g entries
      ≡ store c later workspace_id goal (bundle g.results g.best_score) [] entries
unfolding keep_result
keep_result-kept c later workspace_id goal g entries a b = rw (a, le→leb 80 g.best_score b) refl

-- What comes to the gate behind the cache, and what it makes of it.
abbrev ranked_of : Pipeline → String → String → List Document
ranked_of p workspace_id goal =
    let scope = route p.lower p.occurs goal in
    let recalled = recall p workspace_id scope (p.rewrite goal) in
    if is_available p.reranker then rerank p.reranker goal recalled scope.max_items else recalled

abbrev gate_of : Pipeline → String → String → GateResult Document
gate_of p workspace_id goal = evaluate p.threshold (ranked_of p workspace_id goal)

-- Where the first of two equal questions is not answered from the cache and passes the gate with a
-- score of 80 hundredths or more, it has citations; the second one, asked while the entry lasts, has
-- none, and its one item is the dict that the cache holds, with the documents inside it.
pub retrieve_again :
    (p : Pipeline) (c : SemanticCache) (now later now' later' : ℕ) (workspace_id goal : String)
    (entries : Entries)
    → (lookup_cached c now workspace_id goal entries).0 ≡ none
    → (retrieve (with_cache p c) now later workspace_id goal entries).0.gate.allowed ≡ true
    → 80 ≤ (retrieve (with_cache p c) now later workspace_id goal entries).0.gate.best_score
    → now' < later + c.ttl
    → let first = retrieve (with_cache p c) now later workspace_id goal entries in
      let second = retrieve (with_cache p c) now' later' workspace_id goal first.1 in
      (documents : List Document) × (first.0.items ≡ map document documents)
      × (0 < length first.0.citations)
      × (second.0.items ≡ bundle documents first.0.gate.best_score ∷ [])
      × (second.0.citations ≡ [])
unfolding retrieve look_first answer_fresh
retrieve_again p c now later now' later' workspace_id goal entries miss a b t =
    let q = with_cache p c in
    let found = lookup_cached c now workspace_id goal entries in
    let gate = gate_of q workspace_id goal in
    let fresh = answer_miss q later workspace_id goal found miss in
    let a' : gate.allowed ≡ true = ap (λ r. r.0.gate.allowed) (sym fresh) ∙ a in
    let same_score = ap (λ r. r.0.gate.best_score) fresh in
    let b' : 80 ≤ gate.best_score = omega (arith, b, same_score) in
    let stored =
      ap (λ r. r.1) fresh ∙ keep_result-kept c later workspace_id goal gate found.1 a' b' in
    let result = bundle gate.results gate.best_score in
    let hit =
      ap (λ es. (lookup_cached c now' workspace_id goal es).0) stored
      ∙ lookup_stored c later now' workspace_id goal result [] [] found.1 refl t in
    let again =
      answer_hit q later' workspace_id goal
        (lookup_cached c now' workspace_id goal (answer q later workspace_id goal found).1)
        (record { result = result; hit_item_ids = [] }) hit in
    (
      gate.results,
      ap (λ r. r.0.items) fresh,
      omega (
        arith,
        evaluate-results q.threshold (ranked_of q workspace_id goal) a',
        ap (λ r. length r.0.citations) fresh,
      ),
      ap (λ r. r.items) again ∙ ap (λ s. bundle gate.results s ∷ []) (sym same_score),
      ap (λ r. r.citations) again,
    )
