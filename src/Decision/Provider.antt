-- ===== src/Decision/Provider.antt =====
-- What the providers may decide (app/agent_runtime/decision.py).
use smart_sre_copilot.Prelude.{
  ◌≤◌, ◌<◌, String, ◌≡◌, ◌≢◌, ◌⊎◌, inl, inr, refl, Bool, true, false, Option, none, some, List, [],
  ◌∷◌, eq_refl, if◌then◌else◌, contains, not, arith, Bool-cases, keep_if, find?, leb, ltb, All,
}
use smart_sre_copilot.Decision.{
  call_tool, recover, EvidenceAssessment, AgentDecision, AgentDecisionState, decide,
  decide_evidence, decide_tool, exhausted, is_strong, remaining_tools, rank, best_of, best_evidence,
  qwen_decision, unknown_tool,
}

-- `e` is one of the items.
abbrev pub Elem : EvidenceAssessment → List EvidenceAssessment → Type 0
Elem e [] = ⊥
Elem e (x ∷ xs) = (e ≡ x) ⊎ Elem e xs

abbrev pub IsLeast : EvidenceAssessment → List EvidenceAssessment → Type 0
IsLeast best items = All (λ e. rank best.quality ≤ rank e.quality) items

best_of-IsLeast :
    (best : EvidenceAssessment) (items : List EvidenceAssessment)
    → IsLeast (best_of best items) (best ∷ items)
unfolding best_of
best_of-IsLeast best [] = (omega arith, tt)
best_of-IsLeast best (e ∷ es) =
    let better = if ltb (rank e.quality) (rank best.quality) then e else best in
    let (first, others) = best_of-IsLeast better es in
    let both : (rank better.quality ≤ rank best.quality) × (rank better.quality ≤ rank e.quality) =
      ground arith in
    (omega (arith, first, both), (omega (arith, first, both), others))

Elem-choice :
    (b : Bool) (x best e : EvidenceAssessment) (es : List EvidenceAssessment)
    → Elem x ((if b then e else best) ∷ es)
    → Elem x (best ∷ e ∷ es)
Elem-choice true x best e es h = inr h
Elem-choice false x best e es (inl h) = inl h
Elem-choice false x best e es (inr h) = inr (inr h)

best_of-Elem :
    (best : EvidenceAssessment) (items : List EvidenceAssessment)
    → Elem (best_of best items) (best ∷ items)
unfolding best_of
best_of-Elem best [] = inl refl
best_of-Elem best (e ∷ es) =
    let b = ltb (rank e.quality) (rank best.quality) in
    Elem-choice b (best_of (if b then e else best) es) best e es
      (best_of-Elem (if b then e else best) es)

-- The evidence that a decision rests on is collected evidence, and none that was collected ranks
-- before it.
pub best_evidence-IsLeast :
    (items : List EvidenceAssessment)
    → items ≢ []
    → Elem (best_evidence items) items × IsLeast (best_evidence items) items
unfolding best_evidence
best_evidence-IsLeast [] n = absurd (n refl)
best_evidence-IsLeast (e ∷ es) n = (best_of-Elem e es, best_of-IsLeast e es)

first_open :
    (executed tools : List String) (t : String) (rest : List String)
    → keep_if (λ tool. not (contains tool executed)) tools ≡ t ∷ rest
    → (contains t tools ≡ true) × (contains t executed ≡ false)
first_open executed [] t rest h = cc
first_open executed (x ∷ xs) t rest h = ground (arith, eq_refl t, first_open executed xs t rest)

-- The decision selects an available tool that has not been executed.
abbrev pub SelectsNewTool : AgentDecisionState → AgentDecision → Type 0
SelectsNewTool s d =
    (tool : String) × (d.selected_tool ≡ some tool)
    × (contains tool s.available_tools ≡ true)
    × (contains tool s.executed_tools ≡ false)

decide_tool-SelectsNewTool :
    (s : AgentDecisionState) (tools : List String)
    → remaining_tools s ≡ tools
    → (decide_tool s tools).action_type ≡ call_tool
    → SelectsNewTool s (decide_tool s tools)
unfolding decide_tool remaining_tools
decide_tool-SelectsNewTool s [] r h = cc
decide_tool-SelectsNewTool s (t ∷ ts) r h =
    let (known, new) = first_open s.executed_tools s.available_tools t ts r in (t, refl, known, new)

decide_evidence-call_tool :
    (s : AgentDecisionState) (o : Option EvidenceAssessment)
    → (decide_evidence s o).action_type ≡ call_tool
    → (o ≡ none) × (s.consecutive_empty_evidence < 2) × SelectsNewTool s (decide_evidence s o)
unfolding decide_evidence
decide_evidence-call_tool s (some e) h = cc
decide_evidence-call_tool s none h = elim (Bool-cases (leb 2 s.consecutive_empty_evidence)) [
  | inl l ↦ cc (rw l at h)
  | inr l ↦
      rw l (refl, ground arith, decide_tool-SelectsNewTool s (remaining_tools s) refl (rw l at h))
]

-- A decision of the rule-based provider to call a tool names an available tool that has not been
-- executed, and is made only while the budget lasts, while no evidence is strong and while fewer
-- than two results in a row were empty.
pub decide-call_tool :
    (s : AgentDecisionState)
    → (decide s).action_type ≡ call_tool
    → (exhausted s.budget ≡ false)
      × (find? (λ item. is_strong item.quality) s.evidence ≡ none)
      × (s.consecutive_empty_evidence < 2)
      × SelectsNewTool s (decide s)
unfolding decide
decide-call_tool s h = elim (Bool-cases (exhausted s.budget)) [
  | inl e ↦ cc (rw e at h)
  | inr e ↦
      let (weak, few, selects) =
        decide_evidence-call_tool s (find? (λ item. is_strong item.quality) s.evidence)
          (rw e at h) in
      (e, weak, few, rw e selects)
]

-- Whatever the model answers, the decision that is made of it selects no tool or an available one,
-- and is a recovery unless the model was sure to at least 20 hundredths.
pub qwen_decision_bounded :
    (reply : Option AgentDecision) (s : AgentDecisionState)
    → let d = qwen_decision reply s in
      (unknown_tool d.selected_tool s.available_tools ≡ false)
      × ((d.action_type ≡ recover) ⊎ (20 ≤ d.confidence))
unfolding qwen_decision
qwen_decision_bounded none s = (refl, inl refl)
qwen_decision_bounded (some d) s = (ground arith, ground arith)
