-- ===== src/Decision/Graph/Safety.antt =====
-- What one run of the decision graph may do, whatever a provider decides
-- (app/agent_runtime/decision.py).
use mathlib.Core.Path.{subst}
use smart_sre_copilot.Prelude.{
  String, ◌≡◌, ◌⊎◌, inl, inr, refl, sym, ap, ◌∙◌, true, false, ◌&&◌, Option, none, some, List, [],
  ◌∷◌, ◌++◌, get_last?, get_last?-snoc, drop_last, contains, not, arith, Bool-cases,
}
use smart_sre_copilot.Decision.{
  ActionType, call_tool, ask_approval, recover, final_report, handoff, DecisionRunStatus, completed,
  handoff_required, AgentDecision, AgentDecisionState, DecisionProvider, FallbackEvent,
  with_decision, decide_with_fallback, unknown_tool, chosen, status_after,
}
use smart_sre_copilot.Decision.Graph.{
  graph_observe, validated, graph_validate_decision, graph_act, graph_evaluate_evidence,
  graph_recover, graph_final_report, route_decision, follow, after_decision, run_graph_once, spend,
  act_tool, act_latest, evaluate_latest, recover_latest, recovery_status, is_call_tool, is_set,
  complete_run, record_decision, route_action, route_of, validate_latest,
}

drop_last-snoc {ℓ} : {A : Type ℓ} (xs : List A) (x : A) → drop_last (xs ++ x ∷ []) ≡ xs
drop_last-snoc [] x = refl
drop_last-snoc (y ∷ []) x = refl
drop_last-snoc (y ∷ z ∷ xs) x = ap (λ l. y ∷ l) (drop_last-snoc (z ∷ xs) x)

-- the nodes behind the validation, at the latest decision `d`
unfoldable pub finish_action : ActionType → AgentDecision → AgentDecisionState → AgentDecisionState
finish_action call_tool d t =
    evaluate_latest (act_tool t call_tool (chosen d.selected_tool)) (some d)
finish_action recover d t = record t { status = recovery_status d.recovery.next_action }
finish_action final_report d t = record t { status = completed }
finish_action _ d t = t

decisions-act_tool :
    (t : AgentDecisionState) (a : ActionType) (tool : Option String)
    → (act_tool t a tool).decisions ≡ t.decisions
unfolding act_tool
decisions-act_tool t call_tool (some tool) = refl
decisions-act_tool t call_tool none = refl
decisions-act_tool t _ tool = refl

acted :
    (t : AgentDecisionState) (d : AgentDecision)
    → d.action_type ≡ call_tool
    → get_last? t.decisions ≡ some d
    → graph_act t ≡ act_tool t call_tool (chosen d.selected_tool)
unfolding graph_act
acted t d e l = rw (l, act_latest, e)

evaluated :
    (t : AgentDecisionState) (d : AgentDecision)
    → get_last? t.decisions ≡ some d
    → graph_evaluate_evidence t ≡ evaluate_latest t (some d)
unfolding graph_evaluate_evidence
evaluated t d l = rw l

recovered :
    (t : AgentDecisionState) (d : AgentDecision)
    → get_last? t.decisions ≡ some d
    → graph_recover t ≡ recover_latest t (some d)
unfolding graph_recover
recovered t d l = rw l

follow_route :
    (t : AgentDecisionState) (d : AgentDecision) (a : ActionType)
    → d.action_type ≡ a
    → get_last? t.decisions ≡ some d
    → follow (route_of a) t ≡ finish_action a d t
unfolding finish_action follow
follow_route t d call_tool e l =
    let tool = chosen d.selected_tool in
    ap graph_evaluate_evidence (acted t d e l)
    ∙ evaluated (act_tool t call_tool tool) d
        (ap get_last? (decisions-act_tool t call_tool tool) ∙ l)
follow_route t d recover e l = recovered t d l ∙ unfold recover_latest in refl
follow_route t d final_report e l = unfold graph_final_report in refl
follow_route t d _ e l = refl

follow-last :
    (t : AgentDecisionState) (d : AgentDecision)
    → get_last? t.decisions ≡ some d
    → follow (route_decision t) t ≡ finish_action d.action_type d t
unfolding route_decision
follow-last t d l =
    ap (λ o. follow (route_action o) t) l
    ∙ unfold route_action in follow_route t d d.action_type refl l

validate-last :
    (t : AgentDecisionState) (d : AgentDecision)
    → get_last? t.decisions ≡ some d
    → graph_validate_decision t
      ≡ record t { decisions = drop_last t.decisions ++ validated d t.available_tools ∷ [] }
unfolding graph_validate_decision
validate-last t d l = rw (l, validate_latest)

-- the latest decision of a state that has just decided
module _ (d : AgentDecision) (s : AgentDecisionState) where
  -- with the decision that the validation leaves
  abbrev pub kept : AgentDecision
  kept = validated d s.available_tools

  abbrev pub checked : AgentDecisionState
  checked = record s {
    status = status_after d.action_type s.status;
    decisions = s.decisions ++ kept ∷ [];
  }

  validate-with_decision : graph_validate_decision (with_decision d s) ≡ checked
  unfolding with_decision
  validate-with_decision =
      validate-last (with_decision d s) d (get_last?-snoc s.decisions d)
      ∙ ap (λ (ds : List AgentDecision). record checked { decisions = ds ++ kept ∷ [] })
          (drop_last-snoc s.decisions d)

  pub after-with_decision :
      after_decision (with_decision d s) ≡ finish_action kept.action_type kept checked
  unfolding after_decision
  after-with_decision =
      ap (λ t. follow (route_decision t) t) validate-with_decision
      ∙ follow-last checked kept (get_last?-snoc s.decisions kept)

-- ---------------------------------------------------------------- the tools of a run

abbrev pub IsAllowed : AgentDecisionState → AgentDecisionState → Type 0
IsAllowed s s' =
    ((s'.executed_tools ≡ s.executed_tools) × (s'.budget ≡ s.budget))
    ⊎ ((tool : String) × (contains tool s.available_tools ≡ true)
        × (s'.executed_tools ≡ s.executed_tools ++ tool ∷ [])
        × (s'.budget ≡ spend s.budget))

known_tool :
    (o : Option String) (tools : List String)
    → unknown_tool o tools ≡ false
    → is_set o ≡ true
    → (tool : String) × (chosen o ≡ some tool) × (contains tool tools ≡ true)
known_tool none tools u s = cc
known_tool (some name) tools u s = (name, ground arith, ground arith)

-- a call of a tool that passes the validation names an available tool
validated-call_tool :
    (d : AgentDecision) (tools : List String)
    → (validated d tools).action_type ≡ call_tool
    → (tool : String) × (chosen (validated d tools).selected_tool ≡ some tool)
      × (contains tool tools ≡ true)
unfolding validated
validated-call_tool d tools e = elim (Bool-cases (unknown_tool d.selected_tool tools)) [
  | inl u ↦ cc (rw u at e)
  | inr u ↦ elim (Bool-cases (is_call_tool d.action_type && not (is_set d.selected_tool))) [
    | inl m ↦ cc (rw (u, m) at e)
    | inr m ↦
        let a : d.action_type ≡ call_tool = rw (u, m) at e in
        rw (u, m) (known_tool d.selected_tool tools u (ground arith))
  ]
]

module _ (d : AgentDecision) (s : AgentDecisionState) where
  finish-IsAllowed :
      (a : ActionType)
      → (validated d s.available_tools).action_type ≡ a
      → IsAllowed s (finish_action a (validated d s.available_tools) (checked d s))
  unfolding finish_action
  finish-IsAllowed call_tool e =
      let (tool, set, known) = validated-call_tool d s.available_tools e in
      rw set (unfold act_tool evaluate_latest in rw e (inr (tool, known, refl, refl)))
  finish-IsAllowed _ e = inl (refl, refl)

  after_decision-IsAllowed : IsAllowed s (after_decision (with_decision d s))
  after_decision-IsAllowed = rw (after-with_decision d s) (finish-IsAllowed _ refl)

-- the run of a graph that returns is a decision, taken on
complete_inv :
    (s s' : AgentDecisionState) (o : Option (AgentDecision × List FallbackEvent))
    {events : List FallbackEvent}
    → complete_run (record_decision s o) ≡ some (s', events)
    → (d : AgentDecision) × (after_decision (with_decision d s) ≡ s')
unfolding complete_run record_decision
complete_inv s s' none h = cc
complete_inv s s' (some (d, _)) h = (d, cc)

pub run_graph_once_inv :
    (p : DecisionProvider) (fallback : Option DecisionProvider) (s s' : AgentDecisionState)
    {events : List FallbackEvent}
    → run_graph_once p fallback s ≡ some (s', events)
    → (d : AgentDecision) × (after_decision (with_decision d (graph_observe s)) ≡ s')
unfolding run_graph_once
run_graph_once_inv p fallback s s' h =
    complete_inv (graph_observe s) s' (decide_with_fallback p fallback (graph_observe s)) h

-- One run of the graph executes nothing, or one tool; then it is a tool of the available ones,
-- whatever the provider or its fallback decided, and one step and one tool call are spent on it.
-- Nothing else changes the executed tools and the budget.
pub run_graph_once-IsAllowed :
    (p : DecisionProvider) (fallback : Option DecisionProvider) (s s' : AgentDecisionState)
    {events : List FallbackEvent}
    → run_graph_once p fallback s ≡ some (s', events)
    → IsAllowed s s'
unfolding graph_observe
run_graph_once-IsAllowed p fallback s s' h =
    let (d, e) = run_graph_once_inv p fallback s s' h in
    subst (IsAllowed s) e (after_decision-IsAllowed d (graph_observe s))

-- The status that a run ends with, by the decision that the validation leaves as the last one.
abbrev pub status_of : AgentDecision → DecisionRunStatus → DecisionRunStatus
status_of d status = elim d.action_type [
  | recover ↦ recovery_status d.recovery.next_action
  | final_report ↦ completed
  | handoff ↦ handoff_required
  | ask_approval ↦ DecisionRunStatus.waiting_approval
  | _ ↦ status
]

finish-status :
    (d : AgentDecision) (s : AgentDecisionState) (a : ActionType)
    → (validated d s.available_tools).action_type ≡ a
    → ((finish_action a (validated d s.available_tools) (checked d s)).status
        ≡ status_of (validated d s.available_tools) s.status)
unfolding finish_action validated act_tool evaluate_latest
finish-status d s a e = ground arith

decisions-finish :
    (d : AgentDecision) (s : AgentDecisionState) (a : ActionType)
    → (finish_action a (validated d s.available_tools) (checked d s)).decisions
      ≡ s.decisions ++ validated d s.available_tools ∷ []
unfolding finish_action validated act_tool evaluate_latest
decisions-finish d s call_tool = ground arith
decisions-finish d s _ = refl

-- A run adds exactly one decision, and the status of the state it ends in is the one that belongs
-- to that decision: a status that the provider's decision had set is undone where the validation
-- replaces the decision.
pub run_graph_once-status :
    (p : DecisionProvider) (fallback : Option DecisionProvider) (s s' : AgentDecisionState)
    {events : List FallbackEvent}
    → run_graph_once p fallback s ≡ some (s', events)
    → (d : AgentDecision) × (s'.decisions ≡ s.decisions ++ d ∷ [])
      × (s'.status ≡ status_of d s.status)
unfolding graph_observe
run_graph_once-status p fallback s s' h =
    let (d, e) = run_graph_once_inv p fallback s s' h in
    let t = graph_observe s in
    let kept_one = validated d t.available_tools in
    let after = sym e ∙ after-with_decision d t in
    (
      kept_one,
      ap (λ (u : AgentDecisionState). u.decisions) after
          ∙ decisions-finish d t kept_one.action_type,
      ap (λ (u : AgentDecisionState). u.status) after ∙ finish-status d t kept_one.action_type refl,
    )
