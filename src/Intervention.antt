-- ===== src/Intervention.antt =====
-- Human interventions in a run (app/agent_runtime/intervention.py), and how the loop applies the
-- pending ones (app/agent_runtime/loop.py). The queue of one run is the list of its interventions
-- that have not been applied.
use smart_sre_copilot.Prelude.{
  ℕ, String, Bool, true, false, Option, none, some, List, [], ◌∷◌, ◌++◌, ◌&&◌, not, str_eq, leb,
  if◌then◌else◌,
}
use smart_sre_copilot.Decision.{AgentDecision, AgentDecisionState}

pub data InterventionType : Type 0 where
  inject_evidence replace_tool_call modify_goal : InterventionType

-- The fields of the payload that are read; `none` is a missing key. A `content` or `source` that is no
-- text, which is refused as an empty one is, counts as empty; the `none` inside `sureness` is a
-- `confidence` that is negative or no number. The fields of the other two kinds, which are copied
-- into the state or the decision without validation, have the types that their readers expect.
pub record Intervention : Type 0 where
  pub intervention_type : InterventionType
  pub content : Option String
  pub source : Option String
  pub sureness : Option (Option ℕ)
  pub selected_tool : Option (Option String)
  pub tool_arguments : Option (List (String × String))
  pub goal : Option String
  pub success_criteria : Option (List String)
  pub priority : Option String

abbrev pub or_else {ℓ} : {A : Type ℓ} → Option A → A → A
or_else none x = x
or_else (some y) x = y

-- The bounds of the fields of `AgentObservation`, for a confidence in hundredths.
abbrev pub is_observation : String → String → Option ℕ → Bool
is_observation source summary none = false
is_observation source summary (some confidence) =
    not (str_eq source "") && not (str_eq summary "") && leb confidence 100

abbrev pub observe_with : String → String → Option ℕ → AgentDecisionState → AgentDecisionState
observe_with source summary confidence s = record s {
  observations =
      s.observations
      ++ record { source = source; summary = summary; confidence = or_else confidence 0 } ∷ [];
}

-- `apply_injected_evidence`: `none` is the exception that the constructor of `AgentObservation`, or
-- `float`, raises.
unfoldable pub apply_injected_evidence :
    Intervention → AgentDecisionState → Option AgentDecisionState
apply_injected_evidence iv s =
    let source = or_else iv.source "human_intervention" in
    let summary = or_else iv.content "" in
    let confidence = or_else iv.sureness (some 100) in
    if is_observation source summary confidence
    then some (observe_with source summary confidence s)
    else none

unfoldable pub apply_replace_decision : Intervention → AgentDecision → AgentDecision
apply_replace_decision iv d = record d {
  selected_tool = or_else iv.selected_tool d.selected_tool;
  tool_arguments = or_else iv.tool_arguments d.tool_arguments;
}

unfoldable pub apply_modify_goal : Intervention → AgentDecisionState → AgentDecisionState
apply_modify_goal iv s = record s {
  goal = record {
    goal = or_else iv.goal s.goal.goal;
    success_criteria = or_else iv.success_criteria s.goal.success_criteria;
    priority = or_else iv.priority s.goal.priority;
    workspace_id = s.goal.workspace_id;
  };
}

abbrev pub apply_before :
    InterventionType → Intervention → AgentDecisionState → Option AgentDecisionState
apply_before inject_evidence iv s = apply_injected_evidence iv s
apply_before modify_goal iv s = some (apply_modify_goal iv s)
apply_before replace_tool_call iv s = some s

-- What follows the first one, unless it raised.
abbrev pub and_then {ℓ κ} : {A : Type ℓ} → {B : Type κ} → (A → Option B) → Option A → Option B
and_then next none = none
and_then next (some a) = next a

-- `_apply_pending_interventions`: each pending one that bears on the state, in order.
unfoldable pub apply_pending_interventions :
    List Intervention → AgentDecisionState → Option AgentDecisionState
apply_pending_interventions [] s = some s
apply_pending_interventions (iv ∷ ivs) s =
    and_then (apply_pending_interventions ivs) (apply_before iv.intervention_type iv s)

abbrev pub is_replacement : InterventionType → Bool
is_replacement replace_tool_call = true
is_replacement _ = false

-- `_apply_replace_intervention`
unfoldable pub apply_replace_intervention : List Intervention → AgentDecision → AgentDecision
unfolding apply_replace_decision
apply_replace_intervention [] d = d
apply_replace_intervention (iv ∷ ivs) d =
    apply_replace_intervention ivs
      (if is_replacement iv.intervention_type then apply_replace_decision iv d else d)

-- The pending ones that stay pending behind `apply_pending_interventions`.
abbrev pub replacements : List Intervention → List Intervention
replacements [] = []
replacements (iv ∷ ivs) =
    let rest = replacements ivs in if is_replacement iv.intervention_type then iv ∷ rest else rest

-- The pending ones that stay pending behind `apply_replace_intervention`.
abbrev pub others : List Intervention → List Intervention
others [] = []
others (iv ∷ ivs) =
    let rest = others ivs in if is_replacement iv.intervention_type then rest else iv ∷ rest
