-- ===== src/Decision/Graph.antt =====
-- The decision graph of app/agent_runtime/decision.py (`AgentDecisionRuntime`): the nodes, the
-- routing, and one run of the compiled graph as the edges of `build_graph` wire it. A state is
-- dumped and validated again at each node; what that changes, a `handoff_reason` that a copy without
-- validation has left open, is left out, since no node reads it.
pub mod Safety
use smart_sre_copilot.Prelude.{
  ℕ, zero, suc, ◌+◌, ◌-◌, min, String, Bool, true, false, ◌&&◌, Option, none, some, List, [], ◌∷◌,
  ◌++◌, str_eq, if◌then◌else◌, get_last?, drop_last, contains, max, not,
}
use smart_sre_copilot.Decision.{
  ActionType, observe, call_tool, ask_approval, recover, final_report, handoff, EvidenceAssessment,
  weak, DecisionRunStatus, running, completed, handoff_required, NextAction, RecoveryDecision,
  AgentDecision, AgentObservation, AgentDecisionState, DecisionProvider, FallbackEvent,
  RuntimeBudget, with_decision, decide_with_fallback, invalid_decision, unknown_tool, chosen,
}

-- `_graph_observe`. The text of the tool observation is left out.
unfoldable pub graph_observe : AgentDecisionState → AgentDecisionState
graph_observe s =
    let goal_seen : List AgentObservation = elim s.observations [
      | [] ↦ record { source = "user_goal"; summary = s.goal.goal; confidence = 100 } ∷ []
      | o ∷ os ↦ o ∷ os
    ] in
    let tools_seen : List AgentObservation = elim s.available_tools [
      | [] ↦ []
      | t ∷ ts ↦ record { source = "tool_catalog"; summary = ""; confidence = 100 } ∷ []
    ] in
    record s { observations = goal_seen ++ tools_seen }

record_decision :
    AgentDecisionState
    → Option (AgentDecision × List FallbackEvent)
    → Option (AgentDecisionState × List FallbackEvent)
record_decision s none = none
record_decision s (some (d, events)) = some (with_decision d s, events)

-- `decide_once`: `none` is an exception with no fallback left.
unfoldable pub decide_once :
    DecisionProvider
    → Option DecisionProvider
    → AgentDecisionState
    → Option (AgentDecisionState × List FallbackEvent)
unfolding record_decision
decide_once p fallback s = record_decision s (decide_with_fallback p fallback s)

abbrev pub is_call_tool : ActionType → Bool
is_call_tool call_tool = true
is_call_tool _ = false

abbrev pub is_set : Option String → Bool
is_set tool = elim (chosen tool) [ none ↦ false | some _ ↦ true ]

-- What `_graph_validate_decision` puts in place of the latest decision.
unfoldable pub validated : AgentDecision → List String → AgentDecision
validated d tools =
    if unknown_tool d.selected_tool tools
    then invalid_decision "unknown_tool"
    else if is_call_tool d.action_type && not (is_set d.selected_tool)
    then invalid_decision "invalid_tool_decision"
    else d

validate_latest : AgentDecisionState → Option AgentDecision → AgentDecisionState
validate_latest s none = s
validate_latest s (some d) = record s {
  decisions = drop_last s.decisions ++ validated d s.available_tools ∷ [];
}

unfoldable pub graph_validate_decision : AgentDecisionState → AgentDecisionState
unfolding validate_latest
graph_validate_decision s = validate_latest s (get_last? s.decisions)

-- `max(remaining - 1, 0)` is the subtraction of ℕ.
abbrev pub spend : RuntimeBudget → RuntimeBudget
spend b = record b {
  remaining_steps = b.remaining_steps - 1;
  remaining_tool_calls = b.remaining_tool_calls - 1;
}

unfoldable pub act_tool : AgentDecisionState → ActionType → Option String → AgentDecisionState
act_tool s call_tool (some tool) = record s {
  executed_tools = s.executed_tools ++ tool ∷ [];
  budget = spend s.budget;
}
act_tool s _ _ = s

act_latest : AgentDecisionState → Option AgentDecision → AgentDecisionState
unfolding act_tool
act_latest s none = s
act_latest s (some d) = act_tool s d.action_type (chosen d.selected_tool)

unfoldable pub graph_act : AgentDecisionState → AgentDecisionState
unfolding act_latest
graph_act s = act_latest s (get_last? s.decisions)

unfoldable pub evaluate_latest : AgentDecisionState → Option AgentDecision → AgentDecisionState
evaluate_latest s none = s
evaluate_latest s (some d) =
    if is_call_tool d.action_type
    then record s {
      evidence = s.evidence ++ record { quality = weak; confidence = min d.confidence 50 } ∷ [];
    }
    else s

unfoldable pub graph_evaluate_evidence : AgentDecisionState → AgentDecisionState
unfolding evaluate_latest
graph_evaluate_evidence s = evaluate_latest s (get_last? s.decisions)

abbrev pub recovery_status : Option NextAction → DecisionRunStatus
recovery_status (some NextAction.handoff) = handoff_required
recovery_status _ = running

recover_latest : AgentDecisionState → Option AgentDecision → AgentDecisionState
recover_latest s none = s
recover_latest s (some d) = record s { status = recovery_status d.recovery.next_action }

unfoldable pub graph_recover : AgentDecisionState → AgentDecisionState
unfolding recover_latest
graph_recover s = recover_latest s (get_last? s.decisions)

unfoldable pub graph_final_report : AgentDecisionState → AgentDecisionState
graph_final_report s = record s { status = completed }

pub data Route : Type 0 where
  to_act to_recover to_final_report to_end : Route

abbrev route_of : ActionType → Route
route_of call_tool = to_act
route_of recover = to_recover
route_of final_report = to_final_report
route_of _ = to_end

route_action : Option AgentDecision → Route
route_action none = to_end
route_action (some d) = route_of d.action_type

-- `_route_decision`
unfoldable pub route_decision : AgentDecisionState → Route
unfolding route_action
route_decision s = route_action (get_last? s.decisions)

follow : Route → AgentDecisionState → AgentDecisionState
unfolding graph_act graph_evaluate_evidence graph_recover graph_final_report
follow to_act s = graph_evaluate_evidence (graph_act s)
follow to_recover s = graph_recover s
follow to_final_report s = graph_final_report s
follow to_end s = s

-- The nodes behind `decide`.
unfoldable pub after_decision : AgentDecisionState → AgentDecisionState
unfolding follow graph_validate_decision route_decision
after_decision s = let s' = graph_validate_decision s in follow (route_decision s') s'

complete_run :
    Option (AgentDecisionState × List FallbackEvent)
    → Option (AgentDecisionState × List FallbackEvent)
complete_run none = none
complete_run (some (s, events)) = some (after_decision s, events)

-- One invocation of the graph: the state that it ends in and the fallback events.
unfoldable pub run_graph_once :
    DecisionProvider
    → Option DecisionProvider
    → AgentDecisionState
    → Option (AgentDecisionState × List FallbackEvent)
unfolding complete_run decide_once
run_graph_once p fallback s = complete_run (decide_once p fallback (graph_observe s))
