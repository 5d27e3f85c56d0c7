-- ===== src/Decision/Tests.antt =====
-- Runs and witnesses of the decision layer (app/agent_runtime/decision.py).
use smart_sre_copilot.Prelude.{
  ◌<◌, ◌≤◌, ◌≡◌, ◌⊎◌, refl, false, Option, none, some, List, [], ◌∷◌, find?,
}
use smart_sre_copilot.Decision.{
  ActionType, call_tool, error, partial, running, EvidenceAssessment, AgentDecision,
  AgentDecisionState, new_decision, no_recovery, no_evidence, decide, deterministic, qwen,
  DecisionProvider, unavailable, exhausted, is_strong, remaining_tools, qwen_decision, unknown_tool,
  decide_with_fallback, FallbackEvent,
}
use smart_sre_copilot.Decision.Graph.{run_graph_once}
use smart_sre_copilot.Decision.Graph.Safety.{
  IsAllowed, status_of, run_graph_once-IsAllowed, run_graph_once-status,
}
use smart_sre_copilot.Decision.Provider.{SelectsNewTool, decide-call_tool, qwen_decision_bounded}

abbrev start_state : AgentDecisionState
start_state = record {
  run_id = some "run-1";
  status = running;
  goal = record {
    goal = "why is the API slow";
    success_criteria = [];
    priority = "P1";
    workspace_id = none;
  };
  budget = record {
    max_steps = 5;
    remaining_steps = 5;
    max_tool_calls = 5;
    remaining_tool_calls = 5;
    run_timeout = 120000;
    remaining_time = none;
  };
  available_tools = "logs" ∷ "metrics" ∷ [];
  executed_tools = [];
  observations = [];
  evidence = [];
  consecutive_empty_evidence = 0;
  decisions = [];
}

abbrev offline : DecisionProvider
offline = qwen (λ s. unavailable "TimeoutError")

abbrev state_after : Option (AgentDecisionState × List FallbackEvent) → AgentDecisionState
state_after none = start_state
state_after (some (s, events)) = s

abbrev events_after : Option (AgentDecisionState × List FallbackEvent) → List FallbackEvent
events_after none = []
events_after (some (s, events)) = events

abbrev run_offline : Option (AgentDecisionState × List FallbackEvent)
run_offline = run_graph_once offline (some deterministic) start_state

offline-decided : run_offline ≡ some (state_after run_offline, events_after run_offline)
unfolding run_graph_once decide_with_fallback qwen
offline-decided = refl

run_graph_once-IsAllowed_example : IsAllowed start_state (state_after run_offline)
run_graph_once-IsAllowed_example =
    run_graph_once-IsAllowed offline (some deterministic) start_state (state_after run_offline)
      offline-decided

run_graph_once-status_example :
    (d : AgentDecision) × ((state_after run_offline).decisions ≡ d ∷ [])
    × ((state_after run_offline).status ≡ status_of d running)
run_graph_once-status_example =
    run_graph_once-status offline (some deterministic) start_state (state_after run_offline)
      offline-decided

abbrev some_items : List EvidenceAssessment
some_items =
    record { quality = error; confidence = 0 } ∷ record { quality = partial; confidence = 50 } ∷ []

decides_call : (decide start_state).action_type ≡ call_tool
unfolding decide remaining_tools exhausted
decides_call = refl

decide-call_tool_example :
    (exhausted start_state.budget ≡ false)
    × (find? (λ item. is_strong item.quality) start_state.evidence ≡ none)
    × (0 < 2)
    × SelectsNewTool start_state (decide start_state)
decide-call_tool_example = decide-call_tool start_state decides_call

abbrev unsure : AgentDecision
unsure = new_decision call_tool (some "logs") [] no_evidence no_recovery 10

qwen_decision_bounded_example :
    let d = qwen_decision (some unsure) start_state in
    (unknown_tool d.selected_tool start_state.available_tools ≡ false)
    × ((d.action_type ≡ ActionType.recover) ⊎ (20 ≤ d.confidence))
qwen_decision_bounded_example = qwen_decision_bounded (some unsure) start_state
