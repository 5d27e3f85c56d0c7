-- ===== src/Loop/Tests.antt =====
-- Runs and witnesses of the bounded loop (app/agent_runtime/loop.py).
use smart_sre_copilot.Prelude.{
  ℕ, ◌≤◌, ◌≡◌, ◌≢◌, ◌⊎◌, refl, true, false, Option, none, some, [], ◌∷◌, length,
}
use smart_sre_copilot.Decision.{
  AgentDecision, AgentDecisionState, running, deterministic, decide_with_fallback, weak,
}
use smart_sre_copilot.Evidence.{text, assess}
use smart_sre_copilot.Recovery.{choose_strategy}
use smart_sre_copilot.Intervention.{Intervention, inject_evidence}
use smart_sre_copilot.Loop.{
  Loop, LoopResult, ToolResult, run, exceeds, max_tokens_reached, has_remaining_tool,
}
use smart_sre_copilot.Loop.Bounds.{limits, total_tokens, run_bounded}
use smart_sre_copilot.Loop.Returns.{Decides, Hears, run_returns, bad_injection_raises}
use smart_sre_copilot.Loop.Stall.{Plain, Stalled, IsWasted, alternative_never_tried}

-- A run that found weak evidence with its first tool and has a second one left.
abbrev weak_state : AgentDecisionState
weak_state = record {
  run_id = some "run-1";
  status = running;
  goal = record {
    goal = "why is the API slow";
    success_criteria = [];
    priority = "P1";
    workspace_id = none;
  };
  budget = record {
    max_steps = 3;
    remaining_steps = 3;
    max_tool_calls = 5;
    remaining_tool_calls = 5;
    run_timeout = 120000;
    remaining_time = none;
  };
  available_tools = "logs" ∷ "metrics" ∷ [];
  executed_tools = "logs" ∷ [];
  observations = [];
  evidence = record { quality = weak; confidence = 35 } ∷ [];
  consecutive_empty_evidence = 0;
  decisions = [];
}

abbrev answer : ℕ → AgentDecision → Option ToolResult
answer i d = some (record {
  status = "success";
  evidence_item = record {
    tool_name = "metrics";
    status = "success";
    output = text "latency is up";
    error_text = none;
  };
})

-- The loop as the runtime builds it, with a clock that stands still.
abbrev loop : Loop
loop = record {
  provider = deterministic;
  fallback_provider = none;
  token_estimator = none;
  get_token_usage = λ i. none;
  recovery_manager = some choose_strategy;
  tool_executor = some answer;
  evidence_assessor = some assess;
  has_intervention_bridge = false;
  arriving = λ i. [];
  arriving_late = λ i. [];
  max_low_confidence_steps = none;
  low_confidence_threshold = 30;
  started = 0;
  clock = λ i. 0;
}

decides : Decides loop
unfolding decide_with_fallback
decides s = λ e. cc

executes : (i : ℕ) (d : AgentDecision) → answer i d ≢ none
executes i d = λ e. cc

hears : Hears loop
hears i = (tt, tt)

run_returns_example : (r : LoopResult) × (run loop none weak_state ≡ some r)
run_returns_example = run_returns loop none weak_state decides executes hears

-- The same loop behind a bridge on which an injection of evidence without content arrives.
abbrev empty_injection : Intervention
empty_injection = record {
  intervention_type = inject_evidence;
  content = none;
  source = some "operator";
  sureness = none;
  selected_tool = none;
  tool_arguments = none;
  goal = none;
  success_criteria = none;
  priority = none;
}

abbrev disturbed : Loop
disturbed = record loop { has_intervention_bridge = true; arriving = λ i. empty_injection ∷ [] }

bad_injection_raises_example : run disturbed none weak_state ≡ none
bad_injection_raises_example = bad_injection_raises disturbed none weak_state refl refl refl

run_bounded_example :
    let r = (run_returns loop none weak_state decides executes hears).0 in
    (length r.final.steps ≤ 3)
    × (length r.final.evidence_items ≤ 3)
    × (total_tokens r.final.steps ≤ r.final.token_usage)
    × ((exceeds r.final.token_usage none ≡ false) ⊎ (r.termination_reason ≡ max_tokens_reached))
run_bounded_example =
    run_bounded loop none weak_state (run_returns loop none weak_state decides executes hears).1

plain : Plain loop (limits none weak_state)
plain = record {
  manager = refl;
  no_bridge = refl;
  no_low = refl;
  no_tokens = refl;
  in_time = λ i. refl;
}

stalled : Stalled weak_state
unfolding has_remaining_tool
stalled = record {
  latest = record { quality = weak; confidence = 35 };
  last = refl;
  quality = refl;
  none_empty = refl;
  tool_left = refl;
}

alternative_never_tried_example : IsWasted weak_state 3 (run loop none weak_state)
alternative_never_tried_example = alternative_never_tried loop none weak_state plain stalled
