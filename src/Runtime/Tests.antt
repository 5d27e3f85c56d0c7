-- ===== src/Runtime/Tests.antt =====
-- Runs and witnesses of the runtime, on a scene with the tools `restart` and `logs`.
use smart_sre_copilot.Prelude.{
  ℕ, ◌≤◌, ◌<◌, String, ◌≡◌, refl, Bool, true, false, none, some, List, [], ◌∷◌, lookup,
}
use smart_sre_copilot.Decision.{deterministic, running}
use smart_sre_copilot.Evidence.{text, Fields, no_field, field}
use smart_sre_copilot.Executor.{
  Call, returned, Tool, no_schema, execute, check_governance, guard, hold_for_approval,
  normalized_policy, validate_arguments, call_tool_with_policy,
}
use smart_sre_copilot.Runs.{Db, append_event, get_run, list_events}
use smart_sre_copilot.Approvals.Resume.{ResumeEnv, available, latest, executed, process_resume_task}
use smart_sre_copilot.Approvals.Safety.{calls}
use smart_sre_copilot.Runtime.{
  SafetySettings, Scene, tools_found, RuntimeEnv, RunState, finished, record_event,
}
use smart_sre_copilot.Runtime.Steps.{stopped, call_step, tool_result}
use smart_sre_copilot.Runtime.Orchestration.{run_agent}
use smart_sre_copilot.Runtime.Endings.{has_ended}
use smart_sre_copilot.Runtime.Endings.Paths.{run_agent_ends}
use smart_sre_copilot.Runtime.Planning.{tool_calls, run_agent_calls_one}
use smart_sre_copilot.Runtime.Resumption.Planned.{approval_payload, pause_resumes}
use smart_sre_copilot.Runtime.Resumption.{task_for, loop_pause_calls_nothing}

abbrev answer : ℕ → Fields → Call
answer n fs = returned (text "latency is up")

abbrev tool_named : String → Bool → Tool
tool_named name approval_required = record {
  name = name;
  scope = none;
  risk_level = none;
  capability = none;
  side_effect = none;
  approval_required = approval_required;
  retry_count = 0;
  args_schema = no_schema;
  output_schema = none;
  invoke = answer;
}

abbrev env : RuntimeEnv
env = record {
  run_id = "run-1";
  goal = "why is the API slow";
  role = "admin";
  catalog = tools_found (tool_named "restart" true ∷ tool_named "logs" false ∷ []);
  get_policy = λ name. none;
  infer_arguments = λ goal name. field "query" (text goal) no_field;
  truncate = λ v. v;
  normalize_cause = λ v. "";
  provider = deterministic;
  fallback_provider = none;
  has_knowledge = true;
  has_memories = false;
  has_citations = false;
  has_skills = true;
  clock = λ i. i;
  expires_at = 1000;
  cut_off = λ i. false;
  wall_clock = λ i. i;
  loop_clock = λ i. i;
  loop_expired = λ i. false;
  loop_times_out = false;
  has_intervention_bridge = false;
  arriving = λ i. [];
  arriving_late = λ i. [];
}

abbrev unset : SafetySettings
unset = record { max_steps = none; tool_timeout = none; run_timeout = none }

abbrev scene : List String → Bool → Scene
scene tools looped = record {
  tools = tools;
  agent_config = unset;
  decision_runtime_enabled = none;
  bounded_react_loop_enabled = looped;
}

abbrev fresh : Db
fresh = record { runs = []; events = [] }

abbrev resuming : ResumeEnv
resuming = record {
  checkpoint_status = λ run_id ns. available;
  tools = tool_named "restart" true ∷ [];
  get_policy = λ name. none;
}

abbrev started : RunState
started = record {
  db = record {
    runs = ("run-1", record { status = running; error_message = none }) ∷ [];
    events = [];
  };
  readings = 0;
  evidence = [];
}

run_agent_ends_example :
    has_ended "run-1" (run_agent env unset (scene ("logs" ∷ "restart" ∷ []) false) fresh) ≡ true
run_agent_ends_example = run_agent_ends env unset (scene ("logs" ∷ "restart" ∷ []) false) fresh

run_agent_calls_one_example :
    tool_calls (run_agent env unset (scene ("logs" ∷ "restart" ∷ []) false) fresh) ≤ 1
run_agent_calls_one_example =
    run_agent_calls_one env unset (scene ("logs" ∷ "restart" ∷ []) false) fresh refl

loop_pause_calls_nothing_example :
    calls
      (process_resume_task resuming 60 (task_for "run-1" "restart" "agent-v2") (
        append_event 50 "run-1" "approval_decision"
          (some (approval_payload "restart"))
          (run_agent env unset (scene ("restart" ∷ []) true) fresh))).0
    ≡ 0
unfolding latest list_events
loop_pause_calls_nothing_example =
    loop_pause_calls_nothing env unset (scene ("restart" ∷ []) true) fresh resuming 50 60
      (some (approval_payload "restart")) "restart" "agent-v2" refl refl refl

pause_resumes_example :
    (paused : Db) × (call_step env true "restart" (tool_named "restart" true) started
      ≡ stopped (finished paused))
    × (let resumed = process_resume_task resuming 60 (task_for "run-1" "restart" "agent-v2") (
          append_event 50 "run-1" "approval_decision" (some (approval_payload "restart")) paused) in
        (resumed.0
          ≡ executed (
              call_tool_with_policy
                (tool_named "restart" true)
                (field "query" (text "why is the API slow") no_field)
                (normalized_policy resuming.get_policy (tool_named "restart" true))
                "executed_after_approval"))
        × (0 < calls resumed.0))
unfolding get_run lookup record_event tool_result execute check_governance guard hold_for_approval
    normalized_policy validate_arguments
pause_resumes_example =
    pause_resumes env "restart" (tool_named "restart" true) started
      (record { status = running; error_message = none }) resuming 50 60 "agent-v2" refl refl refl
      refl refl refl refl
