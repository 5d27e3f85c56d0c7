-- ===== src/Runtime/Looping.antt =====
-- The path of a run through the bounded loop: the loop's tools, and what its result ends in
-- (`_make_loop_tool_executor` and `_run_orchestration` in app/agent_runtime/runtime.py). The decision
-- provider of the loop has no fallback, and its token usage is left out.
use smart_sre_copilot.Prelude.{
  ℕ, suc, ◌-◌, max, String, Option, none, some, List, [], ◌∷◌, get_last?, if◌then◌else◌,
}
use smart_sre_copilot.Decision.{ActionType, AgentDecision, AgentDecisionState, chosen}
use smart_sre_copilot.Evidence.{Fields, no_field, field, text, null, assess}
use smart_sre_copilot.Executor.{Tool, execute}
use smart_sre_copilot.Recovery.{choose_strategy}
use smart_sre_copilot.Loop.{
  Loop, LoopBudget, LoopResult, ToolResult, TerminationReason, approval_required, action, run,
}
use smart_sre_copilot.Runs.{Payload, payload_for}
use smart_sre_copilot.Runtime.{
  Catalog, tools_found, RuntimeEnv, RuntimeSafetyConfig, RunState, Result, timed_out, raised,
  read_clock, note, complete_run, hand_over, pause,
}
use smart_sre_copilot.Runtime.Steps.{named_last}

abbrev pub fields_of : List (String × String) → Fields
fields_of [] = no_field
fields_of ((k, v) ∷ rest) = let fs = fields_of rest in field k (text v) fs

abbrev pub arguments_or : List (String × String) → Fields → Fields
arguments_or [] inferred = inferred
arguments_or (a ∷ rest) inferred = fields_of (a ∷ rest)

abbrev failing : String → String → String → ToolResult
failing tool_name status message = record {
  status = status;
  evidence_item = record {
    tool_name = tool_name;
    status = status;
    output = null;
    error_text = some message;
  };
}

call_in_loop : RuntimeEnv → ℕ → Fields → Tool → Option ToolResult
call_in_loop env i arguments tool =
    if env.loop_expired i
    then none
    else if env.cut_off i
    then some (failing tool.name "timeout" "the tool took too long")
    else let result = (execute env.get_policy tool arguments env.role).0 in
      some (record {
        status = result.status;
        evidence_item = record {
          tool_name = result.tool_name;
          status = result.status;
          output = env.truncate result.output;
          error_text = result.error_text;
        };
      })

call_named : RuntimeEnv → ℕ → AgentDecision → String → Option Tool → Option ToolResult
unfolding call_in_loop
call_named env i d name none = some (failing name "error" "not in the catalogue")
call_named env i d name (some tool) =
    call_in_loop env i (arguments_or d.tool_arguments (env.infer_arguments env.goal name)) tool

execute_named : RuntimeEnv → ℕ → AgentDecision → Catalog → Option String → Option ToolResult
unfolding call_named
execute_named env i d catalog none = some (failing "unknown" "error" "no tool selected")
execute_named env i d (tools_found tools) (some name) =
    call_named env i d name (named_last name tools)
execute_named env i d _ (some name) = none

-- `_exec` of `_make_loop_tool_executor`. Arguments are inferred from the run's goal, where the
-- source takes the text of the decision's reasoning.
unfoldable pub loop_execute : RuntimeEnv → ℕ → AgentDecision → Option ToolResult
unfolding execute_named
loop_execute env i d = execute_named env i d env.catalog (chosen d.selected_tool)

unfoldable pub loop_of : RuntimeEnv → Loop
unfolding loop_execute
loop_of env = record {
  provider = env.provider;
  fallback_provider = none;
  token_estimator = none;
  get_token_usage = λ i. none;
  recovery_manager = some choose_strategy;
  tool_executor = some (loop_execute env);
  evidence_assessor = some assess;
  has_intervention_bridge = env.has_intervention_bridge;
  arriving = env.arriving;
  arriving_late = env.arriving_late;
  max_low_confidence_steps = none;
  low_confidence_threshold = 30;
  started = env.loop_clock 0;
  clock = λ i. env.loop_clock (suc i);
}

-- One event for each of the list.
abbrev pub note_each {ℓ} : {A : Type ℓ} → RuntimeEnv → String → List A → RunState → RunState
note_each env event_type [] s = s
note_each env event_type (x ∷ xs) s = note_each env event_type xs (note env event_type s)

-- The payload of the pause: the governance of the last result, which names no tool.
abbrev pub governance : Payload
governance = record (payload_for "") { tool_name = none; decision = some "approval_required" }

abbrev pub text_of : Option String → Option String → String
text_of a b = elim (chosen a) [
  | some t ↦ t
  | none ↦ elim (chosen b) [ some t ↦ t | none ↦ "insufficient evidence" ]
]

-- `handoff_reason or recovery.reason or` a text
abbrev pub reason_of : Option AgentDecision → String
reason_of none = "insufficient evidence"
reason_of (some d) = text_of d.handoff_reason d.recovery.reason

unfoldable pub end_loop : RuntimeEnv → TerminationReason → AgentDecisionState → RunState → Result
unfolding pause hand_over complete_run
end_loop env approval_required st s = pause env governance s
end_loop env (action ActionType.handoff) st s = hand_over env (reason_of (get_last? st.decisions)) s
end_loop env _ st s = complete_run env s

unfoldable pub use_loop_result : RuntimeEnv → Option LoopResult → RunState → Result
unfolding end_loop
use_loop_result env none s = if env.loop_times_out then timed_out s.db else raised s.db
use_loop_result env (some r) s = end_loop env r.termination_reason r.final.state (
    note_each env "decision" r.final.steps
      (note_each env "provider_fallback" r.final.fallback_events s))

unfoldable pub loop_path : RuntimeEnv → RuntimeSafetyConfig → AgentDecisionState → RunState → Result
unfolding use_loop_result
loop_path env config st s =
    let budget : LoopBudget = record {
      max_steps = config.max_steps;
      max_time = max (env.expires_at - env.clock s.readings) 1;
      max_tokens = none;
    } in
    use_loop_result env (run (loop_of env) (some budget) st) (read_clock s)
