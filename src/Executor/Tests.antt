-- ===== src/Executor/Tests.antt =====
-- Runs and witnesses of the tool executor (app/agent_runtime/tool_executor.py).
use smart_sre_copilot.Prelude.{
  lookup, ℕ, zero, suc, ◌≤◌, String, ◌≡◌, refl, true, false, Option, none, some, [], ◌∷◌, arith,
}
use smart_sre_copilot.Auth.{has_capability, role_capabilities}
use smart_sre_copilot.Evidence.{text, Fields, no_field, field}
use smart_sre_copilot.Executor.{
  Call, returned, failed, Tool, Override, Approval, json_schema, execute, execute_approved,
  normalized_policy, call_tool_with_policy, is_approved, invoke_tool, default_policy, overridden,
  check_governance, guard, hold_for_approval, validate_arguments, validate_json_schema_arguments,
  matches_json_schema_type,
}
use smart_sre_copilot.Executor.Governance.{
  Passes, IsLast, execute_calls, execute_approved_calls, change_waits, invoke_tool-IsLast,
}

-- The first call fails, and the next ones return.
abbrev second_try : ℕ → Fields → Call
second_try zero fs = failed "connection reset"
second_try (suc n) fs = returned (text "42 errors")

abbrev search_logs : Tool
search_logs = record {
  name = "search_logs";
  scope = none;
  risk_level = none;
  capability = some "aiops:run";
  side_effect = some "none";
  approval_required = false;
  retry_count = 2;
  args_schema = json_schema (record {
    type_name = some "object";
    required = "query" ∷ [];
    properties = ("query", "string") ∷ [];
  });
  output_schema = none;
  invoke = second_try;
}

abbrev restart : Tool
restart = record search_logs { name = "restart"; side_effect = some "change" }

abbrev no_policy : String → Option Override
no_policy name = none

abbrev stored : Override
stored = record {
  tool_name = none;
  scope = none;
  risk_level = some "high";
  capability = none;
  enabled = some true;
  approval_required = none;
}

abbrev query : Fields
query = field "query" (text "errors") no_field

called_twice : (execute no_policy search_logs query "operator").1 ≡ 2
unfolding execute normalized_policy overridden default_policy check_governance guard
    hold_for_approval call_tool_with_policy invoke_tool validate_arguments
    validate_json_schema_arguments matches_json_schema_type has_capability role_capabilities lookup
called_twice = refl

execute_calls_example :
    let policy = normalized_policy no_policy search_logs in
    Passes search_logs query "operator" policy
    × (policy.approval_required ≡ false)
    × ((execute no_policy search_logs query "operator").1 ≤ 3)
    × (execute no_policy search_logs query "operator"
        ≡ call_tool_with_policy search_logs query policy "executed")
execute_calls_example =
    execute_calls no_policy search_logs query "operator" (omega (arith, called_twice))

change_waits_example : (execute no_policy restart query "admin").1 ≡ 0
change_waits_example = change_waits no_policy restart query "admin" refl refl

abbrev approval : Approval
approval = record { tool_name = some "restart"; decision = some "approved" }

approved_twice : (execute_approved no_policy restart query "admin" approval).1 ≡ 2
unfolding execute_approved normalized_policy overridden default_policy check_governance guard
    call_tool_with_policy invoke_tool validate_arguments validate_json_schema_arguments
    matches_json_schema_type has_capability role_capabilities lookup
approved_twice = refl

execute_approved_calls_example :
    let policy = normalized_policy no_policy restart in
    (is_approved approval restart ≡ true)
    × Passes restart query "admin" policy
    × ((execute_approved no_policy restart query "admin" approval).1 ≤ 3)
    × (execute_approved no_policy restart query "admin" approval
        ≡ call_tool_with_policy restart query policy "executed_after_approval")
execute_approved_calls_example =
    execute_approved_calls no_policy restart query "admin" approval (omega (arith, approved_twice))

invoke_tool-IsLast_example : (last : ℕ) × IsLast second_try query 0 2 last
invoke_tool-IsLast_example = invoke_tool-IsLast second_try query 0 2
