-- ===== src/Runtime/Outcomes.antt =====
-- The statuses of the results that a run sees (app/agent_runtime/tool_executor.py), and the quality
-- of their assessment (app/agent_runtime/evidence.py).
use smart_sre_copilot.Prelude.{
  String, ◌≡◌, inl, inr, refl, Bool, true, false, ◌&&◌, not, Option, none, some, str_eq, Bool-cases,
  arith,
}
use smart_sre_copilot.Decision.{EvidenceQuality, partial, weak, chosen}
use smart_sre_copilot.Evidence.{Fields, EvidenceItem, assess}
use smart_sre_copilot.Executor.{
  Tool, Override, Policy, Call, returned, timed_out, failed, Execution, guard, check_governance,
  hold_for_approval, finish_call, call_tool_with_policy, normalized_policy, output_status,
  validate_output, execute, lacks_capability, validate_arguments, invoke_tool,
}
use smart_sre_copilot.Runtime.{RuntimeEnv, RunState}
use smart_sre_copilot.Runtime.Steps.{tool_result}

-- No tool of the executor ends in these.
abbrev pub is_known : String → Bool
is_known status = not (str_eq status "partial") && not (str_eq status "weak")

abbrev pub is_firm : EvidenceQuality → Bool
is_firm partial = false
is_firm weak = false
is_firm _ = true

pub assess-firm :
    (item : EvidenceItem)
    → is_known item.status ≡ true
    → str_eq item.status "approval_required" ≡ false
    → is_firm (assess item).quality ≡ true
unfolding assess
assess-firm item k a = ground (arith, k, a)

output_status-known : (o : Option String) → is_known (output_status o) ≡ true
output_status-known none = refl
output_status-known (some e) = refl

finish_call-known :
    (tool : Tool) (arguments : Fields) (policy : Policy) (decision : String) (c : Call)
    → is_known (finish_call tool arguments policy decision c).status ≡ true
unfolding finish_call
finish_call-known tool arguments policy decision (returned v) =
    output_status-known (validate_output tool.output_schema v)
finish_call-known tool arguments policy decision timed_out = refl
finish_call-known tool arguments policy decision (failed e) = refl

guard-known :
    (enabled lacking : Bool) (invalid : Option String) (tool : Tool) (arguments : Fields)
    (policy : Policy) (next : Execution)
    → is_known next.0.status ≡ true
    → is_known (guard enabled lacking invalid tool arguments policy next).0.status ≡ true
unfolding guard
guard-known false lacking invalid tool arguments policy next k = refl
guard-known true true invalid tool arguments policy next k = refl
guard-known true false (some e) tool arguments policy next k = refl
guard-known true false none tool arguments policy next k = k

hold_for_approval-known :
    (held : Bool) (tool : Tool) (arguments : Fields) (policy : Policy) (next : Execution)
    → is_known next.0.status ≡ true
    → is_known (hold_for_approval held tool arguments policy next).0.status ≡ true
unfolding hold_for_approval
hold_for_approval-known true tool arguments policy next k = refl
hold_for_approval-known false tool arguments policy next k = k

execute-known :
    (get_policy : String → Option Override) (tool : Tool) (arguments : Fields) (role : String)
    → is_known (execute get_policy tool arguments role).0.status ≡ true
unfolding execute check_governance call_tool_with_policy
execute-known get_policy tool arguments role =
    let policy = normalized_policy get_policy tool in
    let call = call_tool_with_policy tool arguments policy "executed" in
    guard-known policy.enabled (lacks_capability role policy.capability)
      (chosen (validate_arguments tool.args_schema arguments)) tool arguments policy
      (hold_for_approval policy.approval_required tool arguments policy call)
      (hold_for_approval-known policy.approval_required tool arguments policy call (
        finish_call-known tool arguments policy "executed"
          (invoke_tool tool.invoke arguments 0 tool.retry_count).0))

pub tool_result-known :
    (env : RuntimeEnv) (tool : Tool) (arguments : Fields) (s : RunState)
    → is_known (tool_result env tool arguments s).status ≡ true
unfolding tool_result
tool_result-known env tool arguments s = elim (Bool-cases (env.cut_off s.readings)) [
  | inl c ↦ rw c refl
  | inr c ↦ rw c (execute-known env.get_policy tool arguments env.role)
]
