-- ===== src/Executor.antt =====
-- Governed tool execution (app/agent_runtime/tool_executor.py) and the policy that planned actions
-- carry (app/agent_runtime/policy.py). A tool is its governance fields and what its calls return;
-- the policy store and schema models are functions. Texts for people are left out or shortened, and
-- so are the policy fields that nothing here reads (owner, transport, rate limit and the like).
pub mod Governance
mod Tests
use smart_sre_copilot.Prelude.{
  ℕ, zero, suc, String, Bool, true, false, ◌&&◌, ◌||◌, not, Option, none, some, List, [], ◌∷◌,
  str_eq, if◌then◌else◌, contains,
}
use smart_sre_copilot.Auth.{has_capability}
use smart_sre_copilot.Decision.{chosen}
use smart_sre_copilot.Evidence.{
  Value, null, text, boolean, integer, number, object, array, Fields, no_field, field,
}

-- ---------------------------------------------------------------- schemas

-- `properties` holds the `type` of each property that is a dict and has one.
pub record Schema : Type 0 where
  pub type_name : Option String
  pub required : List String
  pub properties : List (String × String)

abbrev pub has_field : String → Fields → Bool
has_field name no_field = false
has_field name (field k v fs) = str_eq k name || has_field name fs

abbrev pub is_text : Value → Bool
is_text (text t) = true
is_text _ = false

abbrev pub is_integer : Value → Bool
is_integer (integer z t) = true
is_integer _ = false

abbrev pub is_number : Value → Bool
is_number (integer z t) = true
is_number (number z t) = true
is_number _ = false

abbrev pub is_boolean : Value → Bool
is_boolean (boolean b) = true
is_boolean _ = false

abbrev pub is_object : Value → Bool
is_object (object fs) = true
is_object _ = false

abbrev pub is_array : Value → Bool
is_array (array vs) = true
is_array _ = false

-- `_matches_json_schema_type`
unfoldable pub matches_json_schema_type : Value → String → Bool
matches_json_schema_type v expected =
    if str_eq expected "string"
    then is_text v
    else if str_eq expected "integer"
    then is_integer v
    else if str_eq expected "number"
    then is_number v
    else if str_eq expected "boolean"
    then is_boolean v
    else if str_eq expected "object"
    then is_object v
    else if str_eq expected "array"
    then is_array v
    else true

abbrev pub has_all : List String → Fields → Bool
has_all [] fs = true
has_all (name ∷ names) fs = has_field name fs && has_all names fs

abbrev pub expected_type : String → List (String × String) → Option String
expected_type name [] = none
expected_type name ((k, t) ∷ ps) =
    let rest = expected_type name ps in if str_eq k name then some t else rest

abbrev pub fits : Value → Option String → Bool
fits v none = true
fits v (some t) = if str_eq t "" then true else matches_json_schema_type v t

abbrev pub fit_all : List (String × String) → Fields → Bool
fit_all ps no_field = true
fit_all ps (field k v fs) = fits v (expected_type k ps) && fit_all ps fs

-- `_validate_json_schema_arguments`: `none` is a valid argument list.
unfoldable pub validate_json_schema_arguments : Schema → Fields → Option String
unfolding matches_json_schema_type
validate_json_schema_arguments s fs =
    if not (has_all s.required fs)
    then some "missing required arguments"
    else if fit_all s.properties fs
    then none
    else some "argument of the wrong type"

-- `args_schema`: none, a schema model of another package, or a dict.
pub data ArgsSchema : Type 0 where
  no_schema : ArgsSchema
  schema_model : (Fields → Option String) → ArgsSchema
  json_schema : Schema → ArgsSchema

-- `_validate_arguments`
unfoldable pub validate_arguments : ArgsSchema → Fields → Option String
validate_arguments no_schema fs = none
validate_arguments (schema_model validate) fs = validate fs
validate_arguments (json_schema s) fs = validate_json_schema_arguments s fs

abbrev pub wants_object : Option String → Bool
wants_object none = false
wants_object (some t) = str_eq t "object"

-- `_validate_output`
unfoldable pub validate_output : Option Schema → Value → Option String
validate_output none v = none
validate_output (some s) (object fs) = validate_json_schema_arguments s fs
validate_output (some s) v = if wants_object s.type_name then some "Output must be object" else none

-- ---------------------------------------------------------------- tools and policies

-- How one call of a tool ends within its timeout.
pub data Call : Type 0 where
  returned : Value → Call
  timed_out : Call
  failed : String → Call

pub record Tool : Type 0 where
  pub name : String
  pub scope : Option String
  pub risk_level : Option String
  pub capability : Option String
  pub side_effect : Option String
  pub approval_required : Bool
  pub retry_count : ℕ
  pub args_schema : ArgsSchema
  pub output_schema : Option Schema
  -- The call with this number, counted from 0.
  pub invoke : ℕ → Fields → Call

pub record Policy : Type 0 where
  pub tool_name : String
  pub scope : String
  pub risk_level : String
  pub capability : Option String
  pub enabled : Bool
  pub approval_required : Bool

-- A stored policy; `none` is a missing key or, for a text, `None`. The repository makes the
-- two flags Booleans.
pub record Override : Type 0 where
  pub tool_name : Option String
  pub scope : Option String
  pub risk_level : Option String
  pub capability : Option String
  pub enabled : Option Bool
  pub approval_required : Option Bool

-- `value or default`
abbrev pub text_or : Option String → String → String
text_or o default = elim (chosen o) [ none ↦ default | some t ↦ t ]

-- `get(key, default)`
abbrev pub flag_or : Option Bool → Bool → Bool
flag_or none default = default
flag_or (some b) default = b

-- `side_effect in SIDE_EFFECTS_REQUIRING_APPROVAL`
abbrev pub changes : Option String → Bool
changes o = let effect = text_or o "none" in str_eq effect "change" || str_eq effect "destructive"

-- `_default_policy`
unfoldable pub default_policy : Tool → Policy
default_policy tool = record {
  tool_name = tool.name;
  scope = text_or tool.scope "diagnosis";
  risk_level = text_or tool.risk_level "low";
  capability = tool.capability;
  enabled = true;
  approval_required = if changes tool.side_effect then true else tool.approval_required;
}

unfoldable pub overridden : Policy → Option Override → Policy
overridden p none = p
overridden p (some o) = record {
  tool_name = text_or o.tool_name p.tool_name;
  scope = text_or o.scope p.scope;
  risk_level = text_or o.risk_level p.risk_level;
  capability = o.capability;
  enabled = flag_or o.enabled p.enabled;
  approval_required = flag_or o.approval_required p.approval_required;
}

-- `_normalized_policy`
unfoldable pub normalized_policy : (String → Option Override) → Tool → Policy
unfolding overridden default_policy
normalized_policy get_policy tool = overridden (default_policy tool) (get_policy tool.name)

-- `a or b` on optional texts
abbrev pub first_set : Option String → Option String → Option String
first_set a b = elim (chosen a) [ none ↦ b | some t ↦ some t ]

unfoldable pub merged : Policy → Option Override → Policy
merged p none = p
merged p (some o) = record {
  tool_name = text_or o.tool_name p.tool_name;
  scope = text_or o.scope p.scope;
  risk_level = text_or o.risk_level p.risk_level;
  capability = first_set o.capability p.capability;
  enabled = flag_or o.enabled p.enabled;
  approval_required = flag_or o.approval_required p.approval_required;
}

-- `ToolPolicyGate._build_effective_policy` for a tool with a schema, whose fields are the tool's.
unfoldable pub effective_policy : (String → Option Override) → Tool → Policy
unfolding merged default_policy
effective_policy get_policy tool = merged (default_policy tool) (get_policy tool.name)

-- ---------------------------------------------------------------- execution

pub record ToolExecutionResult : Type 0 where
  pub tool_name : String
  pub status : String
  pub arguments : Fields
  pub output : Value
  pub error_text : Option String
  pub policy : Policy
  pub decision : String

-- A result, with the number of calls of the tool.
abbrev pub Execution : Type 0
Execution = ToolExecutionResult × ℕ

abbrev pub refuse : Tool → Fields → Policy → String → Option String → String → Execution
refuse tool arguments policy status error_text decision = (
  record {
    tool_name = tool.name;
    status = status;
    arguments = arguments;
    output = null;
    error_text = error_text;
    policy = policy;
    decision = decision;
  },
  0,
)

-- One more call in front.
abbrev pub count_call : Call × ℕ → Call × ℕ
count_call p = (p.0, suc p.1)

abbrev pub is_returned : Call → Bool
is_returned (returned v) = true
is_returned _ = false

-- `_invoke_tool_with_policy` from call `attempt` on, with `n` more calls allowed behind it.
unfoldable pub invoke_tool : (ℕ → Fields → Call) → Fields → ℕ → ℕ → Call × ℕ
invoke_tool invoke arguments attempt zero = (invoke attempt arguments, 1)
invoke_tool invoke arguments attempt (suc n) =
    let later = invoke_tool invoke arguments (suc attempt) n in
    if is_returned (invoke attempt arguments)
    then (invoke attempt arguments, 1)
    else count_call later

abbrev pub output_status : Option String → String
output_status none = "success"
output_status (some e) = "invalid_output"

unfoldable pub finish_call : Tool → Fields → Policy → String → Call → ToolExecutionResult
unfolding validate_output
finish_call tool arguments policy decision (returned v) =
    let problem = validate_output tool.output_schema v in
    record {
      tool_name = tool.name;
      status = output_status problem;
      arguments = arguments;
      output = v;
      error_text = problem;
      policy = policy;
      decision = decision;
    }
finish_call tool arguments policy decision timed_out =
    (refuse tool arguments policy "error" (some "Tool execution timed out") decision).0
finish_call tool arguments policy decision (failed e) =
    (refuse tool arguments policy "error" (some e) decision).0

-- The `try` block of both methods.
unfoldable pub call_tool_with_policy : Tool → Fields → Policy → String → Execution
unfolding finish_call invoke_tool
call_tool_with_policy tool arguments policy decision =
    let ended = invoke_tool tool.invoke arguments 0 tool.retry_count in
    (finish_call tool arguments policy decision ended.0, ended.1)

-- `capability and not self._has_capability(role, capability)`
abbrev pub lacks_capability : String → Option String → Bool
lacks_capability role o = elim (chosen o) [ none ↦ false | some c ↦ not (has_capability role c) ]

-- The early returns of both methods, on whether the policy is enabled, the capability is lacking,
-- and the arguments have an error.
unfoldable pub guard : Bool → Bool → Option String → Tool → Fields → Policy → Execution → Execution
guard false lacking invalid tool arguments policy next =
    refuse tool arguments policy "disabled" none "denied"
guard true true invalid tool arguments policy next =
    refuse tool arguments policy "forbidden" (some "missing capability") "denied"
guard true false (some e) tool arguments policy next =
    refuse tool arguments policy "invalid_input" (some e) "denied"
guard true false none tool arguments policy next = next

-- The checks that both methods make, in front of what follows them.
unfoldable pub check_governance : Tool → Fields → String → Policy → Execution → Execution
unfolding validate_arguments guard
check_governance tool arguments role policy next =
    guard policy.enabled (lacks_capability role policy.capability)
      (chosen (validate_arguments tool.args_schema arguments)) tool arguments policy next

unfoldable pub hold_for_approval : Bool → Tool → Fields → Policy → Execution → Execution
hold_for_approval true tool arguments policy next =
    refuse tool arguments policy "approval_required" none "approval_required"
hold_for_approval false tool arguments policy next = next

-- `execute` for a caller with this role
unfoldable pub execute : (String → Option Override) → Tool → Fields → String → Execution
unfolding check_governance call_tool_with_policy normalized_policy hold_for_approval
execute get_policy tool arguments role =
    let policy = normalized_policy get_policy tool in
    check_governance tool arguments role policy (
      hold_for_approval policy.approval_required tool arguments policy
        (call_tool_with_policy tool arguments policy "executed"))

pub record Approval : Type 0 where
  pub tool_name : Option String
  pub decision : Option String

abbrev pub is_approved : Approval → Tool → Bool
is_approved a tool =
    str_eq (text_or a.tool_name "") tool.name && str_eq (text_or a.decision "") "approved"

-- `execute_approved`
unfoldable pub execute_approved :
    (String → Option Override) → Tool → Fields → String → Approval → Execution
unfolding check_governance call_tool_with_policy normalized_policy
execute_approved get_policy tool arguments role approval =
    let policy = normalized_policy get_policy tool in
    if is_approved approval tool
    then check_governance tool arguments role policy
        (call_tool_with_policy tool arguments policy "executed_after_approval")
    else refuse tool arguments policy "forbidden" (some "approval mismatch") "denied"
