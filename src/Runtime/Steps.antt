-- ===== src/Runtime/Steps.antt =====
-- The planned path of a run: the scene's tools one after the other, and what their results decide
-- (`_run_orchestration` and `execute_tool_with_timeout` in app/agent_runtime/runtime.py).
use smart_sre_copilot.Prelude.{
  String, Bool, true, false, ◌&&◌, not, Option, none, some, List, [], ◌∷◌, ◌++◌, length, ltb,
  str_eq, if◌then◌else◌,
}
use smart_sre_copilot.Decision.{EvidenceQuality, strong, empty, error, conflicting}
use smart_sre_copilot.Evidence.{Fields, null, EvidenceItem, assess, assess_many}
use smart_sre_copilot.Executor.{Tool, execute}
use smart_sre_copilot.Recovery.{choose_strategy, quality_text}
use smart_sre_copilot.Runs.{Payload, payload_for}
use smart_sre_copilot.Runtime.{
  RuntimeEnv, RunState, Result, timed_out, is_expired, read_clock, record_event, note, complete_run,
  recover_and_hand_over, pause,
}

-- The status, output and error of a tool's result, which is all that the run reads of it.
unfoldable pub tool_result : RuntimeEnv → Tool → Fields → RunState → EvidenceItem
tool_result env tool arguments s =
    if env.cut_off s.readings
    then record {
      tool_name = tool.name;
      status = "timeout";
      output = null;
      error_text = some "the tool took too long";
    }
    else let result = (execute env.get_policy tool arguments env.role).0 in
      record {
        tool_name = result.tool_name;
        status = result.status;
        output = env.truncate result.output;
        error_text = result.error_text;
      }

pub data StepEnd : Type 0 where
  goes_on : RunState → StepEnd
  found_strong : RunState → StepEnd
  stopped : Result → StepEnd

-- `deadline.ensure_available()` at the end of a step
unfoldable pub end_step : RuntimeEnv → RunState → StepEnd
end_step env s = if is_expired env s then stopped (timed_out s.db) else goes_on (read_clock s)

-- `reason` of the plan, which is not empty
unfoldable pub hand_over_for : RuntimeEnv → EvidenceQuality → RunState → Result
unfolding recover_and_hand_over
hand_over_for env quality s =
    recover_and_hand_over env (choose_strategy (quality_text quality) 1 false).reason s

-- What follows the assessment of a result.
unfoldable pub judge : RuntimeEnv → EvidenceQuality → RunState → StepEnd
unfolding hand_over_for end_step record_event
judge env empty s = stopped (hand_over_for env empty s)
judge env error s = stopped (hand_over_for env error s)
judge env conflicting s = stopped (hand_over_for env conflicting s)
judge env strong s = found_strong (note env "decision" s)
judge env _ s = end_step env s

abbrev pub result_payload : String → Fields → EvidenceItem → Payload
result_payload name arguments item = record (payload_for name) {
  execution_status = some item.status;
  arguments = arguments;
}

-- What follows the result of a tool, with the decision runtime enabled or not.
unfoldable pub use_result : RuntimeEnv → Bool → String → Fields → EvidenceItem → RunState → StepEnd
unfolding judge pause end_step record_event
use_result env false name arguments item s = end_step env s
use_result env true name arguments item s =
    let assessed = note env "evidence_assessment" s in
    if str_eq item.status "approval_required"
    then stopped (pause env (result_payload name arguments item) assessed)
    else judge env (assess item).quality assessed

-- The call of a tool: its event, the call within the time that is left, the event of its result.
unfoldable pub call_step : RuntimeEnv → Bool → String → Tool → RunState → StepEnd
unfolding tool_result use_result record_event
call_step env enabled name tool s =
    let arguments = env.infer_arguments env.goal name in
    let called =
      record_event env "tool_call" (some (record (payload_for name) { arguments = arguments })) s in
    if is_expired env called
    then stopped (timed_out called.db)
    else let item = tool_result env tool arguments called in
      let seen : RunState =
        record_event env "tool_result" (some (result_payload name arguments item))
          (read_clock called) in
      use_result env enabled name arguments item
        (record seen { evidence = seen.evidence ++ item ∷ [] })

-- `tool_by_name.get(name)`: of tools with one name the last.
abbrev pub named_last : String → List Tool → Option Tool
named_last name [] = none
named_last name (tool ∷ tools) =
    let later = named_last name tools in
    elim later [ some t ↦ some t | none ↦ if str_eq tool.name name then some tool else none ]

unfoldable pub step_with : RuntimeEnv → Bool → String → Option Tool → RunState → StepEnd
unfolding call_step
step_with env enabled name none s = goes_on s
step_with env enabled name (some tool) s = call_step env enabled name tool s

-- One round of the loop over the tools.
unfoldable pub tool_step : RuntimeEnv → Bool → List Tool → String → RunState → StepEnd
unfolding step_with
tool_step env enabled tools name s =
    if is_expired env s
    then stopped (timed_out s.db)
    else step_with env enabled name (named_last name tools) (read_clock s)

-- The next round, or the end that this one has come to.
abbrev pub next_or_stop : (RunState → StepEnd) → StepEnd → StepEnd
next_or_stop next (goes_on s) = next s
next_or_stop next (found_strong s) = found_strong s
next_or_stop next (stopped r) = stopped r

unfoldable pub run_tools : RuntimeEnv → Bool → List Tool → List String → RunState → StepEnd
run_tools env enabled tools [] s = goes_on s
run_tools env enabled tools (name ∷ names) s =
    next_or_stop (run_tools env enabled tools names) (tool_step env enabled tools name s)

-- ---------------------------------------------------------------- behind the tools

abbrev pub is_conflict : EvidenceQuality → Bool
is_conflict conflicting = true
is_conflict _ = false

abbrev pub is_nonempty {ℓ} : {A : Type ℓ} → List A → Bool
is_nonempty [] = false
is_nonempty (x ∷ xs) = true

-- The aggregated evidence, the skipped tools, and the report.
unfoldable pub conclude : RuntimeEnv → Bool → Bool → List String → RunState → Result
unfolding hand_over_for recover_and_hand_over complete_run
conclude env enabled has_strong skipped s =
    if is_expired env s
    then timed_out s.db
    else if enabled
        && ltb 1 (length s.evidence)
        && is_conflict (assess_many env.normalize_cause s.evidence).quality
    then hand_over_for env conflicting (read_clock s)
    else if enabled && is_nonempty skipped && not has_strong
    then recover_and_hand_over env "budget_exhausted" (read_clock s)
    else complete_run env (read_clock s)

unfoldable pub conclude_steps : RuntimeEnv → Bool → List String → StepEnd → Result
unfolding conclude
conclude_steps env enabled skipped (goes_on s) = conclude env enabled false skipped s
conclude_steps env enabled skipped (found_strong s) = conclude env enabled true skipped s
conclude_steps env enabled skipped (stopped r) = r
