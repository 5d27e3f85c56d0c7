-- ===== src/Approvals/Resume.antt =====
-- The resumption of approved tool calls (`AgentResumeService` in
-- app/application/agent_resume_service.py, app/infrastructure/tasks/agent_resume.py). The
-- checkpoint store and the tool catalogue are parameters.
use smart_sre_copilot.Prelude.{
  ℕ, String, Bool, true, false, ◌&&◌, ◌||◌, not, Option, none, some, List, [], ◌∷◌, str_eq,
  if◌then◌else◌, find?,
}
use smart_sre_copilot.Decision.{DecisionRunStatus, cancelled}
use smart_sre_copilot.Evidence.{Fields}
use smart_sre_copilot.Executor.{Tool, Override, Execution, execute_approved, text_or}
use smart_sre_copilot.Runs.{
  Payload, Event, Db, AgentRun, payload_for, get_run, append_event, list_events,
}
use smart_sre_copilot.Approvals.{payload_of_type, ResumeTask, World}

pub data CheckpointStatus : Type 0 where
  available missing lookup_failed : CheckpointStatus

pub record ResumeEnv : Type 0 where
  pub checkpoint_status : String → String → CheckpointStatus
  pub tools : List Tool
  pub get_policy : String → Option Override

pub data ResumeOutcome : Type 0 where
  invalid_resume_payload run_not_found run_cancelled approval_not_found : ResumeOutcome
  original_action_missing checkpoint_missing : ResumeOutcome
  executed : Execution → ResumeOutcome
  tool_unavailable : ResumeOutcome  -- executed, with the status "error"

abbrev pub names : String → Option String → Bool
names tool none = false
names tool (some t) = str_eq t tool

abbrev pub matching : String → Option Payload → Option Payload
matching tool none = none
matching tool (some p) = if names tool p.tool_name then some p else none

-- The last event of this type whose payload names the tool: the loop over `reversed(events)` of
-- `_find_original_action` and `_latest_approval_decision`.
unfoldable pub latest : String → String → List Event → Option Payload
latest event_type tool [] = none
latest event_type tool (event ∷ events) =
    let later = latest event_type tool events in
    elim later [ some p ↦ some p | none ↦ matching tool (payload_of_type event_type event) ]

abbrev pub is_approved_payload : Option Payload → Bool
is_approved_payload none = false
is_approved_payload (some p) = str_eq (text_or p.decision "") "approved"

abbrev pub is_available : CheckpointStatus → Bool
is_available available = true
is_available _ = false

unfoldable pub execute_found : ResumeEnv → ResumeTask → Fields → Option Tool → ResumeOutcome
execute_found env task arguments none = tool_unavailable
execute_found env task arguments (some tool) = executed (
    execute_approved env.get_policy tool arguments "admin"
      (record { tool_name = some task.tool_name; decision = some task.decision }))

-- `_execute_approved_original_action`
unfoldable pub execute_approved_original_action : ResumeEnv → ResumeTask → Fields → ResumeOutcome
unfolding execute_found
execute_approved_original_action env task arguments =
    execute_found env task arguments (find? (λ tool. str_eq tool.name task.tool_name) env.tools)

unfoldable pub resume_action : ResumeEnv → ℕ → ResumeTask → Option Payload → Db → ResumeOutcome × Db
unfolding execute_approved_original_action
resume_action env now task none db = (
  original_action_missing,
  append_event now task.run_id "approval_resume" (some (payload_for task.tool_name)) db,
)
resume_action env now task (some original) db =
    let noted =
      append_event now task.run_id "approval_resume" (some (payload_for task.tool_name)) db in
    if is_available (env.checkpoint_status task.run_id task.checkpoint_ns)
    then (
      execute_approved_original_action env task original.arguments,
      append_event now task.run_id "approval_resumed_tool_result"
          (some (record (payload_for task.tool_name) { arguments = original.arguments })) noted,
    )
    else (checkpoint_missing, noted)

abbrev pub is_cancelled : DecisionRunStatus → Bool
is_cancelled cancelled = true
is_cancelled _ = false

unfoldable pub resume_run : ResumeEnv → ℕ → ResumeTask → Option AgentRun → Db → ResumeOutcome × Db
unfolding resume_action latest
resume_run env now task none db = (run_not_found, db)
resume_run env now task (some run) db =
    if is_cancelled run.status
    then (run_cancelled, db)
    else let events = list_events task.run_id db in
      if is_approved_payload (latest "approval_decision" task.tool_name events)
      then resume_action env now task (latest "tool_call" task.tool_name events) db
      else (approval_not_found, db)

abbrev pub is_valid_task : ResumeTask → Bool
is_valid_task task =
    not (str_eq task.run_id "" || str_eq task.tool_name "") && str_eq task.decision "approved"

-- `process_resume_task`
unfoldable pub process_resume_task : ResumeEnv → ℕ → ResumeTask → Db → ResumeOutcome × Db
unfolding resume_run
process_resume_task env now task db =
    if is_valid_task task
    then resume_run env now task (get_run task.run_id db) db
    else (invalid_resume_payload, db)

worker_step : ResumeEnv → ℕ → List ResumeTask → Db → World
unfolding process_resume_task
worker_step env now [] db = record { db = db; queue = [] }
worker_step env now (task ∷ queue) db = record {
  db = (process_resume_task env now task db).1;
  queue = queue;
}

-- One round of `AgentResumeDispatcher._worker_loop`
unfoldable pub resume_worker_round : ResumeEnv → ℕ → World → World
unfolding worker_step
resume_worker_round env now w = worker_step env now w.queue w.db
