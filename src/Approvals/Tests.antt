-- ===== src/Approvals/Tests.antt =====
-- Runs and witnesses of approvals and their resumption, on one run with a held call of `restart`.
use smart_sre_copilot.Prelude.{
  ℕ, ◌<◌, String, ◌≡◌, refl, true, false, none, some, List, [], ◌∷◌, ◌++◌, arith, lookup, insert,
  str_eq, find?, any, map,
}
use smart_sre_copilot.Decision.{waiting_approval}
use smart_sre_copilot.Evidence.{text, Fields, no_field, field}
use smart_sre_copilot.Executor.{
  Call, returned, failed, Tool, Override, no_schema, execute_approved, normalized_policy,
  default_policy, overridden, check_governance, guard, call_tool_with_policy, invoke_tool,
  validate_arguments,
}
use smart_sre_copilot.Executor.Governance.{Passes}
use smart_sre_copilot.Runs.{
  Payload, Db, payload_for, get_run, append_event, list_events, update_run, update_row,
}
use smart_sre_copilot.Approvals.{
  World, ResumeTask, reachable, decided, decide_agent_approval,
  expire_pending_agent_approvals_for_run, approval_decisions_by_tool, by_tool, mark_run_handoff,
  record_decision, expire_requests, expire_of, expire_request, expire_tool,
  enqueue_approval_resume_task,
}
use smart_sre_copilot.Approvals.Resume.{
  ResumeEnv, available, process_resume_task, latest, execute_approved_original_action, executed,
}
use smart_sre_copilot.Approvals.Finality.{decision_on}
use smart_sre_copilot.Approvals.Execution.{
  decision_is_final, perform_all, Op, decides, expires, resumes,
}
use smart_sre_copilot.Approvals.Listing.Expiry.{listed_in_time}
use smart_sre_copilot.Approvals.Desk.Refinement.{decide_refines}
use smart_sre_copilot.Approvals.Listing.{
  list_runs, expire_each, expire_pending_agent_approvals, request_rows, rows_of_runs,
  list_agent_approvals,
}
use smart_sre_copilot.Approvals.Desk.{
  desk, verdict, accepted, refused_as_expired, settled, is_overdue, decide_at_desk,
}
use smart_sre_copilot.Approvals.Safety.{
  calls, Ready, approval_of, resume_executes, refused_never_runs, resume_repeats,
}

abbrev answer : ℕ → Fields → Call
answer n fs = returned (text "restarted")

abbrev restart : Tool
restart = record {
  name = "restart";
  scope = none;
  risk_level = none;
  capability = none;
  side_effect = some "change";
  approval_required = false;
  retry_count = 0;
  args_schema = no_schema;
  output_schema = none;
  invoke = answer;
}

abbrev env : ResumeEnv
env = record {
  checkpoint_status = λ run_id ns. available;
  tools = restart ∷ [];
  get_policy = λ name. none;
}

-- The log of a run that is held at `restart`.
abbrev held : Db
held = record {
  runs = ("run-1", record { status = waiting_approval; error_message = none }) ∷ [];
  events =
      record {
        run_id = "run-1";
        event_type = "tool_call";
        payload =
            some (record (payload_for "restart") {
              arguments = field "service" (text "api") no_field;
            });
        created_at = 10;
      }
      ∷ record {
        run_id = "run-1";
        event_type = "tool_result";
        payload =
            some (record (payload_for "restart") { execution_status = some "approval_required" });
        created_at = 11;
      }
      ∷ [];
}

abbrev start : World
start = record { db = held; queue = [] }

abbrev with_decision : String → Db
with_decision decision = record held {
  events =
      held.events
      ++ record {
        run_id = "run-1";
        event_type = "approval_decision";
        payload = some (record (payload_for "restart") { decision = some decision });
        created_at = 20;
      }
        ∷ [];
}

abbrev task : ResumeTask
task = record {
  run_id = "run-1";
  tool_name = "restart";
  decision = "approved";
  checkpoint_ns = "agent-v2";
}

-- In time, the approval is queued; behind the timeout it has expired.
queued :
    (decide_agent_approval reachable 600 20 "run-1" "restart" "approved" start).0 ≡ decided "queued"
unfolding decide_agent_approval expire_pending_agent_approvals_for_run expire_requests list_events
    get_run approval_decisions_by_tool by_tool record_decision append_event
    enqueue_approval_resume_task lookup insert mark_run_handoff update_run
queued = refl

calls_once : calls (process_resume_task env 30 task (with_decision "approved")).0 ≡ 1
unfolding process_resume_task latest list_events get_run lookup execute_approved_original_action
    execute_approved normalized_policy default_policy overridden check_governance guard
    call_tool_with_policy invoke_tool validate_arguments
calls_once = refl

resume_executes_example :
    (r : Ready env 30 task (with_decision "approved")) × (tool : Tool) × (find?
        (λ t. str_eq t.name "restart")
        env.tools
      ≡ some tool)
    × ((process_resume_task env 30 task (with_decision "approved")).0
        ≡ executed
            (execute_approved env.get_policy tool r.original.arguments "admin" (approval_of task)))
    × Passes tool r.original.arguments "admin" (normalized_policy env.get_policy tool)
resume_executes_example =
    resume_executes env 30 task (with_decision "approved") (omega (arith, calls_once))

-- At the second delivery `restart` has another policy, and fails.
abbrev failing_restart : Tool
failing_restart = record restart { invoke = λ n fs. failed "already restarting" }

abbrev risky : Override
risky = record {
  tool_name = none;
  scope = none;
  risk_level = some "high";
  capability = none;
  enabled = some true;
  approval_required = some true;
}

abbrev later_env : ResumeEnv
later_env = record {
  checkpoint_status = λ run_id ns. available;
  tools = failing_restart ∷ [];
  get_policy = λ name. some risky;
}

abbrev held_call : Payload
held_call = record (payload_for "restart") { arguments = field "service" (text "api") no_field }

resume_repeats_example :
    let second =
      process_resume_task later_env 40 task
        (process_resume_task env 30 task (with_decision "approved")).1 in
    (second.0
      ≡ executed (
          call_tool_with_policy failing_restart
            (field "service" (text "api") no_field)
            (normalized_policy later_env.get_policy failing_restart)
            "executed_after_approval"))
    × (0 < calls second.0)
unfolding latest list_events normalized_policy overridden default_policy validate_arguments
resume_repeats_example =
    resume_repeats env 30 task (with_decision "approved") later_env 40 failing_restart held_call
      (omega (arith, calls_once)) refl refl refl (refl, refl, refl)

abbrev rejection : Payload
rejection = record (payload_for "restart") { decision = some "rejected" }

rejected : decision_on "run-1" "restart" (with_decision "rejected") ≡ some rejection
unfolding approval_decisions_by_tool by_tool list_events lookup insert
rejected = refl

abbrev later_ops : List Op
later_ops =
    decides reachable 600 25 "run-1" "restart" "approved"
    ∷ expires 600 900 "run-1"
    ∷ resumes env 901 task
    ∷ []

decision_is_final_example :
    decision_on "run-1" "restart"
      (perform_all later_ops (record { db = with_decision "rejected"; queue = [] })).db
    ≡ some rejection
decision_is_final_example =
    decision_is_final "run-1" "restart" later_ops
      (record { db = with_decision "rejected"; queue = [] }) rejection rejected

refused_never_runs_example :
    calls
      (process_resume_task env 902 task
        (perform_all later_ops (record { db = with_decision "rejected"; queue = [] })).db).0
    ≡ 0
refused_never_runs_example =
    refused_never_runs env 902 task later_ops (record { db = with_decision "rejected"; queue = [] })
      rejection rejected refl

-- An approval in time settles the approval of `restart`.
decide_refines_example :
    let out = decide_agent_approval reachable 600 20 "run-1" "restart" "approved" start in
    let spec =
      decide_at_desk
        (any (is_overdue 600 20 "restart") (list_events "run-1" held))
        (desk "run-1" "restart" held)
        "approved" in
    (verdict out.0 ≡ spec.0) × (desk "run-1" "restart" out.1.db ≡ spec.1)
unfolding get_run lookup
decide_refines_example =
    decide_refines reachable 600 20 "run-1" "restart" "approved"
      (record { status = waiting_approval; error_message = none }) start refl refl refl

-- What the desk says of it, and of one that comes too late.
settles :
    (decide_at_desk
        (any (is_overdue 600 20 "restart") (list_events "run-1" held))
        (desk "run-1" "restart" held)
        "approved"
      ≡ (accepted, settled "approved"))
    × (decide_at_desk
          (any (is_overdue 600 700 "restart") (list_events "run-1" held))
          (desk "run-1" "restart" held)
          "approved"
        ≡ (refused_as_expired, settled "expired"))
unfolding list_events approval_decisions_by_tool by_tool lookup
settles = (refl, refl)

-- The request in the list, in time and too late.
listed_pending : map (λ r. r.status) (list_agent_approvals 600 20 5 held).0 ≡ "pending" ∷ []
unfolding list_agent_approvals expire_pending_agent_approvals expire_each list_runs
    expire_pending_agent_approvals_for_run expire_of expire_requests expire_request rows_of_runs
    request_rows list_events get_run approval_decisions_by_tool by_tool lookup
listed_pending = refl

listed_expired : map (λ r. r.status) (list_agent_approvals 600 700 5 held).0 ≡ "expired" ∷ []
unfolding list_agent_approvals expire_pending_agent_approvals expire_each list_runs
    expire_pending_agent_approvals_for_run expire_of expire_requests expire_request expire_tool
    record_decision mark_run_handoff update_run update_row append_event insert rows_of_runs
    request_rows list_events get_run approval_decisions_by_tool by_tool lookup
listed_expired = refl

listed_in_time_example :
    any (is_overdue 600 20 "restart") (list_events "run-1" (list_agent_approvals 600 20 5 held).1)
    ≡ false
unfolding get_run lookup list_runs list_agent_approvals expire_pending_agent_approvals expire_each
    expire_pending_agent_approvals_for_run expire_of expire_requests expire_request list_events
    approval_decisions_by_tool by_tool
listed_in_time_example = listed_in_time 600 20 5 "run-1" "restart" held refl refl refl refl
