-- ===== src/Approvals/Listing.antt =====
-- The list of approvals (`list_agent_approvals` in
-- app/application/native_agent_application_service.py): the requests of the latest runs, behind an
-- expiry of those that waited too long.
pub mod Expiry
use mathlib.Core.List.{reverse}
use smart_sre_copilot.Prelude.{
  ℕ, String, Option, none, some, List, [], ◌∷◌, ◌++◌, map, take, lookup, if◌then◌else◌,
}
use smart_sre_copilot.Evidence.{Fields}
use smart_sre_copilot.Runs.{Payload, Event, Db, list_events}
use smart_sre_copilot.Approvals.{
  payload_of_type, tool_of, by_tool, approval_decisions_by_tool, is_held,
  expire_pending_agent_approvals_for_run,
}
use smart_sre_copilot.Approvals.Desk.{pending}

-- ---------------------------------------------------------------- the list

-- `list_runs`: the runs stand in the order of their creation.
unfoldable pub list_runs : ℕ → Db → List String
list_runs limit db = take limit (reverse (map (λ r. r.0) db.runs))

-- `expire_pending_agent_approvals`, for these runs
unfoldable pub expire_each : ℕ → ℕ → List String → Db → Db
expire_each timeout now [] db = db
expire_each timeout now (run_id ∷ runs) db =
    expire_each timeout now runs (expire_pending_agent_approvals_for_run timeout now run_id db)

unfoldable pub expire_pending_agent_approvals : ℕ → ℕ → ℕ → Db → Db
unfolding expire_each
expire_pending_agent_approvals timeout now limit db =
    expire_each timeout now (list_runs limit db) db

-- A row of the list.
pub record ApprovalRow : Type 0 where
  pub run_id : String
  pub tool_name : String
  pub arguments : Fields
  pub status : String
  pub resume_status : Option String

abbrev name_or_empty : Option String → String
name_or_empty none = ""
name_or_empty (some t) = t

abbrev status_of : Option Payload → String
status_of none = "pending"
status_of (some d) = elim d.decision [ none ↦ "pending" | some t ↦ t ]

abbrev resume_status_of : Option Payload → Option Payload → Option Payload → Option String
resume_status_of (some result) resume decision = some "executed"
resume_status_of none (some resume) decision = resume.resume_status
resume_status_of none none (some decision) = decision.resume_status
resume_status_of none none none = none

abbrev row_for : String → List Event → Payload → ApprovalRow
row_for run_id events p =
    let tool_name = name_or_empty (tool_of p) in
    let decision = lookup tool_name (approval_decisions_by_tool events) in
    record {
      run_id = run_id;
      tool_name = tool_name;
      arguments = p.arguments;
      status = status_of decision;
      resume_status =
          resume_status_of (lookup tool_name (by_tool "approval_resumed_tool_result" events []))
            (lookup tool_name (by_tool "approval_resume" events [])) decision;
    }

abbrev rows_for : String → List Event → Option Payload → List ApprovalRow
rows_for run_id events none = []
rows_for run_id events (some p) =
    if is_held p.execution_status then row_for run_id events p ∷ [] else []

-- The inner loop; `all` is the log of the run.
unfoldable pub request_rows : String → List Event → List Event → List ApprovalRow
request_rows run_id all [] = []
request_rows run_id all (e ∷ events) =
    rows_for run_id all (payload_of_type "tool_result" e) ++ request_rows run_id all events

unfoldable pub rows_of_runs : List String → Db → List ApprovalRow
unfolding request_rows
rows_of_runs [] db = []
rows_of_runs (run_id ∷ runs) db =
    request_rows run_id (list_events run_id db) (list_events run_id db) ++ rows_of_runs runs db

-- `list_agent_approvals`
unfoldable pub list_agent_approvals : ℕ → ℕ → ℕ → Db → List ApprovalRow × Db
unfolding expire_pending_agent_approvals rows_of_runs
list_agent_approvals timeout now limit db =
    let after = expire_pending_agent_approvals timeout now limit db in
    (rows_of_runs (list_runs limit after) after, after)
