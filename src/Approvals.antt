-- ===== src/Approvals.antt =====
-- Approvals of held tool calls: the decisions of people and the expiry of requests
-- (app/application/native_agent_application_service.py) over the event log of `Runs`. A queue
-- backend takes a resume task, fails, or is not configured.
pub mod Resume
pub mod Finality
pub mod Execution
pub mod Safety
pub mod Desk
pub mod Listing
mod Tests
use smart_sre_copilot.Prelude.{
  ℕ, ◌+◌, String, Bool, true, false, ◌||◌, Option, none, some, List, [], ◌∷◌, ◌++◌, str_eq,
  if◌then◌else◌, leb, lookup, insert,
}
use smart_sre_copilot.Decision.{chosen, handoff_required}
use smart_sre_copilot.Runs.{
  Payload, Event, Db, AgentRun, payload_for, get_run, update_run, append_event, list_events,
}

-- The payload of an event of this type, where it is a dict.
abbrev pub payload_of_type : String → Event → Option Payload
payload_of_type event_type event =
    if str_eq event.event_type event_type then event.payload else none

abbrev pub tool_of : Payload → Option String
tool_of p = chosen p.tool_name

abbrev add_by_tool : Option String → Payload → List (String × Payload) → List (String × Payload)
add_by_tool none p found = found
add_by_tool (some tool) p found = insert tool p found

abbrev add_payload : Option Payload → List (String × Payload) → List (String × Payload)
add_payload none found = found
add_payload (some p) found = add_by_tool (tool_of p) p found

-- The loop that `_approval_decisions_by_tool`, `_approval_resume_by_tool` and
-- `_approval_resume_results_by_tool` share: the last payload of a type for each tool.
unfoldable pub by_tool : String → List Event → List (String × Payload) → List (String × Payload)
by_tool event_type [] found = found
by_tool event_type (event ∷ events) found =
    by_tool event_type events (add_payload (payload_of_type event_type event) found)

unfoldable pub approval_decisions_by_tool : List Event → List (String × Payload)
unfolding by_tool
approval_decisions_by_tool events = by_tool "approval_decision" events []

-- ---------------------------------------------------------------- expiry

-- `_mark_run_handoff`
unfoldable pub mark_run_handoff : ℕ → String → String → String → Db → Db
mark_run_handoff now run_id tool_name reason db = update_run run_id handoff_required (some reason) (
    append_event now run_id "handoff" (some (payload_for tool_name)) (
      append_event now run_id "decision"
        (some (record (payload_for tool_name) { tool_name = none })) db))

abbrev is_held : Option String → Bool
is_held none = false
is_held (some status) = str_eq status "approval_required"

abbrev held_tool : Option Payload → Option String
held_tool none = none
held_tool (some p) = if is_held p.execution_status then tool_of p else none

-- The tool of a request for approval: a `tool_result` event that was held.
abbrev pub requested_tool : Event → Option String
requested_tool event = held_tool (payload_of_type "tool_result" event)

-- `_approval_is_expired`, for a timeout in the settings
abbrev pub approval_is_expired : ℕ → ℕ → Event → Bool
approval_is_expired timeout now event = leb (event.created_at + timeout) now

unfoldable pub record_decision : ℕ → String → String → String → String → Db → Db
record_decision now run_id tool_name decision resume_status db =
    append_event now run_id "approval_decision"
      (some (record (payload_for tool_name) {
        decision = some decision;
        resume_status = some resume_status;
      }))
      db

unfoldable pub expire_tool : ℕ → String → Option Payload → String → Db → Db
unfolding record_decision mark_run_handoff
expire_tool now run_id (some decided) tool_name db = db
expire_tool now run_id none tool_name db =
    mark_run_handoff now run_id tool_name "approval_expired"
      (record_decision now run_id tool_name "expired" "not_resumed" db)

unfoldable pub expire_request :
    ℕ → ℕ → String → List (String × Payload) → Event → Option String → Db → Db
unfolding expire_tool
expire_request timeout now run_id decisions event none db = db
expire_request timeout now run_id decisions event (some tool) db =
    if approval_is_expired timeout now event
    then expire_tool now run_id (lookup tool decisions) tool db
    else db

-- The loop over the events; `decisions` is read once, in front of it.
unfoldable pub expire_requests : ℕ → ℕ → String → List (String × Payload) → List Event → Db → Db
unfolding expire_request
expire_requests timeout now run_id decisions [] db = db
expire_requests timeout now run_id decisions (event ∷ events) db =
    expire_requests timeout now run_id decisions events
      (expire_request timeout now run_id decisions event (requested_tool event) db)

unfoldable pub expire_of : ℕ → ℕ → String → Option AgentRun → Db → Db
unfolding expire_requests approval_decisions_by_tool
expire_of timeout now run_id none db = db
expire_of timeout now run_id (some run) db =
    let events = list_events run_id db in
    expire_requests timeout now run_id (approval_decisions_by_tool events) events db

-- `_expire_pending_agent_approvals_for_run`, without its report
unfoldable pub expire_pending_agent_approvals_for_run : ℕ → ℕ → String → Db → Db
unfolding expire_of
expire_pending_agent_approvals_for_run timeout now run_id db =
    expire_of timeout now run_id (get_run run_id db) db

-- ---------------------------------------------------------------- decisions

pub data QueueBackend : Type 0 where
  not_configured unreachable reachable : QueueBackend

pub record ResumeTask : Type 0 where
  pub run_id : String
  pub tool_name : String
  pub decision : String
  pub checkpoint_ns : String

-- The database and the queue of resume tasks.
pub record World : Type 0 where
  pub db : Db
  pub queue : List ResumeTask

-- `_enqueue_approval_resume_task`: the status it returns, and the queue.
unfoldable pub enqueue_approval_resume_task :
    QueueBackend → ResumeTask → List ResumeTask → String × List ResumeTask
enqueue_approval_resume_task not_configured task queue =
    ("deferred_until_resume_worker_enabled", queue)
enqueue_approval_resume_task unreachable task queue = ("enqueue_failed", queue)
enqueue_approval_resume_task reachable task queue = ("queued", queue ++ task ∷ [])

pub data DecideResult : Type 0 where
  run_not_found invalid_decision approval_expired approval_already_decided : DecideResult
  decided : String → DecideResult  -- with its `resume_status`

unfoldable pub approve : QueueBackend → ℕ → String → String → World → DecideResult × World
unfolding record_decision enqueue_approval_resume_task
approve backend now run_id tool_name w =
    let task : ResumeTask = record {
      run_id = run_id;
      tool_name = tool_name;
      decision = "approved";
      checkpoint_ns = "agent-v2";
    } in
    let sent = enqueue_approval_resume_task backend task w.queue in
    let resume : Payload = record (payload_for tool_name) {
      decision = some "approved";
      resume_status = some sent.0;
    } in
    (
      decided sent.0,
      record {
        db =
            append_event now run_id "approval_resume" (some resume)
              (record_decision now run_id tool_name "approved" "pending_resume_enqueue" w.db);
        queue = sent.1;
      },
    )

unfoldable pub reject : ℕ → String → String → World → DecideResult × World
unfolding record_decision mark_run_handoff
reject now run_id tool_name w = (
  decided "not_resumed",
  record w {
    db =
        mark_run_handoff now run_id tool_name "approval_rejected"
          (record_decision now run_id tool_name "rejected" "not_resumed" w.db);
  },
)

abbrev was_expired : Option String → Bool
was_expired none = false
was_expired (some decision) = str_eq decision "expired"

unfoldable pub decide_new :
    QueueBackend → ℕ → String → String → String → Option Payload → World → DecideResult × World
unfolding approve reject
decide_new backend now run_id tool_name decision (some existing) w =
    (if was_expired existing.decision then approval_expired else approval_already_decided, w)
decide_new backend now run_id tool_name decision none w =
    if str_eq decision "approved"
    then approve backend now run_id tool_name w
    else reject now run_id tool_name w

unfoldable pub decide_valid :
    Bool → QueueBackend → ℕ → ℕ → String → String → String → World → DecideResult × World
unfolding decide_new expire_pending_agent_approvals_for_run
decide_valid false backend timeout now run_id tool_name decision w = (invalid_decision, w)
decide_valid true backend timeout now run_id tool_name decision w =
    let db = expire_pending_agent_approvals_for_run timeout now run_id w.db in
    decide_new backend now run_id tool_name decision
      (lookup tool_name (approval_decisions_by_tool (list_events run_id db))) (record w { db = db })

unfoldable pub decide_for :
    QueueBackend → ℕ → ℕ → String → String → String → Option AgentRun → World → DecideResult × World
unfolding decide_valid
decide_for backend timeout now run_id tool_name decision none w = (run_not_found, w)
decide_for backend timeout now run_id tool_name decision (some run) w =
    decide_valid (str_eq decision "approved" || str_eq decision "rejected") backend timeout now
      run_id tool_name decision w

-- `decide_agent_approval`
unfoldable pub decide_agent_approval :
    QueueBackend → ℕ → ℕ → String → String → String → World → DecideResult × World
unfolding decide_for
decide_agent_approval backend timeout now run_id tool_name decision w =
    decide_for backend timeout now run_id tool_name decision (get_run run_id w.db) w
