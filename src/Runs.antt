-- ===== src/Runs.antt =====
-- Agent runs and their event log (`AgentRunRepository` in
-- app/platform/persistence/repositories/native_agent.py). The log is the list of its rows in the
-- order of insertion, which is that of `created_at` under a clock that does not go back. The
-- metric columns, the stage and the texts of an event are left out, and so are the final reports.
pub mod Log
use smart_sre_copilot.Prelude.{
  ℕ, String, Option, none, some, List, [], ◌∷◌, ◌++◌, str_eq, keep_if, lookup, insert,
}
use smart_sre_copilot.Decision.{DecisionRunStatus, running}
use smart_sre_copilot.Evidence.{Fields, no_field}

-- The keys of an event's payload that are read.
pub record Payload : Type 0 where
  pub tool_name : Option String
  pub decision : Option String
  pub execution_status : Option String
  pub resume_status : Option String
  pub arguments : Fields

-- `event_type` is the key `type` of the dicts that `list_events` returns.
pub record Event : Type 0 where
  pub run_id : String
  pub event_type : String
  pub payload : Option Payload
  pub created_at : ℕ

pub record AgentRun : Type 0 where
  pub status : DecisionRunStatus
  pub error_message : Option String

pub record Db : Type 0 where
  pub runs : List (String × AgentRun)
  pub events : List Event

abbrev pub payload_for : String → Payload
payload_for tool_name = record {
  tool_name = some tool_name;
  decision = none;
  execution_status = none;
  resume_status = none;
  arguments = no_field;
}

-- `run_id` is the fresh id.
unfoldable pub create_run : String → Db → Db
create_run run_id db = record db {
  runs = insert run_id (record { status = running; error_message = none }) db.runs;
}

unfoldable pub get_run : String → Db → Option AgentRun
get_run run_id db = lookup run_id db.runs

abbrev pub or_kept : Option String → Option String → Option String
or_kept none kept = kept
or_kept (some new) kept = some new

unfoldable pub update_row : String → DecisionRunStatus → Option String → Option AgentRun → Db → Db
update_row run_id status error_message none db = db
update_row run_id status error_message (some row) db = record db {
  runs =
      insert run_id
        (record { status = status; error_message = or_kept error_message row.error_message })
        db.runs;
}

unfoldable pub update_run : String → DecisionRunStatus → Option String → Db → Db
unfolding update_row get_run
update_run run_id status error_message db =
    update_row run_id status error_message (get_run run_id db) db

unfoldable pub append_event : ℕ → String → String → Option Payload → Db → Db
append_event now run_id event_type payload db = record db {
  events =
      db.events
      ++ record { run_id = run_id; event_type = event_type; payload = payload; created_at = now }
        ∷ [];
}

unfoldable pub list_events : String → Db → List Event
list_events run_id db = keep_if (λ event. str_eq event.run_id run_id) db.events
