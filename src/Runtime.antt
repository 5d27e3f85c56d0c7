-- ===== src/Runtime.antt =====
-- The orchestration of a run (`AgentRuntime` in app/agent_runtime/runtime.py, with
-- app/agent_runtime/approval.py and the failure events of app/agent_runtime/recovery.py): the
-- settings, the collaborators, and the writes that end a run. Reports, the stream of events to the
-- client, memory and metrics are left out; the stream repeats the log.
pub mod Steps
pub mod Looping
pub mod Orchestration
pub mod Endings
pub mod Framing
pub mod Outcomes
pub mod Planning
pub mod Resumption
mod Tests
use smart_sre_copilot.Prelude.{
  ℕ, zero, suc, String, Bool, true, Option, none, some, List, length, leb,
}
use smart_sre_copilot.Decision.{
  DecisionProvider, DecisionRunStatus, waiting_approval, completed, failed, handoff_required,
}
use smart_sre_copilot.Evidence.{Value, Fields, EvidenceItem}
use smart_sre_copilot.Executor.{Tool, Override}
use smart_sre_copilot.Intervention.{Intervention}
use smart_sre_copilot.Runs.{Payload, Db, update_run, append_event}

-- ---------------------------------------------------------------- settings

-- `_positive_int`, `_positive_float`: `none` is a value that is no number.
abbrev pub positive_or : ℕ → Option ℕ → ℕ
positive_or default none = default
positive_or default (some zero) = default
positive_or default (some (suc n)) = suc n

pub record RuntimeSafetyConfig : Type 0 where
  pub max_steps : ℕ
  pub tool_timeout : ℕ
  pub run_timeout : ℕ

-- The settings' values, or those of `agent_config` of the scene.
pub record SafetySettings : Type 0 where
  pub max_steps : Option ℕ
  pub tool_timeout : Option ℕ
  pub run_timeout : Option ℕ

abbrev pub with_defaults : RuntimeSafetyConfig → SafetySettings → RuntimeSafetyConfig
with_defaults d s = record {
  max_steps = positive_or d.max_steps s.max_steps;
  tool_timeout = positive_or d.tool_timeout s.tool_timeout;
  run_timeout = positive_or d.run_timeout s.run_timeout;
}

-- `from_scene`
unfoldable pub from_scene : SafetySettings → SafetySettings → RuntimeSafetyConfig
from_scene settings agent_config =
    with_defaults
      (with_defaults (record { max_steps = 5; tool_timeout = 30000; run_timeout = 120000 })
        settings)
      agent_config

pub record Scene : Type 0 where
  pub tools : List String
  pub agent_config : SafetySettings
  pub decision_runtime_enabled : Option Bool
  pub bounded_react_loop_enabled : Bool

-- `_decision_runtime_enabled`
abbrev pub decision_runtime_enabled_in : Scene → Bool
decision_runtime_enabled_in scene = elim scene.decision_runtime_enabled [
  | none ↦ true
  | some enabled ↦ enabled
]

-- ---------------------------------------------------------------- collaborators

-- How `get_tools` ends.
pub data Catalog : Type 0 where
  tools_found : List Tool → Catalog
  catalog_timed_out catalog_failed : Catalog

pub record RuntimeEnv : Type 0 where
  pub run_id : String
  pub goal : String
  pub role : String
  pub catalog : Catalog
  pub get_policy : String → Option Override
  pub infer_arguments : String → String → Fields
  pub truncate : Value → Value
  pub normalize_cause : Value → String
  pub provider : DecisionProvider
  pub fallback_provider : Option DecisionProvider
  pub has_knowledge : Bool
  pub has_memories : Bool
  pub has_citations : Bool
  pub has_skills : Bool
  -- The monotonic clock at its n-th reading, and the moment of the deadline.
  pub clock : ℕ → ℕ
  pub expires_at : ℕ
  -- Whether the call of a tool at this reading of the clock takes too long.
  pub cut_off : ℕ → Bool
  -- The wall clock when the n-th event is written.
  pub wall_clock : ℕ → ℕ
  -- The loop's clock at its n-th reading, whether the run's time is up when a step calls a tool, and
  -- whether an exception that leaves the loop is a `TimeoutError`.
  pub loop_clock : ℕ → ℕ
  pub loop_expired : ℕ → Bool
  pub loop_times_out : Bool
  pub has_intervention_bridge : Bool
  pub arriving : ℕ → List Intervention
  pub arriving_late : ℕ → List Intervention

-- What a run carries: the database, the clock's readings so far, the evidence.
pub record RunState : Type 0 where
  pub db : Db
  pub readings : ℕ
  pub evidence : List EvidenceItem

pub data Result : Type 0 where
  finished : Db → Result
  timed_out : Db → Result
  raised : Db → Result

-- `remaining_seconds() <= 0`
abbrev pub is_expired : RuntimeEnv → RunState → Bool
is_expired env s = leb env.expires_at (env.clock s.readings)

abbrev pub read_clock : RunState → RunState
read_clock s = record s { readings = suc s.readings }

-- ---------------------------------------------------------------- writes

-- `EventRecorder.record`
unfoldable pub record_event : RuntimeEnv → String → Option Payload → RunState → RunState
record_event env event_type payload s = record s {
  db = append_event (env.wall_clock (length s.db.events)) env.run_id event_type payload s.db;
}

abbrev pub note : RuntimeEnv → String → RunState → RunState
note env event_type s = record_event env event_type none s

abbrev pub set_status : RuntimeEnv → DecisionRunStatus → Option String → RunState → RunState
set_status env status message s = record s { db = update_run env.run_id status message s.db }

-- The end of a run with its final report.
unfoldable pub complete_run : RuntimeEnv → RunState → Result
complete_run env s = finished (note env "final_report" (set_status env completed none s)).db

-- The end of a run that goes to a person.
unfoldable pub hand_over : RuntimeEnv → String → RunState → Result
hand_over env reason s =
    finished (note env "handoff" (set_status env handoff_required (some reason) s)).db

-- The recovery event in front of it.
unfoldable pub recover_and_hand_over : RuntimeEnv → String → RunState → Result
recover_and_hand_over env reason s = hand_over env reason (note env "recovery" s)

-- `ApprovalGate.pause`
unfoldable pub pause : RuntimeEnv → Payload → RunState → Result
pause env payload s =
    finished
      (record_event env "approval_required" (some payload)
        (set_status env waiting_approval none s)).db

-- `timeout_event` and `error_event`
unfoldable pub fail_run : RuntimeEnv → String → String → Db → Db
fail_run env event_type message db =
    append_event (env.wall_clock (length db.events)) env.run_id event_type none
      (update_run env.run_id failed (some message) db)

-- `mark_cancelled`, at any await of the run
unfoldable pub mark_cancelled : RuntimeEnv → Db → Db
mark_cancelled env db =
    append_event (env.wall_clock (length db.events)) env.run_id "cancelled" none
      (update_run env.run_id DecisionRunStatus.cancelled (some "cancelled") db)
