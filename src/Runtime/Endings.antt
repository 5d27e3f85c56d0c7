-- ===== src/Runtime/Endings.antt =====
-- How a run ends (app/agent_runtime/runtime.py): its status and the last event of its log.
pub mod Paths
use smart_sre_copilot.Prelude.{
  ℕ, String, ◌≡◌, refl, sym, Bool, true, false, ◌||◌, Option, none, some, length, str_eq, eq_refl,
  if◌then◌else◌, insert, lookup-insert, get_last?, get_last?-snoc,
}
use smart_sre_copilot.Decision.{
  DecisionRunStatus, waiting_approval, completed, failed, handoff_required, error,
}
use smart_sre_copilot.Loop.{approval_required}
use smart_sre_copilot.Runs.{
  Payload, Event, AgentRun, Db, get_run, update_row, update_run, append_event, list_events, or_kept,
}
use smart_sre_copilot.Runs.Log.{event, append_event-same}
use smart_sre_copilot.Runtime.{
  RuntimeEnv, RunState, Result, finished, timed_out, raised, record_event, set_status, complete_run,
  hand_over, pause, fail_run,
}
use smart_sre_copilot.Runtime.Steps.{StepEnd, goes_on, found_strong, stopped}
use smart_sre_copilot.Runtime.Orchestration.{settle}

-- The event that announces a status.
abbrev pub announces : DecisionRunStatus → String → Bool
announces completed event_type = str_eq event_type "final_report"
announces waiting_approval event_type = str_eq event_type "approval_required"
announces handoff_required event_type = str_eq event_type "handoff"
announces failed event_type = str_eq event_type "timeout" || str_eq event_type "error"
announces _ event_type = false

abbrev pub announced : Option AgentRun → Option Event → Bool
announced (some row) (some e) = announces row.status e.event_type
announced _ _ = false

-- The run is over, and the last event of its log says so.
unfoldable pub has_ended : String → Db → Bool
has_ended run_id db = announced (get_run run_id db) (get_last? (list_events run_id db))

abbrev pub is_there {ℓ} : {A : Type ℓ} → Option A → Bool
is_there none = false
is_there (some _) = true

-- the two writes of an end
closed :
    (now : ℕ) (run_id : String) (status : DecisionRunStatus) (message : Option String)
    (event_type : String) (payload : Option Payload) (row : Option AgentRun) (db : Db)
    → is_there row ≡ true
    → announces status event_type ≡ true
    → has_ended run_id
        (append_event now run_id event_type payload (update_row run_id status message row db))
      ≡ true
unfolding has_ended get_run update_row append_event
closed now run_id status message event_type payload none db there a = cc there
closed now run_id status message event_type payload (some row) db there a =
    let fresh : AgentRun = record {
      status = status;
      error_message = or_kept message row.error_message;
    } in
    let updated : Db = record db { runs = insert run_id fresh db.runs } in
    rw
      (
        append_event-same now run_id event_type payload updated run_id (eq_refl run_id),
        get_last?-snoc (list_events run_id updated) (event now run_id event_type payload),
        sym (lookup-insert run_id run_id fresh db.runs),
        eq_refl run_id,
      )
      a

module _ (env : RuntimeEnv) where
  -- The row of the run is in the database.
  abbrev pub Stands : Db → Type 0
  Stands db = is_there (get_run env.run_id db) ≡ true

  -- What holds of a result before `settle`.
  abbrev pub Closes : Result → Type 0
  Closes (finished db) = has_ended env.run_id db ≡ true
  Closes (timed_out db) = Stands db
  Closes (raised db) = Stands db

  abbrev pub StepCloses : StepEnd → Type 0
  StepCloses (goes_on s) = Stands s.db
  StepCloses (found_strong s) = Stands s.db
  StepCloses (stopped r) = Closes r

  pub either : (b : Bool) (x y : Result) → Closes x → Closes y → Closes (if b then x else y)
  either true x y p q = p
  either false x y p q = q

  pub either_step :
      (b : Bool) (x y : StepEnd) → StepCloses x → StepCloses y → StepCloses (if b then x else y)
  either_step true x y p q = p
  either_step false x y p q = q

  pub noted :
      (event_type : String) (payload : Option Payload) (s : RunState)
      → Stands s.db
      → Stands (record_event env event_type payload s).db
  unfolding record_event get_run append_event
  noted event_type payload s p = p

  pub complete_run-Closes : (s : RunState) → Stands s.db → Closes (complete_run env s)
  unfolding complete_run record_event update_run
  complete_run-Closes s p =
      closed (env.wall_clock (length (set_status env completed none s).db.events)) env.run_id
        completed none "final_report" none (get_run env.run_id s.db) s.db p refl

  pub hand_over-Closes :
      (reason : String) (s : RunState) → Stands s.db → Closes (hand_over env reason s)
  unfolding hand_over record_event update_run
  hand_over-Closes reason s p =
      closed (env.wall_clock (length (set_status env handoff_required (some reason) s).db.events))
        env.run_id handoff_required (some reason) "handoff" none (get_run env.run_id s.db) s.db p
        refl

  pub pause-Closes : (payload : Payload) (s : RunState) → Stands s.db → Closes (pause env payload s)
  unfolding pause record_event update_run
  pause-Closes payload s p =
      closed (env.wall_clock (length (set_status env waiting_approval none s).db.events)) env.run_id
        waiting_approval none "approval_required" (some payload) (get_run env.run_id s.db) s.db p
        refl

  pub settle-has_ended : (r : Result) → Closes r → has_ended env.run_id (settle env r) ≡ true
  unfolding settle fail_run update_run
  settle-has_ended (finished db) p = p
  settle-has_ended (timed_out db) p =
      closed (env.wall_clock (length db.events)) env.run_id failed (some "TimeoutError") "timeout"
        none (get_run env.run_id db) db p refl
  settle-has_ended (raised db) p =
      closed (env.wall_clock (length db.events)) env.run_id failed (some "Exception") "error" none
        (get_run env.run_id db) db p refl
