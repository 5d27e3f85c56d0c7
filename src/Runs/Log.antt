-- ===== src/Runs/Log.antt =====
-- The event log of a run under the operations that write it
-- (app/platform/persistence/repositories/native_agent.py).
use mathlib.Core.List.{append-nil}
use smart_sre_copilot.Prelude.{
  ℕ, String, ◌≡◌, inl, inr, refl, ◌∙◌, Bool, true, false, Option, none, some, List, [], ◌∷◌, ◌++◌,
  str_eq, keep_if, Bool-cases,
}
use smart_sre_copilot.Decision.{DecisionRunStatus}
use smart_sre_copilot.Runs.{
  Payload, Event, AgentRun, Db, get_run, update_run, update_row, append_event, list_events,
}

module _ {ℓ} {A : Type ℓ} where
  pub keep_if-append :
      (p : A → Bool) (xs ys : List A) → keep_if p (xs ++ ys) ≡ keep_if p xs ++ keep_if p ys
  keep_if-append p [] ys = refl
  keep_if-append p (x ∷ xs) ys = elim (Bool-cases (p x)) [
    | inl e ↦ rw (e, keep_if-append p xs ys, keep_if) refl
    | inr e ↦ rw (e, keep_if-append p xs ys, keep_if) refl
  ]

abbrev pub event : ℕ → String → String → Option Payload → Event
event now run_id event_type payload = record {
  run_id = run_id;
  event_type = event_type;
  payload = payload;
  created_at = now;
}

-- a write shows at the end of the log of its run
pub append_event-same :
    (now : ℕ) (run_id event_type : String) (payload : Option Payload) (db : Db) (same : String)
    → str_eq run_id same ≡ true
    → list_events same (append_event now run_id event_type payload db)
      ≡ list_events same db ++ event now run_id event_type payload ∷ []
unfolding list_events append_event
append_event-same now run_id event_type payload db same e =
    keep_if-append (λ e. str_eq e.run_id same) db.events (event now run_id event_type payload ∷ [])
    ∙ rw (e, keep_if) refl

-- and nowhere else
pub append_event-other :
    (now : ℕ) (run_id event_type : String) (payload : Option Payload) (db : Db) (other : String)
    → str_eq run_id other ≡ false
    → list_events other (append_event now run_id event_type payload db) ≡ list_events other db
unfolding list_events append_event
append_event-other now run_id event_type payload db other e =
    keep_if-append (λ e. str_eq e.run_id other) db.events (event now run_id event_type payload ∷ [])
    ∙ rw (e, keep_if) (append-nil (keep_if (λ e. str_eq e.run_id other) db.events))

update_row-events :
    (run_id : String) (status : DecisionRunStatus) (error_message : Option String)
    (row : Option AgentRun) (db : Db)
    → (update_row run_id status error_message row db).events ≡ db.events
unfolding update_row
update_row-events run_id status error_message none db = refl
update_row-events run_id status error_message (some row) db = refl

pub update_run-events :
    (run_id : String) (status : DecisionRunStatus) (error_message : Option String) (db : Db)
    → (update_run run_id status error_message db).events ≡ db.events
unfolding update_run
update_run-events run_id status error_message db =
    update_row-events run_id status error_message (get_run run_id db) db
