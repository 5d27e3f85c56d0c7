-- ===== src/Approvals/Listing/Expiry.antt =====
-- What the expiry behind the list of approvals leaves pending
-- (app/application/native_agent_application_service.py).
use mathlib.Core.Path.{subst}
use smart_sre_copilot.Prelude.{
  ℕ, String, ◌≡◌, inl, inr, refl, sym, ap, ◌∙◌, Bool, true, false, ◌||◌, Option, none, some, List,
  [], ◌∷◌, ◌++◌, any, contains, str_eq, eq_refl, lookup, lookup-insert, keep_if, Bool-cases, arith,
}
use smart_sre_copilot.Decision.{DecisionRunStatus}
use smart_sre_copilot.Runs.{
  Payload, Event, Db, AgentRun, get_run, update_run, update_row, append_event, list_events,
}
use smart_sre_copilot.Runs.Log.{event, append_event-same, append_event-other, update_run-events}
use smart_sre_copilot.Approvals.{
  approval_decisions_by_tool, mark_run_handoff, requested_tool, record_decision,
  approval_is_expired, expire_tool, expire_request, expire_requests, expire_of,
  expire_pending_agent_approvals_for_run,
}
use smart_sre_copilot.Approvals.Finality.{same_text}
use smart_sre_copilot.Approvals.Desk.{
  Desk, pending, settled, desk, desk_of_payload, clear_desk, is_overdue,
}
use smart_sre_copilot.Approvals.Desk.Refinement.{expire-desk}
use smart_sre_copilot.Approvals.Listing.{
  list_runs, expire_each, expire_pending_agent_approvals, list_agent_approvals,
}

-- Predicates that the writes of an expiry of a run keep.
record Survives (run_id : String) (Holds : Db → Type 0) : Type 0 where
  noted :
      (now : ℕ) (event_type : String) (payload : Option Payload) (db : Db)
      → str_eq event_type "tool_result" ≡ false
      → Holds db
      → Holds (append_event now run_id event_type payload db)
  updated :
      (status : DecisionRunStatus) (message : Option String) (db : Db)
      → Holds db
      → Holds (update_run run_id status message db)

module _ (other : String) (Holds : Db → Type 0) (kept : Survives other Holds) where
  expire_tool-Holds :
      (now : ℕ) (o : Option Payload) (t : String) (db : Db)
      → Holds db
      → Holds (expire_tool now other o t db)
  unfolding expire_tool mark_run_handoff record_decision
  expire_tool-Holds now (some p) t db h = h
  expire_tool-Holds now none t db h = kept.updated _ _ _ (
      kept.noted now "handoff" _ _ refl
        (kept.noted now "decision" _ _ refl (kept.noted now "approval_decision" _ db refl h)))

  expire_request-Holds :
      (timeout now : ℕ) (decisions : List (String × Payload)) (e : Event) (o : Option String)
      (db : Db)
      → Holds db
      → Holds (expire_request timeout now other decisions e o db)
  unfolding expire_request
  expire_request-Holds timeout now decisions e none db h = h
  expire_request-Holds timeout now decisions e (some t) db h =
      elim (Bool-cases (approval_is_expired timeout now e)) [
        | inl late ↦ rw late (expire_tool-Holds now (lookup t decisions) t db h)
        | inr early ↦ rw early h
      ]

  expire_requests-Holds :
      (timeout now : ℕ) (decisions : List (String × Payload)) (events : List Event) (db : Db)
      → Holds db
      → Holds (expire_requests timeout now other decisions events db)
  unfolding expire_requests
  expire_requests-Holds timeout now decisions [] db h = h
  expire_requests-Holds timeout now decisions (e ∷ events) db h =
      expire_requests-Holds timeout now decisions events _
        (expire_request-Holds timeout now decisions e (requested_tool e) db h)

  expire_of-Holds :
      (timeout now : ℕ) (row : Option AgentRun) (db : Db)
      → Holds db
      → Holds (expire_of timeout now other row db)
  unfolding expire_of
  expire_of-Holds timeout now none db h = h
  expire_of-Holds timeout now (some row) db h =
      expire_requests-Holds timeout now _ (list_events other db) db h

  expire-Holds :
      (timeout now : ℕ) (db : Db)
      → Holds db
      → Holds (expire_pending_agent_approvals_for_run timeout now other db)
  unfolding expire_pending_agent_approvals_for_run
  expire-Holds timeout now db h = expire_of-Holds timeout now (get_run other db) db h

abbrev pub is_there {ℓ} : {A : Type ℓ} → Option A → Bool
is_there none = false
is_there (some _) = true

-- The row of the run is there.
abbrev HasRow : String → Db → Type 0
HasRow run_id db = is_there (get_run run_id db) ≡ true

update_row-HasRow :
    (run_id other : String) (status : DecisionRunStatus) (message : Option String)
    (row : Option AgentRun) (db : Db)
    → HasRow run_id db
    → HasRow run_id (update_row other status message row db)
unfolding update_row get_run
update_row-HasRow run_id other status message none db h = h
update_row-HasRow run_id other status message (some row) db h =
    elim (Bool-cases (str_eq other run_id)) [
      | inl same ↦ ap is_there (sym (lookup-insert other run_id _ db.runs)) ∙ rw same refl
      | inr differ ↦ ap is_there (sym (lookup-insert other run_id _ db.runs)) ∙ rw differ h
    ]

HasRow-Survives : (run_id other : String) → Survives other (HasRow run_id)
unfolding get_run append_event update_run
HasRow-Survives run_id other = record {
  noted = λ now event_type payload db e h. h;
  updated =
      λ status message db h. update_row-HasRow run_id other status message (get_run other db) db h;
}

update_run-log :
    (run_id other : String) (status : DecisionRunStatus) (message : Option String) (db : Db)
    → list_events run_id (update_run other status message db) ≡ list_events run_id db
unfolding list_events
update_run-log run_id other status message db =
    ap (keep_if (λ event. str_eq event.run_id run_id)) (update_run-events other status message db)

-- Another run's expiry leaves the log.
HasLog-Survives :
    (run_id other : String) (log : List Event)
    → str_eq other run_id ≡ false
    → Survives other (λ db. list_events run_id db ≡ log)
HasLog-Survives run_id other log differ = record {
  noted = λ now event_type payload db e h.
      append_event-other now other event_type payload db run_id differ ∙ h;
  updated = λ status message db h. update_run-log run_id other status message db ∙ h;
}

any-append {ℓ} :
    {A : Type ℓ} (p : A → Bool) (xs ys : List A) → any p (xs ++ ys) ≡ any p xs || any p ys
any-append p [] ys = refl
any-append p (x ∷ xs) ys = elim (Bool-cases (p x)) [
  | inl e ↦ rw e refl
  | inr e ↦ rw e (any-append p xs ys)
]

or_false : (a b : Bool) → b ≡ false → a || b ≡ a
or_false true b e = refl
or_false false b e = e

module _ (timeout now : ℕ) (run_id tool : String) where
  abbrev pub overdue_in : List Event → Bool
  overdue_in log = any (is_overdue timeout now tool) log

  not_request :
      (at : ℕ) (event_type : String) (payload : Option Payload)
      → str_eq event_type "tool_result" ≡ false
      → overdue_in (event at run_id event_type payload ∷ []) ≡ false
  not_request at event_type payload e = rw e refl

  -- an expiry writes no request
  Overdue-Survives : (b : Bool) → Survives run_id (λ db. overdue_in (list_events run_id db) ≡ b)
  Overdue-Survives b = record {
    noted = λ at event_type payload db e h.
        ap overdue_in (append_event-same at run_id event_type payload db run_id (eq_refl run_id))
        ∙ any-append (is_overdue timeout now tool) (list_events run_id db)
            (event at run_id event_type payload ∷ [])
        ∙ or_false (overdue_in (list_events run_id db)) _ (not_request at event_type payload e)
        ∙ h;
    updated =
        λ status message db h. ap overdue_in (update_run-log run_id run_id status message db) ∙ h;
  }

  -- A pending approval of the log is not overdue.
  abbrev InTime : List Event → Type 0
  InTime log =
      desk_of_payload (lookup tool (approval_decisions_by_tool log)) ≡ pending
      → overdue_in log ≡ false

  cleared_pending : (b : Bool) (d : Desk) → clear_desk b d ≡ pending → b ≡ false
  cleared_pending false d e = refl
  cleared_pending true pending e = cc e
  cleared_pending true (settled t) e = cc e

  module _ (named : str_eq tool "" ≡ false) where
    own-InTime :
        (db : Db) (row : AgentRun)
        → get_run run_id db ≡ some row
        → InTime (list_events run_id (expire_pending_agent_approvals_for_run timeout now run_id db))
    own-InTime db row there waiting =
        let b = overdue_in (list_events run_id db) in
        expire-Holds run_id (λ d. overdue_in (list_events run_id d) ≡ b) (Overdue-Survives b)
          timeout now db refl
        ∙ cleared_pending b (desk run_id tool db)
            (sym (expire-desk run_id tool named timeout now db row there) ∙ waiting)

    own_row :
        (db : Db) (row : Option AgentRun)
        → get_run run_id db ≡ row
        → is_there row ≡ true
        → InTime (list_events run_id (expire_pending_agent_approvals_for_run timeout now run_id db))
    own_row db none there h = cc h
    own_row db (some row) there h = own-InTime db row there

    one-InTime :
        (other : String) (db : Db)
        → HasRow run_id db
        → (str_eq other run_id ≡ false → InTime (list_events run_id db))
        → InTime (list_events run_id (expire_pending_agent_approvals_for_run timeout now other db))
    one-InTime other db h before = elim (Bool-cases (str_eq other run_id)) [
      | inl same ↦
          subst
            (λ r.
              InTime (list_events run_id (expire_pending_agent_approvals_for_run timeout now r db)))
            (sym (same_text other run_id same)) (own_row db (get_run run_id db) refl h)
      | inr differ ↦
          subst InTime
            (sym (
              expire-Holds other (λ d. list_events run_id d ≡ list_events run_id db)
                (HasLog-Survives run_id other (list_events run_id db) differ) timeout now db refl))
            (before differ)
    ]

    each-InTime :
        (runs : List String) (db : Db)
        → HasRow run_id db
        → (contains run_id runs ≡ false → InTime (list_events run_id db))
        → InTime (list_events run_id (expire_each timeout now runs db))
    unfolding expire_each
    each-InTime [] db h before = before refl
    each-InTime (other ∷ runs) db h before =
        let first = expire_pending_agent_approvals_for_run timeout now other db in
        each-InTime runs first
          (expire-Holds other (HasRow run_id) (HasRow-Survives run_id other) timeout now db h)
          (λ later. one-InTime other db h (λ differ. before (ground (arith, differ, later))))

-- Behind the list of approvals, no approval of a named tool that is still pending, in a run that is
-- there and among the latest, has a request that waited too long.
pub listed_in_time :
    (timeout now limit : ℕ) (run_id tool : String) (db : Db)
    → str_eq tool "" ≡ false
    → is_there (get_run run_id db) ≡ true
    → contains run_id (list_runs limit db) ≡ true
    → let after = (list_agent_approvals timeout now limit db).1 in
      desk run_id tool after ≡ pending
      → any (is_overdue timeout now tool) (list_events run_id after) ≡ false
unfolding list_agent_approvals expire_pending_agent_approvals
listed_in_time timeout now limit run_id tool db named there listed =
    each-InTime timeout now run_id tool named (list_runs limit db) db there
      (λ absent. cc (absent, listed))
