-- ===== src/Approvals/Finality.antt =====
-- What becomes of a decision once it is recorded, whatever happens to the run
-- (app/application/native_agent_application_service.py, agent_resume_service.py).
use smart_sre_copilot.Prelude.{
  ℕ, String, ◌≡◌, inl, inr, refl, sym, ap, ◌∙◌, Bool, true, false, Option, none, some, List, [],
  ◌∷◌, ◌++◌, str_eq, eq_iff, lookup, lookup-insert, Bool-cases, arith, keep_if,
}
use smart_sre_copilot.Decision.{chosen, DecisionRunStatus}
use smart_sre_copilot.Runs.{
  Payload, Event, Db, AgentRun, get_run, update_run, append_event, list_events,
}
use smart_sre_copilot.Runs.Log.{event, append_event-same, append_event-other, update_run-events}
use smart_sre_copilot.Approvals.{
  payload_of_type, tool_of, add_by_tool, add_payload, by_tool, approval_decisions_by_tool,
  mark_run_handoff, requested_tool, approval_is_expired, record_decision, expire_tool,
  expire_request, expire_requests, expire_of, expire_pending_agent_approvals_for_run, QueueBackend,
  World, approve, reject, decide_new, decide_valid, decide_for, decide_agent_approval,
}

-- ---------------------------------------------------------------- the decisions of a log

pub by_tool-append :
    (event_type : String) (xs ys : List Event) (found : List (String × Payload))
    → by_tool event_type (xs ++ ys) found ≡ by_tool event_type ys (by_tool event_type xs found)
unfolding by_tool
by_tool-append event_type [] ys found = refl
by_tool-append event_type (x ∷ xs) ys found =
    by_tool-append event_type xs ys (add_payload (payload_of_type event_type x) found)

-- The payload decides another tool, or none.
abbrev pub IsOther : String → Option String → Type 0
IsOther tool none = Unit
IsOther tool (some t) = str_eq t tool ≡ false

abbrev pub Spares : String → Option Payload → Type 0
Spares tool none = Unit
Spares tool (some p) = IsOther tool (tool_of p)

add_by_tool-IsOther :
    (tool : String) (o : Option String) (p : Payload) (found : List (String × Payload))
    → IsOther tool o
    → lookup tool (add_by_tool o p found) ≡ lookup tool found
add_by_tool-IsOther tool none p found s = refl
add_by_tool-IsOther tool (some t) p found s = sym (lookup-insert t tool p found) ∙ rw s refl

add_payload-Spares :
    (tool : String) (o : Option Payload) (found : List (String × Payload))
    → Spares tool o
    → lookup tool (add_payload o found) ≡ lookup tool found
add_payload-Spares tool none found s = refl
add_payload-Spares tool (some p) found s = add_by_tool-IsOther tool (tool_of p) p found s

-- The decision on a tool in the log of a run.
abbrev pub decision_on : String → String → Db → Option Payload
decision_on run_id tool db = lookup tool (approval_decisions_by_tool (list_events run_id db))

-- An operation leaves the decision as it was.
abbrev pub Keeps : String → String → Db → Db → Type 0
Keeps run_id tool db db' = decision_on run_id tool db' ≡ decision_on run_id tool db

pub append-Keeps :
    (run_id tool : String) (now : ℕ) (other event_type : String) (o : Option Payload) (db : Db)
    → (str_eq other run_id ≡ true
        → Spares tool (payload_of_type "approval_decision" (event now other event_type o)))
    → Keeps run_id tool db (append_event now other event_type o db)
unfolding approval_decisions_by_tool by_tool
append-Keeps run_id tool now other event_type o db s = elim (Bool-cases (str_eq other run_id)) [
  | inr e ↦
      ap (λ es. lookup tool (approval_decisions_by_tool es))
        (append_event-other now other event_type o db run_id e)
  | inl e ↦
      let added = event now other event_type o in
      ap (λ es. lookup tool (approval_decisions_by_tool es))
        (append_event-same now other event_type o db run_id e)
      ∙ ap (lookup tool)
          (by_tool-append "approval_decision" (list_events run_id db) (added ∷ []) [])
      ∙ add_payload-Spares tool (payload_of_type "approval_decision" added)
          (by_tool "approval_decision" (list_events run_id db) []) (s e)
]

pub update_run-Keeps :
    (run_id tool other : String) (status : DecisionRunStatus) (message : Option String) (db : Db)
    → Keeps run_id tool db (update_run other status message db)
unfolding list_events
update_run-Keeps run_id tool other status message db =
    ap
      (λ es.
        lookup tool (approval_decisions_by_tool (keep_if (λ event. str_eq event.run_id run_id) es)))
      (update_run-events other status message db)

module _ (run_id tool : String) where
  pub mark_run_handoff-Keeps :
      (now : ℕ) (other t reason : String) (db : Db)
      → Keeps run_id tool db (mark_run_handoff now other t reason db)
  unfolding mark_run_handoff
  mark_run_handoff-Keeps now other t reason db =
      update_run-Keeps run_id tool other _ _ _
      ∙ append-Keeps run_id tool now other "handoff" _ _ (λ e. _)
      ∙ append-Keeps run_id tool now other "decision" _ db (λ e. _)

  pub record_decision-Keeps :
      (now : ℕ) (other t decision status : String) (db : Db)
      → (str_eq other run_id ≡ true → IsOther tool (chosen (some t)))
      → Keeps run_id tool db (record_decision now other t decision status db)
  unfolding record_decision
  record_decision-Keeps now other t decision status db s =
      append-Keeps run_id tool now other "approval_decision" _ db s

pub same_text : (a b : String) → str_eq a b ≡ true → a ≡ b
same_text a b h = ground (arith, eq_iff a b, h)

pub chosen-IsOther : (t tool : String) → str_eq t tool ≡ false → IsOther tool (chosen (some t))
chosen-IsOther t tool e = elim (Bool-cases (str_eq t "")) [ inl n ↦ rw n _ | inr n ↦ rw n e ]

-- a tool without a decision is another one
undecided_other :
    (t tool : String) (decisions : List (String × Payload)) (p : Payload)
    → lookup t decisions ≡ none
    → lookup tool decisions ≡ some p
    → str_eq t tool ≡ false
undecided_other t tool decisions p n s = elim (Bool-cases (str_eq t tool)) [
  | inr e ↦ e
  | inl e ↦ cc (n, s, same_text t tool e)
]

module _ (run_id tool : String) (p : Payload) where
  -- `decisions` are those of the run, when `other` is the run.
  abbrev KnowsDecision : String → List (String × Payload) → Type 0
  KnowsDecision other decisions = str_eq other run_id ≡ true → lookup tool decisions ≡ some p

  expire_tool-Keeps :
      (now : ℕ) (other t : String) (decisions : List (String × Payload)) (o : Option Payload)
      (db : Db)
      → o ≡ lookup t decisions
      → KnowsDecision other decisions
      → Keeps run_id tool db (expire_tool now other o t db)
  unfolding expire_tool
  expire_tool-Keeps now other t decisions (some decided) db h k = refl
  expire_tool-Keeps now other t decisions none db h k =
      mark_run_handoff-Keeps run_id tool now other t "approval_expired" _
      ∙ record_decision-Keeps run_id tool now other t "expired" "not_resumed" db
          (λ e. chosen-IsOther t tool (undecided_other t tool decisions p (sym h) (k e)))

  expire_request-Keeps :
      (timeout now : ℕ) (other : String) (decisions : List (String × Payload)) (e : Event)
      (o : Option String) (db : Db)
      → KnowsDecision other decisions
      → Keeps run_id tool db (expire_request timeout now other decisions e o db)
  unfolding expire_request
  expire_request-Keeps timeout now other decisions e none db k = refl
  expire_request-Keeps timeout now other decisions e (some t) db k =
      elim (Bool-cases (approval_is_expired timeout now e)) [
        | inl late ↦
            rw late (expire_tool-Keeps now other t decisions (lookup t decisions) db refl k)
        | inr early ↦ rw early refl
      ]

  expire_requests-Keeps :
      (timeout now : ℕ) (other : String) (decisions : List (String × Payload)) (events : List Event)
      (db : Db)
      → KnowsDecision other decisions
      → Keeps run_id tool db (expire_requests timeout now other decisions events db)
  unfolding expire_requests
  expire_requests-Keeps timeout now other decisions [] db k = refl
  expire_requests-Keeps timeout now other decisions (e ∷ events) db k =
      expire_requests-Keeps timeout now other decisions events _ k
      ∙ expire_request-Keeps timeout now other decisions e (requested_tool e) db k

  known :
      (other : String) (db : Db)
      → decision_on run_id tool db ≡ some p
      → KnowsDecision other (approval_decisions_by_tool (list_events other db))
  known other db d e =
      ap (λ r. lookup tool (approval_decisions_by_tool (list_events r db)))
        (same_text other run_id e)
      ∙ d

  expire_of-Keeps :
      (timeout now : ℕ) (other : String) (row : Option AgentRun) (db : Db)
      → decision_on run_id tool db ≡ some p
      → Keeps run_id tool db (expire_of timeout now other row db)
  unfolding expire_of
  expire_of-Keeps timeout now other none db d = refl
  expire_of-Keeps timeout now other (some row) db d =
      expire_requests-Keeps timeout now other _ (list_events other db) db (known other db d)

  pub expire-Keeps :
      (timeout now : ℕ) (other : String) (db : Db)
      → decision_on run_id tool db ≡ some p
      → Keeps run_id tool db (expire_pending_agent_approvals_for_run timeout now other db)
  unfolding expire_pending_agent_approvals_for_run
  expire-Keeps timeout now other db d = expire_of-Keeps timeout now other (get_run other db) db d

  approve-Keeps :
      (backend : QueueBackend) (now : ℕ) (other t : String) (w : World)
      → (str_eq other run_id ≡ true → str_eq t tool ≡ false)
      → Keeps run_id tool w.db (approve backend now other t w).1.db
  unfolding approve
  approve-Keeps backend now other t w s =
      append-Keeps run_id tool now other "approval_resume" _ _ (λ e. _)
      ∙ record_decision-Keeps run_id tool now other t "approved" "pending_resume_enqueue" w.db
          (λ e. chosen-IsOther t tool (s e))

  reject-Keeps :
      (now : ℕ) (other t : String) (w : World)
      → (str_eq other run_id ≡ true → str_eq t tool ≡ false)
      → Keeps run_id tool w.db (reject now other t w).1.db
  unfolding reject
  reject-Keeps now other t w s =
      mark_run_handoff-Keeps run_id tool now other t "approval_rejected" _
      ∙ record_decision-Keeps run_id tool now other t "rejected" "not_resumed" w.db
          (λ e. chosen-IsOther t tool (s e))

  decide_new-Keeps :
      (backend : QueueBackend) (now : ℕ) (other t decision : String)
      (decisions : List (String × Payload)) (o : Option Payload) (w : World)
      → o ≡ lookup t decisions
      → KnowsDecision other decisions
      → Keeps run_id tool w.db (decide_new backend now other t decision o w).1.db
  unfolding decide_new
  decide_new-Keeps backend now other t decision decisions (some existing) w h k = refl
  decide_new-Keeps backend now other t decision decisions none w h k =
      let new =
        λ (e : str_eq other run_id ≡ true). undecided_other t tool decisions p (sym h) (k e) in
      elim (Bool-cases (str_eq decision "approved")) [
        | inl e ↦ rw e (approve-Keeps backend now other t w new)
        | inr e ↦ rw e (reject-Keeps now other t w new)
      ]

  decide_valid-Keeps :
      (valid : Bool) (backend : QueueBackend) (timeout now : ℕ) (other t decision : String)
      (w : World)
      → decision_on run_id tool w.db ≡ some p
      → Keeps run_id tool w.db (decide_valid valid backend timeout now other t decision w).1.db
  unfolding decide_valid
  decide_valid-Keeps false backend timeout now other t decision w d = refl
  decide_valid-Keeps true backend timeout now other t decision w d =
      let db = expire_pending_agent_approvals_for_run timeout now other w.db in
      let kept = expire-Keeps timeout now other w.db d in
      decide_new-Keeps backend now other t decision _ _ (record w { db = db }) refl
        (known other db (kept ∙ d))
      ∙ kept

  decide_for-Keeps :
      (backend : QueueBackend) (timeout now : ℕ) (other t decision : String) (row : Option AgentRun)
      (w : World)
      → decision_on run_id tool w.db ≡ some p
      → Keeps run_id tool w.db (decide_for backend timeout now other t decision row w).1.db
  unfolding decide_for
  decide_for-Keeps backend timeout now other t decision none w d = refl
  decide_for-Keeps backend timeout now other t decision (some row) w d =
      decide_valid-Keeps _ backend timeout now other t decision w d

  pub decide-Keeps :
      (backend : QueueBackend) (timeout now : ℕ) (other t decision : String) (w : World)
      → decision_on run_id tool w.db ≡ some p
      → Keeps run_id tool w.db (decide_agent_approval backend timeout now other t decision w).1.db
  unfolding decide_agent_approval
  decide-Keeps backend timeout now other t decision w d =
      decide_for-Keeps backend timeout now other t decision (get_run other w.db) w d
