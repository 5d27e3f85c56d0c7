-- ===== src/Approvals/Execution.antt =====
-- When an approved call is executed (app/application/agent_resume_service.py), over any order of
-- decisions, expiries, resumptions and other events of a run.
use smart_sre_copilot.Prelude.{
  ℕ, String, ◌≡◌, inl, inr, refl, sym, ◌∙◌, false, Option, none, some, List, [], ◌∷◌, str_eq,
  eq_iff, if◌then◌else◌, lookup, lookup-insert, Bool-cases, Option-cases, arith,
}
use smart_sre_copilot.Decision.{chosen, DecisionRunStatus}
use smart_sre_copilot.Runs.{
  Payload, Event, Db, AgentRun, get_run, update_run, append_event, list_events,
}
use smart_sre_copilot.Approvals.{
  payload_of_type, add_by_tool, add_payload, by_tool, approval_decisions_by_tool,
  expire_pending_agent_approvals_for_run, QueueBackend, ResumeTask, World, decide_agent_approval,
}
use smart_sre_copilot.Approvals.Resume.{
  ResumeEnv, names, matching, latest, is_approved_payload, is_available, resume_action,
  is_cancelled, resume_run, is_valid_task, process_resume_task,
}
use smart_sre_copilot.Approvals.Finality.{
  decision_on, Keeps, append-Keeps, update_run-Keeps, expire-Keeps, decide-Keeps,
}

-- ---------------------------------------------------------------- two readings of the log

abbrev prefer : Option Payload → Option Payload → Option Payload
prefer (some p) o = some p
prefer none o = o

prefer-none : (o : Option Payload) → prefer o none ≡ o
prefer-none none = refl
prefer-none (some p) = refl

module _ (tool : String) (named : str_eq tool "" ≡ false) where
  add_by_tool-names :
      (o : Option String) (p : Payload) (found : List (String × Payload))
      → lookup tool (add_by_tool (chosen o) p found)
        ≡ prefer (if names tool o then some p else none) (lookup tool found)
  add_by_tool-names none p found = refl
  add_by_tool-names (some t) p found = elim (Bool-cases (str_eq t "")) [
    | inl n ↦ ground (arith, n, named, eq_iff t "", eq_iff t tool, eq_iff tool "")
    | inr n ↦ rw n (sym (lookup-insert t tool p found) ∙ ground arith)
  ]

  add_payload-matching :
      (o : Option Payload) (found : List (String × Payload))
      → lookup tool (add_payload o found) ≡ prefer (matching tool o) (lookup tool found)
  add_payload-matching none found = refl
  add_payload-matching (some p) found = add_by_tool-names p.tool_name p found

  by_tool-latest :
      (event_type : String) (events : List Event) (found : List (String × Payload))
      → lookup tool (by_tool event_type events found)
        ≡ prefer (latest event_type tool events) (lookup tool found)
  unfolding by_tool latest
  by_tool-latest event_type [] found = refl
  by_tool-latest event_type (e ∷ es) found = elim (Option-cases (latest event_type tool es)) [
    | inl n ↦
        by_tool-latest event_type es (add_payload (payload_of_type event_type e) found)
        ∙ rw n (add_payload-matching (payload_of_type event_type e) found)
    | inr (p, s) ↦
        by_tool-latest event_type es (add_payload (payload_of_type event_type e) found) ∙ rw s refl
  ]

  -- For a tool with a name, the two services that read decisions off the log of a run agree: the
  -- entry of `_approval_decisions_by_tool` is what `_latest_approval_decision` finds.
  pub decisions_agree :
      (events : List Event)
      → lookup tool (approval_decisions_by_tool events) ≡ latest "approval_decision" tool events
  unfolding approval_decisions_by_tool lookup
  decisions_agree events =
      by_tool-latest "approval_decision" events []
      ∙ prefer-none (latest "approval_decision" tool events)

-- ---------------------------------------------------------------- any order of operations

pub data Op : Type 0 where
  decides : QueueBackend → ℕ → ℕ → String → String → String → Op
  expires : ℕ → ℕ → String → Op
  resumes : ResumeEnv → ℕ → ResumeTask → Op
  -- another event, such as those of the runtime, and another status of a run
  notes :
      ℕ
      → String
      → (event_type : String) → str_eq event_type "approval_decision" ≡ false
      → Option Payload
      → Op
  updates : String → DecisionRunStatus → Option String → Op

pub perform : Op → World → World
perform (decides backend timeout now run_id tool decision) w =
    (decide_agent_approval backend timeout now run_id tool decision w).1
perform (expires timeout now run_id) w = record w {
  db = expire_pending_agent_approvals_for_run timeout now run_id w.db;
}
perform (resumes env now task) w = record w { db = (process_resume_task env now task w.db).1 }
perform (notes now run_id event_type other payload) w = record w {
  db = append_event now run_id event_type payload w.db;
}
perform (updates run_id status message) w = record w { db = update_run run_id status message w.db }

pub perform_all : List Op → World → World
perform_all [] w = w
perform_all (op ∷ ops) w = perform_all ops (perform op w)

module _ (run_id tool : String) where
  note-Keeps :
      (now : ℕ) (other event_type : String) (o : Option Payload) (db : Db)
      → str_eq event_type "approval_decision" ≡ false
      → Keeps run_id tool db (append_event now other event_type o db)
  note-Keeps now other event_type o db e =
      append-Keeps run_id tool now other event_type o db (λ s. rw e _)

  resume_action-Keeps :
      (env : ResumeEnv) (now : ℕ) (task : ResumeTask) (o : Option Payload) (db : Db)
      → Keeps run_id tool db (resume_action env now task o db).1
  unfolding resume_action
  resume_action-Keeps env now task none db = note-Keeps now task.run_id "approval_resume" _ db refl
  resume_action-Keeps env now task (some original) db =
      elim (Bool-cases (is_available (env.checkpoint_status task.run_id task.checkpoint_ns))) [
        | inl e ↦ rw e (
            note-Keeps now task.run_id "approval_resumed_tool_result" _ _ refl
            ∙ note-Keeps now task.run_id "approval_resume" _ db refl)
        | inr e ↦ rw e (note-Keeps now task.run_id "approval_resume" _ db refl)
      ]

  resume_run-Keeps :
      (env : ResumeEnv) (now : ℕ) (task : ResumeTask) (row : Option AgentRun) (db : Db)
      → Keeps run_id tool db (resume_run env now task row db).1
  unfolding resume_run
  resume_run-Keeps env now task none db = refl
  resume_run-Keeps env now task (some row) db = elim (Bool-cases (is_cancelled row.status)) [
    | inl c ↦ rw c refl
    | inr c ↦
        let found = latest "approval_decision" task.tool_name (list_events task.run_id db) in
        elim (Bool-cases (is_approved_payload found)) [
          | inl a ↦ rw (c, a) (resume_action-Keeps env now task _ db)
          | inr a ↦ rw (c, a) refl
        ]
  ]

  resume-Keeps :
      (env : ResumeEnv) (now : ℕ) (task : ResumeTask) (db : Db)
      → Keeps run_id tool db (process_resume_task env now task db).1
  unfolding process_resume_task
  resume-Keeps env now task db = elim (Bool-cases (is_valid_task task)) [
    | inl v ↦ rw v (resume_run-Keeps env now task (get_run task.run_id db) db)
    | inr v ↦ rw v refl
  ]

  perform-Keeps :
      (p : Payload) (op : Op) (w : World)
      → decision_on run_id tool w.db ≡ some p
      → Keeps run_id tool w.db (perform op w).db
  unfolding perform
  perform-Keeps p (decides backend timeout now other t decision) w d =
      decide-Keeps run_id tool p backend timeout now other t decision w d
  perform-Keeps p (expires timeout now other) w d =
      expire-Keeps run_id tool p timeout now other w.db d
  perform-Keeps p (resumes env now task) w d = resume-Keeps env now task w.db
  perform-Keeps p (notes now other event_type e payload) w d =
      note-Keeps now other event_type payload w.db e
  perform-Keeps p (updates other status message) w d =
      update_run-Keeps run_id tool other status message w.db

  -- A decision on a tool of a run, once recorded, is the decision for good: no order of further
  -- decisions, expiries, resumptions, other events and status changes, of this run or others,
  -- replaces it.
  pub decision_is_final :
      (ops : List Op) (w : World) (p : Payload)
      → decision_on run_id tool w.db ≡ some p
      → decision_on run_id tool (perform_all ops w).db ≡ some p
  unfolding perform_all
  decision_is_final [] w p d = d
  decision_is_final (op ∷ ops) w p d =
      decision_is_final ops (perform op w) p (perform-Keeps p op w d ∙ d)
