-- ===== src/Runtime/Resumption/Planned.antt =====
-- What a resume task (app/application/agent_resume_service.py) finds after a pause on the planned
-- path of app/agent_runtime/runtime.py.
use smart_sre_copilot.Prelude.{
  ℕ, ◌<◌, String, ◌≡◌, refl, sym, ap, ◌∙◌, true, false, Option, none, some, List, [], ◌∷◌, ◌++◌,
  str_eq, eq_refl, lookup, lookup-insert, find?, Bool-cases, inl, inr,
}
use smart_sre_copilot.Auth.{has_capability, role_capabilities}
use smart_sre_copilot.Decision.{DecisionRunStatus, waiting_approval, chosen}
use smart_sre_copilot.Evidence.{EvidenceItem, Fields}
use smart_sre_copilot.Executor.{
  Tool, Override, normalized_policy, overridden, default_policy, lacks_capability,
  call_tool_with_policy,
}
use smart_sre_copilot.Executor.Governance.{Passes, execute-Passes}
use smart_sre_copilot.Runs.{
  Db, AgentRun, Payload, Event, payload_for, get_run, append_event, update_run, update_row,
  list_events,
}
use smart_sre_copilot.Runs.Log.{event, append_event-same}
use smart_sre_copilot.Approvals.{payload_of_type}
use smart_sre_copilot.Approvals.Resume.{
  ResumeEnv, matching, latest, is_approved_payload, is_available, is_valid_task, executed,
  process_resume_task,
}
use smart_sre_copilot.Approvals.Safety.{Ready, calls, ready_calls, append-latest}
use smart_sre_copilot.Runtime.{
  RuntimeEnv, RunState, finished, is_expired, read_clock, record_event, note, pause,
}
use smart_sre_copilot.Runtime.Steps.{tool_result, stopped, result_payload, use_result, call_step}
use smart_sre_copilot.Runtime.Framing.{left_by}
use smart_sre_copilot.Runtime.Resumption.{update_run-latest, task_for}

latest-last :
    (event_type tool : String) (es : List Event) (e : Event) (p : Payload)
    → matching tool (payload_of_type event_type e) ≡ some p
    → latest event_type tool (es ++ e ∷ []) ≡ some p
unfolding latest
latest-last event_type tool [] e p m = m
latest-last event_type tool (x ∷ es) e p m = rw (latest-last event_type tool es e p m) refl

written-latest :
    (event_type tool : String) (now : ℕ) (run_id : String) (p : Payload) (db : Db)
    → p.tool_name ≡ some tool
    → latest event_type tool (list_events run_id (append_event now run_id event_type (some p) db))
      ≡ some p
written-latest event_type tool now run_id p db named =
    ap (latest event_type tool)
      (append_event-same now run_id event_type (some p) db run_id (eq_refl run_id))
    ∙ latest-last event_type tool (list_events run_id db) (event now run_id event_type (some p)) p
        (rw (eq_refl event_type, named, eq_refl tool) refl)

-- The decision that an approval writes.
abbrev pub approval_payload : String → Payload
approval_payload tool_name = record (payload_for tool_name) { decision = some "approved" }

abbrev pub call_payload : RuntimeEnv → String → Payload
call_payload env name = record (payload_for name) { arguments = env.infer_arguments env.goal name }

-- The run's state behind the event of the call.
abbrev pub called_state : RuntimeEnv → String → RunState → RunState
called_state env name s = record_event env "tool_call" (some (call_payload env name)) s

update_row-status :
    (run_id : String) (status : DecisionRunStatus) (row : AgentRun) (db : Db)
    → get_run run_id db ≡ some row
    → get_run run_id (update_run run_id status none db)
      ≡ some (record { status = status; error_message = row.error_message })
unfolding update_run get_run update_row
update_row-status run_id status row db there = rw there (
    sym (
      lookup-insert run_id run_id (record { status = status; error_message = row.error_message })
        db.runs)
    ∙ rw (eq_refl run_id) refl)

module _ (env : RuntimeEnv) (name : String) (tool : Tool) (s : RunState) (row : AgentRun) where
  abbrev item : EvidenceItem
  item = tool_result env tool (env.infer_arguments env.goal name) (called_state env name s)

  abbrev assessed : RunState
  assessed =
      let seen =
        record_event env "tool_result"
          (some (result_payload name (env.infer_arguments env.goal name) item))
          (read_clock (called_state env name s)) in
      note env "evidence_assessment" (record seen { evidence = seen.evidence ++ item ∷ [] })

  abbrev paused : Db
  paused =
      left_by (pause env (result_payload name (env.infer_arguments env.goal name) item) assessed)

  call_step-paused :
      is_expired env (called_state env name s) ≡ false
      → str_eq item.status "approval_required" ≡ true
      → call_step env true name tool s ≡ stopped (finished paused)
  unfolding call_step use_result pause
  call_step-paused x a = rw (x, a) refl

  paused-called :
      latest "tool_call" name (list_events env.run_id paused) ≡ some (call_payload env name)
  unfolding pause record_event
  paused-called =
      append-latest "tool_call" name _ env.run_id "approval_required" _ _ refl
      ∙ update_run-latest env.run_id "tool_call" name waiting_approval none _
      ∙ append-latest "tool_call" name _ env.run_id "evidence_assessment" _ _ refl
      ∙ append-latest "tool_call" name _ env.run_id "tool_result" _ _ refl
      ∙ written-latest "tool_call" name _ env.run_id (call_payload env name) s.db refl

  paused-row :
      get_run env.run_id s.db ≡ some row
      → get_run env.run_id paused
        ≡ some (record { status = waiting_approval; error_message = row.error_message })
  unfolding pause record_event get_run append_event
  paused-row there = update_row-status env.run_id waiting_approval row assessed.db there

-- An admin lacks no capability.
admin_has : (o : Option String) → lacks_capability "admin" o ≡ false
unfolding has_capability role_capabilities lookup
admin_has none = refl
admin_has (some t) = elim (Bool-cases (str_eq t "")) [
  | inl e ↦ rw (lacks_capability, chosen, e) refl
  | inr e ↦ rw (lacks_capability, chosen, e) refl
]

-- a call that the run waits with passes the checks for an admin, under the same policy
held-Passes :
    (env : RuntimeEnv) (tool : Tool) (arguments : Fields) (s : RunState)
    (get_policy : String → Option Override)
    → str_eq (tool_result env tool arguments s).status "approval_required" ≡ true
    → get_policy tool.name ≡ env.get_policy tool.name
    → Passes tool arguments "admin" (normalized_policy get_policy tool)
unfolding tool_result normalized_policy
held-Passes env tool arguments s get_policy a same = elim (Bool-cases (env.cut_off s.readings)) [
  | inl cut ↦ cc (rw cut at a)
  | inr kept ↦
      let (enabled, has, valid) =
        execute-Passes env.get_policy tool arguments env.role (rw kept at a) in
      (
        ap (λ o. (overridden (default_policy tool) o).enabled) same ∙ enabled,
        admin_has (normalized_policy get_policy tool).capability,
        valid,
      )
]

-- A tool that the planned path stops at for an approval, while the time of the run lasts and its row
-- is there, can be resumed: once an approval of it is written to the log of the run, a valid resume
-- task for it with a checkpoint that is there calls the tool with the very arguments of the paused
-- call, where the catalogue has the same tool under the name and its stored policy is the same.
pub pause_resumes :
    (env : RuntimeEnv) (name : String) (tool : Tool) (s : RunState) (row : AgentRun)
    (resuming : ResumeEnv) (now later : ℕ) (ns : String)
    → get_run env.run_id s.db ≡ some row
    → is_expired env (called_state env name s) ≡ false
    → str_eq
        (tool_result env tool (env.infer_arguments env.goal name) (called_state env name s)).status
        "approval_required"
      ≡ true
    → is_valid_task (task_for env.run_id name ns) ≡ true
    → is_available (resuming.checkpoint_status env.run_id ns) ≡ true
    → find? (λ t. str_eq t.name name) resuming.tools ≡ some tool
    → resuming.get_policy tool.name ≡ env.get_policy tool.name
    → (paused_db : Db) × (call_step env true name tool s ≡ stopped (finished paused_db))
      × (let resumed = process_resume_task resuming later (task_for env.run_id name ns) (
            append_event now env.run_id "approval_decision"
              (some (approval_payload name))
              paused_db) in
          (resumed.0
            ≡ executed (
                call_tool_with_policy tool
                  (env.infer_arguments env.goal name)
                  (normalized_policy resuming.get_policy tool)
                  "executed_after_approval"))
          × (0 < calls resumed.0))
unfolding get_run append_event
pause_resumes env name tool s row resuming now later ns there x a v k known same =
    let db = paused env name tool s row in
    let ready : Ready resuming later (task_for env.run_id name ns)
        (append_event now env.run_id "approval_decision" (some (approval_payload name)) db) =
      record {
        valid = v;
        row = record { status = waiting_approval; error_message = row.error_message };
        found = paused-row env name tool s row there;
        active = refl;
        approved = ap is_approved_payload (
            written-latest "approval_decision" name now env.run_id (approval_payload name) db refl);
        original = call_payload env name;
        called =
            append-latest "tool_call" name now env.run_id "approval_decision" _ db refl
            ∙ paused-called env name tool s row;
        checkpoint = k;
      } in
    (
      db,
      call_step-paused env name tool s row x a,
      ready_calls resuming later (task_for env.run_id name ns) _ ready tool known (
          held-Passes env tool (env.infer_arguments env.goal name) (called_state env name s)
            resuming.get_policy a same),
    )
