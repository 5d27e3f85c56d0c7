-- ===== src/Approvals/Safety.antt =====
-- Which resume tasks execute a tool, and how often (app/application/agent_resume_service.py).
use mathlib.Core.Path.{subst}
use smart_sre_copilot.Prelude.{
  ℕ, ◌<◌, String, ◌≡◌, ◌⊎◌, inl, inr, refl, sym, ap, ◌∙◌, true, false, Option, none, some, List, [],
  ◌∷◌, ◌++◌, str_eq, eq_refl, Bool-cases, Option-cases, arith, find?, eq_iff,
}
use smart_sre_copilot.Decision.{chosen}
use smart_sre_copilot.Evidence.{Fields}
use smart_sre_copilot.Executor.{
  Tool, Approval, execute_approved, normalized_policy, call_tool_with_policy, is_approved, text_or,
}
use smart_sre_copilot.Executor.Governance.{
  Passes, execute_approved_calls, execute_approved_passing, call_tool_with_policy-calls,
}
use smart_sre_copilot.Runs.{
  Payload, Event, Db, AgentRun, payload_for, get_run, append_event, list_events,
}
use smart_sre_copilot.Runs.Log.{event, append_event-same}
use smart_sre_copilot.Approvals.{payload_of_type, ResumeTask, World}
use smart_sre_copilot.Approvals.Resume.{
  ResumeEnv, ResumeOutcome, executed, latest, is_approved_payload, is_available, execute_found,
  execute_approved_original_action, resume_action, is_cancelled, resume_run, is_valid_task,
  process_resume_task,
}
use smart_sre_copilot.Approvals.Finality.{decision_on}
use smart_sre_copilot.Approvals.Execution.{decisions_agree, Op, perform_all, decision_is_final}

-- How often the tool was called.
abbrev pub calls : ResumeOutcome → ℕ
calls (executed e) = e.1
calls _ = 0

module _ (env : ResumeEnv) (now : ℕ) (task : ResumeTask) (db : Db) where
  abbrev log : List Event
  log = list_events task.run_id db

  -- What a resume task needs to get as far as the tool.
  pub record Ready : Type 0 where
    pub valid : is_valid_task task ≡ true
    pub row : AgentRun
    pub found : get_run task.run_id db ≡ some row
    pub active : is_cancelled row.status ≡ false
    pub approved : is_approved_payload (latest "approval_decision" task.tool_name log) ≡ true
    pub original : Payload
    pub called : latest "tool_call" task.tool_name log ≡ some original
    pub checkpoint : is_available (env.checkpoint_status task.run_id task.checkpoint_ns) ≡ true

  -- the events that the execution leaves
  abbrev after_execution : Payload → Db
  after_execution original =
      append_event now task.run_id "approval_resumed_tool_result"
        (some (record (payload_for task.tool_name) { arguments = original.arguments }))
        (append_event now task.run_id "approval_resume" (some (payload_for task.tool_name)) db)

  pub ready_executes :
      (r : Ready)
      → process_resume_task env now task db ≡ (
        execute_approved_original_action env task r.original.arguments,
        after_execution r.original,
      )
  unfolding process_resume_task resume_run resume_action
  ready_executes r = rw (r.valid, r.found, r.active, r.approved, r.called, r.checkpoint) refl

  abbrev IsReady : ResumeOutcome → Type 0
  IsReady o = (r : Ready) × (o ≡ execute_approved_original_action env task r.original.arguments)

  -- an outcome without a call of the tool, or that of a task that is ready
  pub process-cases :
      (calls (process_resume_task env now task db).0 ≡ 0)
      ⊎ IsReady (process_resume_task env now task db).0
  unfolding process_resume_task resume_run resume_action
  process-cases = elim (Bool-cases (is_valid_task task)) [
    | inr v ↦ inl (rw v refl)
    | inl v ↦ elim (Option-cases (get_run task.run_id db)) [
      | inl n ↦ inl (rw (v, n) refl)
      | inr (row, f) ↦ elim (Bool-cases (is_cancelled row.status)) [
        | inl c ↦ inl (rw (v, f, c) refl)
        | inr c ↦
            elim (Bool-cases
              (is_approved_payload (latest "approval_decision" task.tool_name log))) [
                | inr a ↦ inl (rw (v, f, c, a) refl)
                | inl a ↦ elim (Option-cases (latest "tool_call" task.tool_name log)) [
                  | inl m ↦ inl (rw (v, f, c, a, m) refl)
                  | inr (original, o) ↦
                      elim (Bool-cases
                        (is_available (env.checkpoint_status task.run_id task.checkpoint_ns))) [
                          | inr k ↦ inl (rw (v, f, c, a, o, k) refl)
                          | inl k ↦
                              let r : Ready = record {
                                valid = v;
                                row = row;
                                found = f;
                                active = c;
                                approved = a;
                                original = original;
                                called = o;
                                checkpoint = k;
                              } in
                              inr (r, ap (λ p. p.0) (ready_executes r))
                        ]
                ]
              ]
      ]
    ]
  ]

-- The approval that the executor is shown.
abbrev pub approval_of : ResumeTask → Approval
approval_of task = record { tool_name = some task.tool_name; decision = some task.decision }

module _ (env : ResumeEnv) (now : ℕ) (task : ResumeTask) (db : Db) where
  found_executes :
      (arguments : Fields) (o : Option Tool)
      → 0 < calls (execute_found env task arguments o)
      → (tool : Tool) × (o ≡ some tool)
        × (execute_found env task arguments o
            ≡ executed (execute_approved env.get_policy tool arguments "admin" (approval_of task)))
  unfolding execute_found
  found_executes arguments none h = absurd (omega (arith, h))
  found_executes arguments (some tool) h = (tool, refl, refl)

  -- A resume task that calls a tool is an approval of it for a run that is there and not cancelled;
  -- the last recorded decision on the tool approves it; a checkpoint is there; and the call is that of
  -- `execute_approved`, by an admin, on the tool of that name in the catalogue with the arguments
  -- of the last recorded call of the tool, which pass its schema while its policy enables it.
  pub resume_executes :
      0 < calls (process_resume_task env now task db).0
      → (r : Ready env now task db) × (tool : Tool) × (find?
            (λ t. str_eq t.name task.tool_name)
            env.tools
          ≡ some tool)
        × ((process_resume_task env now task db).0
            ≡ executed (
                execute_approved env.get_policy tool r.original.arguments "admin"
                  (approval_of task)))
        × Passes tool r.original.arguments "admin" (normalized_policy env.get_policy tool)
  unfolding execute_approved_original_action
  resume_executes h = elim (process-cases env now task db) [
    | inl none_made ↦ absurd (omega (arith, h, none_made))
    | inr (r, same) ↦
        let found = find? (λ t. str_eq t.name task.tool_name) env.tools in
        let called = subst (λ o. 0 < calls o) same h in
        let (tool, known, made) = found_executes r.original.arguments found called in
        let (approved, passes, few, kept) =
          execute_approved_calls env.get_policy tool r.original.arguments "admin" (approval_of task)
            (subst (λ o. 0 < calls o) made called) in
        (r, tool, known, same ∙ made, passes)
  ]

  unapproved :
      is_approved_payload (latest "approval_decision" task.tool_name (list_events task.run_id db))
        ≡ false
      → calls (process_resume_task env now task db).0 ≡ 0
  unapproved u = elim (process-cases env now task db) [
    | inl none_made ↦ none_made
    | inr (r, same) ↦ cc (r.approved, u)
  ]

  invalid_calls : is_valid_task task ≡ false → calls (process_resume_task env now task db).0 ≡ 0
  unfolding process_resume_task
  invalid_calls v = rw v refl

valid_named : (task : ResumeTask) → is_valid_task task ≡ true → str_eq task.tool_name "" ≡ false
valid_named task v = ground (arith, v)

-- A tool whose recorded decision does not approve it, such as a rejection or an expiry, is never
-- called by a resume task, whatever decisions, expiries, resumptions and other events come between.
pub refused_never_runs :
    (env : ResumeEnv) (now : ℕ) (task : ResumeTask) (ops : List Op) (w : World) (p : Payload)
    → decision_on task.run_id task.tool_name w.db ≡ some p
    → is_approved_payload (some p) ≡ false
    → calls (process_resume_task env now task (perform_all ops w).db).0 ≡ 0
refused_never_runs env now task ops w p d refused = elim (Bool-cases (is_valid_task task)) [
  | inr v ↦ invalid_calls env now task (perform_all ops w).db v
  | inl v ↦
      let db = (perform_all ops w).db in
      let final = decision_is_final task.run_id task.tool_name ops w p d in
      let agree =
        decisions_agree task.tool_name (valid_named task v) (list_events task.run_id db) in
      unapproved env now task db (ap is_approved_payload (sym agree ∙ final) ∙ refused)
]

-- ---------------------------------------------------------------- a task that comes twice

latest-snoc :
    (event_type tool : String) (es : List Event) (e : Event)
    → payload_of_type event_type e ≡ none
    → latest event_type tool (es ++ e ∷ []) ≡ latest event_type tool es
unfolding latest
latest-snoc event_type tool [] e n = rw n refl
latest-snoc event_type tool (x ∷ es) e n = rw (latest-snoc event_type tool es e n) refl

pub append-latest :
    (event_type tool : String) (now : ℕ) (run_id other : String) (o : Option Payload) (db : Db)
    → str_eq other event_type ≡ false
    → latest event_type tool (list_events run_id (append_event now run_id other o db))
      ≡ latest event_type tool (list_events run_id db)
append-latest event_type tool now run_id other o db n =
    ap (latest event_type tool) (append_event-same now run_id other o db run_id (eq_refl run_id))
    ∙ latest-snoc event_type tool (list_events run_id db) (event now run_id other o) (rw n refl)

some_payload : {p q : Payload} → some p ≡ some q → p ≡ q
some_payload e = cc

find?-passes :
    (name : String) (tools : List Tool) (tool : Tool)
    → find? (λ t. str_eq t.name name) tools ≡ some tool
    → str_eq tool.name name ≡ true
find?-passes name [] tool h = cc
find?-passes name (t ∷ ts) tool h = ground (arith, find?-passes name ts tool)

valid_decision :
    (task : ResumeTask) → is_valid_task task ≡ true → str_eq task.decision "approved" ≡ true
valid_decision task v = ground (arith, v)

-- the approval that a valid task stands for is one of the tool that is found for it
valid-approval :
    (task : ResumeTask) (tools : List Tool) (tool : Tool)
    → is_valid_task task ≡ true
    → find? (λ t. str_eq t.name task.tool_name) tools ≡ some tool
    → is_approved (approval_of task) tool ≡ true
valid-approval task tools tool v f =
    let named = (eq_iff tool.name task.tool_name).0 (find?-passes task.tool_name tools tool f) in
    let decided = (eq_iff task.decision "approved").0 (valid_decision task v) in
    rw (is_approved, text_or, chosen, valid_named task v, named, eq_refl task.tool_name, decided)
      refl

module _ (env : ResumeEnv) (now : ℕ) (task : ResumeTask) (db : Db) where
  -- a task that is ready calls the tool that is found for it, if the checks let it
  pub ready_calls :
      (r : Ready env now task db) (tool : Tool)
      → find? (λ t. str_eq t.name task.tool_name) env.tools ≡ some tool
      → Passes tool r.original.arguments "admin" (normalized_policy env.get_policy tool)
      → ((process_resume_task env now task db).0
          ≡ executed (
              call_tool_with_policy tool r.original.arguments
                (normalized_policy env.get_policy tool)
                "executed_after_approval"))
        × (0 < calls (process_resume_task env now task db).0)
  unfolding execute_approved_original_action execute_found
  ready_calls r tool known passes =
      let policy = normalized_policy env.get_policy tool in
      let made =
        ap (λ p. p.0) (ready_executes env now task db r)
        ∙ ap (execute_found env task r.original.arguments) known
        ∙ ap executed (
            execute_approved_passing env.get_policy tool r.original.arguments "admin"
              (approval_of task) (valid-approval task env.tools tool r.valid known) passes) in
      (
        made,
        subst (λ o. 0 < calls o) (sym made)
            (call_tool_with_policy-calls tool r.original.arguments policy
              "executed_after_approval"),
      )

module _ (env : ResumeEnv) (now : ℕ) (task : ResumeTask) (db : Db) where
  after-latest :
      (event_type : String) (original : Payload)
      → str_eq "approval_resume" event_type ≡ false
      → str_eq "approval_resumed_tool_result" event_type ≡ false
      → latest event_type task.tool_name
          (list_events task.run_id (after_execution env now task db original))
        ≡ latest event_type task.tool_name (list_events task.run_id db)
  after-latest event_type original a b =
      append-latest event_type task.tool_name now task.run_id "approval_resumed_tool_result" _ _ b
      ∙ append-latest event_type task.tool_name now task.run_id "approval_resume" _ db a

  again :
      (env' : ResumeEnv) (later : ℕ) (r : Ready env now task db)
      → is_available (env'.checkpoint_status task.run_id task.checkpoint_ns) ≡ true
      → Ready env' later task (after_execution env now task db r.original)
  unfolding get_run append_event
  again env' later r k = record {
    valid = r.valid;
    row = r.row;
    found = r.found;
    active = r.active;
    approved =
        ap is_approved_payload (after-latest "approval_decision" r.original refl refl) ∙ r.approved;
    original = r.original;
    called = after-latest "tool_call" r.original refl refl ∙ r.called;
    checkpoint = k;
  }

  -- A resume task that called the tool calls a tool again when it is delivered a second time, since
  -- the execution leaves no mark that the next one looks at. The condition is that, at the second
  -- delivery, the checkpoint is there, the catalogue has a tool of the name, and this tool passes
  -- the governance checks with the arguments of the last recorded call; they are then the arguments
  -- of the call. The policies, the catalogue and the tool may have changed in between.
  pub resume_repeats :
      (env' : ResumeEnv) (later : ℕ) (tool : Tool) (original : Payload)
      → 0 < calls (process_resume_task env now task db).0
      → latest "tool_call" task.tool_name (list_events task.run_id db) ≡ some original
      → is_available (env'.checkpoint_status task.run_id task.checkpoint_ns) ≡ true
      → find? (λ t. str_eq t.name task.tool_name) env'.tools ≡ some tool
      → Passes tool original.arguments "admin" (normalized_policy env'.get_policy tool)
      → let second = process_resume_task env' later task (process_resume_task env now task db).1 in
        (second.0
          ≡ executed (
              call_tool_with_policy tool original.arguments
                (normalized_policy env'.get_policy tool)
                "executed_after_approval"))
        × (0 < calls second.0)
  unfolding again
  resume_repeats env' later tool original h recorded k known passes =
      elim (process-cases env now task db) [
        | inl none_made ↦ absurd (omega (arith, h, none_made))
        | inr (r, same) ↦
            let same_original = some_payload (sym r.called ∙ recorded) in
            let moved = ap (λ p. p.1) (ready_executes env now task db r) in
            let (made, called) =
              ready_calls env' later task (after_execution env now task db r.original)
                (again env' later r k) tool known
                (subst
                  (λ p. Passes tool p.arguments "admin" (normalized_policy env'.get_policy tool))
                  (sym same_original) passes) in
            let second = ap (λ d. (process_resume_task env' later task d).0) moved in
            let outcome =
              second
              ∙ made
              ∙ ap
                  (λ p. executed (
                    call_tool_with_policy tool p.arguments (normalized_policy env'.get_policy tool)
                      "executed_after_approval"))
                  same_original in
            (outcome, subst (λ o. 0 < calls o) (sym second) called)
      ]
