-- ===== src/Runtime/Resumption.antt =====
-- What a resume task (app/application/agent_resume_service.py) finds after a run of
-- app/agent_runtime/runtime.py on the path of the bounded loop.
pub mod Planned
use smart_sre_copilot.Prelude.{
  ℕ, String, ◌≡◌, inl, inr, refl, ap, ◌∙◌, Bool, true, false, Option, none, [],
}
use smart_sre_copilot.Decision.{DecisionRunStatus}
use smart_sre_copilot.Runs.{Db, Payload, create_run, append_event, update_run, list_events}
use smart_sre_copilot.Runs.Log.{update_run-events}
use smart_sre_copilot.Approvals.{ResumeTask}
use smart_sre_copilot.Approvals.Resume.{ResumeEnv, latest, process_resume_task}
use smart_sre_copilot.Approvals.Safety.{calls, process-cases, append-latest}
use smart_sre_copilot.Runtime.{
  SafetySettings, RuntimeSafetyConfig, from_scene, Scene, decision_runtime_enabled_in, RuntimeEnv,
  RunState, timed_out, is_expired, read_clock, note,
}
use smart_sre_copilot.Runtime.Orchestration.{choose_path, orchestrate, run_agent}
use smart_sre_copilot.Runtime.Framing.{
  IsKept, left_by, choose, HoldsAfter, record_event-Holds, settle-Holds, set_the_scene-Holds,
  loop_path-Holds,
}

-- ---------------------------------------------------------------- the path of the loop

-- The log of a run has no call of the tool.
abbrev pub NoCall : String → String → Db → Type 0
NoCall run_id tool db = latest "tool_call" tool (list_events run_id db) ≡ none

pub update_run-latest :
    (run_id event_type tool : String) (status : DecisionRunStatus) (message : Option String)
    (db : Db)
    → latest event_type tool (list_events run_id (update_run run_id status message db))
      ≡ latest event_type tool (list_events run_id db)
unfolding list_events
update_run-latest run_id event_type tool status message db =
    ap (λ events. latest event_type tool (list_events run_id (record db { events = events })))
      (update_run-events run_id status message db)

NoCall-IsKept : (run_id tool : String) → IsKept run_id (NoCall run_id tool)
NoCall-IsKept run_id tool = record {
  noted = λ now event_type payload db e p.
      append-latest "tool_call" tool now run_id event_type payload db e ∙ p;
  updated = λ status message db p. update_run-latest run_id "tool_call" tool status message db ∙ p;
}

module _ (env : RuntimeEnv) (tool : String) where
  kept : IsKept env.run_id (NoCall env.run_id tool)
  kept = NoCall-IsKept env.run_id tool

  loop_run-NoCall :
      (config : RuntimeSafetyConfig) (scene : Scene) (enabled looped : Bool) (s : RunState)
      → enabled ≡ true
      → looped ≡ true
      → NoCall env.run_id tool s.db
      → NoCall env.run_id tool (left_by (choose_path env config scene enabled looped s))
  unfolding choose_path
  loop_run-NoCall config scene true true s e l p =
      loop_path-Holds env (NoCall env.run_id tool) kept config _ s p
  loop_run-NoCall config scene true false s e l p = cc l
  loop_run-NoCall config scene false looped s e l p = cc e

  orchestrate-NoCall :
      (config : RuntimeSafetyConfig) (scene : Scene) (s : RunState)
      → decision_runtime_enabled_in scene ≡ true
      → scene.bounded_react_loop_enabled ≡ true
      → NoCall env.run_id tool s.db
      → NoCall env.run_id tool (left_by (orchestrate env config scene s))
  unfolding orchestrate
  orchestrate-NoCall config scene s e l p =
      let started = note env "run_started" s in
      let q = record_event-Holds env (NoCall env.run_id tool) kept "run_started" none s refl p in
      choose (HoldsAfter env (NoCall env.run_id tool) kept) (is_expired env started)
        (timed_out started.db) _ q
        (loop_run-NoCall config scene (decision_runtime_enabled_in scene)
          scene.bounded_react_loop_enabled _ e l
          (set_the_scene-Holds env (NoCall env.run_id tool) kept (read_clock started) q))

  run_agent-NoCall :
      (settings : SafetySettings) (scene : Scene) (db : Db)
      → decision_runtime_enabled_in scene ≡ true
      → scene.bounded_react_loop_enabled ≡ true
      → NoCall env.run_id tool db
      → NoCall env.run_id tool (run_agent env settings scene db)
  unfolding run_agent create_run list_events
  run_agent-NoCall settings scene db e l p =
      let created : RunState = record {
        db = create_run env.run_id db;
        readings = 0;
        evidence = [];
      } in
      let config = from_scene settings scene.agent_config in
      settle-Holds env (NoCall env.run_id tool) kept (orchestrate env config scene created)
        (orchestrate-NoCall config scene created e l p)

-- The resume task of an approval of the tool.
abbrev pub task_for : String → String → String → ResumeTask
task_for run_id tool_name ns = record {
  run_id = run_id;
  tool_name = tool_name;
  decision = "approved";
  checkpoint_ns = ns;
}

-- A run on the path of the bounded loop whose log has no call of a tool at its start, as that of a
-- new run, cannot be resumed at that tool: whatever the run came to, and whatever decision on an
-- approval is written to its log, a resume task of the run does not call the tool.
pub loop_pause_calls_nothing :
    (env : RuntimeEnv) (settings : SafetySettings) (scene : Scene) (db : Db) (resuming : ResumeEnv)
    (now later : ℕ) (decision : Option Payload) (tool_name ns : String)
    → decision_runtime_enabled_in scene ≡ true
    → scene.bounded_react_loop_enabled ≡ true
    → NoCall env.run_id tool_name db
    → calls
        (process_resume_task resuming later (task_for env.run_id tool_name ns) (
          append_event now env.run_id "approval_decision" decision
            (run_agent env settings scene db))).0
      ≡ 0
loop_pause_calls_nothing env settings scene db resuming now later decision tool_name ns e l p =
    let after = run_agent env settings scene db in
    let none_there =
      append-latest "tool_call" tool_name now env.run_id "approval_decision" decision after refl
      ∙ run_agent-NoCall env tool_name settings scene db e l p in
    elim (process-cases resuming later (task_for env.run_id tool_name ns)
      (append_event now env.run_id "approval_decision" decision after)) [
        | inl none_made ↦ none_made
        | inr (r, same) ↦ cc (r.called, none_there)
      ]
