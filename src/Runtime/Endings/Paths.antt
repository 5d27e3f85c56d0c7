-- ===== src/Runtime/Endings/Paths.antt =====
-- The paths of a run through app/agent_runtime/runtime.py to the writes that end it.
use smart_sre_copilot.Prelude.{
  String, ◌≡◌, refl, sym, Bool, true, false, ◌&&◌, not, Option, none, some, List, [], ◌∷◌, length,
  ltb, any, take, drop, str_eq, eq_refl, lookup-insert, get_last?,
}
use smart_sre_copilot.Decision.{
  AgentDecisionState, FallbackEvent, running, EvidenceQuality, strong, partial, weak, empty, error,
  conflicting, ActionType,
}
use smart_sre_copilot.Evidence.{Fields, EvidenceItem, assess, assess_many}
use smart_sre_copilot.Executor.{Tool}
use smart_sre_copilot.Loop.{LoopResult, TerminationReason, approval_required, action}
use smart_sre_copilot.Runs.{Db, AgentRun, payload_for, create_run, get_run}
use smart_sre_copilot.Runtime.{
  SafetySettings, RuntimeSafetyConfig, from_scene, Scene, decision_runtime_enabled_in, Catalog,
  tools_found, catalog_timed_out, catalog_failed, RuntimeEnv, RunState, timed_out, raised,
  is_expired, read_clock, record_event, note, complete_run, recover_and_hand_over, pause,
}
use smart_sre_copilot.Runtime.Steps.{
  StepEnd, goes_on, found_strong, stopped, end_step, hand_over_for, judge, result_payload,
  use_result, call_step, named_last, step_with, tool_step, next_or_stop, run_tools, is_conflict,
  is_nonempty, conclude, conclude_steps,
}
use smart_sre_copilot.Runtime.Looping.{
  note_each, governance, reason_of, end_loop, use_loop_result, loop_path,
}
use smart_sre_copilot.Runtime.Orchestration.{
  note_if, set_the_scene, with_catalog, planned_path, after_decision_events, graph_path,
  choose_path, orchestrate, run_agent,
}
use smart_sre_copilot.Runtime.Endings.{
  has_ended, Stands, Closes, StepCloses, either, either_step, noted, complete_run-Closes,
  hand_over-Closes, pause-Closes, settle-has_ended,
}

note_each-Stands {ℓ} :
    {A : Type ℓ} (env : RuntimeEnv) (event_type : String) (xs : List A) (s : RunState)
    → Stands env s.db
    → Stands env (note_each env event_type xs s).db
note_each-Stands env event_type [] s p = p
note_each-Stands env event_type (x ∷ xs) s p =
    note_each-Stands env event_type xs (note env event_type s) (noted env event_type none s p)

module _ (env : RuntimeEnv) where
  recover_and_hand_over-Closes :
      (reason : String) (s : RunState)
      → Stands env s.db
      → Closes env (recover_and_hand_over env reason s)
  unfolding recover_and_hand_over
  recover_and_hand_over-Closes reason s p =
      hand_over-Closes env reason (note env "recovery" s) (noted env "recovery" none s p)

  hand_over_for-Closes :
      (quality : EvidenceQuality) (s : RunState)
      → Stands env s.db
      → Closes env (hand_over_for env quality s)
  unfolding hand_over_for
  hand_over_for-Closes quality s p = recover_and_hand_over-Closes _ s p

  end_step-StepCloses : (s : RunState) → Stands env s.db → StepCloses env (end_step env s)
  unfolding end_step
  end_step-StepCloses s p =
      either_step env (is_expired env s) (stopped (timed_out s.db)) (goes_on (read_clock s)) p p

  judge-StepCloses :
      (quality : EvidenceQuality) (s : RunState)
      → Stands env s.db
      → StepCloses env (judge env quality s)
  unfolding judge
  judge-StepCloses empty s p = hand_over_for-Closes empty s p
  judge-StepCloses error s p = hand_over_for-Closes error s p
  judge-StepCloses conflicting s p = hand_over_for-Closes conflicting s p
  judge-StepCloses strong s p = noted env "decision" none s p
  judge-StepCloses partial s p = end_step-StepCloses s p
  judge-StepCloses weak s p = end_step-StepCloses s p

  use_result-StepCloses :
      (enabled : Bool) (name : String) (arguments : Fields) (item : EvidenceItem) (s : RunState)
      → Stands env s.db
      → StepCloses env (use_result env enabled name arguments item s)
  unfolding use_result
  use_result-StepCloses false name arguments item s p = end_step-StepCloses s p
  use_result-StepCloses true name arguments item s p =
      let assessed = note env "evidence_assessment" s in
      let q = noted env "evidence_assessment" none s p in
      either_step env (str_eq item.status "approval_required")
        (stopped (pause env (result_payload name arguments item) assessed))
        (judge env (assess item).quality assessed)
        (pause-Closes env (result_payload name arguments item) assessed q)
        (judge-StepCloses (assess item).quality assessed q)

  step_with-StepCloses :
      (enabled : Bool) (name : String) (tool : Option Tool) (s : RunState)
      → Stands env s.db
      → StepCloses env (step_with env enabled name tool s)
  unfolding step_with call_step
  step_with-StepCloses enabled name none s p = p
  step_with-StepCloses enabled name (some tool) s p =
      let payload = record (payload_for name) { arguments = env.infer_arguments env.goal name } in
      let called = record_event env "tool_call" (some payload) s in
      let q = noted env "tool_call" (some payload) s p in
      either_step env (is_expired env called) (stopped (timed_out called.db)) _ q
        (use_result-StepCloses enabled name _ _ _ (noted env "tool_result" _ (read_clock called) q))

  tool_step-StepCloses :
      (enabled : Bool) (tools : List Tool) (name : String) (s : RunState)
      → Stands env s.db
      → StepCloses env (tool_step env enabled tools name s)
  unfolding tool_step
  tool_step-StepCloses enabled tools name s p =
      either_step env (is_expired env s) (stopped (timed_out s.db)) _ p
        (step_with-StepCloses enabled name (named_last name tools) (read_clock s) p)

  next_or_stop-StepCloses :
      (next : RunState → StepEnd) (e : StepEnd)
      → ((s : RunState) → Stands env s.db → StepCloses env (next s))
      → StepCloses env e
      → StepCloses env (next_or_stop next e)
  next_or_stop-StepCloses next (goes_on s) rest p = rest s p
  next_or_stop-StepCloses next (found_strong s) rest p = p
  next_or_stop-StepCloses next (stopped r) rest p = p

  run_tools-StepCloses :
      (enabled : Bool) (tools : List Tool) (names : List String) (s : RunState)
      → Stands env s.db
      → StepCloses env (run_tools env enabled tools names s)
  unfolding run_tools
  run_tools-StepCloses enabled tools [] s p = p
  run_tools-StepCloses enabled tools (name ∷ names) s p =
      next_or_stop-StepCloses (run_tools env enabled tools names)
        (tool_step env enabled tools name s) (run_tools-StepCloses enabled tools names)
        (tool_step-StepCloses enabled tools name s p)

  conclude-Closes :
      (enabled has_strong : Bool) (skipped : List String) (s : RunState)
      → Stands env s.db
      → Closes env (conclude env enabled has_strong skipped s)
  unfolding conclude
  conclude-Closes enabled has_strong skipped s p =
      either env (is_expired env s) (timed_out s.db) _ p (
        either env
          (enabled
            && ltb 1 (length s.evidence)
            && is_conflict (assess_many env.normalize_cause s.evidence).quality)
          _ _ (hand_over_for-Closes conflicting (read_clock s) p)
          (either env (enabled && is_nonempty skipped && not has_strong) _ _
            (recover_and_hand_over-Closes "budget_exhausted" (read_clock s) p)
            (complete_run-Closes env (read_clock s) p)))

  conclude_steps-Closes :
      (enabled : Bool) (skipped : List String) (e : StepEnd)
      → StepCloses env e
      → Closes env (conclude_steps env enabled skipped e)
  unfolding conclude_steps
  conclude_steps-Closes enabled skipped (goes_on s) p = conclude-Closes enabled false skipped s p
  conclude_steps-Closes enabled skipped (found_strong s) p =
      conclude-Closes enabled true skipped s p
  conclude_steps-Closes enabled skipped (stopped r) p = p

  note_if-Stands :
      (b : Bool) (event_type : String) (s : RunState)
      → Stands env s.db
      → Stands env (note_if b env event_type s).db
  note_if-Stands true event_type s p = noted env event_type none s p
  note_if-Stands false event_type s p = p

  with_catalog-Closes :
      (enabled : Bool) (selected skipped : List String) (catalog : Catalog) (s : RunState)
      → Stands env s.db
      → Closes env (with_catalog env enabled selected skipped catalog s)
  unfolding with_catalog
  with_catalog-Closes enabled selected skipped catalog_timed_out s p = p
  with_catalog-Closes enabled selected skipped catalog_failed s p = p
  with_catalog-Closes enabled selected skipped (tools_found tools) s p =
      either env
        (any (λ name. elim (named_last name tools) [ none ↦ false | some _ ↦ true ]) selected) _
        (complete_run env s)
        (conclude_steps-Closes enabled skipped (run_tools env enabled tools selected s)
          (run_tools-StepCloses enabled tools selected s p))
        (complete_run-Closes env s p)

  planned_path-Closes :
      (config : RuntimeSafetyConfig) (enabled : Bool) (tools : List String) (s : RunState)
      → Stands env s.db
      → Closes env (planned_path env config enabled tools s)
  unfolding planned_path
  planned_path-Closes config enabled tools s p =
      let skipped = drop config.max_steps tools in
      let limited = note_if (is_nonempty skipped) env "limit_reached" s in
      let q = note_if-Stands (is_nonempty skipped) "limit_reached" s p in
      either env (not (is_nonempty (take config.max_steps tools))) (complete_run env limited) _
        (complete_run-Closes env limited q)
        (either env (is_expired env limited) (timed_out limited.db) _ q (
          with_catalog-Closes enabled (take config.max_steps tools) skipped env.catalog
            (read_clock limited) q))

  after_decision_events-Closes :
      (config : RuntimeSafetyConfig) (tools : List String)
      (decided : Option (AgentDecisionState × List FallbackEvent)) (s : RunState)
      → Stands env s.db
      → Closes env (after_decision_events env config tools decided s)
  unfolding after_decision_events
  after_decision_events-Closes config tools none s p = p
  after_decision_events-Closes config tools (some (st, events)) s p =
      planned_path-Closes config true tools _ (
        noted env "decision" none _ (
          note_each-Stands env "observation" st.observations _
            (note_each-Stands env "provider_fallback" events s p)))

  end_loop-Closes :
      (reason : TerminationReason) (st : AgentDecisionState) (s : RunState)
      → Stands env s.db
      → Closes env (end_loop env reason st s)
  unfolding end_loop
  end_loop-Closes approval_required st s p = pause-Closes env governance s p
  end_loop-Closes (action ActionType.handoff) st s p =
      hand_over-Closes env (reason_of (get_last? st.decisions)) s p
  end_loop-Closes (action ActionType.observe) st s p = complete_run-Closes env s p
  end_loop-Closes (action ActionType.call_tool) st s p = complete_run-Closes env s p
  end_loop-Closes (action ActionType.ask_approval) st s p = complete_run-Closes env s p
  end_loop-Closes (action ActionType.recover) st s p = complete_run-Closes env s p
  end_loop-Closes (action ActionType.final_report) st s p = complete_run-Closes env s p
  end_loop-Closes TerminationReason.max_time_reached st s p = complete_run-Closes env s p
  end_loop-Closes TerminationReason.max_tokens_reached st s p = complete_run-Closes env s p
  end_loop-Closes TerminationReason.low_confidence_handoff st s p = complete_run-Closes env s p
  end_loop-Closes TerminationReason.max_steps_reached st s p = complete_run-Closes env s p

  use_loop_result-Closes :
      (r : Option LoopResult) (s : RunState)
      → Stands env s.db
      → Closes env (use_loop_result env r s)
  unfolding use_loop_result
  use_loop_result-Closes none s p = either env env.loop_times_out (timed_out s.db) (raised s.db) p p
  use_loop_result-Closes (some r) s p = end_loop-Closes r.termination_reason r.final.state _ (
      note_each-Stands env "decision" r.final.steps _
        (note_each-Stands env "provider_fallback" r.final.fallback_events s p))

  choose_path-Closes :
      (config : RuntimeSafetyConfig) (scene : Scene) (enabled looped : Bool) (s : RunState)
      → Stands env s.db
      → Closes env (choose_path env config scene enabled looped s)
  unfolding choose_path loop_path graph_path
  choose_path-Closes config scene false looped s p =
      planned_path-Closes config false scene.tools s p
  choose_path-Closes config scene true true s p = use_loop_result-Closes _ (read_clock s) p
  choose_path-Closes config scene true false s p =
      after_decision_events-Closes config scene.tools _ s p

  orchestrate-Closes :
      (config : RuntimeSafetyConfig) (scene : Scene) (s : RunState)
      → Stands env s.db
      → Closes env (orchestrate env config scene s)
  unfolding orchestrate set_the_scene
  orchestrate-Closes config scene s p =
      let started = note env "run_started" s in
      let q = noted env "run_started" none s p in
      either env (is_expired env started) (timed_out started.db) _ q (
        choose_path-Closes config scene (decision_runtime_enabled_in scene)
          scene.bounded_react_loop_enabled _
          (note_if-Stands env.has_skills "skill_match" _ (
            note_if-Stands env.has_citations "knowledge_citations" _ (
              note_if-Stands env.has_memories "memory_context" _ (
                note_if-Stands env.has_knowledge "knowledge_context" _
                  (noted env "hypothesis" none (read_clock started) q))))))

created : (env : RuntimeEnv) (db : Db) → Stands env (create_run env.run_id db)
unfolding get_run create_run
created env db =
    rw (sym (lookup-insert env.run_id env.run_id fresh db.runs), eq_refl env.run_id) refl
  where
    fresh : AgentRun
    fresh = record { status = running; error_message = none }

-- Whatever the providers, the tools, the catalogue and the clock do, and whatever the database
-- holds, a run that is not cancelled leaves its row completed, waiting for approval, handed over or
-- failed, and the last event of its log is the one that announces that status.
pub run_agent_ends :
    (env : RuntimeEnv) (settings : SafetySettings) (scene : Scene) (db : Db)
    → has_ended env.run_id (run_agent env settings scene db) ≡ true
unfolding run_agent
run_agent_ends env settings scene db = settle-has_ended env _ (
    orchestrate-Closes env (from_scene settings scene.agent_config) scene
      (record { db = create_run env.run_id db; readings = 0; evidence = [] }) (created env db))
