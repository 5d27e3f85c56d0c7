-- ===== src/Runtime/Orchestration.antt =====
-- A whole run (`_run_orchestration` in app/agent_runtime/runtime.py) of a scene that is there, from
-- the creation of the run to the writes that end it.
use smart_sre_copilot.Prelude.{
  max, String, Bool, true, false, not, Option, none, some, List, [], ◌∷◌, length, take, drop, any,
  if◌then◌else◌,
}
use smart_sre_copilot.Decision.{AgentDecisionState, DecisionRunStatus, FallbackEvent}
use smart_sre_copilot.Decision.Graph.{run_graph_once, decide_once}
use smart_sre_copilot.Runs.{Db, create_run}
use smart_sre_copilot.Runtime.{
  SafetySettings, RuntimeSafetyConfig, from_scene, Scene, decision_runtime_enabled_in, Catalog,
  tools_found, catalog_timed_out, catalog_failed, RuntimeEnv, RunState, Result, finished, timed_out,
  raised, is_expired, read_clock, note, complete_run, fail_run,
}
use smart_sre_copilot.Runtime.Steps.{named_last, run_tools, conclude_steps, is_nonempty}
use smart_sre_copilot.Runtime.Looping.{note_each, loop_path}

-- `build_initial_decision_state` with the budget of the run
abbrev pub initial_state : RuntimeEnv → Scene → RuntimeSafetyConfig → AgentDecisionState
initial_state env scene config = record {
  run_id = some env.run_id;
  status = DecisionRunStatus.running;
  goal = record { goal = env.goal; success_criteria = []; priority = "P2"; workspace_id = none };
  budget = record {
    max_steps = config.max_steps;
    remaining_steps = config.max_steps;
    max_tool_calls = max (length scene.tools) 1;
    remaining_tool_calls = length scene.tools;
    run_timeout = config.run_timeout;
    remaining_time = some config.run_timeout;
  };
  available_tools = scene.tools;
  executed_tools = [];
  observations = record { source = "user_goal"; summary = env.goal; confidence = 100 } ∷ [];
  evidence = [];
  consecutive_empty_evidence = 0;
  decisions = [];
}

abbrev pub note_if : Bool → RuntimeEnv → String → RunState → RunState
note_if true env event_type s = note env event_type s
note_if false env event_type s = s

-- The events in front of any decision.
unfoldable pub set_the_scene : RuntimeEnv → RunState → RunState
set_the_scene env s = note_if env.has_skills env "skill_match" (
    note_if env.has_citations env "knowledge_citations" (
      note_if env.has_memories env "memory_context"
        (note_if env.has_knowledge env "knowledge_context" (note env "hypothesis" s))))

-- ---------------------------------------------------------------- the planned path

unfoldable pub with_catalog :
    RuntimeEnv → Bool → List String → List String → Catalog → RunState → Result
unfolding run_tools conclude_steps
with_catalog env enabled selected skipped catalog_timed_out s = timed_out s.db
with_catalog env enabled selected skipped catalog_failed s = raised s.db
with_catalog env enabled selected skipped (tools_found tools) s =
    if any (λ name. elim (named_last name tools) [ none ↦ false | some _ ↦ true ]) selected
    then conclude_steps env enabled skipped (run_tools env enabled tools selected s)
    else complete_run env s

-- The tools within the limit, the catalogue, and the loop over the tools.
unfoldable pub planned_path :
    RuntimeEnv → RuntimeSafetyConfig → Bool → List String → RunState → Result
unfolding with_catalog
planned_path env config enabled tools s =
    let selected = take config.max_steps tools in
    let skipped = drop config.max_steps tools in
    let limited = note_if (is_nonempty skipped) env "limit_reached" s in
    if not (is_nonempty selected)
    then complete_run env limited
    else if is_expired env limited
    then timed_out limited.db
    else with_catalog env enabled selected skipped env.catalog (read_clock limited)

-- ---------------------------------------------------------------- the decision in front of it

abbrev pub or_else_try {ℓ} : {A : Type ℓ} → Option A → Option A → Option A
or_else_try (some a) b = some a
or_else_try none b = b

unfoldable pub after_decision_events :
    RuntimeEnv
    → RuntimeSafetyConfig
    → List String
    → Option (AgentDecisionState × List FallbackEvent)
    → RunState
    → Result
unfolding planned_path
after_decision_events env config tools none s = raised s.db
after_decision_events env config tools (some (st, events)) s = planned_path env config true tools (
    note env "decision"
      (note_each env "observation" st.observations (note_each env "provider_fallback" events s)))

-- The decision graph, or the provider where the graph fails; then the planned path, whatever was
-- decided.
unfoldable pub graph_path :
    RuntimeEnv → RuntimeSafetyConfig → List String → AgentDecisionState → RunState → Result
unfolding after_decision_events
graph_path env config tools st s =
    after_decision_events env config tools
      (or_else_try (run_graph_once env.provider env.fallback_provider st)
        (decide_once env.provider env.fallback_provider st))
      s

unfoldable pub choose_path :
    RuntimeEnv → RuntimeSafetyConfig → Scene → Bool → Bool → RunState → Result
unfolding loop_path graph_path planned_path
choose_path env config scene false looped s = planned_path env config false scene.tools s
choose_path env config scene true true s = loop_path env config (initial_state env scene config) s
choose_path env config scene true false s =
    graph_path env config scene.tools (initial_state env scene config) s

-- The `try` block.
unfoldable pub orchestrate : RuntimeEnv → RuntimeSafetyConfig → Scene → RunState → Result
unfolding set_the_scene choose_path
orchestrate env config scene s =
    let started = note env "run_started" s in
    if is_expired env started
    then timed_out started.db
    else choose_path env config scene (decision_runtime_enabled_in scene)
        scene.bounded_react_loop_enabled (set_the_scene env (read_clock started))

-- The exceptions that the block raises.
unfoldable pub settle : RuntimeEnv → Result → Db
unfolding fail_run
settle env (finished db) = db
settle env (timed_out db) = fail_run env "timeout" "TimeoutError" db
settle env (raised db) = fail_run env "error" "Exception" db

-- A run from its creation on: the database it leaves.
unfoldable pub run_agent : RuntimeEnv → SafetySettings → Scene → Db → Db
unfolding orchestrate settle
run_agent env settings scene db = settle env (
    orchestrate env (from_scene settings scene.agent_config) scene
      (record { db = create_run env.run_id db; readings = 0; evidence = [] }))
