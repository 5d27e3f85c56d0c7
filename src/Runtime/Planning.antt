-- ===== src/Runtime/Planning.antt =====
-- How many tools one run calls on the planned path of app/agent_runtime/runtime.py.
use smart_sre_copilot.Prelude.{
  ℕ, suc, ◌+◌, ◌≤◌, String, ◌≡◌, inl, inr, refl, ap, ◌∙◌, Bool, true, false, not, Option, none,
  some, List, [], ◌∷◌, ◌++◌, length, length-append, take, drop, any, str_eq, keep_if, Bool-cases,
  arith,
}
use smart_sre_copilot.Decision.{
  AgentDecisionState, FallbackEvent, EvidenceQuality, strong, partial, weak, empty, error,
  conflicting,
}
use smart_sre_copilot.Evidence.{Fields, EvidenceItem, assess}
use smart_sre_copilot.Executor.{Tool}
use smart_sre_copilot.Runs.{Db, Payload, Event, payload_for, append_event}
use smart_sre_copilot.Runs.Log.{keep_if-append, event, update_run-events}
use smart_sre_copilot.Runtime.{
  SafetySettings, RuntimeSafetyConfig, from_scene, Scene, decision_runtime_enabled_in, Catalog,
  tools_found, catalog_timed_out, catalog_failed, RuntimeEnv, RunState, Result, is_expired,
  read_clock, record_event, note, complete_run,
}
use smart_sre_copilot.Runtime.Steps.{
  tool_result, StepEnd, goes_on, found_strong, stopped, judge, result_payload, use_result,
  call_step, named_last, step_with, tool_step, next_or_stop, run_tools, is_nonempty, conclude_steps,
}
use smart_sre_copilot.Runtime.Orchestration.{
  note_if, with_catalog, planned_path, after_decision_events, graph_path, choose_path, orchestrate,
  run_agent,
}
use smart_sre_copilot.Runs.{create_run}
use smart_sre_copilot.Runtime.Framing.{
  IsKept, left_by, choose, note_each-Holds, HoldsAfter, record_event-Holds, complete_run-Holds,
  pause-Holds, hand_over_for-Holds, settle-Holds, conclude-Holds, note_if-Holds,
  set_the_scene-Holds, loop_path-Holds,
}
use smart_sre_copilot.Runtime.Outcomes.{is_known, is_firm, assess-firm, tool_result-known}

-- ---------------------------------------------------------------- counting the calls

-- How many events of tool calls a log has.
abbrev pub count_calls : List Event → ℕ
count_calls events = length (keep_if (λ e. str_eq e.event_type "tool_call") events)

abbrev pub tool_calls : Db → ℕ
tool_calls db = count_calls db.events

count_calls-snoc :
    (events : List Event) (e : Event)
    → count_calls (events ++ e ∷ []) ≡ count_calls events + count_calls (e ∷ [])
count_calls-snoc events e =
    ap length (keep_if-append (λ e. str_eq e.event_type "tool_call") events (e ∷ []))
    ∙ length-append (keep_if (λ e. str_eq e.event_type "tool_call") events) _

append_event-count :
    (now : ℕ) (run_id event_type : String) (payload : Option Payload) (db : Db)
    → tool_calls (append_event now run_id event_type payload db)
      ≡ tool_calls db + count_calls (event now run_id event_type payload ∷ [])
unfolding append_event
append_event-count now run_id event_type payload db =
    count_calls-snoc db.events (event now run_id event_type payload)

abbrev AtMost : ℕ → Db → Type 0
AtMost n db = tool_calls db ≤ n

other_event :
    (now : ℕ) (run_id event_type : String) (payload : Option Payload)
    → str_eq event_type "tool_call" ≡ false
    → count_calls (event now run_id event_type payload ∷ []) ≡ 0
other_event now run_id event_type payload e = rw (e, keep_if) refl

AtMost-IsKept : (run_id : String) (n : ℕ) → IsKept run_id (AtMost n)
AtMost-IsKept run_id n = record {
  noted = λ now event_type payload db e p. omega (
    arith,
    append_event-count now run_id event_type payload db,
    other_event now run_id event_type payload e,
    p,
  );
  updated = λ status message db p.
      omega (arith, ap count_calls (update_run-events run_id status message db), p);
}

module _ (env : RuntimeEnv) (n : ℕ) where
  -- A step that goes on has called no tool.
  abbrev StepAtMost : StepEnd → Type 0
  StepAtMost (goes_on s) = AtMost n s.db
  StepAtMost (found_strong s) = AtMost (suc n) s.db
  StepAtMost (stopped r) = AtMost (suc n) (left_by r)

  kept : IsKept env.run_id (AtMost (suc n))
  kept = AtMost-IsKept env.run_id (suc n)

  judge-StepAtMost :
      (quality : EvidenceQuality) (s : RunState)
      → is_firm quality ≡ true
      → AtMost (suc n) s.db
      → StepAtMost (judge env quality s)
  unfolding judge
  judge-StepAtMost empty s f p = hand_over_for-Holds env (AtMost (suc n)) kept empty s p
  judge-StepAtMost error s f p = hand_over_for-Holds env (AtMost (suc n)) kept error s p
  judge-StepAtMost conflicting s f p = hand_over_for-Holds env (AtMost (suc n)) kept conflicting s p
  judge-StepAtMost strong s f p =
      record_event-Holds env (AtMost (suc n)) kept "decision" none s refl p
  judge-StepAtMost partial s f p = cc f
  judge-StepAtMost weak s f p = cc f

  use_result-StepAtMost :
      (name : String) (arguments : Fields) (item : EvidenceItem) (s : RunState)
      → is_known item.status ≡ true
      → AtMost (suc n) s.db
      → StepAtMost (use_result env true name arguments item s)
  unfolding use_result
  use_result-StepAtMost name arguments item s k p =
      let assessed = note env "evidence_assessment" s in
      let q = record_event-Holds env (AtMost (suc n)) kept "evidence_assessment" none s refl p in
      elim (Bool-cases (str_eq item.status "approval_required")) [
        | inl a ↦
            rw a (
              pause-Holds env (AtMost (suc n)) kept (result_payload name arguments item) assessed q)
        | inr a ↦ rw a (judge-StepAtMost (assess item).quality assessed (assess-firm item k a) q)
      ]

  call_step-StepAtMost :
      (name : String) (tool : Tool) (s : RunState)
      → AtMost n s.db
      → StepAtMost (call_step env true name tool s)
  unfolding call_step record_event
  call_step-StepAtMost name tool s p =
      let arguments = env.infer_arguments env.goal name in
      let payload = record (payload_for name) { arguments = arguments } in
      let called = record_event env "tool_call" (some payload) s in
      let item = tool_result env tool arguments called in
      let q : AtMost (suc n) called.db = omega (
        arith,
        append_event-count (env.wall_clock (length s.db.events)) env.run_id "tool_call"
            (some payload) s.db,
        p,
      ) in
      choose StepAtMost (is_expired env called) (stopped (Result.timed_out called.db)) _ q (
        use_result-StepAtMost name arguments item _ (tool_result-known env tool arguments called) (
          record_event-Holds env (AtMost (suc n)) kept "tool_result"
            (some (result_payload name arguments item)) (read_clock called) refl q))

  tool_step-StepAtMost :
      (tools : List Tool) (name : String) (tool : Option Tool) (s : RunState)
      → AtMost n s.db
      → StepAtMost (step_with env true name tool s)
  unfolding step_with
  tool_step-StepAtMost tools name none s p = p
  tool_step-StepAtMost tools name (some tool) s p = call_step-StepAtMost name tool s p

  next_or_stop-StepAtMost :
      (next : RunState → StepEnd) (e : StepEnd)
      → ((s : RunState) → AtMost n s.db → StepAtMost (next s))
      → StepAtMost e
      → StepAtMost (next_or_stop next e)
  next_or_stop-StepAtMost next (goes_on s) rest p = rest s p
  next_or_stop-StepAtMost next (found_strong s) rest p = p
  next_or_stop-StepAtMost next (stopped r) rest p = p

  run_tools-StepAtMost :
      (tools : List Tool) (names : List String) (s : RunState)
      → AtMost n s.db
      → StepAtMost (run_tools env true tools names s)
  unfolding run_tools tool_step
  run_tools-StepAtMost tools [] s p = p
  run_tools-StepAtMost tools (name ∷ names) s p =
      next_or_stop-StepAtMost (run_tools env true tools names) (tool_step env true tools name s)
        (run_tools-StepAtMost tools names)
        (choose StepAtMost (is_expired env s) (stopped (Result.timed_out s.db)) _ (omega (arith, p))
          (tool_step-StepAtMost tools name (named_last name tools) (read_clock s) p))

  conclude_steps-AtMost :
      (skipped : List String) (e : StepEnd)
      → StepAtMost e
      → AtMost (suc n) (left_by (conclude_steps env true skipped e))
  unfolding conclude_steps
  conclude_steps-AtMost skipped (goes_on s) p =
      conclude-Holds env (AtMost (suc n)) kept true false skipped s (omega (arith, p))
  conclude_steps-AtMost skipped (found_strong s) p =
      conclude-Holds env (AtMost (suc n)) kept true true skipped s p
  conclude_steps-AtMost skipped (stopped r) p = p

  with_catalog-AtMost :
      (selected skipped : List String) (catalog : Catalog) (s : RunState)
      → AtMost n s.db
      → AtMost (suc n) (left_by (with_catalog env true selected skipped catalog s))
  unfolding with_catalog
  with_catalog-AtMost selected skipped catalog_timed_out s p = omega (arith, p)
  with_catalog-AtMost selected skipped catalog_failed s p = omega (arith, p)
  with_catalog-AtMost selected skipped (tools_found tools) s p =
      choose (HoldsAfter env (AtMost (suc n)) kept)
        (any (λ name. elim (named_last name tools) [ none ↦ false | some _ ↦ true ]) selected) _
        (complete_run env s)
        (conclude_steps-AtMost skipped (run_tools env true tools selected s)
          (run_tools-StepAtMost tools selected s p))
        (complete_run-Holds env (AtMost (suc n)) kept s (omega (arith, p)))

  planned_path-AtMost :
      (config : RuntimeSafetyConfig) (tools : List String) (s : RunState)
      → AtMost n s.db
      → AtMost (suc n) (left_by (planned_path env config true tools s))
  unfolding planned_path
  planned_path-AtMost config tools s p =
      let selected = take config.max_steps tools in
      let skipped = drop config.max_steps tools in
      let limited = note_if (is_nonempty skipped) env "limit_reached" s in
      let q =
        note_if-Holds env (AtMost n) (AtMost-IsKept env.run_id n) (is_nonempty skipped)
          "limit_reached" s refl p in
      choose (HoldsAfter env (AtMost (suc n)) kept) (not (is_nonempty selected))
        (complete_run env limited) _
        (complete_run-Holds env (AtMost (suc n)) kept limited (omega (arith, q)))
        (choose (HoldsAfter env (AtMost (suc n)) kept) (is_expired env limited)
          (Result.timed_out limited.db) _ (omega (arith, q))
          (with_catalog-AtMost selected skipped env.catalog (read_clock limited) q))

  after_decision_events-AtMost :
      (config : RuntimeSafetyConfig) (tools : List String)
      (decided : Option (AgentDecisionState × List FallbackEvent)) (s : RunState)
      → AtMost n s.db
      → AtMost (suc n) (left_by (after_decision_events env config tools decided s))
  unfolding after_decision_events
  after_decision_events-AtMost config tools none s p = omega (arith, p)
  after_decision_events-AtMost config tools (some (st, events)) s p =
      let before = AtMost-IsKept env.run_id n in
      planned_path-AtMost config tools _ (
        record_event-Holds env (AtMost n) before "decision" none _ refl (
          note_each-Holds env (AtMost n) before "observation" st.observations _ refl
            (note_each-Holds env (AtMost n) before "provider_fallback" events s refl p)))

  choose_path-AtMost :
      (config : RuntimeSafetyConfig) (scene : Scene) (enabled looped : Bool) (s : RunState)
      → enabled ≡ true
      → AtMost n s.db
      → AtMost (suc n) (left_by (choose_path env config scene enabled looped s))
  unfolding choose_path graph_path
  choose_path-AtMost config scene false looped s e p = cc e
  choose_path-AtMost config scene true true s e p =
      loop_path-Holds env (AtMost (suc n)) kept config _ s (omega (arith, p))
  choose_path-AtMost config scene true false s e p =
      after_decision_events-AtMost config scene.tools _ s p

  orchestrate-AtMost :
      (config : RuntimeSafetyConfig) (scene : Scene) (s : RunState)
      → decision_runtime_enabled_in scene ≡ true
      → AtMost n s.db
      → AtMost (suc n) (left_by (orchestrate env config scene s))
  unfolding orchestrate
  orchestrate-AtMost config scene s e p =
      let before = AtMost-IsKept env.run_id n in
      let started = note env "run_started" s in
      let q = record_event-Holds env (AtMost n) before "run_started" none s refl p in
      choose (HoldsAfter env (AtMost (suc n)) kept) (is_expired env started)
        (Result.timed_out started.db) _ (omega (arith, q))
        (choose_path-AtMost config scene _ scene.bounded_react_loop_enabled _ e
          (set_the_scene-Holds env (AtMost n) before (read_clock started) q))

-- With the decision runtime enabled a run adds at most one event of a tool call to the log of the
-- database, however many tools its scene has and whatever `max_steps` allows.
pub run_agent_calls_one :
    (env : RuntimeEnv) (settings : SafetySettings) (scene : Scene) (db : Db)
    → decision_runtime_enabled_in scene ≡ true
    → tool_calls (run_agent env settings scene db) ≤ suc (tool_calls db)
unfolding run_agent create_run
run_agent_calls_one env settings scene db e =
    let created : RunState = record {
      db = create_run env.run_id db;
      readings = 0;
      evidence = [];
    } in
    let config = from_scene settings scene.agent_config in
    settle-Holds env (AtMost (suc (tool_calls db))) (kept env (tool_calls db))
      (orchestrate env config scene created)
      (orchestrate-AtMost env (tool_calls db) config scene created e (omega arith))
