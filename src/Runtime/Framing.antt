-- ===== src/Runtime/Framing.antt =====
-- Predicates on the database that the writes of a run keep, those of the events of tool calls aside
-- (app/agent_runtime/runtime.py).
use smart_sre_copilot.Prelude.{
  ℕ, String, ◌≡◌, refl, Bool, true, false, ◌&&◌, not, Option, none, some, List, [], ◌∷◌, length,
  ltb, str_eq, if◌then◌else◌, get_last?,
}
use smart_sre_copilot.Decision.{
  AgentDecisionState, DecisionRunStatus, completed, handoff_required, waiting_approval, failed,
  EvidenceQuality, conflicting, ActionType,
}
use smart_sre_copilot.Evidence.{assess_many}
use smart_sre_copilot.Loop.{LoopResult, TerminationReason, approval_required, action}
use smart_sre_copilot.Runs.{Db, Payload, update_run, append_event}
use smart_sre_copilot.Runtime.{
  RuntimeSafetyConfig, RuntimeEnv, RunState, Result, finished, timed_out, raised, is_expired,
  read_clock, record_event, note, set_status, complete_run, hand_over, recover_and_hand_over, pause,
  fail_run,
}
use smart_sre_copilot.Runtime.Steps.{hand_over_for, is_conflict, is_nonempty, conclude}
use smart_sre_copilot.Runtime.Looping.{
  note_each, governance, reason_of, end_loop, use_loop_result, loop_path,
}
use smart_sre_copilot.Runtime.Orchestration.{note_if, set_the_scene, settle}

pub record IsKept (run_id : String) (Holds : Db → Type 0) : Type 0 where
  pub noted :
      (now : ℕ) (event_type : String) (payload : Option Payload) (db : Db)
      → str_eq event_type "tool_call" ≡ false
      → Holds db
      → Holds (append_event now run_id event_type payload db)
  pub updated :
      (status : DecisionRunStatus) (message : Option String) (db : Db)
      → Holds db
      → Holds (update_run run_id status message db)

-- The database that a result carries.
abbrev pub left_by : Result → Db
left_by (finished db) = db
left_by (timed_out db) = db
left_by (raised db) = db

abbrev pub choose {ℓ κ} :
    {A : Type ℓ}
    → (Has : A → Type κ) → (b : Bool) → (x y : A) → Has x
    → Has y
    → Has (if b then x else y)
choose Has true x y p q = p
choose Has false x y p q = q

pub note_each-Holds {ℓ} :
    {A : Type ℓ} (env : RuntimeEnv) (Holds : Db → Type 0) (kept : IsKept env.run_id Holds)
    (event_type : String) (xs : List A) (s : RunState)
    → str_eq event_type "tool_call" ≡ false
    → Holds s.db
    → Holds (note_each env event_type xs s).db
unfolding record_event
note_each-Holds env Holds kept event_type [] s e p = p
note_each-Holds env Holds kept event_type (x ∷ xs) s e p =
    note_each-Holds env Holds kept event_type xs (note env event_type s) e
      (kept.noted _ event_type none s.db e p)

module _ (env : RuntimeEnv) (Holds : Db → Type 0) (kept : IsKept env.run_id Holds) where
  abbrev pub HoldsAfter : Result → Type 0
  HoldsAfter r = Holds (left_by r)

  pub record_event-Holds :
      (event_type : String) (payload : Option Payload) (s : RunState)
      → str_eq event_type "tool_call" ≡ false
      → Holds s.db
      → Holds (record_event env event_type payload s).db
  unfolding record_event
  record_event-Holds event_type payload s e p = kept.noted _ event_type payload s.db e p

  pub complete_run-Holds : (s : RunState) → Holds s.db → HoldsAfter (complete_run env s)
  unfolding complete_run
  complete_run-Holds s p =
      record_event-Holds "final_report" none (set_status env completed none s) refl
        (kept.updated completed none s.db p)

  pub hand_over-Holds :
      (reason : String) (s : RunState) → Holds s.db → HoldsAfter (hand_over env reason s)
  unfolding hand_over
  hand_over-Holds reason s p =
      record_event-Holds "handoff" none (set_status env handoff_required (some reason) s) refl
        (kept.updated handoff_required (some reason) s.db p)

  pub recover_and_hand_over-Holds :
      (reason : String) (s : RunState)
      → Holds s.db
      → HoldsAfter (recover_and_hand_over env reason s)
  unfolding recover_and_hand_over
  recover_and_hand_over-Holds reason s p =
      hand_over-Holds reason (note env "recovery" s) (record_event-Holds "recovery" none s refl p)

  pub pause-Holds :
      (payload : Payload) (s : RunState) → Holds s.db → HoldsAfter (pause env payload s)
  unfolding pause
  pause-Holds payload s p =
      record_event-Holds "approval_required" (some payload) (set_status env waiting_approval none s)
        refl (kept.updated waiting_approval none s.db p)

  pub hand_over_for-Holds :
      (quality : EvidenceQuality) (s : RunState)
      → Holds s.db
      → HoldsAfter (hand_over_for env quality s)
  unfolding hand_over_for
  hand_over_for-Holds quality s p = recover_and_hand_over-Holds _ s p

  pub settle-Holds : (r : Result) → HoldsAfter r → Holds (settle env r)
  unfolding settle fail_run
  settle-Holds (finished db) p = p
  settle-Holds (timed_out db) p =
      kept.noted _ "timeout" none _ refl (kept.updated failed (some "TimeoutError") db p)
  settle-Holds (raised db) p =
      kept.noted _ "error" none _ refl (kept.updated failed (some "Exception") db p)

  pub conclude-Holds :
      (enabled has_strong : Bool) (skipped : List String) (s : RunState)
      → Holds s.db
      → HoldsAfter (conclude env enabled has_strong skipped s)
  unfolding conclude
  conclude-Holds enabled has_strong skipped s p =
      choose HoldsAfter (is_expired env s) (timed_out s.db) _ p (
        choose HoldsAfter
          (enabled
            && ltb 1 (length s.evidence)
            && is_conflict (assess_many env.normalize_cause s.evidence).quality)
          _ _ (hand_over_for-Holds conflicting (read_clock s) p)
          (choose HoldsAfter (enabled && is_nonempty skipped && not has_strong) _ _
            (recover_and_hand_over-Holds "budget_exhausted" (read_clock s) p)
            (complete_run-Holds (read_clock s) p)))

  pub note_if-Holds :
      (b : Bool) (event_type : String) (s : RunState)
      → str_eq event_type "tool_call" ≡ false
      → Holds s.db
      → Holds (note_if b env event_type s).db
  note_if-Holds true event_type s e p = record_event-Holds event_type none s e p
  note_if-Holds false event_type s e p = p

  pub set_the_scene-Holds : (s : RunState) → Holds s.db → Holds (set_the_scene env s).db
  unfolding set_the_scene
  set_the_scene-Holds s p = note_if-Holds env.has_skills "skill_match" _ refl (
      note_if-Holds env.has_citations "knowledge_citations" _ refl (
        note_if-Holds env.has_memories "memory_context" _ refl (
          note_if-Holds env.has_knowledge "knowledge_context" _ refl
            (record_event-Holds "hypothesis" none s refl p))))

  end_loop-Holds :
      (reason : TerminationReason) (st : AgentDecisionState) (s : RunState)
      → Holds s.db
      → HoldsAfter (end_loop env reason st s)
  unfolding end_loop
  end_loop-Holds approval_required st s p = pause-Holds governance s p
  end_loop-Holds (action ActionType.handoff) st s p =
      hand_over-Holds (reason_of (get_last? st.decisions)) s p
  end_loop-Holds (action ActionType.observe) st s p = complete_run-Holds s p
  end_loop-Holds (action ActionType.call_tool) st s p = complete_run-Holds s p
  end_loop-Holds (action ActionType.ask_approval) st s p = complete_run-Holds s p
  end_loop-Holds (action ActionType.recover) st s p = complete_run-Holds s p
  end_loop-Holds (action ActionType.final_report) st s p = complete_run-Holds s p
  end_loop-Holds TerminationReason.max_time_reached st s p = complete_run-Holds s p
  end_loop-Holds TerminationReason.max_tokens_reached st s p = complete_run-Holds s p
  end_loop-Holds TerminationReason.low_confidence_handoff st s p = complete_run-Holds s p
  end_loop-Holds TerminationReason.max_steps_reached st s p = complete_run-Holds s p

  use_loop_result-Holds :
      (r : Option LoopResult) (s : RunState) → Holds s.db → HoldsAfter (use_loop_result env r s)
  unfolding use_loop_result
  use_loop_result-Holds none s p =
      choose HoldsAfter env.loop_times_out (timed_out s.db) (raised s.db) p p
  use_loop_result-Holds (some r) s p = end_loop-Holds r.termination_reason r.final.state _ (
      note_each-Holds env Holds kept "decision" r.final.steps _ refl
        (note_each-Holds env Holds kept "provider_fallback" r.final.fallback_events s refl p))

  pub loop_path-Holds :
      (config : RuntimeSafetyConfig) (st : AgentDecisionState) (s : RunState)
      → Holds s.db
      → HoldsAfter (loop_path env config st s)
  unfolding loop_path
  loop_path-Holds config st s p = use_loop_result-Holds _ (read_clock s) p
