-- ===== src/Loop/Returns.antt =====
-- Whether a run of the loop (app/agent_runtime/loop.py) comes to a result.
use smart_sre_copilot.Prelude.{
  ℕ, zero, suc, ◌+◌, String, ◌≡◌, ◌≢◌, inl, inr, refl, Bool, true, false, ◌&&◌, ◌-◌, ◌<◌, arith,
  Option, none, some, List, [], ◌∷◌, ◌++◌, All, All-append, Bool-cases, leb, str_eq, ltb,
  if◌then◌else◌, any, not,
}
use smart_sre_copilot.Decision.{
  AgentDecision, AgentDecisionState, FallbackEvent, decide_with_fallback,
}
use smart_sre_copilot.Intervention.{
  InterventionType, inject_evidence, replace_tool_call, modify_goal, Intervention, or_else,
  is_observation, apply_injected_evidence, apply_before, and_then, apply_pending_interventions,
  is_replacement, replacements, others,
}
use smart_sre_copilot.Loop.{
  prepare, ready_with, decide_ready, heard, names_run, state_with_remaining_budget, LoopBudget,
  ToolResult, Loop, LoopState, Outcome, goes_on, stopped, raises, finish_step, account_step,
  after_tool, act_with, follow_decision, loop_step, LoopResult, next_or_end, run_steps, start_loop,
  run, decide_step, decide_or, recover_if_required, exceeds, step_tokens, is_terminal, reaches,
}
use smart_sre_copilot.Loop.Bounds.{limits}

-- Injected evidence that `AgentObservation` takes; the other interventions are always applied.
abbrev pub is_applicable : InterventionType → Intervention → Bool
is_applicable inject_evidence iv =
    is_observation (or_else iv.source "human_intervention") (or_else iv.content "")
      (or_else iv.sureness (some 100))
is_applicable _ iv = true

abbrev pub IsApplicable : Intervention → Type 0
IsApplicable iv = is_applicable iv.intervention_type iv ≡ true

-- The outcome is not an exception, and what stays pending can be applied.
abbrev Returns : Outcome → Type 0
Returns raises = ⊥
Returns (goes_on ls) = All IsApplicable ls.pending
Returns (stopped reason ls) = Unit

-- ---------------------------------------------------------------- interventions

before_some :
    (kind : InterventionType) (iv : Intervention) (s : AgentDecisionState)
    → is_applicable kind iv ≡ true
    → apply_before kind iv s ≢ none
unfolding apply_injected_evidence
before_some inject_evidence iv s a = rw a (λ e. cc)
before_some modify_goal iv s a = λ e. cc
before_some replace_tool_call iv s a = λ e. cc

then_some {ℓ κ} :
    {A : Type ℓ}
    → {B : Type κ} → (next : A → Option B) (o : Option A) → o ≢ none
    → ((a : A) → next a ≢ none)
    → and_then next o ≢ none
then_some next none n again = absurd (n refl)
then_some next (some a) n again = again a

pending_some :
    (queue : List Intervention) (s : AgentDecisionState)
    → All IsApplicable queue
    → apply_pending_interventions queue s ≢ none
unfolding apply_pending_interventions
pending_some [] s a = λ e. cc
pending_some (iv ∷ ivs) s (first, rest) =
    then_some (apply_pending_interventions ivs) (apply_before iv.intervention_type iv s)
      (before_some iv.intervention_type iv s first) (λ s'. pending_some ivs s' rest)

is_replacement-applicable :
    (kind : InterventionType) (iv : Intervention)
    → is_replacement kind ≡ true
    → is_applicable kind iv ≡ true
is_replacement-applicable replace_tool_call iv r = refl
is_replacement-applicable inject_evidence iv r = cc r
is_replacement-applicable modify_goal iv r = cc r

replacements-All : (queue : List Intervention) → All IsApplicable (replacements queue)
replacements-All [] = tt
replacements-All (iv ∷ ivs) = elim (Bool-cases (is_replacement iv.intervention_type)) [
  | inl r ↦ rw r (is_replacement-applicable iv.intervention_type iv r, replacements-All ivs)
  | inr r ↦ rw r (replacements-All ivs)
]

others-All : (queue : List Intervention) → All IsApplicable queue → All IsApplicable (others queue)
others-All [] a = tt
others-All (iv ∷ ivs) (first, rest) = elim (Bool-cases (is_replacement iv.intervention_type)) [
  | inl r ↦ rw r (others-All ivs rest)
  | inr r ↦ rw r (first, others-All ivs rest)
]

heard-All :
    (l : Loop) (s : AgentDecisionState) (queue : List Intervention)
    → All IsApplicable queue
    → All IsApplicable (heard l s queue)
heard-All l s queue a = elim (Bool-cases (l.has_intervention_bridge && names_run s)) [
  | inl h ↦ rw h a
  | inr h ↦ rw h tt
]

-- ---------------------------------------------------------------- a step

-- A provider always decides.
abbrev pub Decides : Loop → Type 0
Decides l = (s : AgentDecisionState) → decide_with_fallback l.provider l.fallback_provider s ≢ none

-- No tool raises.
abbrev pub Executes : Option (ℕ → AgentDecision → Option ToolResult) → Type 0
Executes none = Unit
Executes (some execute) = (i : ℕ) (d : AgentDecision) → execute i d ≢ none

module _ (l : Loop) (b : LoopBudget) (i : ℕ) where
  finish_step-Returns :
      (d : AgentDecision) (ls : LoopState)
      → All IsApplicable ls.pending
      → Returns (finish_step l d ls)
  unfolding finish_step
  finish_step-Returns d ls a =
      let n = if ltb d.confidence l.low_confidence_threshold then suc ls.low_confidence else 0 in
      elim (Bool-cases (is_terminal d.action_type)) [
        | inl e ↦ rw e _
        | inr e ↦ elim (Bool-cases (reaches n l.max_low_confidence_steps)) [
          | inl low ↦ rw (e, low) _
          | inr high ↦ rw (e, high) a
        ]
      ]

  account_step-Returns :
      (d : AgentDecision) (ls : LoopState)
      → All IsApplicable ls.pending
      → Returns (account_step l b i d ls)
  unfolding account_step
  account_step-Returns d ls a =
      let tokens = step_tokens l.token_estimator (l.get_token_usage i) d in
      elim (Bool-cases (exceeds (ls.token_usage + tokens) b.max_tokens)) [
        | inl over ↦ rw over _
        | inr under ↦ rw under (finish_step-Returns d _ a)
      ]

  after_tool-Returns :
      (d : AgentDecision) (tool : String) (o : Option ToolResult) (ls : LoopState)
      → o ≢ none
      → All IsApplicable ls.pending
      → Returns (after_tool l b i d tool o ls)
  unfolding after_tool
  after_tool-Returns d tool none ls n a = absurd (n refl)
  after_tool-Returns d tool (some r) ls n a =
      elim (Bool-cases (str_eq r.status "approval_required")) [
        | inl paused ↦ rw paused _
        | inr done ↦ rw done (account_step-Returns d _ a)
      ]

  act_with-Returns :
      (executor : Option (ℕ → AgentDecision → Option ToolResult)) (tool : Option String)
      (d : AgentDecision) (ls : LoopState)
      → Executes executor
      → All IsApplicable ls.pending
      → Returns (act_with executor tool l b i d ls)
  unfolding act_with
  act_with-Returns (some execute) (some tool) d ls x a =
      after_tool-Returns d tool (execute i d) ls (x i d) a
  act_with-Returns none (some tool) d ls x a = account_step-Returns d ls a
  act_with-Returns (some execute) none d ls x a = account_step-Returns d ls a
  act_with-Returns none none d ls x a = account_step-Returns d ls a

  follow_decision-Returns :
      (o : Option (AgentDecision × List FallbackEvent)) (ls : LoopState)
      → Executes l.tool_executor
      → All IsApplicable (l.arriving_late i)
      → o ≢ none
      → All IsApplicable ls.pending
      → Returns (follow_decision l b i o ls)
  unfolding follow_decision
  follow_decision-Returns none ls x late n a = absurd (n refl)
  follow_decision-Returns (some (d, events)) ls x late n a =
      let queue = ls.pending ++ l.arriving_late i in
      act_with-Returns l.tool_executor _ _ _ x (
        others-All (heard l ls.state queue) (
          heard-All l ls.state queue
            (All-append IsApplicable ls.pending (l.arriving_late i) a late)))

  decide_or_some :
      (o : Option AgentDecision) (s : AgentDecisionState) → Decides l → decide_or o l s ≢ none
  unfolding decide_or
  decide_or_some none s d = d s
  decide_or_some (some a) s d = λ e. cc

  ready-Returns :
      (queue : List Intervention) (ls : LoopState) (o : Option AgentDecisionState)
      → o ≢ none
      → Decides l
      → Executes l.tool_executor
      → All IsApplicable (l.arriving_late i)
      → Returns (decide_ready l b i (ready_with b i queue ls o))
  unfolding decide_ready decide_step
  ready-Returns queue ls none n d x late = absurd (n refl)
  ready-Returns queue ls (some s) n d x late =
      let s' = state_with_remaining_budget b (b.max_steps - i) s in
      follow_decision-Returns (decide_step l s') _ x late
        (decide_or_some (recover_if_required l s') s' d) (replacements-All queue)

  loop_step-Returns :
      (ls : LoopState)
      → Decides l
      → Executes l.tool_executor
      → All IsApplicable (l.arriving i)
      → All IsApplicable (l.arriving_late i)
      → All IsApplicable ls.pending
      → Returns (loop_step l b i ls)
  unfolding loop_step prepare
  loop_step-Returns ls d x early_ones late_ones a =
      elim (Bool-cases (leb (l.started + b.max_time) (l.clock i))) [
        | inl late ↦ rw late _
        | inr early ↦
            let queue = heard l ls.state (ls.pending ++ l.arriving i) in
            rw early (
              ready-Returns queue ls (apply_pending_interventions queue ls.state)
                (pending_some queue ls.state (
                  heard-All l ls.state (ls.pending ++ l.arriving i)
                    (All-append IsApplicable ls.pending (l.arriving i) a early_ones)))
                d x late_ones)
      ]

next-some :
    (next : LoopState → Option LoopResult) (o : Outcome)
    → Returns o
    → ((ls : LoopState) → All IsApplicable ls.pending → (r : LoopResult) × (next ls ≡ some r))
    → (r : LoopResult) × (next_or_end next o ≡ some r)
next-some next (goes_on ls) k again = again ls k
next-some next (stopped reason ls) k again = (_, refl)
next-some next raises k again = elim k [ ]

-- Whatever arrives can be applied.
abbrev pub Hears : Loop → Type 0
Hears l = (i : ℕ) → All IsApplicable (l.arriving i) × All IsApplicable (l.arriving_late i)

run_steps-some :
    (l : Loop) (b : LoopBudget) (n i : ℕ) (ls : LoopState)
    → Decides l
    → Executes l.tool_executor
    → Hears l
    → All IsApplicable ls.pending
    → (r : LoopResult) × (run_steps l b n i ls ≡ some r)
unfolding run_steps
run_steps-some l b zero i ls d x h a = (_, refl)
run_steps-some l b (suc n) i ls d x h a =
    next-some (run_steps l b n (suc i)) (loop_step l b i ls)
      (loop_step-Returns l b i ls d x (h i).0 (h i).1 a)
      (λ ls' a'. run_steps-some l b n (suc i) ls' d x h a')

-- A run comes to a result for every state and every limit, where a provider always decides, no tool
-- raises, and each injection of evidence that arrives has a source, a content and a confidence
-- within bounds.
pub run_returns :
    (l : Loop) (budget : Option LoopBudget) (s : AgentDecisionState)
    → Decides l
    → Executes l.tool_executor
    → Hears l
    → (r : LoopResult) × (run l budget s ≡ some r)
unfolding run
run_returns l budget s d x h =
    run_steps-some l (limits budget s) (limits budget s).max_steps 0 (start_loop s) d x h tt

bad_before :
    (kind : InterventionType) (iv : Intervention) (s : AgentDecisionState)
    → is_applicable kind iv ≡ false
    → apply_before kind iv s ≡ none
unfolding apply_injected_evidence
bad_before inject_evidence iv s bad = rw bad refl
bad_before modify_goal iv s bad = cc bad
bad_before replace_tool_call iv s bad = cc bad

then_none {ℓ κ} :
    {A : Type ℓ}
    → {B : Type κ} → (next : A → Option B) (o : Option A) → ((a : A) → next a ≡ none)
    → and_then next o ≡ none
then_none next none again = refl
then_none next (some a) again = again a

-- Some intervention of the queue cannot be applied.
abbrev pub has_bad : List Intervention → Bool
has_bad = any (λ iv. not (is_applicable iv.intervention_type iv))

pending_none :
    (queue : List Intervention) (s : AgentDecisionState)
    → has_bad queue ≡ true
    → apply_pending_interventions queue s ≡ none
unfolding apply_pending_interventions
pending_none [] s bad = cc bad
pending_none (iv ∷ ivs) s bad = elim (Bool-cases (is_applicable iv.intervention_type iv)) [
  | inr first ↦ rw (bad_before iv.intervention_type iv s first) refl
  | inl fine ↦
      then_none (apply_pending_interventions ivs) (apply_before iv.intervention_type iv s)
        (λ s'. pending_none ivs s' (rw fine at bad))
]

bad_step :
    (l : Loop) (b : LoopBudget) (s : AgentDecisionState)
    → has_bad (l.arriving 0) ≡ true
    → l.has_intervention_bridge && names_run s ≡ true
    → leb (l.started + b.max_time) (l.clock 0) ≡ false
    → loop_step l b 0 (start_loop s) ≡ raises
unfolding loop_step prepare decide_ready
bad_step l b s bad hears early = rw (early, hears, pending_none (l.arriving 0) s bad) refl

steps_raise :
    (l : Loop) (b : LoopBudget) (n : ℕ) (ls : LoopState)
    → 0 < n
    → loop_step l b 0 ls ≡ raises
    → run_steps l b n 0 ls ≡ none
unfolding run_steps
steps_raise l b zero ls h e = absurd (omega (arith, h))
steps_raise l b (suc n) ls h e = rw e refl

-- An injection of evidence that is out of bounds and arrives for the first step makes the run raise,
-- whatever else arrives with it, where the run hears interventions and has time for the step.
pub bad_injection_raises :
    (l : Loop) (budget : Option LoopBudget) (s : AgentDecisionState)
    → has_bad (l.arriving 0) ≡ true
    → l.has_intervention_bridge && names_run s ≡ true
    → leb (l.started + (limits budget s).max_time) (l.clock 0) ≡ false
    → run l budget s ≡ none
unfolding run
bad_injection_raises l budget s bad hears early =
    let b = limits budget s in
    steps_raise l b b.max_steps (start_loop s) (omega arith) (bad_step l b s bad hears early)
