-- ===== src/Loop.antt =====
-- The bounded decision loop (`BoundedReActLoop` in app/agent_runtime/loop.py) with the human
-- interventions of `Intervention`. The loop's collaborators are the fields of
-- `Loop`; the clock, the tools and the arriving interventions are functions of the step's index.
-- Tracing, cost estimates and the memory context are left out; times are in milliseconds.
pub mod Bounds
pub mod Returns
pub mod Stall
mod Tests
use smart_sre_copilot.Prelude.{
  ℕ, zero, suc, ◌+◌, ◌-◌, min, max, String, Bool, true, false, ◌&&◌, not, Option, none, some, List,
  [], ◌∷◌, ◌++◌, str_eq, leb, ltb, ◌==◌, if◌then◌else◌, contains, any, get_last?,
}
use smart_sre_copilot.Decision.{
  ActionType, call_tool, ask_approval, final_report, handoff, EvidenceAssessment, EvidenceQuality,
  strong, empty, RuntimeBudget, AgentDecision, AgentDecisionState, AgentObservation,
  AgentGoalContract, DecisionProvider, FallbackEvent, DecisionRunStatus, with_decision,
  decide_with_fallback, chosen, no_evidence,
}
use smart_sre_copilot.Decision.Graph.{is_call_tool}
use smart_sre_copilot.Evidence.{EvidenceItem}
use smart_sre_copilot.Intervention.{
  InterventionType, inject_evidence, replace_tool_call, modify_goal, Intervention, or_else,
  apply_injected_evidence, apply_replace_decision, apply_modify_goal, apply_before,
  apply_pending_interventions, is_replacement, apply_replace_intervention, replacements, others,
}
use smart_sre_copilot.Recovery.{
  RecoveryPlan, RecoveryAction, continue, quality_text, decision_from_recovery_plan,
}

pub record LoopBudget : Type 0 where
  pub max_steps : ℕ
  pub max_time : ℕ
  pub max_tokens : Option ℕ

-- `normalize`: at least one step and one millisecond.
abbrev pub normalize : LoopBudget → LoopBudget
normalize b = record b { max_steps = max b.max_steps 1; max_time = max b.max_time 1 }

-- `_budget_from_state`
abbrev pub budget_from_state : AgentDecisionState → LoopBudget
budget_from_state s = record {
  max_steps = s.budget.max_steps;
  max_time = s.budget.run_timeout;
  max_tokens = none;
}

pub record LoopStep : Type 0 where
  pub step_index : ℕ
  pub decision : AgentDecision
  pub token_usage : ℕ

pub data TerminationReason : Type 0 where
  max_time_reached approval_required max_tokens_reached low_confidence_handoff max_steps_reached :
      TerminationReason
  action : ActionType → TerminationReason

-- ---------------------------------------------------------------- the loop's collaborators

pub record ToolResult : Type 0 where
  pub status : String
  pub evidence_item : EvidenceItem

-- The report of `get_token_usage`.
pub record TokenUsage : Type 0 where
  pub prompt_tokens : ℕ
  pub completion_tokens : ℕ
  pub total : ℕ

pub record Loop : Type 0 where
  pub provider : DecisionProvider
  pub fallback_provider : Option DecisionProvider
  pub token_estimator : Option (AgentDecision → ℕ)
  -- What the provider that decided reports at a step; `none` where it has no report.
  pub get_token_usage : ℕ → Option TokenUsage
  pub recovery_manager : Option (String → ℕ → Bool → RecoveryPlan)
  -- The tool's result at a step; `none` is an exception, which leaves `run`.
  pub tool_executor : Option (ℕ → AgentDecision → Option ToolResult)
  pub evidence_assessor : Option (EvidenceItem → EvidenceAssessment)
  pub has_intervention_bridge : Bool
  -- The interventions that arrive for the run before a step decides, and while it decides.
  pub arriving : ℕ → List Intervention
  pub arriving_late : ℕ → List Intervention
  pub max_low_confidence_steps : Option ℕ
  pub low_confidence_threshold : ℕ
  -- The clock at the start of a step; `started` is its reading when `run` begins.
  pub started : ℕ
  pub clock : ℕ → ℕ

-- What `run` carries from step to step, and what its result holds.
pub record LoopState : Type 0 where
  pub state : AgentDecisionState
  pub steps : List LoopStep
  pub evidence_items : List EvidenceItem
  pub token_usage : ℕ
  pub low_confidence : ℕ
  pub pending : List Intervention
  pub fallback_events : List FallbackEvent

pub data Outcome : Type 0 where
  goes_on : LoopState → Outcome
  stopped : TerminationReason → LoopState → Outcome
  raises : Outcome

-- ---------------------------------------------------------------- decide

abbrev pub latest_evidence : AgentDecisionState → EvidenceAssessment
latest_evidence s = or_else (get_last? s.evidence) no_evidence

abbrev pub is_strong_quality : EvidenceQuality → Bool
is_strong_quality strong = true
is_strong_quality _ = false

has_weak_last : Option EvidenceAssessment → Bool
has_weak_last none = false
has_weak_last (some e) = not (is_strong_quality e.quality)

-- `_requires_recovery`
unfoldable pub requires_recovery : AgentDecisionState → Bool
unfolding has_weak_last
requires_recovery s =
    if ltb 0 s.consecutive_empty_evidence then true else has_weak_last (get_last? s.evidence)

-- `_has_remaining_tool`
unfoldable pub has_remaining_tool : AgentDecisionState → Bool
has_remaining_tool s = any (λ tool. not (contains tool s.executed_tools)) s.available_tools

abbrev pub is_continue : RecoveryAction → Bool
is_continue continue = true
is_continue _ = false

abbrev pub planned : RecoveryPlan → EvidenceAssessment → Option AgentDecision
planned p evidence =
    if is_continue p.action then none else some (decision_from_recovery_plan p evidence)

recover_with : Option (String → ℕ → Bool → RecoveryPlan) → AgentDecisionState → Option AgentDecision
recover_with none s = none
recover_with (some choose) s =
    if requires_recovery s
    then planned
        (choose (quality_text (latest_evidence s).quality) s.consecutive_empty_evidence
          (has_remaining_tool s))
        (latest_evidence s)
    else none

-- `_recover_if_required`
unfoldable pub recover_if_required : Loop → AgentDecisionState → Option AgentDecision
unfolding recover_with
recover_if_required l s = recover_with l.recovery_manager s

unfoldable pub decide_or :
    Option AgentDecision → Loop → AgentDecisionState → Option (AgentDecision × List FallbackEvent)
decide_or (some d) l s = some (d, [])
decide_or none l s = decide_with_fallback l.provider l.fallback_provider s

-- `_decide`: `none` is an exception with no fallback left.
unfoldable pub decide_step : Loop → AgentDecisionState → Option (AgentDecision × List FallbackEvent)
decide_step l s = decide_or (recover_if_required l s) l s

-- ---------------------------------------------------------------- act

abbrev pub is_empty_quality : EvidenceQuality → Bool
is_empty_quality empty = true
is_empty_quality _ = false

-- `_add_tool_evidence`
unfoldable pub add_tool_evidence :
    String → EvidenceAssessment → AgentDecisionState → AgentDecisionState
add_tool_evidence tool a s = record s {
  executed_tools =
      if contains tool s.executed_tools then s.executed_tools else s.executed_tools ++ tool ∷ [];
  evidence = s.evidence ++ a ∷ [];
  consecutive_empty_evidence =
      if is_empty_quality a.quality then suc s.consecutive_empty_evidence else 0;
}

-- `_assess`
abbrev pub assess_with :
    Option (EvidenceItem → EvidenceAssessment) → AgentDecision → EvidenceItem → EvidenceAssessment
assess_with none d item = d.evidence
assess_with (some assess) d item = assess item

-- ---------------------------------------------------------------- account and record

-- `_step_token_usage`: the estimate, or the total that the provider reports.
abbrev pub step_tokens : Option (AgentDecision → ℕ) → Option TokenUsage → AgentDecision → ℕ
step_tokens (some estimate) usage d = estimate d
step_tokens none none d = 0
step_tokens none (some u) d =
    if u.total == 0 then u.prompt_tokens + u.completion_tokens else u.total

abbrev pub is_terminal : ActionType → Bool
is_terminal ask_approval = true
is_terminal final_report = true
is_terminal handoff = true
is_terminal _ = false

abbrev pub exceeds : ℕ → Option ℕ → Bool
exceeds tokens none = false
exceeds tokens (some max_tokens) = ltb max_tokens tokens

abbrev pub reaches : ℕ → Option ℕ → Bool
reaches n none = false
reaches n (some limit) = leb limit n

abbrev pub make_step : ℕ → AgentDecision → ℕ → LoopStep
make_step i d tokens = record { step_index = i; decision = d; token_usage = tokens }

-- The end of a step, with the low-confidence handoff.
unfoldable pub finish_step : Loop → AgentDecision → LoopState → Outcome
finish_step l d ls =
    if is_terminal d.action_type
    then stopped (action d.action_type) ls
    else let ls' : LoopState = record ls {
      low_confidence =
          if ltb d.confidence l.low_confidence_threshold then suc ls.low_confidence else 0;
    } in
      if reaches ls'.low_confidence l.max_low_confidence_steps
      then stopped low_confidence_handoff ls'
      else goes_on ls'

-- The tokens of the step, the token limit, and the record of the step.
unfoldable pub account_step : Loop → LoopBudget → ℕ → AgentDecision → LoopState → Outcome
unfolding finish_step
account_step l b i d ls =
    let tokens = step_tokens l.token_estimator (l.get_token_usage i) d in
    let spent : LoopState = record ls { token_usage = ls.token_usage + tokens } in
    if exceeds spent.token_usage b.max_tokens
    then stopped max_tokens_reached spent
    else finish_step l d (record spent {
      state = with_decision d ls.state;
      steps = ls.steps ++ make_step i d tokens ∷ [];
    })

-- What follows the result of a tool: the evidence, then the pause for an approval or the accounts.
unfoldable pub after_tool :
    Loop → LoopBudget → ℕ → AgentDecision → String → Option ToolResult → LoopState → Outcome
unfolding account_step add_tool_evidence
after_tool l b i d tool none ls = raises
after_tool l b i d tool (some r) ls =
    let ls' : LoopState = record ls {
      evidence_items = ls.evidence_items ++ r.evidence_item ∷ [];
      state = add_tool_evidence tool (assess_with l.evidence_assessor d r.evidence_item) ls.state;
    } in
    if str_eq r.status "approval_required"
    then stopped approval_required (record ls' { steps = ls.steps ++ make_step i d 0 ∷ [] })
    else account_step l b i d ls'

-- `decision.action_type == "call_tool" and decision.selected_tool`
abbrev pub called_tool : AgentDecision → Option String
called_tool d = if is_call_tool d.action_type then chosen d.selected_tool else none

unfoldable pub act_with :
    Option (ℕ → AgentDecision → Option ToolResult)
    → Option String
    → Loop
    → LoopBudget
    → ℕ
    → AgentDecision
    → LoopState
    → Outcome
unfolding after_tool account_step
act_with (some execute) (some tool) l b i d ls = after_tool l b i d tool (execute i d) ls
act_with none (some tool) l b i d ls = account_step l b i d ls
act_with _ none l b i d ls = account_step l b i d ls

-- ---------------------------------------------------------------- one step

-- `state.run_id` is set.
abbrev pub names_run : AgentDecisionState → Bool
names_run s = elim (chosen s.run_id) [ none ↦ false | some _ ↦ true ]

-- The pending interventions that a step sees.
abbrev pub heard : Loop → AgentDecisionState → List Intervention → List Intervention
heard l s queue = if l.has_intervention_bridge && names_run s then queue else []

-- `_state_with_remaining_budget`
abbrev pub state_with_remaining_budget : LoopBudget → ℕ → AgentDecisionState → AgentDecisionState
state_with_remaining_budget b remaining_steps s = record s {
  budget = record {
    max_steps = b.max_steps;
    remaining_steps = remaining_steps;
    max_tool_calls = s.budget.max_tool_calls;
    remaining_tool_calls = s.budget.remaining_tool_calls;
    run_timeout = b.max_time;
    remaining_time = some b.max_time;
  };
}

-- The loop's state behind the interventions, with the budget that remains.
abbrev pub ready_with :
    LoopBudget → ℕ → List Intervention → LoopState → Option AgentDecisionState → Option LoopState
ready_with b i queue ls none = none
ready_with b i queue ls (some s) = some (record ls {
  pending = replacements queue;
  state = state_with_remaining_budget b (b.max_steps - i) s;
})

-- The interventions in front of the decision: `none` is an exception.
unfoldable pub prepare : Loop → LoopBudget → ℕ → LoopState → Option LoopState
unfolding apply_pending_interventions
prepare l b i ls =
    let queue = heard l ls.state (ls.pending ++ l.arriving i) in
    ready_with b i queue ls (apply_pending_interventions queue ls.state)

-- The step behind a decision: the replacements, the tool, the accounts.
unfoldable pub follow_decision :
    Loop → LoopBudget → ℕ → Option (AgentDecision × List FallbackEvent) → LoopState → Outcome
unfolding apply_replace_intervention act_with
follow_decision l b i none ls = raises
follow_decision l b i (some (d, events)) ls =
    let queue = heard l ls.state (ls.pending ++ l.arriving_late i) in
    let d' = apply_replace_intervention queue d in
    act_with l.tool_executor (called_tool d') l b i d'
      (record ls { pending = others queue; fallback_events = ls.fallback_events ++ events })

unfoldable pub decide_ready : Loop → LoopBudget → ℕ → Option LoopState → Outcome
unfolding follow_decision decide_step
decide_ready l b i none = raises
decide_ready l b i (some ready) = follow_decision l b i (decide_step l ready.state) ready

unfoldable pub loop_step : Loop → LoopBudget → ℕ → LoopState → Outcome
unfolding prepare decide_ready
loop_step l b i ls =
    if leb (l.started + b.max_time) (l.clock i)
    then stopped max_time_reached ls
    else decide_ready l b i (prepare l b i ls)

-- ---------------------------------------------------------------- run

pub record LoopResult : Type 0 where
  pub final : LoopState
  pub termination_reason : TerminationReason

-- The next steps, or the result.
abbrev pub next_or_end : (LoopState → Option LoopResult) → Outcome → Option LoopResult
next_or_end next (goes_on ls) = next ls
next_or_end next (stopped reason ls) = some (record { final = ls; termination_reason = reason })
next_or_end next raises = none

-- The steps from index `i` on, `n` of them at most: `for step_index in range(budget.max_steps)`.
unfoldable pub run_steps : Loop → LoopBudget → ℕ → ℕ → LoopState → Option LoopResult
run_steps l b zero i ls = some (record { final = ls; termination_reason = max_steps_reached })
run_steps l b (suc n) i ls = next_or_end (run_steps l b n (suc i)) (loop_step l b i ls)

abbrev pub start_loop : AgentDecisionState → LoopState
start_loop s = record {
  state = s;
  steps = [];
  evidence_items = [];
  token_usage = 0;
  low_confidence = 0;
  pending = [];
  fallback_events = [];
}

-- `run`: `none` is an exception that leaves it.
unfoldable pub run : Loop → Option LoopBudget → AgentDecisionState → Option LoopResult
run l budget s =
    let b = normalize (or_else budget (budget_from_state s)) in
    run_steps l b b.max_steps 0 (start_loop s)
