-- ===== src/Decision.antt =====
-- The decision layer (app/agent_runtime/decision.py): the records that decisions are made of, the
-- rule-based provider and the checks of the model-backed one. `Decision.Graph` is the graph.
-- Confidences are in hundredths, times in milliseconds. Texts that only people read (summaries,
-- citations, expected evidence) and the hypothesis queue are left out; `evidence.actual_evidence`,
-- `selected_action` and `decision_status` repeat other fields and are left out too.
pub mod Graph
pub mod Provider
mod Tests
use smart_sre_copilot.Prelude.{
  ℕ, zero, ◌+◌, ◌-◌, min, max, String, Bool, true, false, ◌&&◌, ◌||◌, not, Option, none, some, List,
  [], ◌∷◌, ◌++◌, str_eq, if◌then◌else◌, leb, ltb, find?, keep_if, contains,
}

pub data ActionType : Type 0 where
  observe call_tool ask_approval recover final_report handoff : ActionType

pub data EvidenceQuality : Type 0 where
  strong partial weak empty conflicting error : EvidenceQuality

pub data DecisionRunStatus : Type 0 where
  running waiting_approval completed failed handoff_required cancelled : DecisionRunStatus

-- `RecoveryDecision.next_action`
pub data NextAction : Type 0 where
  retry ask_approval handoff final_report : NextAction

pub record EvidenceAssessment : Type 0 where
  pub quality : EvidenceQuality
  pub confidence : ℕ

pub record RecoveryDecision : Type 0 where
  pub required : Bool
  pub reason : Option String
  pub next_action : Option NextAction

abbrev pub no_recovery : RecoveryDecision
no_recovery = record { required = false; reason = none; next_action = none }

abbrev pub recovery : String → NextAction → RecoveryDecision
recovery reason next_action = record {
  required = true;
  reason = some reason;
  next_action = some next_action;
}

pub record AgentDecision : Type 0 where
  pub action_type : ActionType
  pub selected_tool : Option String
  pub tool_arguments : List (String × String)
  pub evidence : EvidenceAssessment
  pub recovery : RecoveryDecision
  pub confidence : ℕ
  pub handoff_reason : Option String

-- `handoff_reason` as `_normalize_decision_payload` fills it.
abbrev default_handoff_reason : Option String → RecoveryDecision → Option String
default_handoff_reason (some reason) r = some reason
default_handoff_reason none r = if r.required then r.reason else none

-- The constructor: the fields given, the others at their defaults, and the validator behind it.
abbrev pub new_decision :
    ActionType
    → Option String
    → List (String × String)
    → EvidenceAssessment
    → RecoveryDecision
    → ℕ
    → AgentDecision
new_decision action_type selected_tool tool_arguments evidence r confidence = record {
  action_type = action_type;
  selected_tool = selected_tool;
  tool_arguments = tool_arguments;
  evidence = evidence;
  recovery = r;
  confidence = confidence;
  handoff_reason = default_handoff_reason none r;
}

pub record AgentObservation : Type 0 where
  pub source : String
  pub summary : String
  pub confidence : ℕ

pub record RuntimeBudget : Type 0 where
  pub max_steps : ℕ
  pub remaining_steps : ℕ
  pub max_tool_calls : ℕ
  pub remaining_tool_calls : ℕ
  pub run_timeout : ℕ
  pub remaining_time : Option ℕ

-- `remaining_steps <= 0 or remaining_tool_calls <= 0`
unfoldable pub exhausted : RuntimeBudget → Bool
exhausted b = leb b.remaining_steps 0 || leb b.remaining_tool_calls 0

pub record AgentGoalContract : Type 0 where
  pub goal : String
  pub success_criteria : List String
  pub priority : String
  pub workspace_id : Option String

pub record AgentDecisionState : Type 0 where
  pub run_id : Option String
  pub status : DecisionRunStatus
  pub goal : AgentGoalContract
  pub budget : RuntimeBudget
  pub available_tools : List String
  pub executed_tools : List String
  pub observations : List AgentObservation
  pub evidence : List EvidenceAssessment
  pub consecutive_empty_evidence : ℕ
  pub decisions : List AgentDecision

abbrev pub status_after : ActionType → DecisionRunStatus → DecisionRunStatus
status_after ask_approval status = waiting_approval
status_after final_report status = completed
status_after handoff status = handoff_required
status_after _ status = status

unfoldable pub with_decision : AgentDecision → AgentDecisionState → AgentDecisionState
with_decision d s = record s {
  status = status_after d.action_type s.status;
  decisions = s.decisions ++ d ∷ [];
}

-- A tool that is set: `None` and the empty text are false in Python.
abbrev pub chosen : Option String → Option String
chosen none = none
chosen (some name) = if str_eq name "" then none else some name

abbrev pub is_strong : EvidenceQuality → Bool
is_strong strong = true
is_strong _ = false

-- The order by which `_best_evidence` sorts.
abbrev pub rank : EvidenceQuality → ℕ
rank strong = 0
rank partial = 1
rank weak = 2
rank conflicting = 3
rank error = 4
rank empty = 5

-- The first of the sorted list, which is stable: the first item of least rank.
unfoldable pub best_of : EvidenceAssessment → List EvidenceAssessment → EvidenceAssessment
best_of best [] = best
best_of best (e ∷ es) = best_of (if ltb (rank e.quality) (rank best.quality) then e else best) es

abbrev pub no_evidence : EvidenceAssessment
no_evidence = record { quality = empty; confidence = 0 }

unfoldable pub best_evidence : List EvidenceAssessment → EvidenceAssessment
best_evidence [] = no_evidence
best_evidence (e ∷ es) = best_of e es

-- ---------------------------------------------------------------- DeterministicDecisionProvider

-- `[tool for tool in available_tools if tool not in executed_tools]`
unfoldable pub remaining_tools : AgentDecisionState → List String
remaining_tools s = keep_if (λ tool. not (contains tool s.executed_tools)) s.available_tools

decide_tool : AgentDecisionState → List String → AgentDecision
decide_tool s [] =
    new_decision handoff none [] (best_evidence s.evidence)
      (recovery "no_available_tools" NextAction.handoff) 30
decide_tool s (tool ∷ tools) =
    new_decision call_tool (some tool) (("query", s.goal.goal) ∷ []) (best_evidence s.evidence)
      no_recovery 70

decide_evidence : AgentDecisionState → Option EvidenceAssessment → AgentDecision
decide_evidence s (some strong_evidence) =
    new_decision final_report none [] strong_evidence no_recovery
      (max strong_evidence.confidence 80)
decide_evidence s none =
    if leb 2 s.consecutive_empty_evidence
    then new_decision recover none [] no_evidence (recovery "empty_evidence" NextAction.retry) 40
    else decide_tool s (remaining_tools s)

-- `DeterministicDecisionProvider.decide`
unfoldable pub decide : AgentDecisionState → AgentDecision
unfolding decide_evidence decide_tool
decide s =
    if exhausted s.budget
    then new_decision handoff none [] (best_evidence s.evidence)
        (recovery "budget_exhausted" NextAction.handoff) 50
    else decide_evidence s (find? (λ item. is_strong item.quality) s.evidence)

-- ---------------------------------------------------------------- QwenDecisionProvider

abbrev pub error_evidence : EvidenceAssessment
error_evidence = record { quality = error; confidence = 0 }

-- A decision that asks for a retry.
abbrev pub invalid_decision : String → AgentDecision
invalid_decision reason =
    new_decision recover none [] error_evidence (recovery reason NextAction.retry) 0

-- `decision.selected_tool and decision.selected_tool not in available_tools`
abbrev pub unknown_tool : Option String → List String → Bool
unknown_tool none tools = false
unknown_tool (some name) tools = if str_eq name "" then false else not (contains name tools)

-- What is made of the decision that the model's text validates to; `none` is an invalid text.
unfoldable pub qwen_decision : Option AgentDecision → AgentDecisionState → AgentDecision
qwen_decision none s = invalid_decision "invalid_model_output"
qwen_decision (some d) s =
    if unknown_tool d.selected_tool s.available_tools
    then invalid_decision "unknown_tool"
    else if ltb d.confidence 20
    then record d { action_type = recover; recovery = recovery "low_confidence" NextAction.retry }
    else d

-- ---------------------------------------------------------------- providers that may raise

pub data Attempt : Type 0 where
  decided : AgentDecision → Attempt
  raised : String → Attempt

pub record DecisionProvider : Type 0 where
  pub provider_name : String
  pub decide : AgentDecisionState → Attempt

abbrev pub deterministic : DecisionProvider
deterministic = record { provider_name = "deterministic"; decide = λ s. decided (decide s) }

-- A call of `invoke_json`: an exception of the call, a text that does not validate, or a decision.
pub data ModelReply : Type 0 where
  unavailable : String → ModelReply
  invalid : ModelReply
  valid : AgentDecision → ModelReply

qwen_attempt : ModelReply → AgentDecisionState → Attempt
qwen_attempt (unavailable reason) s = raised reason
qwen_attempt invalid s = decided (qwen_decision none s)
qwen_attempt (valid d) s = decided (qwen_decision (some d) s)

-- `QwenDecisionProvider`
unfoldable pub qwen : (AgentDecisionState → ModelReply) → DecisionProvider
unfolding qwen_attempt
qwen invoke_json = record { provider_name = "qwen"; decide = λ s. qwen_attempt (invoke_json s) s }

pub record FallbackEvent : Type 0 where
  pub from_provider : String
  pub to_provider : String
  pub reason : String

-- The provider, or the fallback provider where the first raises; an event of the fallback.
-- `none` is an exception that leaves the call.
unfoldable pub decide_with_fallback :
    DecisionProvider
    → Option DecisionProvider
    → AgentDecisionState
    → Option (AgentDecision × List FallbackEvent)
decide_with_fallback p fallback s = elim (p.decide s) [
  | decided d ↦ some (d, [])
  | raised reason ↦ elim fallback [
    | none ↦ none
    | some q ↦ elim (q.decide s) [
      | decided d ↦ some (
        d,
        record { from_provider = p.provider_name; to_provider = q.provider_name; reason = reason }
            ∷ [],
      )
      | raised _ ↦ none
    ]
  ]
]
