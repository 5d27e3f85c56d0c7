-- ===== src/Recovery.antt =====
-- The recovery strategy (`RecoveryManager.choose_strategy` in app/agent_runtime/recovery.py) and
-- the decision that the loop makes of it (app/agent_runtime/loop.py). The store and event writes
-- of `mark_cancelled`, `timeout_event` and `error_event` are not modelled.
use smart_sre_copilot.Prelude.{
  text_append, ℕ, String, Bool, true, false, ◌&&◌, ◌||◌, none, [], str_eq, leb, ◌==◌, min, max,
  if◌then◌else◌,
}
use smart_sre_copilot.Decision.{
  ActionType, EvidenceQuality, strong, partial, weak, empty, conflicting, error, EvidenceAssessment,
  NextAction, AgentDecision, new_decision, recovery,
}

pub data RecoveryAction : Type 0 where
  continue try_alternative downgrade_report retry_same_tool handoff : RecoveryAction

pub record RecoveryPlan : Type 0 where
  pub action : RecoveryAction
  pub reason : String
  pub needs_handoff : Bool

abbrev pub plan : RecoveryAction → String → RecoveryPlan
plan action reason = record { action = action; reason = reason; needs_handoff = false }

abbrev pub handoff_plan : String → RecoveryPlan
handoff_plan reason = record { action = handoff; reason = reason; needs_handoff = true }

-- The text of a quality.
abbrev pub quality_text : EvidenceQuality → String
quality_text strong = "strong"
quality_text partial = "partial"
quality_text weak = "weak"
quality_text empty = "empty"
quality_text conflicting = "conflicting"
quality_text error = "error"

abbrev is_thin : String → Bool
is_thin quality = str_eq quality "partial" || str_eq quality "weak"

abbrev is_missing : String → Bool
is_missing quality = str_eq quality "empty" || str_eq quality "insufficient"

abbrev is_conflict : String → Bool
is_conflict quality = str_eq quality "conflict" || str_eq quality "conflicting"

abbrev is_broken : String → Bool
is_broken quality = str_eq quality "timeout" || str_eq quality "error"

-- `f"{evidence_quality}_evidence"`
abbrev pub evidence_reason : String → String
evidence_reason quality = text_append quality "_evidence"

-- `choose_strategy`
unfoldable pub choose_strategy : String → ℕ → Bool → RecoveryPlan
choose_strategy quality consecutive_failures tool_available =
    if str_eq quality "strong"
    then plan continue "strong_evidence"
    else if is_thin quality && tool_available
    then plan try_alternative (evidence_reason quality)
    else if is_thin quality
    then plan downgrade_report (evidence_reason quality)
    else if is_missing quality
    then if tool_available && leb consecutive_failures 0
      then plan retry_same_tool "insufficient_evidence"
      else if tool_available && (consecutive_failures == 1)
      then plan downgrade_report "insufficient_evidence"
      else handoff_plan "insufficient_evidence"
    else if is_conflict quality
    then handoff_plan "conflicting_evidence"
    else if is_broken quality && leb consecutive_failures 0 && tool_available
    then plan try_alternative (evidence_reason quality)
    else handoff_plan "evidence_error"

unfoldable pub recover_decision : RecoveryPlan → EvidenceAssessment → AgentDecision
recover_decision p evidence =
    new_decision ActionType.recover none [] evidence (recovery p.reason NextAction.retry)
      (max (min evidence.confidence 40) 20)

plan_decision : RecoveryAction → RecoveryPlan → EvidenceAssessment → AgentDecision
unfolding recover_decision
plan_decision handoff p evidence =
    new_decision ActionType.handoff none [] evidence (recovery p.reason NextAction.handoff) 30
plan_decision downgrade_report p evidence =
    new_decision ActionType.final_report none [] evidence
      (recovery p.reason NextAction.final_report) (max (min evidence.confidence 50) 20)
plan_decision _ p evidence = recover_decision p evidence

-- `_decision_from_recovery_plan`
unfoldable pub decision_from_recovery_plan : RecoveryPlan → EvidenceAssessment → AgentDecision
unfolding plan_decision
decision_from_recovery_plan p evidence =
    if p.needs_handoff then plan_decision handoff p evidence else plan_decision p.action p evidence
