-- ===== src/Approvals/Desk.antt =====
-- What decisions on approvals do to the approval of one tool, seen without the event log
-- (app/application/native_agent_application_service.py).
pub mod Refinement
use smart_sre_copilot.Prelude.{
  ℕ, String, Bool, false, ◌&&◌, Option, none, some, str_eq, if◌then◌else◌,
}
use smart_sre_copilot.Executor.{text_or}
use smart_sre_copilot.Runs.{Payload, Event, Db}
use smart_sre_copilot.Approvals.{
  requested_tool, approval_is_expired, DecideResult, approval_expired, approval_already_decided,
  decided,
}
use smart_sre_copilot.Approvals.Finality.{decision_on}

-- ---------------------------------------------------------------- the desk

-- An approval as a person sees it.
pub data Desk : Type 0 where
  pending : Desk
  settled : String → Desk

pub data Verdict : Type 0 where
  accepted refused_as_expired refused_as_decided refused_otherwise : Verdict

abbrev pub desk_of_payload : Option Payload → Desk
desk_of_payload none = pending
desk_of_payload (some p) = settled (text_or p.decision "")

abbrev pub desk : String → String → Db → Desk
desk run_id tool db = desk_of_payload (decision_on run_id tool db)

abbrev pub verdict : DecideResult → Verdict
verdict (decided status) = accepted
verdict approval_expired = refused_as_expired
verdict approval_already_decided = refused_as_decided
verdict _ = refused_otherwise

abbrev pub clear_desk : Bool → Desk → Desk
clear_desk overdue pending = if overdue then settled "expired" else pending
clear_desk overdue (settled decision) = settled decision

abbrev pub decide_cleared : Desk → String → Verdict × Desk
decide_cleared pending decision = (accepted, settled decision)
decide_cleared (settled old) decision =
    (if str_eq old "expired" then refused_as_expired else refused_as_decided, settled old)

-- A decision: first an overdue request expires, then a pending approval is settled for good.
abbrev pub decide_at_desk : Bool → Desk → String → Verdict × Desk
decide_at_desk overdue d decision = decide_cleared (clear_desk overdue d) decision

-- A request for the tool that has waited too long.
abbrev pub asks_for : String → Option String → Bool
asks_for tool none = false
asks_for tool (some t) = str_eq t tool

abbrev pub is_overdue : ℕ → ℕ → String → Event → Bool
is_overdue timeout now tool e =
    asks_for tool (requested_tool e) && approval_is_expired timeout now e
