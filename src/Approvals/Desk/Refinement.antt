-- ===== src/Approvals/Desk/Refinement.antt =====
-- The desk of approvals and the log behind it
-- (app/application/native_agent_application_service.py).
use mathlib.Core.Path.{subst}
use smart_sre_copilot.Prelude.{
  ℕ, String, ◌≡◌, inl, inr, refl, sym, ap, ◌∙◌, Bool, true, false, ◌&&◌, ◌||◌, Option, none, some,
  List, [], ◌∷◌, any, str_eq, eq_refl, lookup, lookup-insert, if◌then◌else◌, Bool-cases,
  Option-cases, arith,
}
use smart_sre_copilot.Decision.{chosen}
use smart_sre_copilot.Executor.{text_or}
use smart_sre_copilot.Runs.{Payload, Event, Db, AgentRun, payload_for, get_run, list_events}
use smart_sre_copilot.Runs.Log.{event, append_event-same}
use smart_sre_copilot.Approvals.{
  by_tool, approval_decisions_by_tool, requested_tool, approval_is_expired, record_decision,
  expire_tool, expire_request, expire_requests, expire_of, expire_pending_agent_approvals_for_run,
  QueueBackend, World, approval_expired, approval_already_decided, was_expired, approve, reject,
  decide_new, decide_valid, decide_for, decide_agent_approval,
}
use smart_sre_copilot.Approvals.Finality.{
  by_tool-append, decision_on, append-Keeps, mark_run_handoff-Keeps, record_decision-Keeps,
  chosen-IsOther, expire-Keeps, same_text,
}
use smart_sre_copilot.Approvals.Desk.{
  settled, accepted, refused_as_expired, refused_as_decided, desk_of_payload, desk, verdict,
  clear_desk, decide_cleared, decide_at_desk, asks_for, is_overdue,
}

module _ (run_id tool : String) (named : str_eq tool "" ≡ false) where
  record_decision-decides :
      (now : ℕ) (decision status : String) (db : Db)
      → decision_on run_id tool (record_decision now run_id tool decision status db)
        ≡ some (record (payload_for tool) { decision = some decision; resume_status = some status })
  unfolding record_decision approval_decisions_by_tool by_tool
  record_decision-decides now decision status db =
      let p : Payload = record (payload_for tool) {
        decision = some decision;
        resume_status = some status;
      } in
      ap (λ es. lookup tool (approval_decisions_by_tool es))
        (append_event-same now run_id "approval_decision" (some p) db run_id (eq_refl run_id))
      ∙ ap (lookup tool) (
          by_tool-append "approval_decision" (list_events run_id db)
            (event now run_id "approval_decision" (some p) ∷ []) [])
      ∙ rw named (
          sym (lookup-insert tool tool p (by_tool "approval_decision" (list_events run_id db) []))
          ∙ rw (eq_refl tool) refl)

  expire_tool-desk :
      (now : ℕ) (db : Db)
      → desk run_id tool (expire_tool now run_id none tool db) ≡ settled "expired"
  unfolding expire_tool
  expire_tool-desk now db = ap desk_of_payload (
      mark_run_handoff-Keeps run_id tool now run_id tool "approval_expired" _
      ∙ record_decision-decides now "expired" "not_resumed" db)

  expire_other :
      (now : ℕ) (t : String) (o : Option Payload) (db : Db)
      → str_eq t tool ≡ false
      → desk run_id tool (expire_tool now run_id o t db) ≡ desk run_id tool db
  unfolding expire_tool
  expire_other now t (some p) db differ = refl
  expire_other now t none db differ = ap desk_of_payload (
      mark_run_handoff-Keeps run_id tool now run_id t "approval_expired" _
      ∙ record_decision-Keeps run_id tool now run_id t "expired" "not_resumed" db
          (λ e. chosen-IsOther t tool differ))

  -- the body of the expiry's loop, for a tool without a decision
  expire_request-desk :
      (timeout now : ℕ) (decisions : List (String × Payload)) (e : Event) (o : Option String)
      (db : Db)
      → lookup tool decisions ≡ none
      → desk run_id tool (expire_request timeout now run_id decisions e o db) ≡ (
          if asks_for tool o && approval_is_expired timeout now e
          then settled "expired"
          else desk run_id tool db)
  unfolding expire_request
  expire_request-desk timeout now decisions e none db n = refl
  expire_request-desk timeout now decisions e (some t) db n =
      elim (Bool-cases (approval_is_expired timeout now e)) [
        | inr early ↦ elim (Bool-cases (str_eq t tool)) [
          | inl same ↦ rw (early, same) refl
          | inr other ↦ rw (early, other) refl
        ]
        | inl late ↦ elim (Bool-cases (str_eq t tool)) [
          | inr other ↦ rw (late, other) (expire_other now t (lookup t decisions) db other)
          | inl same ↦
              let p = same_text t tool same in
              rw (late, same)
                (ap (λ s. desk run_id tool (expire_tool now run_id (lookup s decisions) s db)) p
                  ∙ ap (λ found. desk run_id tool (expire_tool now run_id found tool db)) n
                  ∙ expire_tool-desk now db)
        ]
      ]

  expire_requests-desk :
      (timeout now : ℕ) (decisions : List (String × Payload)) (events : List Event) (db : Db)
      → lookup tool decisions ≡ none
      → desk run_id tool (expire_requests timeout now run_id decisions events db) ≡ (
          if any (is_overdue timeout now tool) events
          then settled "expired"
          else desk run_id tool db)
  unfolding expire_requests
  expire_requests-desk timeout now decisions [] db n = refl
  expire_requests-desk timeout now decisions (e ∷ events) db n =
      let first = expire_request timeout now run_id decisions e (requested_tool e) db in
      let one = expire_request-desk timeout now decisions e (requested_tool e) db n in
      let rest = expire_requests-desk timeout now decisions events first n in
      elim (Bool-cases (any (is_overdue timeout now tool) events)) [
        | inl later ↦ elim (Bool-cases (is_overdue timeout now tool e)) [
          | inl o ↦ rw (rest, later, o) refl
          | inr o ↦ rw (rest, later, o) refl
        ]
        | inr none_later ↦ elim (Bool-cases (is_overdue timeout now tool e)) [
          | inl o ↦ rw (rest, none_later, one, o) refl
          | inr o ↦ rw (rest, none_later, one, o) refl
        ]
      ]

  pub expire-desk :
      (timeout now : ℕ) (db : Db) (row : AgentRun)
      → get_run run_id db ≡ some row
      → desk run_id tool (expire_pending_agent_approvals_for_run timeout now run_id db)
        ≡ clear_desk
            (any (is_overdue timeout now tool) (list_events run_id db))
            (desk run_id tool db)
  unfolding expire_pending_agent_approvals_for_run expire_of
  expire-desk timeout now db row there = elim (Option-cases (decision_on run_id tool db)) [
    | inl n ↦
        ap (λ o. desk run_id tool (expire_of timeout now run_id o db)) there
        ∙ expire_requests-desk timeout now (approval_decisions_by_tool (list_events run_id db))
            (list_events run_id db) db n
        ∙ rw n refl
    | inr (p, d) ↦
        ap desk_of_payload (expire-Keeps run_id tool p timeout now run_id db d) ∙ rw d refl
  ]

  -- ---------------------------------------------------------------- a decision

  was_expired-text : (o : Option String) → was_expired o ≡ str_eq (text_or o "") "expired"
  was_expired-text none = refl
  was_expired-text (some d) = elim (Bool-cases (str_eq d "")) [
    | inl n ↦
        subst (λ s. was_expired (some s) ≡ str_eq (text_or (some s) "") "expired")
          (sym (same_text d "" n)) refl
    | inr n ↦ rw (n, text_or, chosen) refl
  ]

  verdict_of_old :
      (a b : Bool)
      → a ≡ b
      → verdict (if a then approval_expired else approval_already_decided)
        ≡ (if b then refused_as_expired else refused_as_decided)
  verdict_of_old true true e = refl
  verdict_of_old false false e = refl
  verdict_of_old true false e = cc e
  verdict_of_old false true e = cc e

  verdict-approve :
      (backend : QueueBackend) (now : ℕ) (w : World)
      → verdict (approve backend now run_id tool w).0 ≡ accepted
  unfolding approve
  verdict-approve backend now w = refl

  verdict-reject : (now : ℕ) (w : World) → verdict (reject now run_id tool w).0 ≡ accepted
  unfolding reject
  verdict-reject now w = refl

  approve-desk :
      (backend : QueueBackend) (now : ℕ) (w : World)
      → desk run_id tool (approve backend now run_id tool w).1.db ≡ settled "approved"
  unfolding approve
  approve-desk backend now w = ap desk_of_payload (
      append-Keeps run_id tool now run_id "approval_resume" _ _ (λ e. _)
      ∙ record_decision-decides now "approved" "pending_resume_enqueue" w.db)

  reject-desk :
      (now : ℕ) (w : World) → desk run_id tool (reject now run_id tool w).1.db ≡ settled "rejected"
  unfolding reject
  reject-desk now w = ap desk_of_payload (
      mark_run_handoff-Keeps run_id tool now run_id tool "approval_rejected" _
      ∙ record_decision-decides now "rejected" "not_resumed" w.db)

  decide_new-desk :
      (backend : QueueBackend) (now : ℕ) (decision : String) (o : Option Payload) (w : World)
      → str_eq decision "approved" || str_eq decision "rejected" ≡ true
      → o ≡ decision_on run_id tool w.db
      → (verdict (decide_new backend now run_id tool decision o w).0
          ≡ (decide_cleared (desk_of_payload o) decision).0)
        × (desk run_id tool (decide_new backend now run_id tool decision o w).1.db
            ≡ (decide_cleared (desk_of_payload o) decision).1)
  unfolding decide_new
  decide_new-desk backend now decision (some existing) w v h = (
    verdict_of_old (was_expired existing.decision) _ (was_expired-text existing.decision),
    ap desk_of_payload (sym h),
  )
  decide_new-desk backend now decision none w v h = elim (Bool-cases (str_eq decision "approved")) [
    | inl e ↦ (
      rw e (verdict-approve backend now w),
      rw e (approve-desk backend now w ∙ ap settled (sym (same_text decision "approved" e))),
    )
    | inr e ↦
        let r : str_eq decision "rejected" ≡ true = ground (arith, v, e) in
        (
          rw e (verdict-reject now w),
          rw e (reject-desk now w ∙ ap settled (sym (same_text decision "rejected" r))),
        )
  ]

  decide_for-desk :
      (backend : QueueBackend) (timeout now : ℕ) (decision : String) (row : AgentRun) (w : World)
      → get_run run_id w.db ≡ some row
      → str_eq decision "approved" || str_eq decision "rejected" ≡ true
      → let out = decide_for backend timeout now run_id tool decision (some row) w in
        let spec =
          decide_at_desk
            (any (is_overdue timeout now tool) (list_events run_id w.db))
            (desk run_id tool w.db)
            decision in
        (verdict out.0 ≡ spec.0) × (desk run_id tool out.1.db ≡ spec.1)
  unfolding decide_for decide_valid
  decide_for-desk backend timeout now decision row w there v =
      let db = expire_pending_agent_approvals_for_run timeout now run_id w.db in
      let cleared = expire-desk timeout now w.db row there in
      let (a, b) =
        decide_new-desk backend now decision (decision_on run_id tool db) (record w { db = db }) v
          refl in
      rw v (
        a ∙ ap (λ d. (decide_cleared d decision).0) cleared,
        b ∙ ap (λ d. (decide_cleared d decision).1) cleared,
      )

-- `decide_agent_approval` does to the approval of a named tool, in a run that is there and for a
-- decision that is valid, what the desk does: an undecided request that waited too long expires
-- first; then a pending approval takes the decision, and a settled one refuses it and stays.
pub decide_refines :
    (backend : QueueBackend) (timeout now : ℕ) (run_id tool decision : String) (row : AgentRun)
    (w : World)
    → str_eq tool "" ≡ false
    → get_run run_id w.db ≡ some row
    → str_eq decision "approved" || str_eq decision "rejected" ≡ true
    → let out = decide_agent_approval backend timeout now run_id tool decision w in
      let spec =
        decide_at_desk
          (any (is_overdue timeout now tool) (list_events run_id w.db))
          (desk run_id tool w.db)
          decision in
      (verdict out.0 ≡ spec.0) × (desk run_id tool out.1.db ≡ spec.1)
unfolding decide_agent_approval
decide_refines backend timeout now run_id tool decision row w named there v =
    rw there (decide_for-desk run_id tool named backend timeout now decision row w there v)
