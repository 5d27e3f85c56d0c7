-- ===== src/Loop/Stall.antt =====
-- Runs of the loop with the recovery manager (app/agent_runtime/loop.py and recovery.py) behind a
-- tool result that is not strong.
use mathlib.Core.Path.{subst}
use smart_sre_copilot.Prelude.{
  ℕ, zero, suc, ◌+◌, ◌-◌, ◌≡◌, refl, ap, ◌∙◌, Bool, true, false, Option, none, some, List, [], ◌∷◌,
  ◌++◌, arith, leb, ltb, if◌then◌else◌, length, length-append, All, All-append, get_last?, not,
}
use smart_sre_copilot.Decision.{
  recover, EvidenceAssessment, EvidenceQuality, strong, partial, weak, empty, conflicting, error,
  no_evidence, AgentDecision, AgentDecisionState, with_decision,
}
use smart_sre_copilot.Recovery.{
  choose_strategy, decision_from_recovery_plan, recover_decision, plan, quality_text,
  evidence_reason, try_alternative,
}
use smart_sre_copilot.Intervention.{
  or_else, others, Intervention, apply_pending_interventions, apply_replace_intervention,
}
use smart_sre_copilot.Loop.{
  LoopBudget, LoopStep, max_steps_reached, Loop, LoopState, Outcome, goes_on, stopped, raises,
  finish_step, account_step, act_with, called_tool, prepare, ready_with, decide_ready,
  follow_decision, loop_step, LoopResult, next_or_end, run_steps, start_loop, run, decide_step,
  decide_or, recover_if_required, recover_with, requires_recovery, has_weak_last,
  has_remaining_tool, planned, heard, state_with_remaining_budget, ToolResult, is_strong_quality,
  step_tokens, make_step,
}
use smart_sre_copilot.Loop.Bounds.{limits}

-- The qualities behind which another tool should be tried.
abbrev pub needs_alternative : EvidenceQuality → Bool
needs_alternative partial = true
needs_alternative weak = true
needs_alternative error = true
needs_alternative _ = false

-- The latest evidence is partial, weak or an error, and a tool has not been executed.
pub record Stalled (s : AgentDecisionState) : Type 0 where
  pub latest : EvidenceAssessment
  pub last : get_last? s.evidence ≡ some latest
  pub quality : needs_alternative latest.quality ≡ true
  pub none_empty : s.consecutive_empty_evidence ≡ 0
  pub tool_left : has_remaining_tool s ≡ true

-- The loop as it is built without interventions, limits on tokens or on low confidence, and
-- with a clock that stays in front of the deadline.
pub record Plain (l : Loop) (b : LoopBudget) : Type 0 where
  pub manager : l.recovery_manager ≡ some choose_strategy
  pub no_bridge : l.has_intervention_bridge ≡ false
  pub no_low : l.max_low_confidence_steps ≡ none
  pub no_tokens : b.max_tokens ≡ none
  pub in_time : (i : ℕ) → leb (l.started + b.max_time) (l.clock i) ≡ false

recovers :
    (q : EvidenceQuality)
    → needs_alternative q ≡ true
    → choose_strategy (quality_text q) 0 true
      ≡ plan try_alternative (evidence_reason (quality_text q))
unfolding choose_strategy
recovers partial h = refl
recovers weak h = refl
recovers error h = refl
recovers strong h = cc
recovers empty h = cc
recovers conflicting h = cc

not_strong : (q : EvidenceQuality) → needs_alternative q ≡ true → not (is_strong_quality q) ≡ true
not_strong q h = ground (arith, h)

-- the decision that stands in for the next tool
abbrev retry_decision : EvidenceAssessment → AgentDecision
retry_decision e =
    recover_decision (plan try_alternative (evidence_reason (quality_text e.quality))) e

decided_retry :
    (e : EvidenceAssessment)
    → some (
        decision_from_recovery_plan
          (plan try_alternative (evidence_reason (quality_text e.quality)))
          e)
      ≡ some (retry_decision e)
unfolding decision_from_recovery_plan
decided_retry e = refl

planned_retry :
    (e : EvidenceAssessment) (o : Option EvidenceAssessment) (c : ℕ) (t : Bool)
    → o ≡ some e
    → c ≡ 0
    → t ≡ true
    → needs_alternative e.quality ≡ true
    → (if (if ltb 0 c then true else has_weak_last o)
        then planned
            (choose_strategy (quality_text (or_else o no_evidence).quality) c t)
            (or_else o no_evidence)
        else none)
      ≡ some (retry_decision e)
unfolding has_weak_last
planned_retry e o c t l z f n =
    rw (l, z, f, not_strong e.quality n, recovers e.quality n) (decided_retry e)

retry_decides :
    (l : Loop) (s : AgentDecisionState) (st : Stalled s)
    → l.recovery_manager ≡ some choose_strategy
    → decide_step l s ≡ some (retry_decision st.latest, [])
unfolding decide_step recover_if_required requires_recovery decide_or
retry_decides l s st m =
    ap (λ manager. decide_or (recover_with manager s) l s) m
    ∙ ap (λ o. decide_or o l s)
        (planned_retry st.latest (get_last? s.evidence) s.consecutive_empty_evidence
          (has_remaining_tool s) st.last st.none_empty st.tool_left st.quality)

-- ---------------------------------------------------------------- a step

abbrev pub IsRecover : LoopStep → Type 0
IsRecover step = step.decision.action_type ≡ recover

module _ (l : Loop) (b : LoopBudget) (plain : Plain l b) where
  no_queue : (s : AgentDecisionState) (queue : List Intervention) → heard l s queue ≡ []
  no_queue s queue = rw plain.no_bridge refl

  finish_retry :
      (e : EvidenceAssessment) (ls : LoopState)
      → (n : ℕ) × (finish_step l (retry_decision e) ls ≡ goes_on (record ls { low_confidence = n }))
  unfolding finish_step recover_decision
  finish_retry e ls = (
    if ltb (retry_decision e).confidence l.low_confidence_threshold
        then suc ls.low_confidence
        else 0,
    rw plain.no_low refl,
  )

  account_retry :
      (i : ℕ) (e : EvidenceAssessment) (ls : LoopState)
      → (n tokens : ℕ) × (account_step l b i (retry_decision e) ls
          ≡ goes_on (record ls {
            low_confidence = n;
            token_usage = ls.token_usage + tokens;
            state = with_decision (retry_decision e) ls.state;
            steps = ls.steps ++ make_step i (retry_decision e) tokens ∷ [];
          }))
  unfolding account_step
  account_retry i e ls =
      let tokens = step_tokens l.token_estimator (l.get_token_usage i) (retry_decision e) in
      let (n, same) = finish_retry e (record ls {
        token_usage = ls.token_usage + tokens;
        state = with_decision (retry_decision e) ls.state;
        steps = ls.steps ++ make_step i (retry_decision e) tokens ∷ [];
      }) in
      let account_same : account_step l b i (retry_decision e) ls
          ≡ goes_on (record ls {
            low_confidence = n;
            token_usage = ls.token_usage + tokens;
            state = with_decision (retry_decision e) ls.state;
            steps = ls.steps ++ make_step i (retry_decision e) tokens ∷ [];
          }) =
        rw plain.no_tokens same in
      (n, tokens, account_same)

  act_no_tool :
      (executor : Option (ℕ → AgentDecision → Option ToolResult)) (i : ℕ) (d : AgentDecision)
      (ls : LoopState)
      → act_with executor none l b i d ls ≡ account_step l b i d ls
  unfolding act_with
  act_no_tool none i d ls = refl
  act_no_tool (some execute) i d ls = refl

  follow_retry :
      (i : ℕ) (e : EvidenceAssessment) (ls : LoopState)
      → (n tokens : ℕ) × (follow_decision l b i (some (retry_decision e, [])) ls
          ≡ goes_on (record {
            state = with_decision (retry_decision e) ls.state;
            steps = ls.steps ++ make_step i (retry_decision e) tokens ∷ [];
            evidence_items = ls.evidence_items;
            token_usage = ls.token_usage + tokens;
            low_confidence = n;
            pending = [];
            fallback_events = ls.fallback_events ++ [];
          }))
  unfolding follow_decision apply_replace_intervention recover_decision
  follow_retry i e ls =
      let (n, tokens, same) =
        account_retry i e
          (record ls { pending = []; fallback_events = ls.fallback_events ++ [] }) in
      (
        n,
        tokens,
        ap
              (λ queue.
                act_with l.tool_executor
                  (called_tool (apply_replace_intervention queue (retry_decision e))) l b i
                  (apply_replace_intervention queue (retry_decision e))
                  (record ls {
                    pending = others queue;
                    fallback_events = ls.fallback_events ++ [];
                  }))
              (no_queue ls.state (ls.pending ++ l.arriving_late i))
            ∙ act_no_tool l.tool_executor i (retry_decision e) _
            ∙ same,
      )

-- What stays of the run's start: nothing was executed or collected, every decision is a recovery.
record Idle (s : AgentDecisionState) (i : ℕ) (ls : LoopState) : Type 0 where
  stalled : Stalled ls.state
  executed : ls.state.executed_tools ≡ s.executed_tools
  items : ls.evidence_items ≡ []
  count : length ls.steps ≡ i
  all_recover : All IsRecover ls.steps

module _ (l : Loop) (b : LoopBudget) (plain : Plain l b) where
  -- the state of the loop behind no interventions
  abbrev unheard_state : ℕ → LoopState → LoopState
  unheard_state i ls = record ls {
    pending = [];
    state = state_with_remaining_budget b (b.max_steps - i) ls.state;
  }

  unheard : (i : ℕ) (ls : LoopState) → prepare l b i ls ≡ some (unheard_state i ls)
  unfolding prepare apply_pending_interventions
  unheard i ls =
      ap (λ queue. ready_with b i queue ls (apply_pending_interventions queue ls.state))
        (no_queue l b plain ls.state (ls.pending ++ l.arriving i))

  unheard_state-Idle :
      (s : AgentDecisionState) (i : ℕ) (ls : LoopState)
      → Idle s i ls
      → Idle s i (unheard_state i ls)
  unfolding has_remaining_tool
  unheard_state-Idle s i ls w =
      let st = w.stalled in
      record {
        stalled = record {
          latest = st.latest;
          last = st.last;
          quality = st.quality;
          none_empty = st.none_empty;
          tool_left = st.tool_left;
        };
        executed = w.executed;
        items = w.items;
        count = w.count;
        all_recover = w.all_recover;
      }

  -- the next state of the loop
  abbrev Goes : AgentDecisionState → ℕ → Outcome → Type 0
  Goes s i (goes_on ls) = Idle s i ls
  Goes s i _ = ⊥

  follow-Idle :
      (s : AgentDecisionState) (i : ℕ) (ls : LoopState)
      → Idle s i ls
      → Goes s (suc i) (follow_decision l b i (decide_step l ls.state) ls)
  unfolding with_decision recover_decision has_remaining_tool
  follow-Idle s i ls w =
      let st = w.stalled in
      let (n, tokens, same) = follow_retry l b plain i st.latest ls in
      rw (retry_decides l ls.state st plain.manager, same)
        (record {
          stalled = record {
            latest = st.latest;
            last = st.last;
            quality = st.quality;
            none_empty = st.none_empty;
            tool_left = st.tool_left;
          };
          executed = w.executed;
          items = w.items;
          count = omega (
            arith,
            w.count,
            length-append ls.steps (make_step i (retry_decision st.latest) tokens ∷ []),
          );
          all_recover = All-append IsRecover ls.steps _ w.all_recover (refl, _);
        })

  loop_step-Idle :
      (s : AgentDecisionState) (i : ℕ) (ls : LoopState)
      → Idle s i ls
      → Goes s (suc i) (loop_step l b i ls)
  unfolding loop_step decide_ready
  loop_step-Idle s i ls w =
      rw (plain.in_time i, unheard i ls)
        (follow-Idle s i (unheard_state i ls) (unheard_state-Idle s i ls w))

  -- What the rest of the run comes to.
  Ends : AgentDecisionState → ℕ → Option LoopResult → Type 0
  Ends s n none = ⊥
  Ends s n (some r) = (r.termination_reason ≡ max_steps_reached) × Idle s n r.final

  next-Ends :
      (s : AgentDecisionState) (n : ℕ) (next : LoopState → Option LoopResult) (i : ℕ) (o : Outcome)
      → Goes s (suc i) o
      → ((ls : LoopState) → Idle s (suc i) ls → Ends s n (next ls))
      → Ends s n (next_or_end next o)
  next-Ends s n next i (goes_on ls) g again = again ls g
  next-Ends s n next i (stopped reason ls) g again = elim g [ ]
  next-Ends s n next i raises g again = elim g [ ]

  run_steps-Ends :
      (s : AgentDecisionState) (n i : ℕ) (ls : LoopState)
      → Idle s i ls
      → Ends s (i + n) (run_steps l b n i ls)
  unfolding run_steps Ends
  run_steps-Ends s zero i ls w =
      let same : i ≡ i + 0 = omega arith in (refl, subst (λ m. Idle s m ls) same w)
  run_steps-Ends s (suc n) i ls w =
      let same : suc i + n ≡ i + suc n = omega arith in
      subst (λ m. Ends s m (next_or_end (run_steps l b n (suc i)) (loop_step l b i ls))) same
        (next-Ends s (suc i + n) (run_steps l b n (suc i)) i (loop_step l b i ls)
          (loop_step-Idle s i ls w) (λ ls' k. run_steps-Ends s n (suc i) ls' k))

-- The run does nothing but decide to recover, until its steps are used up.
abbrev pub IsWasted : AgentDecisionState → ℕ → Option LoopResult → Type 0
IsWasted s n none = ⊥
IsWasted s n (some r) =
    (r.termination_reason ≡ max_steps_reached)
    × (length r.final.steps ≡ n)
    × All IsRecover r.final.steps
    × (r.final.evidence_items ≡ [])
    × (r.final.state.executed_tools ≡ s.executed_tools)

wasted :
    (l : Loop) (b : LoopBudget) (plain : Plain l b) (s : AgentDecisionState) (n : ℕ)
    (o : Option LoopResult)
    → Ends l b plain s n o
    → IsWasted s n o
unfolding Ends
wasted l b plain s n none e = e
wasted l b plain s n (some r) (reason, w) = (reason, w.count, w.all_recover, w.items, w.executed)

-- A run that starts behind partial, weak or failed evidence with a tool left to try, under the
-- recovery strategy and without interventions, token limit or low-confidence limit, executes no
-- tool at all: while the time lasts, every step decides to recover, and the run returns with all of
-- its steps used up, although the strategy was to try an alternative tool.
pub alternative_never_tried :
    (l : Loop) (budget : Option LoopBudget) (s : AgentDecisionState)
    → Plain l (limits budget s)
    → Stalled s
    → IsWasted s (limits budget s).max_steps (run l budget s)
unfolding run
alternative_never_tried l budget s plain st =
    let b = limits budget s in
    let from_start : 0 + b.max_steps ≡ b.max_steps = omega arith in
    wasted l b plain s b.max_steps (run l budget s) (
      subst (λ n. Ends l b plain s n (run_steps l b b.max_steps 0 (start_loop s))) from_start
        (run_steps-Ends l b plain s b.max_steps 0 (start_loop s)
          (record { stalled = st; executed = refl; items = refl; count = refl; all_recover = _ })))
