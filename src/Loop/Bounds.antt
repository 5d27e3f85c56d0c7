-- ===== src/Loop/Bounds.antt =====
-- What bounds a run of the loop (app/agent_runtime/loop.py): steps, tools and tokens.
use mathlib.Core.Path.{subst}
use smart_sre_copilot.Prelude.{
  ℕ, zero, suc, ◌+◌, ◌≤◌, String, ◌≡◌, ◌⊎◌, inl, inr, refl, Bool, true, false, Option, none, some,
  List, [], ◌∷◌, ◌++◌, str_eq, leb, ltb, if◌then◌else◌, arith, Bool-cases, length, length-append,
}
use smart_sre_copilot.Decision.{AgentDecision, AgentDecisionState, FallbackEvent}
use smart_sre_copilot.Intervention.{or_else}
use smart_sre_copilot.Intervention.{Intervention, apply_pending_interventions}
use smart_sre_copilot.Loop.{
  LoopBudget, normalize, budget_from_state, LoopStep, TerminationReason, max_time_reached,
  max_tokens_reached, low_confidence_handoff, max_steps_reached, action, ToolResult, Loop,
  LoopState, Outcome, goes_on, stopped, raises, finish_step, account_step, after_tool, act_with,
  prepare, ready_with, decide_ready, heard, follow_decision, loop_step, LoopResult, next_or_end,
  run_steps, start_loop, run, exceeds, step_tokens, make_step, is_terminal, reaches,
}

-- The tokens that the recorded steps used.
abbrev pub total_tokens : List LoopStep → ℕ
total_tokens [] = 0
total_tokens (s ∷ ss) = s.token_usage + total_tokens ss

total_tokens-append :
    (xs : List LoopStep) (s : LoopStep)
    → total_tokens (xs ++ s ∷ []) ≡ total_tokens xs + s.token_usage
total_tokens-append [] s = omega arith
total_tokens-append (x ∷ xs) s = omega (arith, total_tokens-append xs s)

exceeds_zero : (limit : Option ℕ) → exceeds 0 limit ≡ false
exceeds_zero none = refl
exceeds_zero (some m) = ground arith

-- What holds in front of step `i`: that many steps are recorded and at most as many tool results
-- collected, the tokens are those of the recorded steps, and they keep the limit.
pub record Within (b : LoopBudget) (i : ℕ) (ls : LoopState) : Type 0 where
  pub steps_eq : length ls.steps ≡ i
  pub items_le : length ls.evidence_items ≤ i
  pub tokens_eq : total_tokens ls.steps ≡ ls.token_usage
  pub tokens_le : exceeds ls.token_usage b.max_tokens ≡ false

abbrev is_max_tokens : TerminationReason → Bool
is_max_tokens max_tokens_reached = true
is_max_tokens _ = false

-- What holds of a result: `i` steps were begun at most.
pub record Bounded (b : LoopBudget) (i : ℕ) (reason : TerminationReason) (ls : LoopState)
    : Type 0 where
  pub steps_le : length ls.steps ≤ i
  pub items_le : length ls.evidence_items ≤ i
  pub tokens_le : (exceeds ls.token_usage b.max_tokens ≡ false) ⊎ (reason ≡ max_tokens_reached)
  pub total_le : total_tokens ls.steps ≤ ls.token_usage

-- What holds of the outcome of step `i`.
abbrev Kept : LoopBudget → ℕ → Outcome → Type 0
Kept b i (goes_on ls) = Within b (suc i) ls
Kept b i (stopped reason ls) = Bounded b (suc i) reason ls
Kept b i raises = Unit

Within-Bounded :
    (b : LoopBudget) (i : ℕ) (reason : TerminationReason) (ls : LoopState)
    → Within b i ls
    → Bounded b i reason ls
Within-Bounded b i reason ls w = record {
  steps_le = omega (arith, w.steps_eq);
  items_le = w.items_le;
  tokens_le = inl w.tokens_le;
  total_le = omega (arith, w.tokens_eq);
}

bound_at :
    (b : LoopBudget) (n i : ℕ) (reason : TerminationReason) (ls : LoopState)
    → i ≤ n
    → Bounded b i reason ls
    → Bounded b n reason ls
bound_at b n i reason ls less w = record {
  steps_le = omega (arith, w.steps_le);
  items_le = omega (arith, w.items_le);
  tokens_le = w.tokens_le;
  total_le = w.total_le;
}

same_accounts :
    (b : LoopBudget) (i : ℕ) (ls : LoopState) (n : ℕ)
    → Within b i ls
    → Within b i (record ls { low_confidence = n })
same_accounts b i ls n w = record {
  steps_eq = w.steps_eq;
  items_le = w.items_le;
  tokens_eq = w.tokens_eq;
  tokens_le = w.tokens_le;
}

module _ (l : Loop) (b : LoopBudget) (i : ℕ) where
  finish_step-Kept :
      (d : AgentDecision) (ls : LoopState) → Within b (suc i) ls → Kept b i (finish_step l d ls)
  unfolding finish_step
  finish_step-Kept d ls w = elim (Bool-cases (is_terminal d.action_type)) [
    | inl e ↦ rw e (Within-Bounded b (suc i) (action d.action_type) ls w)
    | inr e ↦
        let n = if ltb d.confidence l.low_confidence_threshold then suc ls.low_confidence else 0 in
        elim (Bool-cases (reaches n l.max_low_confidence_steps)) [
          | inl low ↦
              rw (e, low)
                (Within-Bounded b (suc i) low_confidence_handoff _ (same_accounts b (suc i) ls n w))
          | inr high ↦ rw (e, high) (same_accounts b (suc i) ls n w)
        ]
  ]

  account_step-Kept :
      (d : AgentDecision) (ls : LoopState)
      → length ls.steps ≡ i
      → length ls.evidence_items ≤ suc i
      → total_tokens ls.steps ≡ ls.token_usage
      → Kept b i (account_step l b i d ls)
  unfolding account_step
  account_step-Kept d ls s e t =
      let tokens = step_tokens l.token_estimator (l.get_token_usage i) d in
      elim (Bool-cases (exceeds (ls.token_usage + tokens) b.max_tokens)) [
        | inl over ↦ rw over (record {
          steps_le = omega (arith, s);
          items_le = e;
          tokens_le = inr refl;
          total_le = omega (arith, t);
        })
        | inr under ↦ rw under (
            finish_step-Kept d _ (record {
              steps_eq = omega (arith, s, length-append ls.steps (make_step i d tokens ∷ []));
              items_le = e;
              tokens_eq = omega (arith, t, total_tokens-append ls.steps (make_step i d tokens));
              tokens_le = under;
            }))
      ]

  after_tool-Kept :
      (d : AgentDecision) (tool : String) (r : Option ToolResult) (ls : LoopState)
      → Within b i ls
      → Kept b i (after_tool l b i d tool r ls)
  unfolding after_tool
  after_tool-Kept d tool none ls w = _
  after_tool-Kept d tool (some r) ls w =
      let more = length-append ls.evidence_items (r.evidence_item ∷ []) in
      elim (Bool-cases (str_eq r.status "approval_required")) [
        | inl paused ↦ rw paused (record {
          steps_le = omega (arith, w.steps_eq, length-append ls.steps (make_step i d 0 ∷ []));
          items_le = omega (arith, w.items_le, more);
          tokens_le = inl w.tokens_le;
          total_le = omega (arith, w.tokens_eq, total_tokens-append ls.steps (make_step i d 0));
        })
        | inr done ↦
            rw done (account_step-Kept d _ w.steps_eq (omega (arith, w.items_le, more)) w.tokens_eq)
      ]

  act_with-Kept :
      (executor : Option (ℕ → AgentDecision → Option ToolResult)) (tool : Option String)
      (d : AgentDecision) (ls : LoopState)
      → Within b i ls
      → Kept b i (act_with executor tool l b i d ls)
  unfolding act_with
  act_with-Kept (some execute) (some tool) d ls w = after_tool-Kept d tool (execute i d) ls w
  act_with-Kept none (some tool) d ls w =
      account_step-Kept d ls w.steps_eq (omega (arith, w.items_le)) w.tokens_eq
  act_with-Kept (some execute) none d ls w =
      account_step-Kept d ls w.steps_eq (omega (arith, w.items_le)) w.tokens_eq
  act_with-Kept none none d ls w =
      account_step-Kept d ls w.steps_eq (omega (arith, w.items_le)) w.tokens_eq

  follow_decision-Kept :
      (o : Option (AgentDecision × List FallbackEvent)) (ls : LoopState)
      → Within b i ls
      → Kept b i (follow_decision l b i o ls)
  unfolding follow_decision
  follow_decision-Kept none ls w = _
  follow_decision-Kept (some (d, events)) ls w = act_with-Kept l.tool_executor _ _ _ (record {
    steps_eq = w.steps_eq;
    items_le = w.items_le;
    tokens_eq = w.tokens_eq;
    tokens_le = w.tokens_le;
  })

  -- the step behind the interventions
  ready-Kept :
      (queue : List Intervention) (ls : LoopState) (o : Option AgentDecisionState)
      → Within b i ls
      → Kept b i (decide_ready l b i (ready_with b i queue ls o))
  unfolding decide_ready
  ready-Kept queue ls none w = _
  ready-Kept queue ls (some s) w = follow_decision-Kept _ _ (record {
    steps_eq = w.steps_eq;
    items_le = w.items_le;
    tokens_eq = w.tokens_eq;
    tokens_le = w.tokens_le;
  })

  loop_step-Kept : (ls : LoopState) → Within b i ls → Kept b i (loop_step l b i ls)
  unfolding loop_step prepare
  loop_step-Kept ls w = elim (Bool-cases (leb (l.started + b.max_time) (l.clock i))) [
    | inl late ↦ rw late (
        bound_at b (suc i) i max_time_reached ls (omega arith)
          (Within-Bounded b i max_time_reached ls w))
    | inr early ↦
        let queue = heard l ls.state (ls.pending ++ l.arriving i) in
        rw early (ready-Kept queue ls (apply_pending_interventions queue ls.state) w)
  ]

-- What the result of a run satisfies, when there is one.
abbrev pub ResultBounded : LoopBudget → ℕ → Option LoopResult → Type 0
ResultBounded b n none = Unit
ResultBounded b n (some r) = Bounded b n r.termination_reason r.final

next-ResultBounded :
    (l : Loop) (b : LoopBudget) (n i : ℕ) (o : Outcome)
    → Kept b i o
    → ((ls : LoopState)
        → Within b (suc i) ls
        → ResultBounded b (suc i + n) (run_steps l b n (suc i) ls))
    → ResultBounded b (i + suc n) (next_or_end (run_steps l b n (suc i)) o)
next-ResultBounded l b n i (goes_on ls) k again =
    let same : suc i + n ≡ i + suc n = omega arith in
    subst (λ m. ResultBounded b m (run_steps l b n (suc i) ls)) same (again ls k)
next-ResultBounded l b n i (stopped reason ls) k again =
    bound_at b (i + suc n) (suc i) reason ls (omega arith) k
next-ResultBounded l b n i raises k again = _

start-Within : (b : LoopBudget) (s : AgentDecisionState) → Within b 0 (start_loop s)
start-Within b s = record {
  steps_eq = refl;
  items_le = omega arith;
  tokens_eq = refl;
  tokens_le = exceeds_zero b.max_tokens;
}

run_steps-ResultBounded :
    (l : Loop) (b : LoopBudget) (n i : ℕ) (ls : LoopState)
    → Within b i ls
    → ResultBounded b (i + n) (run_steps l b n i ls)
unfolding run_steps
run_steps-ResultBounded l b zero i ls w =
    bound_at b (i + 0) i max_steps_reached ls (omega arith)
      (Within-Bounded b i max_steps_reached ls w)
run_steps-ResultBounded l b (suc n) i ls w =
    next-ResultBounded l b n i (loop_step l b i ls) (loop_step-Kept l b i ls w)
      (λ ls' k. run_steps-ResultBounded l b n (suc i) ls' k)

-- The limits of a run: those given, or the ones of the state, at least one step and one millisecond.
abbrev pub limits : Option LoopBudget → AgentDecisionState → LoopBudget
limits budget s = normalize (or_else budget (budget_from_state s))

-- A run records at most `max_steps` steps (one where 0 are allowed), collects at most as many tool
-- results, and used at least the tokens of its recorded steps; the tokens used keep the token limit
-- unless the run says that it stopped for it.
pub run_bounded :
    (l : Loop) (budget : Option LoopBudget) (s : AgentDecisionState) {r : LoopResult}
    → run l budget s ≡ some r
    → let b = limits budget s in
      (length r.final.steps ≤ b.max_steps)
      × (length r.final.evidence_items ≤ b.max_steps)
      × (total_tokens r.final.steps ≤ r.final.token_usage)
      × ((exceeds r.final.token_usage b.max_tokens ≡ false)
          ⊎ (r.termination_reason ≡ max_tokens_reached))
unfolding run
run_bounded l budget s h =
    let b = limits budget s in
    let from_start : 0 + b.max_steps ≡ b.max_steps = omega arith in
    let kept = run_steps-ResultBounded l b b.max_steps 0 (start_loop s) (start-Within b s) in
    let w =
      subst (ResultBounded b b.max_steps) h
        (subst (λ n. ResultBounded b n (run l budget s)) from_start kept) in
    (w.steps_le, w.items_le, w.total_le, w.tokens_le)
