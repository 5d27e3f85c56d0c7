-- ===== src/Executor/Governance.antt =====
-- When a governed tool is called (app/agent_runtime/tool_executor.py), and where the policy of a
-- planned action differs (app/agent_runtime/policy.py).
use mathlib.Core.Path.{subst}
use smart_sre_copilot.Prelude.{
  ℕ, zero, suc, ◌+◌, ◌≤◌, ◌<◌, String, ◌≡◌, ◌⊎◌, inl, inr, refl, sym, ap, ◌∙◌, Bool, true, false,
  Option, none, some, arith, Bool-cases, if◌then◌else◌, str_eq,
}
use smart_sre_copilot.Decision.{chosen}
use smart_sre_copilot.Evidence.{Fields}
use smart_sre_copilot.Executor.{
  Call, Tool, Policy, Override, Approval, Execution, default_policy, overridden, normalized_policy,
  refuse, count_call, is_returned, invoke_tool, call_tool_with_policy, lacks_capability, guard,
  hold_for_approval, check_governance, execute, execute_approved, is_approved, validate_arguments,
  changes,
}

-- The tool is enabled, the caller has the capability asked for, and the arguments are valid.
abbrev pub Passes : Tool → Fields → String → Policy → Type 0
Passes tool arguments role policy =
    (policy.enabled ≡ true)
    × (lacks_capability role policy.capability ≡ false)
    × (chosen (validate_arguments tool.args_schema arguments) ≡ none)

guard_passes :
    (enabled lacking : Bool) (invalid : Option String) (tool : Tool) (arguments : Fields)
    (policy : Policy) (next : Execution)
    → 0 < (guard enabled lacking invalid tool arguments policy next).1
    → ((enabled ≡ true) × (lacking ≡ false) × (invalid ≡ none))
      × (guard enabled lacking invalid tool arguments policy next ≡ next)
unfolding guard
guard_passes false l i tool arguments policy next h = absurd (omega (arith, h))
guard_passes true true i tool arguments policy next h = absurd (omega (arith, h))
guard_passes true false (some e) tool arguments policy next h = absurd (omega (arith, h))
guard_passes true false none tool arguments policy next h = ((refl, refl, refl), refl)

hold_passes :
    (needed : Bool) (tool : Tool) (arguments : Fields) (policy : Policy) (next : Execution)
    → 0 < (hold_for_approval needed tool arguments policy next).1
    → (needed ≡ false) × (hold_for_approval needed tool arguments policy next ≡ next)
unfolding hold_for_approval
hold_passes true tool arguments policy next h = absurd (omega (arith, h))
hold_passes false tool arguments policy next h = (refl, refl)

invoke_tool-bounds :
    (invoke : ℕ → Fields → Call) (arguments : Fields) (attempt n : ℕ)
    → (1 ≤ (invoke_tool invoke arguments attempt n).1)
      × ((invoke_tool invoke arguments attempt n).1 ≤ suc n)
unfolding invoke_tool
invoke_tool-bounds invoke arguments attempt zero = (omega arith, omega arith)
invoke_tool-bounds invoke arguments attempt (suc n) =
    let (least, most) = invoke_tool-bounds invoke arguments (suc attempt) n in
    elim (Bool-cases (is_returned (invoke attempt arguments))) [
      | inl e ↦ rw e (omega arith, omega arith)
      | inr e ↦ rw e (omega (arith, least), omega (arith, most))
    ]

-- The calls of a tool are counted in the second part of an execution. A tool that `execute` calls is
-- enabled by its policy, needs no approval, is called for a caller who has the capability asked
-- for, with valid arguments, and at most once more than its retry count; what is returned is what
-- the `try` block makes of these calls.
pub execute_calls :
    (get_policy : String → Option Override) (tool : Tool) (arguments : Fields) (role : String)
    → 0 < (execute get_policy tool arguments role).1
    → let policy = normalized_policy get_policy tool in
      Passes tool arguments role policy
      × (policy.approval_required ≡ false)
      × ((execute get_policy tool arguments role).1 ≤ suc tool.retry_count)
      × (execute get_policy tool arguments role
          ≡ call_tool_with_policy tool arguments policy "executed")
unfolding execute check_governance call_tool_with_policy
execute_calls get_policy tool arguments role h =
    let policy = normalized_policy get_policy tool in
    let called = call_tool_with_policy tool arguments policy "executed" in
    let held = hold_for_approval policy.approval_required tool arguments policy called in
    let (passes, reached) =
      guard_passes policy.enabled (lacks_capability role policy.capability)
        (chosen (validate_arguments tool.args_schema arguments)) tool arguments policy held h in
    let (free, let_through) =
      hold_passes policy.approval_required tool arguments policy called
        (subst (λ e. 0 < e.1) reached h) in
    let same = reached ∙ let_through in
    let (least, most) = invoke_tool-bounds tool.invoke arguments 0 tool.retry_count in
    (passes, free, subst (λ e. e.1 ≤ suc tool.retry_count) (sym same) most, same)

not_called : (calls : ℕ) → ((0 < calls) → ⊥) → calls ≡ 0
not_called zero n = refl
not_called (suc calls) n = absurd (n (omega arith))

approval_passes :
    (approved : Bool) (tool : Tool) (arguments : Fields) (policy : Policy) (next : Execution)
    → let result =
        if approved
        then next
        else refuse tool arguments policy "forbidden" (some "approval mismatch") "denied" in
      0 < result.1 → (approved ≡ true) × (result ≡ next)
approval_passes true tool arguments policy next h = (refl, refl)
approval_passes false tool arguments policy next h = absurd (omega (arith, h))

-- A tool that changes things is not called by `execute`, whoever asks, unless a stored policy says
-- otherwise.
pub change_waits :
    (get_policy : String → Option Override) (tool : Tool) (arguments : Fields) (role : String)
    → changes tool.side_effect ≡ true
    → get_policy tool.name ≡ none
    → (execute get_policy tool arguments role).1 ≡ 0
unfolding normalized_policy overridden default_policy
change_waits get_policy tool arguments role c n =
    let needed : (normalized_policy get_policy tool).approval_required ≡ true =
      ap (λ o. (overridden (default_policy tool) o).approval_required) n
      ∙ ap (λ b. if b then true else tool.approval_required) c in
    not_called (execute get_policy tool arguments role).1 (λ h.
      let (passes, free, few, same) = execute_calls get_policy tool arguments role h in
      cc (needed, free))

-- A tool that `execute_approved` calls was approved under its own name, is enabled, and is called
-- for a caller who has the capability asked for, with valid arguments, and at most once more than
-- its retry count.
pub execute_approved_calls :
    (get_policy : String → Option Override) (tool : Tool) (arguments : Fields) (role : String)
    (approval : Approval)
    → 0 < (execute_approved get_policy tool arguments role approval).1
    → let policy = normalized_policy get_policy tool in
      (is_approved approval tool ≡ true)
      × Passes tool arguments role policy
      × ((execute_approved get_policy tool arguments role approval).1 ≤ suc tool.retry_count)
      × (execute_approved get_policy tool arguments role approval
          ≡ call_tool_with_policy tool arguments policy "executed_after_approval")
unfolding execute_approved check_governance call_tool_with_policy
execute_approved_calls get_policy tool arguments role approval h =
    let policy = normalized_policy get_policy tool in
    let called = call_tool_with_policy tool arguments policy "executed_after_approval" in
    let checked = check_governance tool arguments role policy called in
    let (approved, let_through) =
      approval_passes (is_approved approval tool) tool arguments policy checked h in
    let (passes, reached) =
      guard_passes policy.enabled (lacks_capability role policy.capability)
        (chosen (validate_arguments tool.args_schema arguments)) tool arguments policy called
        (subst (λ e. 0 < e.1) let_through h) in
    let same = let_through ∙ reached in
    let (least, most) = invoke_tool-bounds tool.invoke arguments 0 tool.retry_count in
    (approved, passes, subst (λ e. e.1 ≤ suc tool.retry_count) (sym same) most, same)

passing_guard :
    (tool : Tool) (arguments : Fields) (role : String) (policy : Policy) (next : Execution)
    → Passes tool arguments role policy
    → check_governance tool arguments role policy next ≡ next
unfolding check_governance guard
passing_guard tool arguments role policy next (enabled, has, valid) = rw (enabled, has, valid) refl

pub call_tool_with_policy-calls :
    (tool : Tool) (arguments : Fields) (policy : Policy) (decision : String)
    → 0 < (call_tool_with_policy tool arguments policy decision).1
unfolding call_tool_with_policy
call_tool_with_policy-calls tool arguments policy decision =
    let (least, most) = invoke_tool-bounds tool.invoke arguments 0 tool.retry_count in
    omega (arith, least)

-- an approved call that passes is made
pub execute_approved_passing :
    (get_policy : String → Option Override) (tool : Tool) (arguments : Fields) (role : String)
    (approval : Approval)
    → is_approved approval tool ≡ true
    → let policy = normalized_policy get_policy tool in
      Passes tool arguments role policy
      → execute_approved get_policy tool arguments role approval
        ≡ call_tool_with_policy tool arguments policy "executed_after_approval"
unfolding execute_approved
execute_approved_passing get_policy tool arguments role approval approved passes =
    rw approved (passing_guard tool arguments role (normalized_policy get_policy tool) _ passes)

guard_held :
    (enabled lacking : Bool) (invalid : Option String) (tool : Tool) (arguments : Fields)
    (policy : Policy) (next : Execution)
    → str_eq (guard enabled lacking invalid tool arguments policy next).0.status "approval_required"
      ≡ true
    → (enabled ≡ true) × (lacking ≡ false) × (invalid ≡ none)
unfolding guard
guard_held false l i tool arguments policy next h = cc h
guard_held true true i tool arguments policy next h = cc h
guard_held true false (some e) tool arguments policy next h = cc h
guard_held true false none tool arguments policy next h = (refl, refl, refl)

-- a call that is held for an approval passes otherwise
pub execute-Passes :
    (get_policy : String → Option Override) (tool : Tool) (arguments : Fields) (role : String)
    → str_eq (execute get_policy tool arguments role).0.status "approval_required" ≡ true
    → Passes tool arguments role (normalized_policy get_policy tool)
unfolding execute check_governance
execute-Passes get_policy tool arguments role h =
    let policy = normalized_policy get_policy tool in
    guard_held policy.enabled (lacks_capability role policy.capability)
      (chosen (validate_arguments tool.args_schema arguments)) tool arguments policy _ h

-- ---------------------------------------------------------------- retries

-- Call `last`, counted from `attempt` on, is the last one made.
pub record IsLast (invoke : ℕ → Fields → Call) (arguments : Fields) (attempt n last : ℕ)
    : Type 0 where
  pub outcome :
      invoke_tool invoke arguments attempt n ≡ (invoke (attempt + last) arguments, suc last)
  pub last_le : last ≤ n
  pub ends : (is_returned (invoke (attempt + last) arguments) ≡ true) ⊎ (last ≡ n)
  pub earlier : (k : ℕ) → k < last → is_returned (invoke (attempt + k) arguments) ≡ false

module _ (invoke : ℕ → Fields → Call) (arguments : Fields) where
  first_call : (attempt : ℕ) → invoke attempt arguments ≡ invoke (attempt + 0) arguments
  first_call attempt =
      let same : attempt ≡ attempt + 0 = omega arith in ap (λ i. invoke i arguments) same

  next_call :
      (attempt k : ℕ) → invoke (suc attempt + k) arguments ≡ invoke (attempt + suc k) arguments
  next_call attempt k =
      let same : suc attempt + k ≡ attempt + suc k = omega arith in
      ap (λ i. invoke i arguments) same

  earlier_calls :
      (attempt last : ℕ)
      → is_returned (invoke attempt arguments) ≡ false
      → ((k : ℕ) → k < last → is_returned (invoke (suc attempt + k) arguments) ≡ false)
      → (k : ℕ) → k < suc last
      → is_returned (invoke (attempt + k) arguments) ≡ false
  earlier_calls attempt last e later zero l = ap is_returned (sym (first_call attempt)) ∙ e
  earlier_calls attempt last e later (suc k) l =
      ap is_returned (sym (next_call attempt k)) ∙ later k (omega (arith, l))

  -- The calls stop at the first one that returns, or when the `n` retries are used up, and the
  -- outcome of the last call made is the one that is kept.
  pub invoke_tool-IsLast : (attempt n : ℕ) → (last : ℕ) × IsLast invoke arguments attempt n last
  unfolding invoke_tool
  invoke_tool-IsLast attempt zero = (
    0,
    record {
      outcome = ap (λ c. (c, 1)) (first_call attempt);
      last_le = omega arith;
      ends = inr refl;
      earlier = λ k l. absurd (omega (arith, l));
    },
  )
  invoke_tool-IsLast attempt (suc n) =
      let (last, w) = invoke_tool-IsLast (suc attempt) n in
      elim (Bool-cases (is_returned (invoke attempt arguments))) [
        | inl e ↦ (
          0,
          record {
            outcome = rw e (ap (λ c. (c, 1)) (first_call attempt));
            last_le = omega arith;
            ends = inl (ap is_returned (sym (first_call attempt)) ∙ e);
            earlier = λ k l. absurd (omega (arith, l));
          },
        )
        | inr e ↦ (
          suc last,
          record {
            outcome =
                rw e (
                  ap count_call w.outcome ∙ ap (λ c. (c, suc (suc last))) (next_call attempt last));
            last_le = omega (arith, w.last_le);
            ends = elim w.ends [
              | inl r ↦ inl (ap is_returned (sym (next_call attempt last)) ∙ r)
              | inr m ↦ inr (ap suc m)
            ];
            earlier = earlier_calls attempt last e w.earlier;
          },
        )
      ]

-- ---------------------------------------------------------------- two policies
