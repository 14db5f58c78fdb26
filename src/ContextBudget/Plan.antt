-- ===== src/ContextBudget/Plan.antt =====
-- planContextBudget of src/core/context-budget.js. Its floating-point products are the platform's:
-- `floor_times n r` is `Math.floor(n * r)` and `share n p` is `Math.floor(n * (p / 100))` for the ratios that
-- the source writes.
use para11ax.Common.{
  ℕ, ◌+◌, ◌-◌, ◌*◌, ◌≤◌, ◌<◌, ◌≡◌, subst, inl, inr, Bool, not, arith, leb, if◌then◌else◌,
  Bool-cases, leb→lt,
}

pub record Allocations : Type 0 where
  pub invariants : ℕ
  pub decisions : ℕ
  pub active_work : ℕ
  pub evidence : ℕ
  pub tool_output : ℕ
  pub scratch : ℕ

pub record Plan : Type 0 where
  pub context_window : ℕ
  pub max_output_tokens : ℕ
  pub safety_reserve_tokens : ℕ
  pub input_budget_tokens : ℕ
  pub allocations : Allocations

pub data Planned : Type 0 where
  invalid_context_window invalid_max_output_tokens output_exceeds_window : Planned
  invalid_safety_reserve_ratio reserves_exhaust_window : Planned
  planned : Plan → Planned

abbrev pub allotted : Allocations → ℕ
allotted a = a.invariants + a.decisions + a.active_work + a.evidence + a.tool_output

module _ {ℓ} {Ratio : Type ℓ} (is_safe_ratio : Ratio → Bool) (floor_times : ℕ → Ratio → ℕ)
    (share : ℕ → ℕ → ℕ) where
  abbrev pub fixed : ℕ → Allocations
  fixed budget = record {
    invariants = share budget 12;
    decisions = share budget 12;
    active_work = share budget 24;
    evidence = share budget 30;
    tool_output = share budget 14;
    scratch = 0;
  }

  abbrev pub allocate : ℕ → Allocations
  allocate budget = record (fixed budget) { scratch = budget - allotted (fixed budget) }

  abbrev pub plan_of : (window output reserve : ℕ) → Plan
  plan_of window output reserve =
      let budget = window - output - reserve in
      record {
        context_window = window;
        max_output_tokens = output;
        safety_reserve_tokens = reserve;
        input_budget_tokens = budget;
        allocations = allocate budget;
      }

  unfoldable pub plan_context_budget : (context_window max_output_tokens : ℕ) → Ratio → Planned
  plan_context_budget window output ratio =
      if leb window 0
      then invalid_context_window
      else if leb output 0
      then invalid_max_output_tokens
      else if leb window output
      then output_exceeds_window
      else if not (is_safe_ratio ratio)
      then invalid_safety_reserve_ratio
      else let reserve = floor_times window ratio in
        if leb window (output + reserve)
        then reserves_exhaust_window
        else planned (plan_of window output reserve)

  planned_eq : (p q : Plan) → planned p ≡ planned q → p ≡ q
  planned_eq p q h = cc

  -- The parts of a plan: nothing of the window is lost or given twice, and scratch gets at least 8 %.
  pub record IsBalanced (p : Plan) : Type 0 where
    pub window :
        p.max_output_tokens + p.safety_reserve_tokens + p.input_budget_tokens ≡ p.context_window
    pub budget : allotted p.allocations + p.allocations.scratch ≡ p.input_budget_tokens
    pub some_input : 0 < p.input_budget_tokens
    pub scratch_share : 8 * p.input_budget_tokens ≤ 100 * p.allocations.scratch

  -- Up to this window (2 ^ 40 tokens) the error of a double's product is less than the hundredth by which a
  -- share that is not a whole number stays below the next one.
  abbrev pub largest_window : ℕ
  largest_window = 1_099_511_627_776

  plan_of-IsBalanced :
      (window output reserve : ℕ)
      → window ≤ largest_window
      → ((n percent : ℕ) → n ≤ largest_window → percent ≤ 30 → 100 * share n percent ≤ percent * n)
      → output + reserve < window
      → IsBalanced (plan_of window output reserve)
  plan_of-IsBalanced window output reserve small rounds_down room =
      let budget = window - output - reserve in
      let a = rounds_down budget 12 (omega (arith, small)) (omega arith) in
      let b = rounds_down budget 24 (omega (arith, small)) (omega arith) in
      let c = rounds_down budget 30 (omega (arith, small)) (omega arith) in
      let d = rounds_down budget 14 (omega (arith, small)) (omega arith) in
      record {
        window = omega (arith, room);
        budget = omega (arith, a, b, c, d);
        some_input = omega (arith, room);
        scratch_share = omega (arith, a, b, c, d);
      }

  -- For a window of at most 2 ^ 40 tokens, if `share n p` is at most p hundredths of n for the n up to that
  -- window and the p up to 30, then in every plan that is made the output, the reserve and
  -- the input budget are together the window, the six allocations are together the input budget, which
  -- is not zero, and scratch has at least eight hundredths of it.
  pub plan-IsBalanced :
      (window output : ℕ) (ratio : Ratio) (p : Plan)
      → window ≤ largest_window
      → ((n percent : ℕ) → n ≤ largest_window → percent ≤ 30 → 100 * share n percent ≤ percent * n)
      → plan_context_budget window output ratio ≡ planned p
      → IsBalanced p
  unfolding plan_context_budget
  plan-IsBalanced window output ratio p small rounds_down h = elim (Bool-cases (leb window 0)) [
    | inl bad ↦ cc (rw (bad, plan_context_budget) at h)
    | inr ok₁ ↦ elim (Bool-cases (leb output 0)) [
      | inl bad ↦ cc (rw (ok₁, bad, plan_context_budget) at h)
      | inr ok₂ ↦ elim (Bool-cases (leb window output)) [
        | inl bad ↦ cc (rw (ok₁, ok₂, bad, plan_context_budget) at h)
        | inr ok₃ ↦ elim (Bool-cases (is_safe_ratio ratio)) [
          | inr bad ↦ cc (rw (ok₁, ok₂, ok₃, bad, plan_context_budget) at h)
          | inl ok₄ ↦ elim (Bool-cases (leb window (output + floor_times window ratio))) [
            | inl bad ↦ cc (rw (ok₁, ok₂, ok₃, ok₄, bad, plan_context_budget) at h)
            | inr room ↦
                subst IsBalanced
                  (planned_eq _ _ (rw (ok₁, ok₂, ok₃, ok₄, room, plan_context_budget) at h))
                  (plan_of-IsBalanced window output (floor_times window ratio) small rounds_down
                    (leb→lt _ _ room))
          ]
        ]
      ]
    ]
  ]
