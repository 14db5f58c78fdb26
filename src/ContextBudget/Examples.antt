-- ===== src/ContextBudget/Examples.antt =====
-- A selection of src/core/context-budget.js, and instances of the theorems about it.
use para11ax.Common.{
  ℕ, ◌≤◌, String, ◌≡◌, refl, none, some, List, [], ◌∷◌, All, sum_of, ◌*◌, leb, ◌/◌, arith,
}
use para11ax.Common.Sort.{insert, sort}
use para11ax.ContextBudget.{
  Platform, Given, Item, Kind, decision, recent, scratch, keep, compare_optional, compare_index,
  choose, choose_one, Selection, selected, normalize_from, select_normalized, select_context_items,
  tokens,
}
use para11ax.ContextBudget.Accounting.{select-sum}
use para11ax.ContextBudget.Plan.{Plan, planned, plan_context_budget, IsBalanced, plan-IsBalanced}
use para11ax.ContextBudget.Laws.{IsTooLarge, select-keeps}

abbrev platform : Platform
platform = record { trim = λ text. text; text_length = λ text. 7 }

abbrev given : String → String → ℕ → Given
given id kind tokens = record {
  id = id;
  kind = kind;
  text = "text";
  tokens = some tokens;
  recency = none;
}

abbrev items : List Given
items =
    given "a" "scratch" 30
    ∷ given "b" "decision" 50
    ∷ given "c" "recent" 60
    ∷ given "d" "recent" 40
    ∷ []

abbrev item : String → Kind → ℕ → ℕ → Item
item id kind tokens index = record {
  id = id;
  kind = kind;
  text = "text";
  tokens = tokens;
  recency = index;
  index = index;
}

-- The decision and the later recent item take 90 of 100 tokens; nothing else fits.
abbrev selection : Selection
selection = record {
  items = item "b" decision 50 1 ∷ item "d" recent 40 3 ∷ [];
  dropped = item "a" scratch 30 0 ∷ item "c" recent 60 2 ∷ [];
  used_tokens = 90;
  max_tokens = 100;
}

selects : select_context_items platform items 100 ≡ selected selection
unfolding select_context_items select_normalized normalize_from keep choose choose_one sort insert
    compare_optional compare_index
selects = refl

select-keeps_example : 90 ≤ 100 × All (IsTooLarge 100 90) selection.dropped
select-keeps_example = select-keeps platform items 100 selection selects

select-sum_example : 90 ≡ sum_of tokens selection.items
select-sum_example = select-sum platform items 100 selection selects

abbrev percent : ℕ → ℕ → ℕ
percent n p = p * n / 100

percent_down : (n p : ℕ) → 100 * percent n p ≤ p * n
percent_down n p = omega arith

-- A window of 100,000 tokens with 5 % in reserve.
abbrev plan : Plan
plan = record {
  context_window = 100000;
  max_output_tokens = 16384;
  safety_reserve_tokens = 5000;
  input_budget_tokens = 78616;
  allocations = record {
    invariants = 9433;
    decisions = 9433;
    active_work = 18867;
    evidence = 23584;
    tool_output = 11006;
    scratch = 6293;
  };
}

plans : plan_context_budget (λ r. leb r 20) percent percent 100000 16384 5 ≡ planned plan
unfolding plan_context_budget
plans = refl

plan-IsBalanced_example : IsBalanced (λ r. leb r 20) percent percent plan
plan-IsBalanced_example =
    plan-IsBalanced (λ r. leb r 20) percent percent 100000 16384 5 plan (omega arith)
      (λ n p small few. percent_down n p) plans
