-- ===== src/Scheduler/Examples.antt =====
-- Runs of src/core/scheduler.js at concrete inputs, and instances of the theorems about it.
use para11ax.Common.{
  ◌++◌, ℕ, ◌*◌, ◌≤◌, String, ◌≡◌, refl, ◌⊎◌, true, false, Option, none, some, List, [], ◌∷◌, map,
  arith, ◌==ₛ◌, if◌then◌else◌, length, All,
}
use mathlib.Core.Bool
use mathlib.Core.List.{Perm}
use para11ax.JsMap.{get, has}
use para11ax.Priority
use para11ax.Priority.{
  rank_providers_for_execution, with_priorities, with_rationales, provider_priority,
  normalize_descriptor, compare_priority, compare_valid, first_difference, has_known_fields,
}
use para11ax.Common.Sort.{insert, sort}
use para11ax.Common.Sort.Laws.{IsOrdered}
use para11ax.Scheduler.Tiers.{
  add_to_groups, group_from, Placed, Group, placed, compare_placed, group_by_tier,
}
use para11ax.Scheduler.Tiers.Laws.{run_order, IsUniform, group_by_tier_order}
use para11ax.Scheduler.{
  Platform, Adapter, timeout_for, Result, success, failure, skipped, ran, Shared, loop_head, start,
  resume, retryable_failure, retry_delay_ms,
}
use para11ax.Scheduler.Pool.{
  Pool, Event, takes, answers, wakes, opening, settle, take_next, go_on, resettle, at_place, step,
  run,
}
use para11ax.Scheduler.Report.{RunReport, run_pool, run_groups, run_scheduled_providers}
use para11ax.Scheduler.Calls.{IsReport, run_scheduled_providers-IsReport}
use para11ax.Scheduler.Budget.{IsWithin, run-IsWithin}
use para11ax.Scheduler.Progress.{CanStep, pool_ends}

abbrev platform : Platform
platform = record {
  seconds = λ text. if text ==ₛ "2" then some 2000 else none;
  date = λ text. none;
}

abbrev adapter : String → Adapter
adapter name = record { name = name; timeout_ms = some 900 }

abbrev at : ℕ → ℕ → ℕ
at t reading = t

abbrev limited : Result
limited = failure (record { reason = "rate_limited"; status = none; retry_after = some "2" })

-- Two workers for three providers; the budget of three calls ends with the second try of the first.
abbrev script : List Event
script =
    takes (at 0)
    ∷ takes (at 0)
    ∷ answers 1 (at 10) limited
    ∷ answers 1 (at 20) success
    ∷ wakes 0 (at 2010)
    ∷ takes (at 2020)
    ∷ answers 0 (at 2030) success
    ∷ []

abbrev first : Pool
first =
    opening (record { calls = 0; breaker = none }) (adapter "a" ∷ adapter "b" ∷ adapter "c" ∷ [])

abbrev last : Pool
last = record {
  waiting = [];
  active = [];
  results =
      (0, ran "a" 2 success)
      ∷ (2, skipped "c" "provider_call_budget_exhausted" 0)
      ∷ (1, ran "b" 1 success)
      ∷ [];
  shared = record { calls = 3; breaker = none };
}

script-run : run platform 3 20000 2 script first ≡ some last
unfolding run step take_next at_place resettle go_on settle start loop_head resume timeout_for
    retryable_failure retry_delay_ms
script-run = refl

run-IsWithin_example : IsWithin 3 2 3 last
run-IsWithin_example =
    run-IsWithin platform 3 20000 2 none (adapter "a" ∷ adapter "b" ∷ adapter "c" ∷ []) script last
      script-run

pool_ends_example :
    (length script ≤ 6 * 3) × ((length last.results ≡ 3) ⊎ CanStep platform 3 20000 2 last)
pool_ends_example =
    pool_ends platform 3 20000 2 none (adapter "a" ∷ adapter "b" ∷ adapter "c" ∷ []) script last
      (omega arith) script-run

abbrev one_call : Shared
one_call = record { calls = 1; breaker = none }

abbrev tier_in : String × Option ℕ → Option ℕ
tier_in p = p.1

abbrev tiers : List (String × Option ℕ)
tiers = ("a", some 3) ∷ ("b", some 1) ∷ ("c", none) ∷ ("d", some 1) ∷ []

abbrev groups : List (Group tier_in)
groups = group_by_tier tier_in tiers

three_groups :
    map (λ g. map (λ p. p.0) g.providers) groups ≡ ("b" ∷ "d" ∷ []) ∷ ("a" ∷ []) ∷ ("c" ∷ []) ∷ []
unfolding group_by_tier sort
three_groups = refl

group_by_tier_order_example :
    All (IsUniform tier_in) groups
    × ((order : List (Placed tier_in)) × (run_order tier_in groups ≡ map (λ i. i.provider) order)
        × IsOrdered (compare_placed tier_in) order
        × Perm order (placed tier_in 0 tiers))
group_by_tier_order_example = group_by_tier_order tier_in tiers

-- The provider "d" is of a later tier than the others.
abbrev candidate : ℕ → String → Priority.Adapter
candidate tier name = record {
  name = name;
  scheduler_for_type = none;
  tier = some tier;
  workflow_index = none;
  cost_class = "free";
  timeout_ms = some 900;
}

abbrev four : List Priority.Adapter
four = candidate 7 "d" ∷ candidate 5 "a" ∷ candidate 5 "b" ∷ candidate 5 "c" ∷ []

-- The first tier spends the budget; the second is skipped.
abbrev late_report : RunReport
late_report = record {
  results =
      (0, ran "a" 2 success)
      ∷ (2, skipped "c" "provider_call_budget_exhausted" 0)
      ∷ (1, ran "b" 1 success)
      ∷ (0, skipped "d" "provider_call_budget_exhausted" 0)
      ∷ [];
  calls = 3;
  call_limit = 3;
  deadline_exhausted = false;
  call_budget_exhausted = true;
}

reported :
    run_scheduled_providers platform "" four 2 20000 3 0 none ((0, script) ∷ (3000, []) ∷ [])
    ≡ some late_report
unfolding run_scheduled_providers run_groups run_pool group_by_tier group_from add_to_groups sort
    insert run step take_next at_place resettle go_on settle start loop_head resume timeout_for
    retryable_failure retry_delay_ms
reported = refl

-- With a type the same providers run in one pool, "d" behind the others by its tier.
abbrev typed_script : List Event
typed_script = script ++ takes (at 2040) ∷ []

abbrev ranked_report : RunReport
ranked_report = record late_report {
  results = (3, skipped "d" "provider_call_budget_exhausted" 0) ∷ last.results;
}

ranked :
    run_scheduled_providers platform "ip" four 2 20000 3 0 none ((0, typed_script) ∷ [])
    ≡ some ranked_report
unfolding run_scheduled_providers run_groups run_pool group_by_tier group_from add_to_groups sort
    insert run step take_next at_place resettle go_on settle start loop_head resume timeout_for
    retryable_failure retry_delay_ms rank_providers_for_execution with_priorities with_rationales
    provider_priority normalize_descriptor has compare_priority compare_valid first_difference get
    has_known_fields mathlib.Core.Bool.xor
ranked = refl

run_scheduled_providers-IsReport_example : IsReport 3 four ranked_report
run_scheduled_providers-IsReport_example =
    run_scheduled_providers-IsReport platform "ip" four 2 20000 3 0 none ((0, typed_script) ∷ [])
      ranked_report ranked
