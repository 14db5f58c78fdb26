-- ===== src/Scheduler/Report.antt =====
-- `runScheduledProviders` of src/core/scheduler.js: its guards, the order in which the pools run, and its
-- report. A script has the clock's reading and the events of each pool. The results keep their places.
use para11ax.Common.{
  not, ℕ, ◌+◌, String, Bool, false, ◌||◌, Option, none, some, List, [], ◌∷◌, ◌++◌, map, ◌==ₛ◌, ltb,
  leb, ◌==◌, if◌then◌else◌, length,
}
use para11ax.Breaker.{Breaker}
use para11ax.Priority
use para11ax.Priority.{rank_providers_for_execution}
use para11ax.Priority.Laws.{adapters}
use para11ax.Scheduler.{Platform, Adapter, Item, skipped, ran, Shared}
use para11ax.Scheduler.Pool.{Pool, Event, opening, run}
use para11ax.Scheduler.Tiers.{Group, group_by_tier}

-- PROVIDER_CONCURRENCY_MAX
abbrev pub concurrency_max : ℕ
concurrency_max = 4

-- ({ provider, skipped: true, reason, attempts: 0 })
abbrev pub skip_all : String → ℕ → List Adapter → List (ℕ × Item)
skip_all reason n [] = []
skip_all reason n (a ∷ as') = (n, skipped a.name reason 0) ∷ skip_all reason (n + 1) as'

-- Promise.all: every worker has returned
abbrev pub pool_end : Option Pool → Option (List (ℕ × Item) × Shared)
pool_end none = none
pool_end (some q) =
    if length q.waiting + length q.active == 0 then some (q.results, q.shared) else none

abbrev pub push_all {ℓ} :
    {A : Type ℓ} → List A → Option (List A × Shared) → Option (List A × Shared)
push_all items none = none
push_all items (some (later, s)) = some (items ++ later, s)

pub record RunReport : Type 0 where
  pub results : List (ℕ × Item)
  pub calls : ℕ
  pub call_limit : ℕ
  pub deadline_exhausted : Bool
  pub call_budget_exhausted : Bool

abbrev pub has_reason : String → List (ℕ × Item) → Bool
has_reason reason [] = false
has_reason reason ((n, skipped provider r retry) ∷ items) = r ==ₛ reason || has_reason reason items
has_reason reason ((n, ran provider attempts result) ∷ items) = has_reason reason items

module _ (platform : Platform) (call_limit deadline_at concurrency : ℕ) where
  -- await runPool(items, concurrency, runOne)
  unfoldable pub run_pool : List Event → List Adapter → Shared → Option (List (ℕ × Item) × Shared)
  run_pool es items s =
      pool_end (run platform call_limit deadline_at concurrency es (opening s items))

  -- The loop over the groups.
  unfoldable pub run_groups :
      List (ℕ × List Event) → List (List Adapter) → Shared → Option (List (ℕ × Item) × Shared)
  run_groups script [] s = some ([], s)
  run_groups [] (g ∷ gs) s = none
  run_groups ((now, es) ∷ script) (g ∷ gs) s =
      if leb deadline_at now
      then push_all (skip_all "request_deadline_exhausted" 0 g) (run_groups script gs s)
      else if leb call_limit s.calls
      then push_all (skip_all "provider_call_budget_exhausted" 0 g) (run_groups script gs s)
      else (elim (run_pool es g s) [
        | none ↦ none
        | some (items, s') ↦ push_all items (run_groups script gs s')
      ])

abbrev pub report_of : ℕ → List (ℕ × Item) × Shared → RunReport
report_of call_limit (results, s) = record {
  results = results;
  calls = s.calls;
  call_limit = call_limit;
  deadline_exhausted = has_reason "request_deadline_exhausted" results;
  call_budget_exhausted = has_reason "provider_call_budget_exhausted" results;
}

abbrev pub with_report : ℕ → Option (List (ℕ × Item) × Shared) → Option RunReport
with_report call_limit none = none
with_report call_limit (some done) = some (report_of call_limit done)

-- What `runOne` reads of an adapter.
abbrev pub scheduled : Priority.Adapter → Adapter
scheduled a = record { name = a.name; timeout_ms = a.timeout_ms }

-- rankProvidersForExecution({ providers, type }).map(item => item.adapter)
abbrev pub queue_of : String → List Priority.Adapter → List Adapter
queue_of type providers = map scheduled (adapters (rank_providers_for_execution providers type))

abbrev pub tier_of : Priority.Adapter → Option ℕ
tier_of a = a.tier

abbrev pub groups_of : List Priority.Adapter → List (List Adapter)
groups_of providers =
    map (λ (g : Group tier_of). map scheduled g.providers) (group_by_tier tier_of providers)

-- With a type the providers are ranked and run in one pool, else by tiers. `none` is a refusal of the guards
-- or a script that does not run to the end.
module _ (platform : Platform) where
  -- if (type), from the first pool of the script
  abbrev pub typed_report :
      List (ℕ × List Event)
      → (type : String) → List Priority.Adapter
      → (concurrency call_limit deadline_at : ℕ) → Option Breaker
      → Option RunReport
  typed_report [] type providers concurrency call_limit deadline_at breaker = none
  typed_report ((now, es) ∷ script) type providers concurrency call_limit deadline_at breaker =
      with_report call_limit (
        run_pool platform call_limit deadline_at concurrency es (queue_of type providers)
          (record { calls = 0; breaker = breaker }))

  unfoldable pub run_scheduled_providers :
      (type : String)
      → List Priority.Adapter
      → (concurrency deadline_ms call_limit started_at : ℕ) → Option Breaker
      → List (ℕ × List Event)
      → Option RunReport
  run_scheduled_providers type providers concurrency deadline_ms call_limit started_at breaker
        script =
      let deadline_at = started_at + deadline_ms in
      if ltb concurrency 1
        || ltb concurrency_max concurrency
        || deadline_ms == 0
        || ltb call_limit 1
      then none
      else if not (type ==ₛ "")
      then typed_report script type providers concurrency call_limit deadline_at breaker
      else with_report call_limit (
          run_groups platform call_limit deadline_at concurrency script (groups_of providers)
            (record { calls = 0; breaker = breaker }))
