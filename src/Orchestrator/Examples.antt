-- ===== src/Orchestrator/Examples.antt =====
-- A run of `enrich` of src/core/orchestrator.js over the bounded cache of src/core/cache.js. A provider's
-- data is its verdict; evidence is made of all but the verdict "?".
use para11ax.Common.{
  not, true, String, ◌≡◌, refl, Option, none, some, List, [], ◌∷◌, map, ◌==ₛ◌, if◌then◌else◌,
}
use para11ax.JsMap.{get, put, delete, has}
use para11ax.Cache.{Cache, empty, lookup, store, erase, remove, delete_expired, make_room, full_key}
use para11ax.Semantics.{polarity, class_of, semantic_class}
use para11ax.Orchestrator.{
  ran, miss, Totals, ProviderResult, good, Adapter, Parts, Scheduled, not_run, was_run,
  cache_ttl_for, look_up, look_up_all, record_all, outcome_by, outcomes,
}
use para11ax.Orchestrator.Coverage.{add_classes, add_all_classes, build_coverage, merge_limitations}
use para11ax.Orchestrator.Enrich.{no_totals, Response, partially, enrich}
use para11ax.Orchestrator.Ttl.{is_quiet, cache_ttl_for-polarity}

abbrev adapter : String → List String → Adapter
adapter name kinds = record {
  name = name;
  types = "ip" ∷ [];
  cache_ttl_ms = some 3600;
  negative_cache_ttl_ms = some 60;
  observation_types = kinds;
  observation_types_by_type = [];
}

abbrev registry : String → Option Adapter
registry name =
    if name ==ₛ "abuse"
    then some (adapter "abuse" ("abuse_reports" ∷ []))
    else if name ==ₛ "routes"
    then some (adapter "routes" ("routing" ∷ []))
    else if name ==ₛ "feed"
    then some (adapter "feed" ("reputation" ∷ []))
    else none

abbrev parts : Parts String String (Cache (ProviderResult String))
parts = record {
  verdict = λ d. some d;
  observation_type = λ d. none;
  normalize = λ name d. if d ==ₛ "?" then none else some d;
  cache_get = λ key c. lookup 0 key "" c;
  relates = λ d. not (d ==ₛ "!");
  cache_set = λ key result ttl c. (true, (store (λ r. some 10) 0 key "" result ttl c).1);
  cache_delete = λ key c. (erase key "" c).1;
  registry = registry;
  lower = λ s. s;
}

-- The scheduler runs the first two that it is given, and has no budget for the others.
abbrev schedule : List Adapter → List (Scheduled parts)
schedule [] = []
schedule (a ∷ []) = was_run a.name (good "listed") ∷ []
schedule (a ∷ b ∷ as') =
    was_run a.name (good "listed")
    ∷ was_run b.name (good "?")
    ∷ map (λ (c : Adapter). not_run c.name "call_budget_exhausted" none) as'

abbrev names : List String
names = "abuse" ∷ "routes" ∷ "feed" ∷ "unknown" ∷ []

abbrev response : Response parts
response = enrich parts schedule (λ es. []) (λ ss. ss) "ip" "192.0.2.1" names (empty 8 1000)

-- One provider is ok, one answer cannot be normalized, one has no budget and one is not known.
enrich_counts :
    (response.totals.ok ≡ 1)
    × (response.totals.failed ≡ 1)
    × (response.totals.skipped ≡ 2)
    × (response.status ≡ partially)
    × (response.limitations ≡ "partial_provider_failure" ∷ "material_coverage_loss" ∷ [])
unfolding enrich look_up_all look_up record_all outcomes outcome_by build_coverage add_all_classes
    add_classes merge_limitations class_of semantic_class cache_ttl_for lookup delete_expired store
    make_room erase remove full_key get put delete has
enrich_counts = (refl, refl, refl, refl, refl)

-- Where the relationships cannot be copied, a provider is failed and its evidence stays.
abbrev half_done : Totals parts
half_done =
    outcome_by parts "k" "abuse" (some (ran (good "!") miss)) (no_totals parts [] (empty 8 1000))

half_done_counts : (half_done.ok ≡ 0) × (half_done.failed ≡ 1) × (half_done.evidence ≡ "!" ∷ [])
unfolding outcome_by
half_done_counts = (refl, refl, refl)

cache_ttl_for-polarity_example :
    cache_ttl_for parts (adapter "abuse" []) (good "clean")
    ≡ (if is_quiet (polarity (λ s. s) (some "clean")) then some 60 else some 3600)
cache_ttl_for-polarity_example = cache_ttl_for-polarity parts (adapter "abuse" []) "clean"
