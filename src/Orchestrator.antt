-- ===== src/Orchestrator.antt =====
-- `enrich` of src/core/orchestrator.js: what it takes from the cache, what it makes of the scheduler's
-- results, the summary, the status, the coverage and the limitations. A provider's answer is its data or a
-- failure. Telemetry, times, the relationships and the texts made from the evidence are left out.
pub mod Coverage
pub mod Enrich
pub mod Accounting
pub mod Ttl
mod Examples
use Prim.Native.String as Str
use para11ax.Common.{
  ℕ, zero, suc, ◌+◌, ◌-◌, ◌*◌, ◌/◌, ◌%◌, ◌≤◌, ◌<◌, min, max, String, ◌≡◌, refl, sym, ap, ◌∙◌, subst,
  ◌≢◌, ◌↔◌, ◌⊎◌, inl, inr, Bool, true, false, not, ◌&&◌, ◌||◌, Option, none, some, List, [], ◌∷◌,
  ◌++◌, map, arith, ◌==ₛ◌, eq_iff, ltb, leb, ◌==◌, if◌then◌else◌, Bool-cases, Option-cases, ltb→lt,
  ltb→le, leb→le, leb→lt, lt→ltb, ltb-false, le→leb, tests, length, drop, length-append, sum_of,
  sum_of-append, All, All-append, get_elem?, without, sum_of-without, All-without, some_eq,
  length-without, append_nil, append_snoc,
}
use para11ax.JsMap.{JsMap, get, put}
use para11ax.Semantics.{is_listed, or_empty}

-- `result`: its data, or the reason of its failure when it has one.
pub data ProviderResult (D : Type 0) : Type 0 where
  good : D → ProviderResult D
  bad : Option String → ProviderResult D

pub data CacheState : Type 0 where
  hit miss : CacheState

-- What `records` has for a provider.
pub data Record (D : Type 0) : Type 0 where
  left_out : (reason : String) → (retry_after_ms : Option ℕ) → Record D
  ran : ProviderResult D → CacheState → Record D

pub record Adapter : Type 0 where
  pub name : String
  pub types : List String
  pub cache_ttl_ms : Option ℕ
  pub negative_cache_ttl_ms : Option ℕ
  pub observation_types : List String
  -- coverageObservationTypesByType
  pub observation_types_by_type : JsMap (List String)

pub record Failure : Type 0 where
  pub provider : String
  pub reason : String
  pub retry_after_ms : Option ℕ

-- What of a provider's data is looked at, and the parts of the gateway that are called. `D` is the data, `E`
-- a piece of evidence and `C` the cache.
pub record Parts (D E C : Type 0) : Type 0 where
  pub verdict : D → Option String
  pub observation_type : D → Option String
  -- normalizeEvidence; `none` when it throws
  pub normalize : String → D → Option E
  -- whether the relationships of the evidence can be copied
  pub relates : E → Bool
  pub cache_get : String → C → Option (ProviderResult D) × C
  -- whether `cache.set` returns without an exception, and the cache after it
  pub cache_set : String → ProviderResult D → ℕ → C → Bool × C
  pub cache_delete : String → C → C
  pub registry : String → Option Adapter
  -- toLowerCase
  pub lower : String → String

-- NEGATIVE_SEMANTIC_VERDICTS
abbrev pub negative_semantic_verdicts : List String
negative_semantic_verdicts =
    "not_listed" ∷ "not_found" ∷ "no_result" ∷ "no_association" ∷ "clean" ∷ "benign" ∷ []

abbrev pub cache_key : String → String → String → String
cache_key provider type indicator =
    Str.◌++◌ provider (Str.◌++◌ ":" (Str.◌++◌ type (Str.◌++◌ ":" indicator)))

-- retryAfterMs, unless it is falsy
abbrev pub nonzero : Option ℕ → Option ℕ
nonzero none = none
nonzero (some n) = if n == 0 then none else some n

module _ {D E C : Type 0} (parts : Parts D E C) where
  unfoldable pub cache_ttl_for : Adapter → ProviderResult D → Option ℕ
  cache_ttl_for adapter (bad failure) = none
  cache_ttl_for adapter (good data') =
      if is_listed (parts.lower (or_empty (parts.verdict data'))) negative_semantic_verdicts
      then adapter.negative_cache_ttl_ms
      else adapter.cache_ttl_ms

  -- adapter && adapter.types.includes(type)
  abbrev pub supporting : String → String → Option Adapter
  supporting type name = elim (parts.registry name) [
    | none ↦ none
    | some adapter ↦ if is_listed type adapter.types then some adapter else none
  ]

  -- The variables of the loop over the cache.
  pub record Found : Type 0 where
    pub records : JsMap (Record D)
    pub pending : List Adapter
    pub cache : C

  unfoldable pub look_up : (type indicator name : String) → Found → Found
  look_up type indicator name f = elim (supporting type name) [
    | none ↦ record f { records = put name (left_out "unsupported_provider" none) f.records }
    | some adapter ↦
        let (cached, cache) = parts.cache_get (cache_key name type indicator) f.cache in
        elim cached [
          | some result ↦ record f { records = put name (ran result hit) f.records; cache = cache }
          | none ↦ record f { pending = f.pending ++ adapter ∷ []; cache = cache }
        ]
  ]

  unfoldable pub look_up_all : (type indicator : String) → List String → Found → Found
  look_up_all type indicator [] f = f
  look_up_all type indicator (name ∷ names) f =
      look_up_all type indicator names (look_up type indicator name f)

  -- An item of the scheduler's results.
  pub data Scheduled : Type 0 where
    not_run : (provider reason : String) → (retry_after_ms : Option ℕ) → Scheduled
    was_run : (provider : String) → ProviderResult D → Scheduled

  abbrev add_once : String → List String → List String
  add_once name names = if is_listed name names then names else names ++ name ∷ []

  -- `records` and `executedProviders`
  unfoldable pub record_all :
      List Scheduled → JsMap (Record D) × List String → JsMap (Record D) × List String
  record_all [] s = s
  record_all (not_run provider reason retry ∷ items) (records, executed) =
      record_all items (put provider (left_out reason retry) records, executed)
  record_all (was_run provider result ∷ items) (records, executed) =
      record_all items (put provider (ran result miss) records, add_once provider executed)

  -- The variables of the last loop, with `summary`.
  pub record Totals : Type 0 where
    pub ok : ℕ
    pub failed : ℕ
    pub skipped : ℕ
    pub cached : ℕ
    pub evidence : List E
    pub failures : List Failure
    pub health : JsMap String
    pub cache_meta : JsMap String
    pub records : JsMap (Record D)
    pub cache : C

  abbrev state_name : CacheState → String
  state_name hit = "hit"
  state_name miss = "miss"

  -- !record || record.skipped
  abbrev pub outcome_skipped : String → String → Option ℕ → Totals → Totals
  outcome_skipped name reason retry t = record t {
    skipped = t.skipped + 1;
    failures =
        t.failures
        ++ record { provider = name; reason = reason; retry_after_ms = nonzero retry } ∷ [];
    health = put name reason t.health;
    cache_meta = put name "skipped" t.cache_meta;
  }

  -- cache?.set(…), unless the result is a hit or has no time to live: whether it returns, and the cache
  abbrev pub store_result : String → Option ℕ → ProviderResult D → CacheState → C → Bool × C
  store_result key (some ttl) result miss cache = parts.cache_set key result ttl cache
  store_result key ttl result state cache = (true, cache)

  -- `cacheTtlFor` of the provider's adapter; `none` is its TypeError where there is no adapter.
  abbrev pub ttl_of : String → ProviderResult D → Option (Option ℕ)
  ttl_of name result = elim (parts.registry name) [
    | none ↦ none
    | some adapter ↦ some (cache_ttl_for adapter result)
  ]

  abbrev one_if_hit : CacheState → ℕ
  one_if_hit hit = 1
  one_if_hit miss = 0

  -- The end of the `try` block.
  abbrev pub outcome_ok : (name : String) → CacheState → Totals → Totals
  outcome_ok name state t = record t {
    ok = t.ok + 1;
    cached = t.cached + one_if_hit state;
    health = put name "ok" t.health;
    cache_meta = put name (state_name state) t.cache_meta;
  }

  -- The failure of a result, and of an exception in the `try` block.
  abbrev pub outcome_failed : (name reason : String) → CacheState → Totals → Totals
  outcome_failed name reason state t = record t {
    failed = t.failed + 1;
    failures =
        t.failures ++ record { provider = name; reason = reason; retry_after_ms = none } ∷ [];
    health = put name reason t.health;
    cache_meta = put name (state_name state) t.cache_meta;
  }

  abbrev pub reason_of : Option String → String
  reason_of none = "provider_error"
  reason_of (some reason) = reason

  -- catch { … }
  abbrev pub outcome_rejected : (key name : String) → CacheState → Totals → Totals
  outcome_rejected key name state t =
      record (outcome_failed name "evidence_normalization_error" state t) {
        records = put name (ran (bad (some "evidence_normalization_error")) state) t.records;
        cache = parts.cache_delete key t.cache;
      }

  -- past `cache?.set`, by what it gives
  abbrev pub outcome_stored : (key name : String) → CacheState → Bool × C → Totals → Totals
  outcome_stored key name state (true, cache) t = outcome_ok name state (record t { cache = cache })
  outcome_stored key name state (false, cache) t =
      outcome_rejected key name state (record t { cache = cache })

  -- past `cacheTtlFor`, by what it gives
  abbrev pub outcome_timed :
      (key name : String) → D → CacheState → Option (Option ℕ) → Totals → Totals
  outcome_timed key name data' state none t = outcome_rejected key name state t
  outcome_timed key name data' state (some ttl) t =
      outcome_stored key name state (store_result key ttl (good data') state t.cache) t

  -- past `evidence.push`, by whether the relationships can be copied. What fails from here on is caught with
  -- the evidence kept.
  abbrev pub outcome_pushed : (key name : String) → D → CacheState → Bool → Totals → Totals
  outcome_pushed key name data' state false t = outcome_rejected key name state t
  outcome_pushed key name data' state true t =
      outcome_timed key name data' state (ttl_of name (good data')) t

  -- if (result?.ok), by what `normalizeEvidence` gives
  abbrev pub outcome_good : (key name : String) → D → CacheState → Option E → Totals → Totals
  outcome_good key name data' state none t = outcome_rejected key name state t
  outcome_good key name data' state (some item) t =
      outcome_pushed key name data' state (parts.relates item)
        (record t { evidence = t.evidence ++ item ∷ [] })

  -- The body of the last loop, by the provider's record.
  unfoldable pub outcome_by : (key name : String) → Option (Record D) → Totals → Totals
  outcome_by key name none t = outcome_skipped name "not_scheduled" none t
  outcome_by key name (some (left_out reason retry)) t = outcome_skipped name reason retry t
  outcome_by key name (some (ran (bad failure) state)) t =
      outcome_failed name (reason_of failure) state t
  outcome_by key name (some (ran (good data') state)) t =
      outcome_good key name data' state (parts.normalize name data') t

  abbrev pub outcome : (type indicator name : String) → Totals → Totals
  outcome type indicator name t =
      outcome_by (cache_key name type indicator) name (get name t.records) t

  unfoldable pub outcomes : (type indicator : String) → List String → Totals → Totals
  outcomes type indicator [] t = t
  outcomes type indicator (name ∷ names) t =
      outcomes type indicator names (outcome type indicator name t)
