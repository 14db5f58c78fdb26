-- ===== src/Orchestrator/Enrich.antt =====
-- `enrich` of src/core/orchestrator.js, from its names of providers to status, summary, coverage and
-- limitations. `schedule` is the scheduler's run, `correlate` what the correlation names as limitations.
use para11ax.Common.{String, false, none, List, [], ◌∷◌}
use para11ax.JsMap.{JsMap}
use para11ax.Orchestrator.{
  Record, Adapter, Failure, Parts, look_up_all, Scheduled, record_all, Totals, outcomes,
}
use para11ax.Orchestrator.Coverage.{Coverage, build_coverage, merge_limitations}

pub data Status : Type 0 where
  error partially all_ok : Status

abbrev pub status_of {ℓ} : {E : Type ℓ} → List E → List Failure → Status
status_of [] failures = error
status_of (e ∷ evidence) [] = all_ok
status_of (e ∷ evidence) (f ∷ failures) = partially

module _ {D E C : Type 0} (parts : Parts D E C) where
  pub record Response : Type 0 where
    pub status : Status
    pub totals : Totals parts
    pub coverage : Coverage
    pub limitations : List String
    pub failures : List Failure

  abbrev pub no_totals : JsMap (Record D) → C → Totals parts
  no_totals records cache = record {
    ok = 0;
    failed = 0;
    skipped = 0;
    cached = 0;
    evidence = [];
    failures = [];
    health = [];
    cache_meta = [];
    records = records;
    cache = cache;
  }

  -- The early return without providers.
  abbrev pub no_providers : List String → C → Response
  no_providers limitations cache = record {
    status = error;
    totals = no_totals [] cache;
    coverage = record {
      selected = 0;
      executed = 0;
      succeeded = 0;
      failed = 0;
      skipped = 0;
      material_loss = false;
    };
    limitations = limitations;
    failures =
        record { provider = "gateway"; reason = "no_configured_providers"; retry_after_ms = none }
        ∷ [];
  }

  unfoldable pub enrich :
      (schedule : List Adapter → List (Scheduled parts))
      → (correlate : List E → List String) → (sort : List String → List String)
      → (type indicator : String) → List String
      → C
      → Response
  enrich schedule correlate sort type indicator [] cache = no_providers (correlate []) cache
  enrich schedule correlate sort type indicator (n ∷ ns) cache =
      let names = n ∷ ns in
      let found =
        look_up_all parts type indicator names
          (record { records = []; pending = []; cache = cache }) in
      let (records, executed) = record_all parts (schedule found.pending) (found.records, []) in
      let t = outcomes parts type indicator names (no_totals records found.cache) in
      let coverage = build_coverage parts type names executed t in
      record {
        status = status_of t.evidence t.failures;
        totals = t;
        coverage = coverage;
        limitations = merge_limitations sort (correlate t.evidence) coverage;
        failures = t.failures;
      }
