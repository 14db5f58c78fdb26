-- ===== src/Investigation/Status.antt =====
-- deriveInvestigationStatus of src/core/investigation/status.js. Its `limitations`, sorted by the platform's
-- collation, are left out.
pub mod Report
use para11ax.Common.{
  ℕ, zero, suc, ◌+◌, ◌-◌, ◌*◌, ◌/◌, ◌%◌, ◌≤◌, ◌<◌, min, max, String, ◌≡◌, refl, sym, ap, ◌∙◌, subst,
  ◌≢◌, ◌↔◌, ◌⊎◌, inl, inr, Bool, true, false, not, ◌&&◌, ◌||◌, Option, none, some, List, [], ◌∷◌,
  ◌++◌, map, arith, ◌==ₛ◌, eq_iff, ltb, leb, ◌==◌, if◌then◌else◌, Bool-cases, Option-cases, ltb→lt,
  ltb→le, leb→le, leb→lt, lt→ltb, ltb-false, le→leb, tests, length, drop, length-append, sum_of,
  sum_of-append, All, All-append, get_elem?, without, sum_of-without, All-without, some_eq,
  length-without, append_nil, append_snoc,
}
use para11ax.Investigation.{
  Artifact, relevance, hunt, result, disposition, report, service_now, same_artifact, Stale,
  Investigation,
}

pub data Phase : Type 0 where
  scoping evidence hunt_design execution_pending : Phase
  disposition_phase results report_ready : Phase

pub data Gap : Type 0 where
  scope_required evidence_required current_hunt_required valid_kql_required : Gap
  result_import_required disposition_required current_report_required : Gap

pub data Action : Type 0 where
  set_scope capture_evidence build_relevance build_hunt validate_kql : Action
  import_results set_disposition build_report : Action

pub data Readiness : Type 0 where
  ready blocked incomplete : Readiness

pub data Current : Type 0 where
  artifact : Artifact → Current
  kql_validation : Current

-- stale.has(artifact)
abbrev pub is_stale : Artifact → List Stale → Bool
is_stale a [] = false
is_stale a ((b, reason) ∷ es) = same_artifact b a || is_stale a es

-- `artifactPresent`
abbrev pub artifact_present : Artifact → Investigation → Bool
artifact_present a i = i.workflow a && not (is_stale a i.stale)

abbrev pub some_valid : List Bool → Bool
some_valid [] = false
some_valid (valid ∷ rest) = valid || some_valid rest

abbrev pub when {ℓ} : {A : Type ℓ} → Bool → A → List A
when true a = a ∷ []
when false a = []

pub record Progress : Type 0 where
  pub phase : Phase
  pub gaps : List Gap
  pub next_actions : List Action

-- The seven tests of the source: `scoped`, `hasEvidence`, `currentHunt`, `validKql`, `currentResult`,
-- `currentDisposition` and `currentReport`.
pub record Tests : Type 0 where
  pub scoped : Bool
  pub has_evidence : Bool
  pub current_hunt : Bool
  pub valid_kql : Bool
  pub current_result : Bool
  pub current_disposition : Bool
  pub current_report : Bool

abbrev pub tests_of : Investigation → Tests
tests_of i = record {
  scoped = i.has_profile && i.has_context;
  has_evidence = ltb 0 i.evidence_snapshots;
  current_hunt = artifact_present hunt i;
  valid_kql = some_valid i.kql_valid;
  current_result = artifact_present result i;
  current_disposition = artifact_present disposition i;
  current_report = artifact_present report i;
}

-- The chain of tests.
unfoldable pub progress_of : Tests → Progress
progress_of t =
    if not t.scoped
    then record { phase = scoping; gaps = scope_required ∷ []; next_actions = set_scope ∷ [] }
    else if not t.has_evidence
    then record {
      phase = evidence;
      gaps = evidence_required ∷ [];
      next_actions = capture_evidence ∷ [];
    }
    else if not t.current_hunt
    then record {
      phase = hunt_design;
      gaps = current_hunt_required ∷ [];
      next_actions = build_relevance ∷ build_hunt ∷ [];
    }
    else if not t.valid_kql || not t.current_result
    then record {
      phase = execution_pending;
      gaps =
          when (not t.valid_kql) valid_kql_required
          ++ when (not t.current_result) result_import_required;
      next_actions =
          when (not t.valid_kql) validate_kql ++ when (not t.current_result) import_results;
    }
    else if not t.current_disposition
    then record {
      phase = disposition_phase;
      gaps = disposition_required ∷ [];
      next_actions = set_disposition ∷ [];
    }
    else if not t.current_report
    then record {
      phase = results;
      gaps = current_report_required ∷ [];
      next_actions = build_report ∷ [];
    }
    else record { phase = report_ready; gaps = []; next_actions = [] }

abbrev pub is_report_ready : Phase → Bool
is_report_ready report_ready = true
is_report_ready _ = false

abbrev pub readiness_of : Phase → Readiness
readiness_of report_ready = ready
readiness_of scoping = blocked
readiness_of _ = incomplete

-- `currentArtifacts`
abbrev pub current_artifacts : Investigation → List Current
current_artifacts i =
    when (artifact_present relevance i) (artifact relevance)
    ++ when (artifact_present hunt i) (artifact hunt)
    ++ when (some_valid i.kql_valid) kql_validation
    ++ when (artifact_present result i) (artifact result)
    ++ when (artifact_present disposition i) (artifact disposition)
    ++ when (artifact_present report i) (artifact report)
    ++ when (artifact_present service_now i) (artifact service_now)

pub record Status : Type 0 where
  pub progress : Progress
  pub readiness : Readiness
  pub current_artifacts : List Current
  pub export_ready : Bool
  pub report_ready : Bool

unfoldable pub derive_investigation_status : Investigation → Status
derive_investigation_status i =
    let progress = progress_of (tests_of i) in
    record {
      progress = progress;
      readiness = readiness_of progress.phase;
      current_artifacts = current_artifacts i;
      export_ready = i.has_id;
      report_ready = is_report_ready progress.phase;
    }
