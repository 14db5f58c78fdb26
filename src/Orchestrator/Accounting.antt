-- ===== src/Orchestrator/Accounting.antt =====
-- The summary of `enrich` of src/core/orchestrator.js accounts for every provider.
use para11ax.Common.{ℕ, ◌+◌, ◌≤◌, ◌≡◌, ◌==◌, if◌then◌else◌, length}
use para11ax.Orchestrator.{Parts, Totals}
use para11ax.Orchestrator.Enrich.{Status, error, partially, all_ok, Response}

-- Each of n providers is counted once. There is a piece of evidence for each that is ok, and more only for
-- failed ones; there is a failure for each that is not ok.
pub record IsAccounted {D E C : Type 0} {parts : Parts D E C} (n : ℕ) (t : Totals parts)
    : Type 0 where
  pub total : t.ok + t.failed + t.skipped ≡ n
  pub cached : t.cached ≤ t.ok
  pub evidence : t.ok ≤ length t.evidence
  pub spare : length t.evidence ≤ t.ok + t.failed
  pub failures : length t.failures ≡ t.failed + t.skipped

-- Totals of n providers, with a piece of evidence of one more.
record IsPushed {D E C : Type 0} {parts : Parts D E C} (n : ℕ) (t : Totals parts) : Type 0 where
  total : t.ok + t.failed + t.skipped ≡ n
  cached : t.cached ≤ t.ok
  evidence : t.ok + 1 ≤ length t.evidence
  spare : length t.evidence ≤ t.ok + t.failed + 1
  failures : length t.failures ≡ t.failed + t.skipped

-- The status that so many pieces of evidence and so many failures call for.
abbrev pub status_by : (found lost : ℕ) → Status
status_by found lost = if found == 0 then error else if lost == 0 then all_ok else partially

pub record IsSummary {D E C : Type 0} {parts : Parts D E C} (n : ℕ) (r : Response parts)
    : Type 0 where
  pub accounted : IsAccounted n r.totals
  pub status : r.status ≡ status_by (length r.totals.evidence) (r.totals.failed + r.totals.skipped)
  -- The one failure without providers is the gateway's.
  pub reported : length r.failures ≡ (if n == 0 then 1 else r.totals.failed + r.totals.skipped)
  pub selected : r.coverage.selected ≡ n
  pub succeeded : r.coverage.succeeded ≡ r.totals.ok
  pub failed : r.coverage.failed ≡ r.totals.failed
  pub skipped : r.coverage.skipped ≡ r.totals.skipped
