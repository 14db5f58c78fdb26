-- ===== src/Investigation/Examples.antt =====
-- An investigation of src/core/investigation, and instances of the theorems about it.
use para11ax.Common.{◌≡◌, refl, true, false, ◌&&◌, some, [], ◌∷◌, if◌then◌else◌}
use para11ax.Investigation.{
  hunt, report, scope_changed, note_changed, investigation_invalidation, includes, reasons_of,
  set_all, Investigation, mark, listed, invalidate_investigation,
}
use para11ax.Investigation.Freshness.{reason-invalidate}
use para11ax.Investigation.Status.{is_stale, progress_of, derive_investigation_status}
use para11ax.Investigation.Status.Report.{report_ready-invalidate}

abbrev complete : Investigation
complete = record {
  has_id = true;
  has_profile = true;
  has_context = true;
  evidence_snapshots = 2;
  workflow = λ a. true;
  kql_valid = false ∷ true ∷ [];
  stale = [];
}

complete-ready : (derive_investigation_status complete).report_ready ≡ true
unfolding derive_investigation_status progress_of
complete-ready = refl

noted : (invalidate_investigation note_changed complete).stale ≡ (report, note_changed) ∷ []
unfolding invalidate_investigation mark listed set_all
noted = refl

report_ready-invalidate_example :
    (is_stale report (invalidate_investigation note_changed complete).stale ≡ true)
    × ((derive_investigation_status (invalidate_investigation note_changed complete)).report_ready
        ≡ false)
report_ready-invalidate_example = report_ready-invalidate note_changed complete refl

reason-invalidate_example :
    reasons_of (invalidate_investigation scope_changed complete).stale hunt ≡ (
      if includes hunt (investigation_invalidation scope_changed) && true
      then some scope_changed
      else reasons_of [] hunt)
reason-invalidate_example = reason-invalidate scope_changed complete hunt

abbrev outdated : Investigation
outdated = record complete { stale = (report, note_changed) ∷ (hunt, scope_changed) ∷ [] }
