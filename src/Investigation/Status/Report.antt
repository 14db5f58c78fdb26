-- ===== src/Investigation/Status/Report.antt =====
-- When an investigation's report is ready, and that a change takes this back:
-- src/core/investigation/status.js with dependencies.js.
use para11ax.Common.{
  ◌≡◌, refl, sym, ap, ◌∙◌, subst, inl, inr, Bool, true, false, not, ◌&&◌, ◌||◌, Option, none, some,
  List, [], ◌∷◌, arith, if◌then◌else◌, Bool-cases,
}
use para11ax.Investigation.{
  Artifact, report, Change, scope_changed, observables_changed, evidence_changed, hunt_changed,
  kql_changed, result_changed, disposition_changed, note_changed, investigation_invalidation,
  same_artifact, includes, Reasons, set_reason, no_reasons, Stale, set_all, reasons_of,
  Investigation, invalidate_investigation, without_cleared, clear_stale_artifacts,
}
use para11ax.Investigation.Freshness.{reason-invalidate, same_artifact-eq}
use para11ax.Investigation.Status.{
  is_report_ready, Tests, tests_of, progress_of, is_stale, artifact_present,
  derive_investigation_status,
}

abbrev pub is_empty {ℓ} : {A : Type ℓ} → List A → Bool
is_empty [] = true
is_empty (x ∷ xs) = false

-- All seven tests.
abbrev pub is_complete : Tests → Bool
is_complete t =
    t.scoped && t.has_evidence && t.current_hunt && t.valid_kql && t.current_result
    && t.current_disposition && t.current_report

abbrev IsReadyWhen : Tests → Type 0
IsReadyWhen t =
    (is_report_ready (progress_of t).phase ≡ is_complete t)
    × (is_empty (progress_of t).gaps ≡ is_complete t)
    × (is_empty (progress_of t).next_actions ≡ is_complete t)

abbrev seven : (a b c d e f g : Bool) → Tests
seven a b c d e f g = record {
  scoped = a;
  has_evidence = b;
  current_hunt = c;
  valid_kql = d;
  current_result = e;
  current_disposition = f;
  current_report = g;
}

ready-tests : (a b c d e f g : Bool) → IsReadyWhen (seven a b c d e f g)
unfolding progress_of
ready-tests false b c d e f g = ground arith
ready-tests true false c d e f g = ground arith
ready-tests true true false d e f g = ground arith
ready-tests true true true false e f g = ground arith
ready-tests true true true true false f g = (refl, refl, refl)
ready-tests true true true true true false g = (refl, refl, refl)
ready-tests true true true true true true false = (refl, refl, refl)
ready-tests true true true true true true true = (refl, refl, refl)

-- The report is ready just if the investigation has a scope, evidence, a valid query, and a hunt, a result, a
-- disposition and a report that are there and not stale; and just then nothing is missing and no action
-- is proposed.
pub report_ready_complete :
    (i : Investigation)
    → (let s = derive_investigation_status i in
        (s.report_ready ≡ is_complete (tests_of i))
        × (is_empty s.progress.gaps ≡ is_complete (tests_of i))
        × (is_empty s.progress.next_actions ≡ is_complete (tests_of i)))
unfolding derive_investigation_status
report_ready_complete i =
    let t = tests_of i in
    ready-tests t.scoped t.has_evidence t.current_hunt t.valid_kql t.current_result
      t.current_disposition t.current_report

is_some : Option Change → Bool
is_some none = false
is_some (some c) = true

is_some-some : (c : Change) → is_some (some c) ≡ true
unfolding is_some
is_some-some c = refl

stale_test :
    (same later : Bool) (reason : Change) (old : Option Change)
    → (later || is_some (if same then some reason else old)) ≡ (same || later || is_some old)
unfolding is_some
stale_test true true reason old = refl
stale_test true false reason old = refl
stale_test false later reason old = refl

-- An artifact is in the stale list just if the list has a reason for it.
is_some-set_all :
    (es : List Stale) (m : Reasons) (a : Artifact)
    → is_some (set_all es m a) ≡ (is_stale a es || is_some (m a))
unfolding set_all
is_some-set_all [] m a = refl
is_some-set_all ((b, reason) ∷ es) m a =
    is_some-set_all es (set_reason b reason m) a
    ∙ stale_test (same_artifact b a) (is_stale a es) reason (m a)

includes-report : (change : Change) → includes report (investigation_invalidation change) ≡ true
includes-report scope_changed = refl
includes-report observables_changed = refl
includes-report evidence_changed = refl
includes-report hunt_changed = refl
includes-report kql_changed = refl
includes-report result_changed = refl
includes-report disposition_changed = refl
includes-report note_changed = refl

or_false : (b : Bool) → (b || false) ≡ b
or_false true = refl
or_false false = refl

is_stale-reasons_of : (es : List Stale) (a : Artifact) → is_stale a es ≡ is_some (reasons_of es a)
unfolding is_some
is_stale-reasons_of es a = sym (or_false (is_stale a es)) ∙ sym (is_some-set_all es no_reasons a)

is_stale-invalidate :
    (change : Change) (i : Investigation)
    → i.workflow report ≡ true
    → is_stale report (invalidate_investigation change i).stale ≡ true
is_stale-invalidate change i there =
    is_stale-reasons_of (invalidate_investigation change i).stale report
    ∙ ap is_some (reason-invalidate change i report)
    ∙ rw (includes-report change, there) (is_some-some change)

and_false : (b : Bool) → (b && false) ≡ false
and_false true = refl
and_false false = refl

dropped_test :
    (same later cleared : Bool)
    → (same ≡ true → cleared ≡ true)
    → (later && not cleared) ≡ ((same || later) && not cleared)
dropped_test true later true h = and_false later
dropped_test true later false h = cc (h refl)
dropped_test false later cleared h = refl

kept_test :
    (same later cleared : Bool)
    → (same ≡ true → cleared ≡ false)
    → (same || (later && not cleared)) ≡ ((same || later) && not cleared)
kept_test true later false h = refl
kept_test true later true h = cc (h refl)
kept_test false later cleared h = refl

same_cleared :
    (cleared : List Artifact) (b a : Artifact) (answer : Bool)
    → includes b cleared ≡ answer
    → same_artifact b a ≡ true
    → includes a cleared ≡ answer
same_cleared cleared b a answer e same =
    subst (λ c. includes c cleared ≡ answer) (same_artifact-eq b a same) e

is_stale-without_cleared :
    (cleared : List Artifact) (es : List Stale) (a : Artifact)
    → is_stale a (without_cleared cleared es) ≡ (is_stale a es && not (includes a cleared))
unfolding without_cleared
is_stale-without_cleared cleared [] a = refl
is_stale-without_cleared cleared ((b, reason) ∷ es) a =
    let later = is_stale-without_cleared cleared es a in
    elim (Bool-cases (includes b cleared)) [
      | inl out ↦ rw out (
          later
          ∙ dropped_test (same_artifact b a) (is_stale a es) (includes a cleared)
              (same_cleared cleared b a true out))
      | inr kept ↦ rw kept (
          ap (λ p. same_artifact b a || p) later
          ∙ kept_test (same_artifact b a) (is_stale a es) (includes a cleared)
              (same_cleared cleared b a false kept))
    ]

incomplete_without_report : (t : Tests) → t.current_report ≡ false → is_complete t ≡ false
incomplete_without_report t h = rw h (and_false _)

-- After any change to an investigation with a report, the report counts as stale and is no longer ready,
-- whatever else the investigation has.
pub report_ready-invalidate :
    (change : Change) (i : Investigation)
    → i.workflow report ≡ true
    → (is_stale report (invalidate_investigation change i).stale ≡ true)
      × ((derive_investigation_status (invalidate_investigation change i)).report_ready ≡ false)
report_ready-invalidate change i there =
    let after = invalidate_investigation change i in
    let stale = is_stale-invalidate change i there in
    let outdated : artifact_present report after ≡ false =
      ap (λ b. after.workflow report && not b) stale ∙ and_false (after.workflow report) in
    (stale, (report_ready_complete after).0 ∙ incomplete_without_report (tests_of after) outdated)

-- After clearStaleArtifacts an artifact is stale just if it was and is not among the cleared ones.
pub is_stale-clear :
    (cleared : List Artifact) (i : Investigation) (a : Artifact)
    → is_stale a (clear_stale_artifacts cleared i).stale
      ≡ (is_stale a i.stale && not (includes a cleared))
unfolding clear_stale_artifacts
is_stale-clear cleared i a = is_stale-without_cleared cleared i.stale a
