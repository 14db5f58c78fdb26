-- ===== src/AgentState/Drift.antt =====
-- detectAgentDrift of src/core/agent-state.js: what of the invariant payload two states differ in.
use para11ax.Common.{Bool, true, false, not, ◌&&◌, ◌||◌, List, [], ◌∷◌, ◌++◌}
use para11ax.JsText.{Text, same_text, is_member}
use para11ax.AgentState.{Invariant, Platform, agent_invariant_hash}

pub data Field : Type 0 where
  objective task_class risk constraints decisions : Field

pub data Severity : Type 0 where
  no_severity high critical : Severity

pub record Drift : Type 0 where
  pub drifted : Bool
  pub severity : Severity
  pub fields : List Field
  pub expected_hash : Text
  pub actual_hash : Text

abbrev pub same_texts : List Text → List Text → Bool
same_texts [] [] = true
same_texts (t ∷ ts) (u ∷ us) = same_text t u && same_texts ts us
same_texts _ _ = false

-- fields.push(…) unless the two are the same
abbrev pub unless_same : Bool → Field → List Field
unless_same true f = []
unless_same false f = f ∷ []

-- baseline.decisions.some(value => !candidate.decisions.includes(value))
abbrev pub has_lost : List Text → List Text → Bool
has_lost [] candidate = false
has_lost (t ∷ ts) candidate = not (is_member t candidate) || has_lost ts candidate

abbrev pub scope_fields : Invariant → Invariant → List Field
scope_fields b c =
    unless_same (same_text b.objective c.objective) objective
    ++ (unless_same (same_text b.task_class c.task_class) task_class
        ++ (unless_same (same_text b.risk c.risk) risk
            ++ unless_same (same_texts b.constraints c.constraints) constraints))

abbrev pub is_none_left : List Field → Bool
is_none_left [] = true
is_none_left (f ∷ fs) = false

abbrev pub severity_of : List Field → Bool → Severity
severity_of (f ∷ fs) decision_loss = critical
severity_of [] true = high
severity_of [] false = no_severity

unfoldable pub detect_agent_drift : Platform → Invariant → Invariant → Drift
detect_agent_drift platform baseline candidate =
    let scope = scope_fields baseline candidate in
    let decision_loss = has_lost baseline.decisions candidate.decisions in
    let fields = scope ++ unless_same (not decision_loss) decisions in
    record {
      drifted = not (is_none_left fields);
      severity = severity_of scope decision_loss;
      fields = fields;
      expected_hash = agent_invariant_hash platform baseline;
      actual_hash = agent_invariant_hash platform candidate;
    }
