-- ===== src/AgentState/Runs.antt =====
-- Calls of reduceAgentState of src/core/agent-state.js, one after another, and what detectAgentDrift says
-- of where they lead.
use para11ax.Common.{
  ℕ, zero, suc, ◌+◌, ◌≤◌, ◌<◌, ◌≡◌, refl, sym, ap, ◌∙◌, subst, ◌⊎◌, inl, inr, true, false, not,
  Option, List, [], ◌∷◌, ◌++◌, arith, Bool-cases, leb→le, length, length-append, append_nil,
}
use mathlib.Core.List.{append_assoc}
use para11ax.JsText.{Text, same_text, is_member}
use para11ax.JsText.Laws.{same_text_refl}
use para11ax.AgentState.{ok, Invariant, Payload, AgentState, Platform}
use para11ax.AgentState.Import.{import_agent_state}
use para11ax.AgentState.Reduce.{Action, reduce_agent_state}
use para11ax.AgentState.Changes.{or-false}
use para11ax.AgentState.Stable.{ok_eq}
use para11ax.AgentState.Validated.{IsNormal}
use para11ax.AgentState.History.{Extends, ScopeKept, Keeps}
use para11ax.AgentState.Stamped.{imported-IsNormal}
use para11ax.AgentState.Steps.{IsStep, reduce_agent_state-IsStep}
use para11ax.AgentState.Drift.{same_texts, has_lost, detect_agent_drift}

-- The states that n calls in a row lead to from an imported one.
pub data Run (platform : Platform) (s : AgentState) : ℕ → AgentState → Type 0 where
  imported : import_agent_state platform s ≡ ok s → Run platform s 0 s
  step :
      {n : ℕ} {t : AgentState} (u : AgentState) (now : Text) (uuid : ℕ → Text) (action : Action)
      → Run platform s n t
      → reduce_agent_state platform now uuid action t ≡ ok u
      → Run platform s (suc n) u

-- The objective and the constraints are those that the epoch began with, or it is a later epoch.
abbrev pub IsSameEpoch : Payload → Payload → Type 0
IsSameEpoch p q =
    (p.epoch < q.epoch)
    ⊎ ((q.invariant.objective ≡ p.invariant.objective)
        × (q.invariant.constraints ≡ p.invariant.constraints)
        × (q.epoch ≡ p.epoch))

pub record IsHistory (platform : Platform) (s : AgentState) (n : ℕ) (t : AgentState) : Type 0 where
  pub keeps : Keeps s.payload t.payload
  pub revision : t.payload.revision ≡ s.payload.revision + n
  pub entries : length t.payload.timeline ≡ length s.payload.timeline + n
  pub scope : IsSameEpoch s.payload t.payload
  pub valid : import_agent_state platform t ≡ ok t

Extends-trans {ℓ} : {A : Type ℓ} (xs ys zs : List A) → Extends xs ys → Extends ys zs → Extends xs zs
Extends-trans xs ys zs (more, h) (rest, e) =
    (more ++ rest, e ∙ ap (λ l. l ++ rest) h ∙ append_assoc xs more rest)

Keeps-trans : (p q r : Payload) → Keeps p q → Keeps q r → Keeps p r
Keeps-trans p q r h k = record {
  id = k.id ∙ h.id;
  created = k.created ∙ h.created;
  task_class = k.task_class ∙ h.task_class;
  risk = k.risk ∙ h.risk;
  decisions =
      Extends-trans p.invariant.decisions q.invariant.decisions r.invariant.decisions h.decisions
        k.decisions;
  artifacts = Extends-trans p.artifacts q.artifacts r.artifacts h.artifacts k.artifacts;
  handoffs = Extends-trans p.handoffs q.handoffs r.handoffs h.handoffs k.handoffs;
}

Keeps-refl : (p : Payload) → Keeps p p
Keeps-refl p = record {
  id = refl;
  created = refl;
  task_class = refl;
  risk = refl;
  decisions = ([], sym (append_nil _));
  artifacts = ([], sym (append_nil _));
  handoffs = ([], sym (append_nil _));
}

scope-step :
    (p q r : Payload) (type : Text) (reason : Option Text)
    → IsSameEpoch p q
    → ScopeKept q r type reason
    → IsSameEpoch p r
scope-step p q r type reason (inl later) (inl (h₀, h₁, h₂)) = inl (omega (arith, later, h₂))
scope-step p q r type reason (inl later) (inr (h₀, h₁, h₂)) = inl (omega (arith, later, h₀))
scope-step p q r type reason (inr (e₀, e₁, e₂)) (inl (h₀, h₁, h₂)) = inr (h₀ ∙ e₀, h₁ ∙ e₁, h₂ ∙ e₂)
scope-step p q r type reason (inr (e₀, e₁, e₂)) (inr (h₀, h₁, h₂)) = inl (omega (arith, e₂, h₀))

module _ (platform : Platform) (s : AgentState) where
  IsHistory-step :
      (n : ℕ) (now : Text) (t u : AgentState)
      → IsHistory platform s n t
      → IsStep platform now t.payload u
      → import_agent_state platform u ≡ ok u
      → IsHistory platform s (suc n) u
  IsHistory-step n now t u h k valid =
      let (e, entries, dated, scope) = k.timeline in
      record {
        keeps = Keeps-trans s.payload t.payload u.payload h.keeps k.keeps;
        revision = omega (arith, h.revision, k.revision);
        entries =
            ap length entries
            ∙ length-append t.payload.timeline (e ∷ [])
            ∙ omega (arith, h.entries);
        scope = scope-step s.payload t.payload u.payload e.type e.reason h.scope scope;
        valid = valid;
      }

  pub Run-IsHistory : (n : ℕ) (t : AgentState) → Run platform s n t → IsHistory platform s n t
  Run-IsHistory zero t (imported h) = record {
    keeps = Keeps-refl s.payload;
    revision = omega arith;
    entries = omega arith;
    scope = inr (refl, refl, refl);
    valid = h;
  }
  Run-IsHistory (suc n) u (step {t = t} _ now uuid action run h) =
      let before = Run-IsHistory n t run in
      let (v, h₀, k, valid) = reduce_agent_state-IsStep platform now uuid action t u h in
      let same : v ≡ t = ok_eq v t (sym h₀ ∙ before.valid) in
      IsHistory-step n now t u before
        (subst (λ (a : AgentState). IsStep platform now a.payload u) same k) valid

  -- However many calls in a row succeed on an imported state: the state that they lead to is one that
  -- `importAgentState` returns unchanged, its revision has grown and its timeline is longer by their number,
  -- its id, creation time, task class and risk, its first decisions, artifacts and handoffs are those of
  -- the state at the start, and so are its objective and constraints unless its epoch is later. The timeline
  -- at the start and the calls are together no more than 256.
  pub reduce_agent_state_run :
      (n : ℕ) (t : AgentState)
      → Run platform s n t
      → IsHistory platform s n t × (length s.payload.timeline + n ≤ 256)
  reduce_agent_state_run n t run =
      let h = Run-IsHistory n t run in
      let normal : IsNormal platform t.payload = imported-IsNormal platform t t h.valid in
      (h, omega (arith, h.entries, leb→le _ _ normal.few_entries))

same_texts_refl : (ts : List Text) → same_texts ts ts ≡ true
same_texts_refl [] = refl
same_texts_refl (t ∷ ts) = rw (same_text_refl t, same_texts_refl ts) refl

is_member-cons :
    (t : Text) (us : List Text) (u : Text)
    → not (is_member t us) ≡ false
    → is_member t (u ∷ us) ≡ true
is_member-cons t us u h = elim (Bool-cases (is_member t us)) [
  | inl found ↦ elim (Bool-cases (same_text u t)) [
    | inl same ↦ rw same refl
    | inr other ↦ rw (other, found) refl
  ]
  | inr missing ↦ cc (rw missing at h)
]

has_lost-cons :
    (ts us : List Text) (u : Text) → has_lost ts us ≡ false → has_lost ts (u ∷ us) ≡ false
has_lost-cons [] us u h = refl
has_lost-cons (t ∷ ts) us u h =
    let (here, later) = or-false (not (is_member t us)) (has_lost ts us) h in
    rw (is_member-cons t us u here, has_lost-cons ts us u later) refl

has_lost-Extends : (ts more : List Text) → has_lost ts (ts ++ more) ≡ false
has_lost-Extends [] more = refl
has_lost-Extends (t ∷ ts) more =
    rw (same_text_refl t, has_lost-cons ts (ts ++ more) t (has_lost-Extends ts more)) refl

-- Two invariants that no field tells apart.
drifted-same :
    (platform : Platform) (b c : Invariant)
    → c.objective ≡ b.objective
    → c.task_class ≡ b.task_class
    → c.risk ≡ b.risk
    → c.constraints ≡ b.constraints
    → has_lost b.decisions c.decisions ≡ false
    → (detect_agent_drift platform b c).drifted ≡ false
unfolding detect_agent_drift
drifted-same platform b c h₀ h₁ h₂ h₃ h₄ =
    rw
      (
        h₀,
        h₁,
        h₂,
        h₃,
        h₄,
        same_text_refl b.objective,
        same_text_refl b.task_class,
        same_text_refl b.risk,
        same_texts_refl b.constraints,
      )
      refl

-- Calls of reduceAgentState that lead from an imported state to one of the same epoch leave nothing that
-- detectAgentDrift reports as drift from the state at the start.
pub detect_agent_drift_run :
    (platform : Platform) (s : AgentState) (n : ℕ) (t : AgentState)
    → Run platform s n t
    → t.payload.epoch ≡ s.payload.epoch
    → (detect_agent_drift platform s.payload.invariant t.payload.invariant).drifted ≡ false
detect_agent_drift_run platform s n t run e =
    let h = Run-IsHistory platform s n t run in
    let (more, longer) = h.keeps.decisions in
    elim h.scope [
      | inl later ↦ absurd (omega (arith, later, e))
      | inr (h₀, h₁, h₂) ↦
          drifted-same platform s.payload.invariant t.payload.invariant h₀ h.keeps.task_class
            h.keeps.risk h₁ (rw longer (has_lost-Extends s.payload.invariant.decisions more))
    ]
