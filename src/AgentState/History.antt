-- ===== src/AgentState/History.antt =====
-- What the switch of reduceAgentState of src/core/agent-state.js keeps of a state.
use para11ax.Common.{
  ℕ, ◌+◌, ◌≡◌, refl, sym, ◌∙◌, subst, ◌⊎◌, inl, inr, not, Option, some, List, [], ◌∷◌, ◌++◌, leb,
  length, append_nil,
}
use para11ax.JsText.{Text, codes, is_member}
use para11ax.AgentState.{ok, max_text, max_list, text, unique_text, Invariant, Payload, Platform}
use para11ax.AgentState.Reduce.{
  Action, decision_add, artifact_add, next_actions_set, objective_revise, constraints_set, handoff,
  Change, scope_change, apply_action,
}
use para11ax.AgentState.Stable.{ok_eq, bind-ok, check-ok}

-- The second list is the first with more items behind.
abbrev pub Extends {ℓ} : {A : Type ℓ} → List A → List A → Type ℓ
Extends {A = A} xs ys = (more : List A) × (ys ≡ xs ++ more)

-- Objective, constraints and epoch are as they were, or it is a new epoch, with its reason in the timeline.
abbrev pub ScopeKept : Payload → Payload → Text → Option Text → Type 0
ScopeKept p q type reason =
    ((q.invariant.objective ≡ p.invariant.objective)
      × (q.invariant.constraints ≡ p.invariant.constraints)
      × (q.epoch ≡ p.epoch))
    ⊎ ((q.epoch ≡ p.epoch + 1) × (type ≡ codes "SCOPE_CHANGE") × ((r : Text) × (reason ≡ some r)))

-- No identity, class, decision, artifact or handoff of the first payload is lost in the second.
pub record Keeps (p q : Payload) : Type 0 where
  pub id : q.id ≡ p.id
  pub created : q.created_at ≡ p.created_at
  pub task_class : q.invariant.task_class ≡ p.invariant.task_class
  pub risk : q.invariant.risk ≡ p.invariant.risk
  pub decisions : Extends p.invariant.decisions q.invariant.decisions
  pub artifacts : Extends p.artifacts q.artifacts
  pub handoffs : Extends p.handoffs q.handoffs

pub record IsKept (p : Payload) (c : Change) : Type 0 where
  pub keeps : Keeps p c.payload
  pub timeline : c.payload.timeline ≡ p.timeline
  pub revision : c.payload.revision ≡ p.revision
  pub scope : ScopeKept p c.payload c.type c.reason

Extends-self {ℓ} : {A : Type ℓ} (xs : List A) → Extends xs xs
Extends-self xs = ([], sym (append_nil xs))

abbrev keeps :
    (p q : Payload)
    → q.id ≡ p.id
    → q.created_at ≡ p.created_at
    → q.invariant.task_class ≡ p.invariant.task_class
    → q.invariant.risk ≡ p.invariant.risk
    → Extends p.invariant.decisions q.invariant.decisions
    → Extends p.artifacts q.artifacts
    → Extends p.handoffs q.handoffs
    → Keeps p q
keeps p q h₀ h₁ h₂ h₃ h₄ h₅ h₆ = record {
  id = h₀;
  created = h₁;
  task_class = h₂;
  risk = h₃;
  decisions = h₄;
  artifacts = h₅;
  handoffs = h₆;
}

module _ (platform : Platform) (at : Text) (uuid : ℕ → Text) where
  scope-IsKept :
      (p : Payload) (i : Invariant) (reason : Text)
      → i.task_class ≡ p.invariant.task_class
      → i.risk ≡ p.invariant.risk
      → i.decisions ≡ p.invariant.decisions
      → IsKept p (scope_change i reason p)
  scope-IsKept p i reason h₀ h₁ h₂ = record {
    keeps =
        keeps p _ refl refl h₀ h₁ ([], h₂ ∙ sym (append_nil p.invariant.decisions))
          (Extends-self p.artifacts) (Extends-self p.handoffs);
    timeline = refl;
    revision = refl;
    scope = inr (refl, refl, (reason, refl));
  }

  pub apply_action-IsKept :
      (action : Action) (p : Payload) (c : Change)
      → apply_action platform at uuid action p ≡ ok c
      → IsKept p c
  unfolding apply_action
  apply_action-IsKept (decision_add value) p c h =
      let (d, h₀, r₀) = bind-ok (text "decision" 2048 value) _ c h in
      let (fresh, r₁) = check-ok (not (is_member d p.invariant.decisions)) _ _ c r₀ in
      let (room, r₂) = check-ok (not (leb max_list (length p.invariant.decisions))) _ _ c r₁ in
      subst (IsKept p) (ok_eq _ c r₂) (record {
        keeps =
            keeps p _ refl refl refl refl (d ∷ [], refl) (Extends-self p.artifacts)
              (Extends-self p.handoffs);
        timeline = refl;
        revision = refl;
        scope = inl (refl, refl, refl);
      })
  apply_action-IsKept (artifact_add kind ref summary) p c h =
      let (room, r₀) = check-ok (not (leb max_list (length p.artifacts))) _ _ c h in
      let (id, h₁, r₁) = bind-ok (text "artifact id" 160 (uuid 0)) _ c r₀ in
      let (kind', h₂, r₂) = bind-ok (text "artifact kind" 64 kind) _ c r₁ in
      let (ref', h₃, r₃) = bind-ok (text "artifact ref" 2048 ref) _ c r₂ in
      let (summary', h₄, r₄) = bind-ok (text "artifact summary" 2048 summary) _ c r₃ in
      subst (IsKept p) (ok_eq _ c r₄) (record {
        keeps =
            keeps p _ refl refl refl refl (Extends-self p.invariant.decisions) (_ ∷ [], refl)
              (Extends-self p.handoffs);
        timeline = refl;
        revision = refl;
        scope = inl (refl, refl, refl);
      })
  apply_action-IsKept (next_actions_set values) p c h =
      let (actions, h₀, r₀) = bind-ok (unique_text "next actions" values) _ c h in
      subst (IsKept p) (ok_eq _ c r₀) (record {
        keeps =
            keeps p _ refl refl refl refl (Extends-self p.invariant.decisions)
              (Extends-self p.artifacts) (Extends-self p.handoffs);
        timeline = refl;
        revision = refl;
        scope = inl (refl, refl, refl);
      })
  apply_action-IsKept (objective_revise objective reason) p c h =
      let (objective', h₀, r₀) = bind-ok (text "objective" max_text objective) _ c h in
      let (reason', h₁, r₁) = bind-ok (text "scope change reason" 2048 reason) _ c r₀ in
      subst (IsKept p) (ok_eq _ c r₁) (scope-IsKept p _ reason' refl refl refl)
  apply_action-IsKept (constraints_set values reason) p c h =
      let (constraints, h₀, r₀) = bind-ok (unique_text "constraints" values) _ c h in
      let (reason', h₁, r₁) = bind-ok (text "scope change reason" 2048 reason) _ c r₀ in
      subst (IsKept p) (ok_eq _ c r₁) (scope-IsKept p _ reason' refl refl refl)
  apply_action-IsKept (handoff to reason) p c h =
      let (room, r₀) = check-ok (not (leb max_list (length p.handoffs))) _ _ c h in
      let (id, h₁, r₁) = bind-ok (text "handoff id" 160 (uuid 0)) _ c r₀ in
      let (to', h₂, r₂) = bind-ok (text "handoff to" 160 to) _ c r₁ in
      let (reason', h₃, r₃) = bind-ok (text "handoff reason" 2048 reason) _ c r₂ in
      subst (IsKept p) (ok_eq _ c r₃) (record {
        keeps =
            keeps p _ refl refl refl refl (Extends-self p.invariant.decisions)
              (Extends-self p.artifacts) (_ ∷ [], refl);
        timeline = refl;
        revision = refl;
        scope = inl (refl, refl, refl);
      })
