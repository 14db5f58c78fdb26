-- ===== src/AgentState/Sound.antt =====
-- Every change that reduceAgentState of src/core/agent-state.js makes to a valid payload leaves one that
-- `importAgentState` does not touch.
use para11ax.Common.{
  ℕ, ◌≡◌, refl, ap, ◌∙◌, true, not, List, [], ◌∷◌, ◌++◌, arith, leb, leb→lt, le→leb, length,
  length-append,
}
use para11ax.JsText.{Text}
use para11ax.AgentState.{
  ok, max_text, max_list, max_timeline, text, unique_text, Artifact, HandoffRecord, TimelineEntry,
  Invariant, Payload, Platform, timestamp,
}
use para11ax.AgentState.Import.{
  validate_artifact, validate_handoff_record, timeline_reason, validate_timeline,
  normalize_invariant,
}
use para11ax.AgentState.Reduce.{Change}
use para11ax.AgentState.Stable.{ok_eq, bind-ok}
use para11ax.AgentState.Validated.{IsNormal}
use para11ax.AgentState.Changes.{not-true, map_checked-snoc}

module _ (platform : Platform) where
  pub record IsNormalInvariant (i : Invariant) : Type 0 where
    pub objective : text "objective" max_text i.objective ≡ ok i.objective
    pub task_class : text "task class" 64 i.task_class ≡ ok i.task_class
    pub risk : text "risk" 16 i.risk ≡ ok i.risk
    pub constraints : unique_text "constraints" i.constraints ≡ ok i.constraints
    pub decisions : unique_text "decisions" i.decisions ≡ ok i.decisions

  invariant-again : (i : Invariant) → IsNormalInvariant i → normalize_invariant platform i ≡ ok i
  unfolding normalize_invariant
  invariant-again i n = rw (n.objective, n.task_class, n.risk, n.constraints, n.decisions) refl

  pub invariant-parts :
      (i : Invariant) → normalize_invariant platform i ≡ ok i → IsNormalInvariant i
  unfolding normalize_invariant
  invariant-parts i h =
      let (objective, h₀, r₀) = bind-ok (text "objective" max_text i.objective) _ i h in
      let (task_class, h₁, r₁) = bind-ok (text "task class" 64 i.task_class) _ i r₀ in
      let (risk, h₂, r₂) = bind-ok (text "risk" 16 i.risk) _ i r₁ in
      let (constraints, h₃, r₃) = bind-ok (unique_text "constraints" i.constraints) _ i r₂ in
      let (decisions, h₄, r₄) = bind-ok (unique_text "decisions" i.decisions) _ i r₃ in
      let e = ok_eq _ i r₄ in
      record {
        objective = h₀ ∙ ap (λ (j : Invariant). ok j.objective) e;
        task_class = h₁ ∙ ap (λ (j : Invariant). ok j.task_class) e;
        risk = h₂ ∙ ap (λ (j : Invariant). ok j.risk) e;
        constraints = h₃ ∙ ap (λ (j : Invariant). ok j.constraints) e;
        decisions = h₄ ∙ ap (λ (j : Invariant). ok j.decisions) e;
      }

  pub with_invariant :
      (p : Payload) (i : Invariant) (epoch : ℕ)
      → IsNormal platform p
      → IsNormalInvariant i
      → IsNormal platform (record p { invariant = i; epoch = epoch })
  with_invariant p i epoch n h = record {
    version = n.version;
    id = n.id;
    invariant = invariant-again i h;
    few_artifacts = n.few_artifacts;
    artifacts = n.artifacts;
    actions = n.actions;
    created = n.created;
    updated = n.updated;
    few_handoffs = n.few_handoffs;
    handoffs = n.handoffs;
    few_entries = n.few_entries;
    timeline = n.timeline;
  }

  pub with_actions :
      (p : Payload) (actions : List Text)
      → IsNormal platform p
      → unique_text "next actions" actions ≡ ok actions
      → IsNormal platform (record p { next_actions = actions })
  with_actions p actions n h = record {
    version = n.version;
    id = n.id;
    invariant = n.invariant;
    few_artifacts = n.few_artifacts;
    artifacts = n.artifacts;
    actions = h;
    created = n.created;
    updated = n.updated;
    few_handoffs = n.few_handoffs;
    handoffs = n.handoffs;
    few_entries = n.few_entries;
    timeline = n.timeline;
  }

  one_more :
      {A : Type 0} (xs : List A) (y : A) (limit : ℕ)
      → not (leb limit (length xs)) ≡ true
      → leb (length (xs ++ y ∷ [])) limit ≡ true
  one_more xs y limit room =
      le→leb _ _
        (omega (arith, leb→lt limit (length xs) (not-true _ room), length-append xs (y ∷ [])))

  pub with_artifact :
      (p : Payload) (a : Artifact)
      → IsNormal platform p
      → not (leb max_list (length p.artifacts)) ≡ true
      → validate_artifact platform a ≡ ok a
      → IsNormal platform (record p { artifacts = p.artifacts ++ a ∷ [] })
  with_artifact p a n room h = record {
    version = n.version;
    id = n.id;
    invariant = n.invariant;
    few_artifacts = one_more p.artifacts a max_list room;
    artifacts = map_checked-snoc (validate_artifact platform) p.artifacts a n.artifacts h;
    actions = n.actions;
    created = n.created;
    updated = n.updated;
    few_handoffs = n.few_handoffs;
    handoffs = n.handoffs;
    few_entries = n.few_entries;
    timeline = n.timeline;
  }

  pub with_handoff :
      (p : Payload) (e : HandoffRecord)
      → IsNormal platform p
      → not (leb max_list (length p.handoffs)) ≡ true
      → validate_handoff_record platform e ≡ ok e
      → IsNormal platform (record p { handoffs = p.handoffs ++ e ∷ [] })
  with_handoff p e n room h = record {
    version = n.version;
    id = n.id;
    invariant = n.invariant;
    few_artifacts = n.few_artifacts;
    artifacts = n.artifacts;
    actions = n.actions;
    created = n.created;
    updated = n.updated;
    few_handoffs = one_more p.handoffs e max_list room;
    handoffs = map_checked-snoc (validate_handoff_record platform) p.handoffs e n.handoffs h;
    few_entries = n.few_entries;
    timeline = n.timeline;
  }

  pub with_entry :
      (p : Payload) (e : TimelineEntry) (revision : ℕ) (at : Text)
      → IsNormal platform p
      → not (leb max_timeline (length p.timeline)) ≡ true
      → validate_timeline platform e ≡ ok e
      → timestamp platform "updatedAt" at ≡ ok at
      → IsNormal platform
          (record p { revision = revision; updated_at = at; timeline = p.timeline ++ e ∷ [] })
  with_entry p e revision at n room h dated = record {
    version = n.version;
    id = n.id;
    invariant = n.invariant;
    few_artifacts = n.few_artifacts;
    artifacts = n.artifacts;
    actions = n.actions;
    created = n.created;
    updated = dated;
    few_handoffs = n.few_handoffs;
    handoffs = n.handoffs;
    few_entries = one_more p.timeline e max_timeline room;
    timeline = map_checked-snoc (validate_timeline platform) p.timeline e n.timeline h;
  }

  -- A change whose payload and whose entry in the timeline are let through.
  pub record IsSound (c : Change) : Type 0 where
    pub normal : IsNormal platform c.payload
    pub type : text "timeline type" 64 c.type ≡ ok c.type
    pub reason : timeline_reason platform c.reason ≡ ok c.reason
