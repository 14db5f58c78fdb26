-- ===== src/AgentState/Actions.antt =====
-- The switch of reduceAgentState of src/core/agent-state.js makes sound changes.
use para11ax.Common.{ℕ, ◌+◌, String, ◌≡◌, refl, subst, true, not, leb, length}
use para11ax.JsText.{Text, codes, is_member, trim_start, trim_end, trim, replace_line_ends}
use para11ax.AgentState.{
  ok, max_text, max_list, text, unique_text, Artifact, Invariant, Payload, Platform, timestamp,
  agent_invariant_hash, is_hash, trim, replace_line_ends, agent_state_hash,
}
use para11ax.AgentState.Import.{validate_artifact}
use para11ax.AgentState.Reduce.{
  Action, decision_add, artifact_add, next_actions_set, objective_revise, constraints_set, handoff,
  Change, scope_change, apply_action,
}
use para11ax.AgentState.Stable.{ok_eq, bind-ok, check-ok, text-IsStable, unique_text-IsStable}
use para11ax.AgentState.Validated.{IsNormal, handoff-again}
use para11ax.AgentState.Hashes.{text-sha256_hex, is_hash-sha256_hex}
use para11ax.AgentState.Changes.{again, not-true, unique_text-snoc}
use para11ax.AgentState.Sound.{
  IsNormalInvariant, invariant-parts, with_invariant, with_actions, with_artifact, with_handoff,
  IsSound,
}

-- The types that the timeline is given.
abbrev HasTypeText : String → Type 0
HasTypeText type = text "timeline type" 64 (codes type) ≡ ok (codes type)

type_scope_change : HasTypeText "SCOPE_CHANGE"
unfolding text trim trim_start trim_end replace_line_ends
type_scope_change = refl

type_decision_add : HasTypeText "DECISION_ADD"
unfolding text trim trim_start trim_end replace_line_ends
type_decision_add = refl

type_artifact_add : HasTypeText "ARTIFACT_ADD"
unfolding text trim trim_start trim_end replace_line_ends
type_artifact_add = refl

type_next_actions_set : HasTypeText "NEXT_ACTIONS_SET"
unfolding text trim trim_start trim_end replace_line_ends
type_next_actions_set = refl

type_handoff : HasTypeText "HANDOFF"
unfolding text trim trim_start trim_end replace_line_ends
type_handoff = refl

module _ (platform : Platform) where
  pub text-hash :
      (field : String) (i : Invariant)
      → text field 64 (agent_invariant_hash platform i) ≡ ok (agent_invariant_hash platform i)
  unfolding agent_invariant_hash
  text-hash field i = text-sha256_hex field (platform.utf8 (platform.invariant_json i))

  pub is_hash-hash : (i : Invariant) → is_hash (agent_invariant_hash platform i) ≡ true
  unfolding agent_invariant_hash
  is_hash-hash i = is_hash-sha256_hex (platform.utf8 (platform.invariant_json i))

  pub text-state_hash :
      (field : String) (p : Payload)
      → text field 64 (agent_state_hash platform p) ≡ ok (agent_state_hash platform p)
  unfolding agent_state_hash
  text-state_hash field p = text-sha256_hex field (platform.utf8 (platform.payload_json p))

module _ (platform : Platform) (at : Text) (dated : platform.is_timestamp at ≡ true) where
  artifact-ok :
      (id kind ref summary : Text)
      → text "artifact id" 160 id ≡ ok id
      → text "artifact kind" 64 kind ≡ ok kind
      → text "artifact ref" 2048 ref ≡ ok ref
      → text "artifact summary" 2048 summary ≡ ok summary
      → (let a : Artifact = record {
        id = id;
        kind = kind;
        ref = ref;
        summary = summary;
        at = at;
      } in
          validate_artifact platform a ≡ ok a)
  unfolding validate_artifact
  artifact-ok id kind ref summary h₀ h₁ h₂ h₃ = rw (h₀, h₁, h₂, h₃, dated) refl

  timestamp-ok : (field : String) → timestamp platform field at ≡ ok at
  timestamp-ok field = rw dated refl

  scope-IsSound :
      (p : Payload) (i : Invariant) (reason given : Text)
      → IsNormal platform p
      → IsNormalInvariant platform i
      → text "scope change reason" 2048 given ≡ ok reason
      → IsSound platform (scope_change i reason p)
  scope-IsSound p i reason given n h hr = record {
    normal = with_invariant platform p i (p.epoch + 1) n h;
    type = type_scope_change;
    reason = rw (again "scope change reason" "timeline reason" 2048 given reason hr) refl;
  }

  decision-IsSound :
      (uuid : ℕ → Text) (value : Text) (p : Payload) (c : Change)
      → IsNormal platform p
      → apply_action platform at uuid (decision_add value) p ≡ ok c
      → IsSound platform c
  unfolding apply_action
  decision-IsSound uuid value p c n h =
      let (decision, h₀, r₀) = bind-ok (text "decision" 2048 value) _ c h in
      let (fresh, r₁) = check-ok (not (is_member decision p.invariant.decisions)) _ _ c r₀ in
      let (room, r₂) = check-ok (not (leb max_list (length p.invariant.decisions))) _ _ c r₁ in
      let i = invariant-parts platform p.invariant n.invariant in
      subst (IsSound platform) (ok_eq _ c r₂) (record {
        normal = with_invariant platform p _ p.epoch n (record {
          objective = i.objective;
          task_class = i.task_class;
          risk = i.risk;
          constraints = i.constraints;
          decisions =
              unique_text-snoc "decisions" p.invariant.decisions decision i.decisions
                (again "decision" "decisions" 2048 value decision h₀) (not-true _ fresh)
                (not-true _ room);
        });
        type = type_decision_add;
        reason = refl;
      })

  artifact-IsSound :
      (uuid : ℕ → Text) (kind ref summary : Text) (p : Payload) (c : Change)
      → IsNormal platform p
      → apply_action platform at uuid (artifact_add kind ref summary) p ≡ ok c
      → IsSound platform c
  unfolding apply_action
  artifact-IsSound uuid kind ref summary p c n h =
      let (room, r₀) = check-ok (not (leb max_list (length p.artifacts))) _ _ c h in
      let (id, h₁, r₁) = bind-ok (text "artifact id" 160 (uuid 0)) _ c r₀ in
      let (kind', h₂, r₂) = bind-ok (text "artifact kind" 64 kind) _ c r₁ in
      let (ref', h₃, r₃) = bind-ok (text "artifact ref" 2048 ref) _ c r₂ in
      let (summary', h₄, r₄) = bind-ok (text "artifact summary" 2048 summary) _ c r₃ in
      subst (IsSound platform) (ok_eq _ c r₄) (record {
        normal = with_artifact platform p _ n room (
            artifact-ok id kind' ref' summary' (text-IsStable "artifact id" 160 (uuid 0) id h₁)
              (text-IsStable "artifact kind" 64 kind kind' h₂)
              (text-IsStable "artifact ref" 2048 ref ref' h₃)
              (text-IsStable "artifact summary" 2048 summary summary' h₄));
        type = type_artifact_add;
        reason = refl;
      })

  handoff-IsSound :
      (uuid : ℕ → Text) (to reason : Text) (p : Payload) (c : Change)
      → IsNormal platform p
      → apply_action platform at uuid (handoff to reason) p ≡ ok c
      → IsSound platform c
  unfolding apply_action
  handoff-IsSound uuid to reason p c n h =
      let (room, r₀) = check-ok (not (leb max_list (length p.handoffs))) _ _ c h in
      let (id, h₁, r₁) = bind-ok (text "handoff id" 160 (uuid 0)) _ c r₀ in
      let (to', h₂, r₂) = bind-ok (text "handoff to" 160 to) _ c r₁ in
      let (reason', h₃, r₃) = bind-ok (text "handoff reason" 2048 reason) _ c r₂ in
      subst (IsSound platform) (ok_eq _ c r₃) (record {
        normal = with_handoff platform p _ n room (
            handoff-again platform _ (text-hash platform "handoff invariant hash" p.invariant)
              (is_hash-hash platform p.invariant) (text-IsStable "handoff id" 160 (uuid 0) id h₁)
              (timestamp-ok "handoff at") (text-IsStable "handoff to" 160 to to' h₂)
              (text-IsStable "handoff reason" 2048 reason reason' h₃));
        type = type_handoff;
        reason = refl;
      })

  -- Whatever the action is.
  pub apply_action-IsSound :
      (uuid : ℕ → Text) (action : Action) (p : Payload) (c : Change)
      → IsNormal platform p
      → apply_action platform at uuid action p ≡ ok c
      → IsSound platform c
  unfolding apply_action
  apply_action-IsSound uuid (decision_add value) p c n h = decision-IsSound uuid value p c n h
  apply_action-IsSound uuid (artifact_add kind ref summary) p c n h =
      artifact-IsSound uuid kind ref summary p c n h
  apply_action-IsSound uuid (next_actions_set values) p c n h =
      let (actions, h₀, r₀) = bind-ok (unique_text "next actions" values) _ c h in
      subst (IsSound platform) (ok_eq _ c r₀) (record {
        normal =
            with_actions platform p actions n
              (unique_text-IsStable "next actions" values actions h₀);
        type = type_next_actions_set;
        reason = refl;
      })
  apply_action-IsSound uuid (objective_revise objective reason) p c n h =
      let (objective', h₀, r₀) = bind-ok (text "objective" max_text objective) _ c h in
      let (reason', h₁, r₁) = bind-ok (text "scope change reason" 2048 reason) _ c r₀ in
      let i = invariant-parts platform p.invariant n.invariant in
      subst (IsSound platform) (ok_eq _ c r₁) (
        scope-IsSound p _ reason' reason n
          (record {
            objective = text-IsStable "objective" max_text objective objective' h₀;
            task_class = i.task_class;
            risk = i.risk;
            constraints = i.constraints;
            decisions = i.decisions;
          })
          h₁)
  apply_action-IsSound uuid (constraints_set values reason) p c n h =
      let (constraints, h₀, r₀) = bind-ok (unique_text "constraints" values) _ c h in
      let (reason', h₁, r₁) = bind-ok (text "scope change reason" 2048 reason) _ c r₀ in
      let i = invariant-parts platform p.invariant n.invariant in
      subst (IsSound platform) (ok_eq _ c r₁) (
        scope-IsSound p _ reason' reason n
          (record {
            objective = i.objective;
            task_class = i.task_class;
            risk = i.risk;
            constraints = unique_text-IsStable "constraints" values constraints h₀;
            decisions = i.decisions;
          })
          h₁)
  apply_action-IsSound uuid (handoff to reason) p c n h = handoff-IsSound uuid to reason p c n h
