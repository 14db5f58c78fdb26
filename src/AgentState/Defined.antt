-- ===== src/AgentState/Defined.antt =====
-- When reduceAgentState of src/core/agent-state.js returns a state.
use para11ax.Common.{
  ℕ, ◌+◌, String, ◌≡◌, refl, ap, ◌∙◌, subst, Bool, true, false, not, arith, leb, ◌==◌, length,
}
use para11ax.JsText.{Text}
use para11ax.JsText.Laws.{same_text_refl}
use para11ax.AgentState.{
  ok, check, text, max_timeline, max_safe_integer, has_duplicate, is_agent_task_class,
  is_agent_risk_level, Payload, AgentState, Platform, agent_state_hash, agent_invariant_hash,
}
use para11ax.AgentState.Import.{
  artifact_ids, handoff_ids, timeline_ids, normalize_payload, check_payload, normalize_checkpoint,
  check_checkpoint, import_agent_state,
}
use para11ax.AgentState.Reduce.{
  Action, Change, checkpoint_of, apply_action, add_timeline, reduce_agent_state,
}
use para11ax.Sha256.{sha256_hex}
use para11ax.AgentState.Changes.{not-true}
use para11ax.AgentState.Stable.{ok_eq, bind-ok, check-ok, text-IsStable}
use para11ax.AgentState.Validated.{payload-again, import-again}
use para11ax.AgentState.Hashes.{is_hash-sha256_hex}
use para11ax.AgentState.Actions.{apply_action-IsSound, is_hash-hash}
use para11ax.AgentState.History.{IsKept, apply_action-IsKept}
use para11ax.AgentState.Stamped.{state_of, stamped, imported-IsNormal, stamp-again}
use para11ax.AgentState.Steps.{stamped-IsNormal}

-- What `check_payload` asks for.
pub record IsChecked (p : Payload) : Type 0 where
  pub artifacts : has_duplicate (artifact_ids p.artifacts) ≡ false
  pub handoffs : has_duplicate (handoff_ids p.handoffs) ≡ false
  pub timeline : has_duplicate (timeline_ids p.timeline) ≡ false
  pub task_class : is_agent_task_class p.invariant.task_class ≡ true
  pub risk : is_agent_risk_level p.invariant.risk ≡ true
  pub revision : leb p.revision max_safe_integer ≡ true
  pub epoch : leb p.epoch max_safe_integer ≡ true

-- What the identities that a call makes must be, beside the ones that the payload has.
pub record IsFresh (p : Payload) : Type 0 where
  pub artifacts : has_duplicate (artifact_ids p.artifacts) ≡ false
  pub handoffs : has_duplicate (handoff_ids p.handoffs) ≡ false
  pub timeline : has_duplicate (timeline_ids p.timeline) ≡ false
  pub epoch : leb p.epoch max_safe_integer ≡ true

check-true : (test : Bool) (e : String) → check test e ≡ ok tt → test ≡ true
check-true true e h = refl
check-true false e h = cc

next_revision :
    (n m : ℕ)
    → leb n max_safe_integer ≡ true
    → (n == max_safe_integer) ≡ false
    → m ≡ n
    → leb (m + 1) max_safe_integer ≡ true
next_revision n m h below e = ground arith

module _ (platform : Platform) where
  payload-checks : (p : Payload) → IsChecked p → check_payload p ≡ ok tt
  unfolding check_payload
  payload-checks p k =
      rw (k.artifacts, k.handoffs, k.timeline, k.task_class, k.risk, k.revision, k.epoch) refl

  checks-payload : (p : Payload) → check_payload p ≡ ok tt → IsChecked p
  unfolding check_payload
  checks-payload p h =
      let (h₀, r₀) = check-ok (not (has_duplicate (artifact_ids p.artifacts))) _ _ tt h in
      let (h₁, r₁) = check-ok (not (has_duplicate (handoff_ids p.handoffs))) _ _ tt r₀ in
      let (h₂, r₂) = check-ok (not (has_duplicate (timeline_ids p.timeline))) _ _ tt r₁ in
      let (h₃, r₃) = check-ok (is_agent_task_class p.invariant.task_class) _ _ tt r₂ in
      let (h₄, r₄) = check-ok (is_agent_risk_level p.invariant.risk) _ _ tt r₃ in
      let (h₅, r₅) = check-ok (leb p.revision max_safe_integer) _ _ tt r₄ in
      record {
        artifacts = not-true _ h₀;
        handoffs = not-true _ h₁;
        timeline = not-true _ h₂;
        task_class = h₃;
        risk = h₄;
        revision = h₅;
        epoch = check-true _ _ r₅;
      }

  -- A stamp fits the payload that it is of.
  stamp-fits :
      (now : Text) (p : Payload)
      → check_checkpoint platform (checkpoint_of platform now p) p ≡ ok tt
  unfolding check_checkpoint agent_state_hash
  stamp-fits now p =
      let same : (p.revision == p.revision) ≡ true = ground arith in
      rw
        (
          same,
          is_hash-hash platform p.invariant,
          is_hash-sha256_hex (platform.utf8 (platform.payload_json p)),
          same_text_refl (agent_invariant_hash platform p.invariant),
          same_text_refl (sha256_hex (platform.utf8 (platform.payload_json p))),
        )
        refl

  pub imported-IsChecked :
      (s t : AgentState) → import_agent_state platform s ≡ ok t → IsChecked t.payload
  unfolding import_agent_state
  imported-IsChecked s t h =
      let (p, h₀, r₀) = bind-ok (normalize_payload platform s.payload) _ t h in
      let (done, h₁, r₁) = bind-ok (check_payload p) _ t r₀ in
      let (c, h₂, r₂) = bind-ok (normalize_checkpoint platform s.checkpoint) _ t r₁ in
      let (done', h₃, r₃) = bind-ok (check_checkpoint platform c p) _ t r₂ in
      subst (λ (a : AgentState). IsChecked a.payload) (ok_eq _ t r₃) (checks-payload p h₁)

  stamped-IsChecked :
      (now id : Text) (p : Payload) (c : Change)
      → IsChecked p
      → IsKept p c
      → (p.revision == max_safe_integer) ≡ false
      → IsFresh (stamped now id c)
      → IsChecked (stamped now id c)
  stamped-IsChecked now id p c h k below fresh = record {
    artifacts = fresh.artifacts;
    handoffs = fresh.handoffs;
    timeline = fresh.timeline;
    task_class = ap is_agent_task_class k.keeps.task_class ∙ h.task_class;
    risk = ap is_agent_risk_level k.keeps.risk ∙ h.risk;
    revision = next_revision p.revision c.payload.revision h.revision below k.revision;
    epoch = fresh.epoch;
  }

  -- reduceAgentState returns a state for an imported one below the largest revision, with a timestamp, an
  -- action that the switch lets through, an identity for the timeline's entry, room in the timeline, fresh
  -- identities and an epoch that is a safe integer: the payload that the switch left with one more revision,
  -- the time and the entry, and the stamp of that payload.
  pub reduce_agent_state_defined :
      (now id : Text) (uuid : ℕ → Text) (action : Action) (s v : AgentState) (c : Change)
      → import_agent_state platform s ≡ ok v
      → (v.payload.revision == max_safe_integer) ≡ false
      → platform.is_timestamp now ≡ true
      → apply_action platform now uuid action v.payload ≡ ok c
      → text "timeline id" 160 (uuid c.uuids) ≡ ok id
      → leb max_timeline (length c.payload.timeline) ≡ false
      → IsFresh (stamped now id c)
      → reduce_agent_state platform now uuid action s
        ≡ ok (state_of (stamped now id c) (checkpoint_of platform now (stamped now id c)))
  unfolding reduce_agent_state add_timeline
  reduce_agent_state_defined now id uuid action s v c h₀ below dated h₃ h₄ room fresh =
      let kept = apply_action-IsKept platform now uuid action v.payload c h₃ in
      let sound =
        apply_action-IsSound platform now dated uuid action v.payload c
          (imported-IsNormal platform s v h₀) h₃ in
      let normal =
        stamped-IsNormal platform now id c dated sound
          (text-IsStable "timeline id" 160 (uuid c.uuids) id h₄) (rw room refl) in
      let checked =
        stamped-IsChecked now id v.payload c (imported-IsChecked s v h₀) kept below fresh in
      rw
        (
          h₀,
          below,
          dated,
          h₃,
          h₄,
          room,
          import-again platform
              (state_of (stamped now id c) (checkpoint_of platform now (stamped now id c)))
              (payload-again platform (stamped now id c) normal)
              (payload-checks (stamped now id c) checked)
              (stamp-again platform now (stamped now id c) dated)
              (stamp-fits now (stamped now id c)),
        )
        refl
