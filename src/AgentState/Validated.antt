-- ===== src/AgentState/Validated.antt =====
-- What importAgentState of src/core/agent-state.js returns it lets through again, unchanged.
use para11ax.Common.{ℕ, String, ◌≡◌, refl, subst, true, none, some, leb, length}
use para11ax.JsText.{same_text}
use para11ax.AgentState.{
  ok, max_text, max_list, max_timeline, text, map_checked, unique_text, HandoffRecord, Payload,
  AgentState, Platform, timestamp, is_hash,
}
use para11ax.AgentState.Import.{
  schema_version, validate_artifact, validate_handoff_record, timeline_reason, validate_timeline,
  normalize_invariant, normalize_payload, check_payload, normalize_checkpoint, check_checkpoint,
  import_agent_state,
}
use para11ax.AgentState.Stable.{
  ok_eq, bind-ok, check-ok, IsStable, text-IsStable, timestamp-IsStable, map_checked-IsStable,
  unique_text-IsStable,
}

module _ (platform : Platform) where
  artifact-IsStable : IsStable (validate_artifact platform)
  unfolding validate_artifact
  artifact-IsStable v w h =
      let (id, h₀, r₀) = bind-ok (text "artifact id" 160 v.id) _ w h in
      let (kind, h₁, r₁) = bind-ok (text "artifact kind" 64 v.kind) _ w r₀ in
      let (ref, h₂, r₂) = bind-ok (text "artifact ref" 2048 v.ref) _ w r₁ in
      let (summary, h₃, r₃) = bind-ok (text "artifact summary" 2048 v.summary) _ w r₂ in
      let (at, h₄, r₄) = bind-ok (timestamp platform "artifact at" v.at) _ w r₃ in
      subst (λ a. validate_artifact platform a ≡ ok a) (ok_eq _ w r₄)
        (rw
          (
            validate_artifact,
            text-IsStable "artifact id" 160 v.id id h₀,
            text-IsStable "artifact kind" 64 v.kind kind h₁,
            text-IsStable "artifact ref" 2048 v.ref ref h₂,
            text-IsStable "artifact summary" 2048 v.summary summary h₃,
            timestamp-IsStable platform "artifact at" v.at at h₄,
          )
          refl)

  pub handoff-again :
      (w : HandoffRecord)
      → text "handoff invariant hash" 64 w.invariant_hash ≡ ok w.invariant_hash
      → is_hash w.invariant_hash ≡ true
      → text "handoff id" 160 w.id ≡ ok w.id
      → timestamp platform "handoff at" w.at ≡ ok w.at
      → text "handoff to" 160 w.to ≡ ok w.to
      → text "handoff reason" 2048 w.reason ≡ ok w.reason
      → validate_handoff_record platform w ≡ ok w
  unfolding validate_handoff_record
  handoff-again w h₀ h₁ h₂ h₃ h₄ h₅ = rw (h₀, h₁, h₂, h₃, h₄, h₅) refl

  handoff-IsStable : IsStable (validate_handoff_record platform)
  unfolding validate_handoff_record
  handoff-IsStable v w h =
      let field : String = "handoff invariant hash" in
      let (hash, h₀, r₀) = bind-ok (text field 64 v.invariant_hash) _ w h in
      let (is_hex, r₁) = check-ok (is_hash hash) field _ w r₀ in
      let (id, h₂, r₂) = bind-ok (text "handoff id" 160 v.id) _ w r₁ in
      let (at, h₃, r₃) = bind-ok (timestamp platform "handoff at" v.at) _ w r₂ in
      let (to, h₄, r₄) = bind-ok (text "handoff to" 160 v.to) _ w r₃ in
      let (reason, h₅, r₅) = bind-ok (text "handoff reason" 2048 v.reason) _ w r₄ in
      subst (λ a. validate_handoff_record platform a ≡ ok a) (ok_eq _ w r₅)
        (handoff-again _ (text-IsStable field 64 v.invariant_hash hash h₀) is_hex
          (text-IsStable "handoff id" 160 v.id id h₂)
          (timestamp-IsStable platform "handoff at" v.at at h₃)
          (text-IsStable "handoff to" 160 v.to to h₄)
          (text-IsStable "handoff reason" 2048 v.reason reason h₅))

  reason-IsStable : IsStable (timeline_reason platform)
  reason-IsStable none w h = subst (λ r. timeline_reason platform r ≡ ok r) (ok_eq none w h) refl
  reason-IsStable (some reason) w h =
      let (r, h₀, r₀) = bind-ok (text "timeline reason" 2048 reason) _ w h in
      subst (λ r. timeline_reason platform r ≡ ok r) (ok_eq (some r) w r₀)
        (rw (text-IsStable "timeline reason" 2048 reason r h₀) refl)

  timeline-IsStable : IsStable (validate_timeline platform)
  unfolding validate_timeline
  timeline-IsStable v w h =
      let (id, h₀, r₀) = bind-ok (text "timeline id" 160 v.id) _ w h in
      let (at, h₁, r₁) = bind-ok (timestamp platform "timeline at" v.at) _ w r₀ in
      let (type, h₂, r₂) = bind-ok (text "timeline type" 64 v.type) _ w r₁ in
      let (reason, h₃, r₃) = bind-ok (timeline_reason platform v.reason) _ w r₂ in
      subst (λ a. validate_timeline platform a ≡ ok a) (ok_eq _ w r₃)
        (rw
          (
            validate_timeline,
            text-IsStable "timeline id" 160 v.id id h₀,
            timestamp-IsStable platform "timeline at" v.at at h₁,
            text-IsStable "timeline type" 64 v.type type h₂,
            reason-IsStable v.reason reason h₃,
          )
          refl)

  invariant-IsStable : IsStable (normalize_invariant platform)
  unfolding normalize_invariant
  invariant-IsStable v w h =
      let (objective, h₀, r₀) = bind-ok (text "objective" max_text v.objective) _ w h in
      let (task_class, h₁, r₁) = bind-ok (text "task class" 64 v.task_class) _ w r₀ in
      let (risk, h₂, r₂) = bind-ok (text "risk" 16 v.risk) _ w r₁ in
      let (constraints, h₃, r₃) = bind-ok (unique_text "constraints" v.constraints) _ w r₂ in
      let (decisions, h₄, r₄) = bind-ok (unique_text "decisions" v.decisions) _ w r₃ in
      subst (λ a. normalize_invariant platform a ≡ ok a) (ok_eq _ w r₄)
        (rw
          (
            normalize_invariant,
            text-IsStable "objective" max_text v.objective objective h₀,
            text-IsStable "task class" 64 v.task_class task_class h₁,
            text-IsStable "risk" 16 v.risk risk h₂,
            unique_text-IsStable "constraints" v.constraints constraints h₃,
            unique_text-IsStable "decisions" v.decisions decisions h₄,
          )
          refl)

  pub checkpoint-IsStable : IsStable (normalize_checkpoint platform)
  unfolding normalize_checkpoint
  checkpoint-IsStable v w h =
      let field : String = "checkpoint invariant hash" in
      let (at, h₀, r₀) = bind-ok (timestamp platform "checkpoint at" v.at) _ w h in
      let (first, h₁, r₁) = bind-ok (text field 64 v.invariant_hash) _ w r₀ in
      let (second, h₂, r₂) = bind-ok (text "checkpoint state hash" 64 v.state_hash) _ w r₁ in
      subst (λ a. normalize_checkpoint platform a ≡ ok a) (ok_eq _ w r₂)
        (rw
          (
            normalize_checkpoint,
            timestamp-IsStable platform "checkpoint at" v.at at h₀,
            text-IsStable field 64 v.invariant_hash first h₁,
            text-IsStable "checkpoint state hash" 64 v.state_hash second h₂,
          )
          refl)

  shorter : (m n limit : ℕ) → m ≡ n → leb n limit ≡ true → leb m limit ≡ true
  shorter m n limit e h = rw e h

  -- A payload that the literal leaves as it is.
  pub record IsNormal (p : Payload) : Type 0 where
    pub version : same_text p.schema_version schema_version ≡ true
    pub id : text "id" 160 p.id ≡ ok p.id
    pub invariant : normalize_invariant platform p.invariant ≡ ok p.invariant
    pub few_artifacts : leb (length p.artifacts) max_list ≡ true
    pub artifacts : map_checked (validate_artifact platform) p.artifacts ≡ ok p.artifacts
    pub actions : unique_text "next actions" p.next_actions ≡ ok p.next_actions
    pub created : timestamp platform "createdAt" p.created_at ≡ ok p.created_at
    pub updated : timestamp platform "updatedAt" p.updated_at ≡ ok p.updated_at
    pub few_handoffs : leb (length p.handoffs) max_list ≡ true
    pub handoffs : map_checked (validate_handoff_record platform) p.handoffs ≡ ok p.handoffs
    pub few_entries : leb (length p.timeline) max_timeline ≡ true
    pub timeline : map_checked (validate_timeline platform) p.timeline ≡ ok p.timeline

  pub payload-again : (p : Payload) → IsNormal p → normalize_payload platform p ≡ ok p
  unfolding normalize_payload
  payload-again p n =
      rw
        (
          n.version, n.id, n.invariant, n.few_artifacts, n.artifacts, n.actions, n.created,
          n.updated, n.few_handoffs, n.handoffs, n.few_entries, n.timeline,
        )
        refl

  pub payload-IsStable : IsStable (normalize_payload platform)
  unfolding normalize_payload
  payload-IsStable v w h =
      let (version, r₀) = check-ok (same_text v.schema_version schema_version) _ _ w h in
      let (id, h₁, r₁) = bind-ok (text "id" 160 v.id) _ w r₀ in
      let (invariant, h₂, r₂) = bind-ok (normalize_invariant platform v.invariant) _ w r₁ in
      let (few, r₃) = check-ok (leb (length v.artifacts) max_list) _ _ w r₂ in
      let (artifacts, h₄, r₄) =
        bind-ok (map_checked (validate_artifact platform) v.artifacts) _ w r₃ in
      let (actions, h₅, r₅) = bind-ok (unique_text "next actions" v.next_actions) _ w r₄ in
      let (created, h₆, r₆) = bind-ok (timestamp platform "createdAt" v.created_at) _ w r₅ in
      let (updated, h₇, r₇) = bind-ok (timestamp platform "updatedAt" v.updated_at) _ w r₆ in
      let (few', r₈) = check-ok (leb (length v.handoffs) max_list) _ _ w r₇ in
      let (handoffs, h₉, r₉) =
        bind-ok (map_checked (validate_handoff_record platform) v.handoffs) _ w r₈ in
      let (few'', r₁₀) = check-ok (leb (length v.timeline) max_timeline) _ _ w r₉ in
      let (timeline, h₁₁, r₁₁) =
        bind-ok (map_checked (validate_timeline platform) v.timeline) _ w r₁₀ in
      let (artifacts', long) =
        map_checked-IsStable (validate_artifact platform) artifact-IsStable v.artifacts artifacts
          h₄ in
      let (handoffs', long') =
        map_checked-IsStable (validate_handoff_record platform) handoff-IsStable v.handoffs handoffs
          h₉ in
      let (timeline', long'') =
        map_checked-IsStable (validate_timeline platform) timeline-IsStable v.timeline timeline
          h₁₁ in
      subst (λ a. normalize_payload platform a ≡ ok a) (ok_eq _ w r₁₁)
        (payload-again _ (record {
          version = version;
          id = text-IsStable "id" 160 v.id id h₁;
          invariant = invariant-IsStable v.invariant invariant h₂;
          few_artifacts = shorter (length artifacts) (length v.artifacts) max_list long few;
          artifacts = artifacts';
          actions = unique_text-IsStable "next actions" v.next_actions actions h₅;
          created = timestamp-IsStable platform "createdAt" v.created_at created h₆;
          updated = timestamp-IsStable platform "updatedAt" v.updated_at updated h₇;
          few_handoffs = shorter (length handoffs) (length v.handoffs) max_list long' few';
          handoffs = handoffs';
          few_entries = shorter (length timeline) (length v.timeline) max_timeline long'' few'';
          timeline = timeline';
        }))

  pub import-again :
      (t : AgentState)
      → normalize_payload platform t.payload ≡ ok t.payload
      → check_payload t.payload ≡ ok tt
      → normalize_checkpoint platform t.checkpoint ≡ ok t.checkpoint
      → check_checkpoint platform t.checkpoint t.payload ≡ ok tt
      → import_agent_state platform t ≡ ok t
  unfolding import_agent_state
  import-again t h₀ h₁ h₂ h₃ = rw (h₀, h₁, h₂, h₃) refl

  -- importAgentState lets a state that it returned through again and returns it unchanged.
  pub import_agent_state_twice :
      (s t : AgentState)
      → import_agent_state platform s ≡ ok t
      → import_agent_state platform t ≡ ok t
  unfolding import_agent_state
  import_agent_state_twice s t h =
      let (p, h₀, r₀) = bind-ok (normalize_payload platform s.payload) _ t h in
      let (done, h₁, r₁) = bind-ok (check_payload p) _ t r₀ in
      let (c, h₂, r₂) = bind-ok (normalize_checkpoint platform s.checkpoint) _ t r₁ in
      let (done', h₃, r₃) = bind-ok (check_checkpoint platform c p) _ t r₂ in
      subst (λ a. import_agent_state platform a ≡ ok a) (ok_eq _ t r₃)
        (import-again _ (payload-IsStable s.payload p h₀) h₁ (checkpoint-IsStable s.checkpoint c h₂)
          h₃)
