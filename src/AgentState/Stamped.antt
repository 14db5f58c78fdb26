-- ===== src/AgentState/Stamped.antt =====
-- The state that reduceAgentState of src/core/agent-state.js gives to `importAgentState` at its end.
use para11ax.Common.{
  ◌+◌, String, ◌≡◌, refl, sym, ap, ◌∙◌, subst, inl, inr, true, [], ◌∷◌, ◌++◌, leb, Bool-cases,
  length,
}
use para11ax.JsText.{Text, same_text}
use para11ax.AgentState.{
  ok, text, timestamp, max_timeline, max_list, map_checked, unique_text, TimelineEntry, Checkpoint,
  Payload, AgentState, Platform,
}
use para11ax.AgentState.Import.{
  timeline_reason, schema_version, validate_artifact, validate_handoff_record, validate_timeline,
  normalize_invariant, normalize_payload, check_payload, normalize_checkpoint, check_checkpoint,
  import_agent_state,
}
use para11ax.AgentState.Reduce.{Change, checkpoint_of}
use para11ax.AgentState.Stable.{ok_eq, bind-ok, check-ok}
use para11ax.AgentState.Validated.{IsNormal, payload-IsStable}
use para11ax.AgentState.Actions.{text-hash, text-state_hash}

abbrev pub state_of : Payload → Checkpoint → AgentState
state_of p c = record { payload = p; checkpoint = c }

-- What addTimeline and the assignments before it make of a change.
abbrev pub stamped : Text → Text → Change → Payload
stamped at id c = record c.payload {
  revision = c.payload.revision + 1;
  updated_at = at;
  timeline =
      c.payload.timeline ++ record { id = id; at = at; type = c.type; reason = c.reason } ∷ [];
}

module _ (platform : Platform) where
  payload-parts : (p : Payload) → normalize_payload platform p ≡ ok p → IsNormal platform p
  unfolding normalize_payload
  payload-parts v h =
      let (version, r₀) = check-ok (same_text v.schema_version schema_version) _ _ v h in
      let (id, h₁, r₁) = bind-ok (text "id" 160 v.id) _ v r₀ in
      let (invariant, h₂, r₂) = bind-ok (normalize_invariant platform v.invariant) _ v r₁ in
      let (few, r₃) = check-ok (leb (length v.artifacts) max_list) _ _ v r₂ in
      let (artifacts, h₄, r₄) =
        bind-ok (map_checked (validate_artifact platform) v.artifacts) _ v r₃ in
      let (actions, h₅, r₅) = bind-ok (unique_text "next actions" v.next_actions) _ v r₄ in
      let (created, h₆, r₆) = bind-ok (timestamp platform "createdAt" v.created_at) _ v r₅ in
      let (updated, h₇, r₇) = bind-ok (timestamp platform "updatedAt" v.updated_at) _ v r₆ in
      let (few', r₈) = check-ok (leb (length v.handoffs) max_list) _ _ v r₇ in
      let (handoffs, h₉, r₉) =
        bind-ok (map_checked (validate_handoff_record platform) v.handoffs) _ v r₈ in
      let (few'', r₁₀) = check-ok (leb (length v.timeline) max_timeline) _ _ v r₉ in
      let (timeline, h₁₁, r₁₁) =
        bind-ok (map_checked (validate_timeline platform) v.timeline) _ v r₁₀ in
      let e = ok_eq _ v r₁₁ in
      record {
        version = version;
        id = h₁ ∙ ap (λ (q : Payload). ok q.id) e;
        invariant = h₂ ∙ ap (λ (q : Payload). ok q.invariant) e;
        few_artifacts = few;
        artifacts = h₄ ∙ ap (λ (q : Payload). ok q.artifacts) e;
        actions = h₅ ∙ ap (λ (q : Payload). ok q.next_actions) e;
        created = h₆ ∙ ap (λ (q : Payload). ok q.created_at) e;
        updated = h₇ ∙ ap (λ (q : Payload). ok q.updated_at) e;
        few_handoffs = few';
        handoffs = h₉ ∙ ap (λ (q : Payload). ok q.handoffs) e;
        few_entries = few'';
        timeline = h₁₁ ∙ ap (λ (q : Payload). ok q.timeline) e;
      }

  -- An imported payload is normal.
  pub imported-IsNormal :
      (s t : AgentState) → import_agent_state platform s ≡ ok t → IsNormal platform t.payload
  unfolding import_agent_state
  imported-IsNormal s t h =
      let (p, h₀, r₀) = bind-ok (normalize_payload platform s.payload) _ t h in
      let (done, h₁, r₁) = bind-ok (check_payload p) _ t r₀ in
      let (c, h₂, r₂) = bind-ok (normalize_checkpoint platform s.checkpoint) _ t r₁ in
      let (done', h₃, r₃) = bind-ok (check_checkpoint platform c p) _ t r₂ in
      subst (λ (a : AgentState). IsNormal platform a.payload) (ok_eq _ t r₃)
        (payload-parts p (payload-IsStable platform s.payload p h₀))

  -- What is as the checks leave it is returned as it is, when it is returned.
  pub import-same :
      (s t : AgentState)
      → normalize_payload platform s.payload ≡ ok s.payload
      → normalize_checkpoint platform s.checkpoint ≡ ok s.checkpoint
      → import_agent_state platform s ≡ ok t
      → t ≡ s
  unfolding import_agent_state
  import-same s t hp hc h =
      let (p, h₀, r₀) = bind-ok (normalize_payload platform s.payload) _ t h in
      let (done, h₁, r₁) = bind-ok (check_payload p) _ t r₀ in
      let (c, h₂, r₂) = bind-ok (normalize_checkpoint platform s.checkpoint) _ t r₁ in
      let (done', h₃, r₃) = bind-ok (check_checkpoint platform c p) _ t r₂ in
      let same_payload : p ≡ s.payload = ok_eq _ _ (sym h₀ ∙ hp) in
      let same_checkpoint : c ≡ s.checkpoint = ok_eq _ _ (sym h₂ ∙ hc) in
      sym (ok_eq _ t r₃)
      ∙ ap (λ q. state_of q c) same_payload
      ∙ ap (state_of s.payload) same_checkpoint

  -- The stamp of a payload is let through.
  pub stamp-again :
      (now : Text) (p : Payload)
      → platform.is_timestamp now ≡ true
      → normalize_checkpoint platform (checkpoint_of platform now p)
        ≡ ok (checkpoint_of platform now p)
  unfolding normalize_checkpoint
  stamp-again now p dated =
      rw
        (
          dated,
          text-hash platform "checkpoint invariant hash" p.invariant,
          text-state_hash platform "checkpoint state hash" p,
        )
        refl

  pub entry-again :
      (e : TimelineEntry)
      → text "timeline id" 160 e.id ≡ ok e.id
      → platform.is_timestamp e.at ≡ true
      → text "timeline type" 64 e.type ≡ ok e.type
      → timeline_reason platform e.reason ≡ ok e.reason
      → validate_timeline platform e ≡ ok e
  unfolding validate_timeline
  entry-again e h₀ h₁ h₂ h₃ = rw (h₀, h₁, h₂, h₃) refl

  pub timestamp-ok :
      (field : String) (value at : Text)
      → timestamp platform field value ≡ ok at
      → (platform.is_timestamp value ≡ true) × (value ≡ at)
  timestamp-ok field value at h = elim (Bool-cases (platform.is_timestamp value)) [
    | inl dated ↦ (dated, ok_eq value at (rw dated at h))
    | inr undated ↦ cc (rw undated at h)
  ]
