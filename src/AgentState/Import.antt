-- ===== src/AgentState/Import.antt =====
-- importAgentState of src/core/agent-state.js.
use para11ax.Common.{not, Option, none, some, List, map, leb, ◌==◌, length}
use para11ax.JsText.{Text, codes, same_text}
use para11ax.AgentState.{
  Checked, ok, ◌>>=◌, ◌>>◌, check, max_text, max_list, max_timeline, max_safe_integer, text,
  map_checked, has_duplicate, unique_text, is_agent_task_class, is_agent_risk_level, Artifact,
  HandoffRecord, TimelineEntry, Checkpoint, Invariant, Payload, AgentState, Platform, timestamp,
  agent_invariant_hash, agent_state_hash, is_hash,
}

abbrev pub schema_version : Text
schema_version = codes "para11ax-agent-state-v1.0"

abbrev pub artifact_ids : List Artifact → List Text
artifact_ids as' = map (λ a. a.id) as'

abbrev pub handoff_ids : List HandoffRecord → List Text
handoff_ids hs = map (λ h. h.id) hs

abbrev pub timeline_ids : List TimelineEntry → List Text
timeline_ids ts = map (λ t. t.id) ts

-- The checks between the two literals.
unfoldable pub check_payload : Payload → Checked (Unit {0})
check_payload p = do
  check (not (has_duplicate (artifact_ids p.artifacts))) "artifacts duplicate id"
  check (not (has_duplicate (handoff_ids p.handoffs))) "handoffs duplicate id"
  check (not (has_duplicate (timeline_ids p.timeline))) "timeline duplicate id"
  check (is_agent_task_class p.invariant.task_class) "task class"
  check (is_agent_risk_level p.invariant.risk) "risk"
  check (leb p.revision max_safe_integer) "revision"
  check (leb p.epoch max_safe_integer) "epoch"

module _ (platform : Platform) where
  unfoldable pub validate_artifact : Artifact → Checked Artifact
  validate_artifact value = do
    let id = (← text "artifact id" 160 value.id)
    let kind = (← text "artifact kind" 64 value.kind)
    let ref = (← text "artifact ref" 2048 value.ref)
    let summary = (← text "artifact summary" 2048 value.summary)
    let at = (← timestamp platform "artifact at" value.at)
    ok (record { id = id; kind = kind; ref = ref; summary = summary; at = at })

  unfoldable pub validate_handoff_record : HandoffRecord → Checked HandoffRecord
  validate_handoff_record value = do
    let invariant_hash = (← text "handoff invariant hash" 64 value.invariant_hash)
    check (is_hash invariant_hash) "handoff invariant hash"
    let id = (← text "handoff id" 160 value.id)
    let at = (← timestamp platform "handoff at" value.at)
    let to = (← text "handoff to" 160 value.to)
    let reason = (← text "handoff reason" 2048 value.reason)
    ok (record { id = id; at = at; to = to; reason = reason; invariant_hash = invariant_hash })

  abbrev pub timeline_reason : Option Text → Checked (Option Text)
  timeline_reason none = ok none
  timeline_reason (some reason) = text "timeline reason" 2048 reason >>= λ r. ok (some r)

  unfoldable pub validate_timeline : TimelineEntry → Checked TimelineEntry
  validate_timeline value = do
    let id = (← text "timeline id" 160 value.id)
    let at = (← timestamp platform "timeline at" value.at)
    let type = (← text "timeline type" 64 value.type)
    let reason = (← timeline_reason value.reason)
    ok (record { id = id; at = at; type = type; reason = reason })

  -- The fields of the invariant payload.
  unfoldable pub normalize_invariant : Invariant → Checked Invariant
  normalize_invariant i = do
    let objective = (← text "objective" max_text i.objective)
    let task_class = (← text "task class" 64 i.task_class)
    let risk = (← text "risk" 16 i.risk)
    let constraints = (← unique_text "constraints" i.constraints)
    let decisions = (← unique_text "decisions" i.decisions)
    ok (record {
      objective = objective;
      task_class = task_class;
      risk = risk;
      constraints = constraints;
      decisions = decisions;
    })

  -- `normalized`, as far as its checkpoint is not looked at
  unfoldable pub normalize_payload : Payload → Checked Payload
  normalize_payload value = do
    check (same_text value.schema_version schema_version) "schema version"
    let id = (← text "id" 160 value.id)
    let invariant = (← normalize_invariant value.invariant)
    check (leb (length value.artifacts) max_list) "artifacts"
    let artifacts = (← map_checked validate_artifact value.artifacts)
    let next_actions = (← unique_text "next actions" value.next_actions)
    let created_at = (← timestamp platform "createdAt" value.created_at)
    let updated_at = (← timestamp platform "updatedAt" value.updated_at)
    check (leb (length value.handoffs) max_list) "handoffs"
    let handoffs = (← map_checked validate_handoff_record value.handoffs)
    check (leb (length value.timeline) max_timeline) "timeline"
    let timeline = (← map_checked validate_timeline value.timeline)
    ok (record {
      schema_version = value.schema_version;
      id = id;
      invariant = invariant;
      artifacts = artifacts;
      next_actions = next_actions;
      revision = value.revision;
      epoch = value.epoch;
      created_at = created_at;
      updated_at = updated_at;
      handoffs = handoffs;
      timeline = timeline;
    })

  unfoldable pub normalize_checkpoint : Checkpoint → Checked Checkpoint
  normalize_checkpoint value = do
    let at = (← timestamp platform "checkpoint at" value.at)
    let invariant_hash = (← text "checkpoint invariant hash" 64 value.invariant_hash)
    let state_hash = (← text "checkpoint state hash" 64 value.state_hash)
    ok (record {
      at = at;
      revision = value.revision;
      invariant_hash = invariant_hash;
      state_hash = state_hash;
    })

  unfoldable pub check_checkpoint : Checkpoint → Payload → Checked (Unit {0})
  check_checkpoint c p = do
    check (c.revision == p.revision) "checkpoint revision"
    check (is_hash c.invariant_hash) "checkpoint invariant hash"
    check (is_hash c.state_hash) "checkpoint state hash"
    check (same_text c.invariant_hash (agent_invariant_hash platform p.invariant))
        "checkpoint invariant mismatch"
    check (same_text c.state_hash (agent_state_hash platform p)) "checkpoint state mismatch"

  unfoldable pub import_agent_state : AgentState → Checked AgentState
  import_agent_state value = do
    let normalized = (← normalize_payload value.payload)
    check_payload normalized
    let checkpoint = (← normalize_checkpoint value.checkpoint)
    check_checkpoint checkpoint normalized
    ok (record { payload = normalized; checkpoint = checkpoint })
