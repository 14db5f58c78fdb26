-- ===== src/AgentState/Handoff.antt =====
-- createHandoffEnvelope and importHandoffEnvelope of src/core/agent-state.js. `handoff_json` is the
-- canonical JSON text of an envelope without its hash.
use para11ax.Common.{ℕ, String, not, List, leb, length}
use para11ax.JsText.{Text, codes, same_text}
use para11ax.Sha256.{sha256_hex}
use para11ax.AgentState.{
  Checked, ok, rejected, ◌>>=◌, ◌>>◌, check, max_text, max_list, max_safe_integer, has_duplicate,
  text, unique_text, map_checked, is_agent_task_class, is_agent_risk_level, is_hash, Artifact,
  Invariant, Platform, AgentState, agent_invariant_hash,
}
use para11ax.AgentState.Import.{artifact_ids, validate_artifact, import_agent_state}

-- HANDOFF_SCHEMA_VERSION
abbrev pub handoff_schema_version : Text
handoff_schema_version = codes "para11ax-agent-handoff-v1.0"

-- `handoffPayload`
pub record HandoffPayload : Type 0 where
  pub schema_version : Text
  pub state_id : Text
  pub revision : ℕ
  pub epoch : ℕ
  pub to : Text
  pub reason : Text
  pub invariant : Invariant
  pub artifacts : List Artifact
  pub next_actions : List Text
  pub context_refs : List Text
  pub invariant_hash : Text
  pub source_state_hash : Text

pub record Envelope : Type 0 where
  pub payload : HandoffPayload
  pub handoff_hash : Text

-- catch { handoffFail(field) }
abbrev pub or_fail {ℓ} : {A : Type ℓ} → String → Checked A → Checked A
or_fail e (ok a) = ok a
or_fail e (rejected f) = rejected e

-- The fields of the invariant: task class and risk were checked, and are not changed.
unfoldable pub handoff_invariant : Invariant → Checked Invariant
handoff_invariant i = do
  let objective = (← text "objective" max_text i.objective)
  let constraints = (← unique_text "constraints" i.constraints)
  let decisions = (← unique_text "decisions" i.decisions)
  ok (record i { objective = objective; constraints = constraints; decisions = decisions })

-- The literal of createHandoffEnvelope, its three checked fields given.
abbrev pub handoff_payload : AgentState → (to reason : Text) → List Text → HandoffPayload
handoff_payload state to reason refs = record {
  schema_version = handoff_schema_version;
  state_id = state.payload.id;
  revision = state.payload.revision;
  epoch = state.payload.epoch;
  to = to;
  reason = reason;
  invariant = state.payload.invariant;
  artifacts = state.payload.artifacts;
  next_actions = state.payload.next_actions;
  context_refs = refs;
  invariant_hash = state.checkpoint.invariant_hash;
  source_state_hash = state.checkpoint.state_hash;
}

module _ (platform : Platform) (handoff_json : HandoffPayload → Text) where
  unfoldable pub agent_handoff_hash : HandoffPayload → Text
  agent_handoff_hash p = sha256_hex (platform.utf8 (handoff_json p))

  abbrev pub validate_handoff_artifact : Artifact → Checked Artifact
  validate_handoff_artifact value = or_fail "artifact" (validate_artifact platform value)

  -- `normalized`, without `handoffHash`, behind the tests before it
  unfoldable pub normalize_handoff : HandoffPayload → Checked HandoffPayload
  normalize_handoff value = do
    check (same_text value.schema_version handoff_schema_version) "schema version"
    check (leb value.revision max_safe_integer) "revision"
    check (leb value.epoch max_safe_integer) "epoch"
    check (is_agent_task_class value.invariant.task_class) "task class"
    check (is_agent_risk_level value.invariant.risk) "risk"
    let state_id = (← text "state id" 160 value.state_id)
    let to = (← text "to" 160 value.to)
    let reason = (← text "reason" 2048 value.reason)
    let invariant = (← handoff_invariant value.invariant)
    check (leb (length value.artifacts) max_list) "artifacts"
    let artifacts = (← map_checked validate_handoff_artifact value.artifacts)
    let next_actions = (← unique_text "next actions" value.next_actions)
    let context_refs = (← unique_text "context refs" value.context_refs)
    let invariant_hash = (← text "invariant hash" 64 value.invariant_hash)
    let source_state_hash = (← text "source state hash" 64 value.source_state_hash)
    ok (record {
      schema_version = value.schema_version;
      state_id = state_id;
      revision = value.revision;
      epoch = value.epoch;
      to = to;
      reason = reason;
      invariant = invariant;
      artifacts = artifacts;
      next_actions = next_actions;
      context_refs = context_refs;
      invariant_hash = invariant_hash;
      source_state_hash = source_state_hash;
    })

  -- The tests behind the literal.
  unfoldable pub check_handoff : HandoffPayload → Text → Checked (Unit {0})
  check_handoff p hash = do
    check (not (has_duplicate (artifact_ids p.artifacts))) "artifacts duplicate id"
    check (is_hash p.invariant_hash) "invariantHash"
    check (is_hash p.source_state_hash) "sourceStateHash"
    check (is_hash hash) "handoffHash"
    check (same_text p.invariant_hash (agent_invariant_hash platform p.invariant))
        "invariant mismatch"
    check (same_text hash (agent_handoff_hash p)) "handoff hash mismatch"

  unfoldable pub import_handoff_envelope : Envelope → Checked Envelope
  import_handoff_envelope value = do
    let normalized = (← normalize_handoff value.payload)
    let hash = (← text "handoff hash" 64 value.handoff_hash)
    check_handoff normalized hash
    ok (record { payload = normalized; handoff_hash = hash })

  abbrev pub sealed : HandoffPayload → Envelope
  sealed p = record { payload = p; handoff_hash = agent_handoff_hash p }

  unfoldable pub create_handoff_envelope :
      AgentState → (to reason : Text) → (context_refs : List Text) → Checked Envelope
  create_handoff_envelope current to reason context_refs = do
    let state = (← import_agent_state platform current)
    let to' = (← text "handoff to" 160 to)
    let reason' = (← text "handoff reason" 2048 reason)
    let refs = (← unique_text "context refs" context_refs)
    import_handoff_envelope (sealed (handoff_payload state to' reason' refs))
