-- ===== src/AgentState/Examples.antt =====
-- Runs of the agent state of src/core/agent-state.js on a platform that takes 24 characters for a timestamp,
-- a character's code for its byte, and the fields one behind the other for their JSON text.
use para11ax.Common.{
  if◌then◌else◌, ℕ, ◌≡◌, refl, false, ◌≤◌, ◌∷◌, [], ◌++◌, none, ◌==◌, length, ◌+◌,
}
use para11ax.JsText.{Text, codes, trim, trim_start, trim_end, replace_line_ends}
use para11ax.Sha256.{
  pad, set_at, set_bytes, extend_schedule, round, rounds, digest_block, digest_blocks, to_hex,
  sha256_hex,
}
use para11ax.AgentState.{
  ok, Payload, AgentState, Platform, text, unique_text, is_agent_task_class, is_agent_risk_level,
  agent_invariant_hash, agent_state_hash, is_hash,
}
use para11ax.AgentState.Import.{
  schema_version, check_payload, validate_handoff_record, validate_timeline, normalize_invariant,
  normalize_payload, normalize_checkpoint, check_checkpoint, import_agent_state,
}
use para11ax.AgentState.Reduce.{
  plain_change, decision_add, handoff, Change, checkpoint_of, create_agent_state, apply_action,
  add_timeline, reduce_agent_state,
}
use para11ax.AgentState.Validated.{import_agent_state_twice}
use para11ax.AgentState.Runs.{
  Run, imported, step, IsHistory, reduce_agent_state_run, detect_agent_drift_run,
}
use para11ax.AgentState.Drift.{detect_agent_drift}
use para11ax.AgentState.Stamped.{state_of, stamped}
use para11ax.AgentState.Defined.{IsFresh, reduce_agent_state_defined}
use para11ax.AgentState.Handoff.{
  Envelope, HandoffPayload, import_handoff_envelope, handoff_payload, sealed,
  create_handoff_envelope,
}
use para11ax.AgentState.Sealed.{create_handoff_envelope-import}

abbrev platform : Platform
platform = record {
  is_timestamp = λ t. length t == 24;
  utf8 = λ t. t;
  invariant_json = λ i. i.objective ++ i.task_class ++ i.risk;
  payload_json = λ p. p.id ++ p.updated_at ++ p.invariant.objective;
}

abbrev noon : Text
noon = codes "2026-01-01T12:00:00.000Z"

abbrev later : Text
later = codes "2026-01-01T13:00:00.000Z"

abbrev id_of : ℕ → Text
id_of n = if n == 0 then codes "u0" else codes "u1"

abbrev later_id : ℕ → Text
later_id n = if n == 0 then codes "u2" else codes "u3"

abbrev base : Payload
base = record {
  schema_version = schema_version;
  id = codes "state";
  invariant = record {
    objective = codes "map the domain";
    task_class = codes "research";
    risk = codes "low";
    constraints = codes "passive only" ∷ [];
    decisions = [];
  };
  artifacts = [];
  next_actions = [];
  revision = 0;
  epoch = 0;
  created_at = noon;
  updated_at = noon;
  handoffs = [];
  timeline = [];
}

abbrev first : AgentState
first = state_of base (checkpoint_of platform noon base)

-- A constraint and the objective of the caller are trimmed.
first_created :
    create_agent_state platform noon
      (codes "state")
      (codes " map the domain ")
      (codes "passive only\r\n" ∷ [])
      (codes "research")
      (codes "low")
    ≡ ok first
unfolding create_agent_state import_agent_state normalize_payload normalize_invariant check_payload
    normalize_checkpoint check_checkpoint text unique_text is_agent_task_class is_agent_risk_level
    agent_invariant_hash agent_state_hash is_hash trim trim_start trim_end replace_line_ends
    sha256_hex pad set_at set_bytes extend_schedule round rounds digest_block digest_blocks to_hex
first_created = refl

first_valid : import_agent_state platform first ≡ ok first
unfolding import_agent_state normalize_payload normalize_invariant check_payload
    normalize_checkpoint check_checkpoint text unique_text is_agent_task_class is_agent_risk_level
    agent_invariant_hash agent_state_hash is_hash trim trim_start trim_end replace_line_ends
    sha256_hex pad set_at set_bytes extend_schedule round rounds digest_block digest_blocks to_hex
first_valid = refl

abbrev found : Change
found =
    plain_change
      (record base { invariant = record base.invariant { decisions = codes "use DNS" ∷ [] } })
      (codes "DECISION_ADD")

abbrev second : AgentState
second =
    state_of (stamped noon (codes "u0") found)
      (checkpoint_of platform noon (stamped noon (codes "u0") found))

abbrev handed : Change
handed = record {
  payload = record second.payload {
    handoffs =
        record {
          id = codes "u2";
          at = later;
          to = codes "reviewer";
          reason = codes "check";
          invariant_hash = agent_invariant_hash platform second.payload.invariant;
        }
        ∷ [];
  };
  type = codes "HANDOFF";
  reason = none;
  uuids = 1;
}

abbrev third : AgentState
third =
    state_of (stamped later (codes "u3") handed)
      (checkpoint_of platform later (stamped later (codes "u3") handed))

second_reached :
    reduce_agent_state platform noon id_of (decision_add (codes "use DNS ")) first ≡ ok second
unfolding import_agent_state reduce_agent_state apply_action add_timeline validate_timeline
    validate_handoff_record normalize_payload normalize_invariant check_payload normalize_checkpoint
    check_checkpoint text unique_text is_agent_task_class is_agent_risk_level agent_invariant_hash
    agent_state_hash is_hash trim trim_start trim_end replace_line_ends sha256_hex pad set_at
    set_bytes extend_schedule round rounds digest_block digest_blocks to_hex
second_reached = refl

third_reached :
    reduce_agent_state platform later later_id (handoff (codes "reviewer") (codes "check")) second
    ≡ ok third
unfolding import_agent_state reduce_agent_state apply_action add_timeline validate_timeline
    validate_handoff_record normalize_payload normalize_invariant check_payload normalize_checkpoint
    check_checkpoint text unique_text is_agent_task_class is_agent_risk_level agent_invariant_hash
    agent_state_hash is_hash trim trim_start trim_end replace_line_ends sha256_hex pad set_at
    set_bytes extend_schedule round rounds digest_block digest_blocks to_hex
third_reached = refl

two_steps : Run platform first 2 third
two_steps =
    step third later later_id (handoff (codes "reviewer") (codes "check"))
      (step second noon id_of (decision_add (codes "use DNS ")) (imported first_valid)
        second_reached)
      third_reached

import_agent_state_twice_example : import_agent_state platform first ≡ ok first
import_agent_state_twice_example = import_agent_state_twice platform first first first_valid

reduce_agent_state_run_example :
    IsHistory platform first 2 third × (length first.payload.timeline + 2 ≤ 256)
reduce_agent_state_run_example = reduce_agent_state_run platform first 2 third two_steps

detect_agent_drift_run_example :
    (detect_agent_drift platform first.payload.invariant third.payload.invariant).drifted ≡ false
detect_agent_drift_run_example = detect_agent_drift_run platform first 2 third two_steps refl

found_change :
    apply_action platform noon id_of (decision_add (codes "use DNS ")) first.payload ≡ ok found
unfolding apply_action text trim trim_start trim_end replace_line_ends
found_change = refl

found_id : text "timeline id" 160 (id_of found.uuids) ≡ ok (codes "u0")
unfolding text trim trim_start trim_end replace_line_ends
found_id = refl

found-IsFresh : IsFresh (stamped noon (codes "u0") found)
found-IsFresh = record { artifacts = refl; handoffs = refl; timeline = refl; epoch = refl }

reduce_agent_state_defined_example :
    reduce_agent_state platform noon id_of (decision_add (codes "use DNS ")) first ≡ ok second
reduce_agent_state_defined_example =
    reduce_agent_state_defined platform noon (codes "u0") id_of (decision_add (codes "use DNS "))
      first first found first_valid refl refl found_change found_id refl found-IsFresh

abbrev handoff_json : HandoffPayload → Text
handoff_json p = p.to ++ p.reason ++ p.invariant_hash

reviewer_ok : text "handoff to" 160 (codes " reviewer") ≡ ok (codes "reviewer")
unfolding text trim trim_start trim_end replace_line_ends
reviewer_ok = refl

reason_ok : text "handoff reason" 2048 (codes "check") ≡ ok (codes "check")
unfolding text trim trim_start trim_end replace_line_ends
reason_ok = refl

refs_ok : unique_text "context refs" (codes "report" ∷ []) ≡ ok (codes "report" ∷ [])
unfolding unique_text text trim trim_start trim_end replace_line_ends
refs_ok = refl

abbrev sent : Envelope
sent =
    sealed platform handoff_json
      (handoff_payload first (codes "reviewer") (codes "check") (codes "report" ∷ []))

create_handoff_envelope-import_example :
    (create_handoff_envelope platform handoff_json first
        (codes " reviewer")
        (codes "check")
        (codes "report" ∷ [])
      ≡ ok sent)
    × (import_handoff_envelope platform handoff_json sent ≡ ok sent)
create_handoff_envelope-import_example =
    create_handoff_envelope-import platform handoff_json first first (codes " reviewer")
      (codes "check") (codes "reviewer") (codes "check") (codes "report" ∷ []) (codes "report" ∷ [])
      first_valid reviewer_ok reason_ok refs_ok
