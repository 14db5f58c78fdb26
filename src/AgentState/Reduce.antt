-- ===== src/AgentState/Reduce.antt =====
-- createAgentState and reduceAgentState of src/core/agent-state.js. `at` is the clock's reading and `uuid n`
-- what the n-th call of `uuid` gives.
use para11ax.Common.{ℕ, ◌+◌, not, Option, none, some, List, [], ◌∷◌, ◌++◌, leb, ◌==◌, length}
use para11ax.JsText.{Text, codes, is_member}
use para11ax.AgentState.{
  Checked, ok, ◌>>=◌, ◌>>◌, check, max_text, max_list, max_timeline, max_safe_integer, text,
  unique_text, is_agent_task_class, is_agent_risk_level, Artifact, HandoffRecord, TimelineEntry,
  Checkpoint, Invariant, Payload, AgentState, Platform, timestamp, agent_invariant_hash,
  agent_state_hash,
}
use para11ax.AgentState.Import.{schema_version, import_agent_state}

-- The action's own fields, those of an artifact among them.
pub data Action : Type 0 where
  decision_add : Text → Action
  artifact_add : (kind ref summary : Text) → Action
  next_actions_set : List Text → Action
  objective_revise : (objective reason : Text) → Action
  constraints_set : List Text → (reason : Text) → Action
  handoff : (to reason : Text) → Action

-- What the switch leaves: the payload, `timelineType`, `timelineReason` and how often it called `uuid`.
pub record Change : Type 0 where
  pub payload : Payload
  pub type : Text
  pub reason : Option Text
  pub uuids : ℕ

abbrev pub plain_change : Payload → Text → Change
plain_change p type = record { payload = p; type = type; reason = none; uuids = 0 }

-- The change of what a handoff must keep: a new epoch, with its reason.
abbrev pub scope_change : Invariant → Text → Payload → Change
scope_change i reason p = record {
  payload = record p { invariant = i; epoch = p.epoch + 1 };
  type = codes "SCOPE_CHANGE";
  reason = some reason;
  uuids = 0;
}

module _ (platform : Platform) where
  abbrev pub checkpoint_of : Text → Payload → Checkpoint
  checkpoint_of at p = record {
    at = at;
    revision = p.revision;
    invariant_hash = agent_invariant_hash platform p.invariant;
    state_hash = agent_state_hash platform p;
  }

  unfoldable pub create_agent_state :
      (at uuid objective : Text) → List Text → (task_class risk : Text) → Checked AgentState
  create_agent_state now uuid objective constraints task_class risk = do
    let at = (← timestamp platform "createdAt" now)
    let id = (← text "id" 160 uuid)
    let objective' = (← text "objective" max_text objective)
    let task_class' = (← text "task class" 64 task_class)
    let risk' = (← text "risk" 16 risk)
    let constraints' = (← unique_text "constraints" constraints)
    check (is_agent_task_class task_class') "task class"
    check (is_agent_risk_level risk') "risk"
    let base : Payload = record {
      schema_version = schema_version;
      id = id;
      invariant = record {
        objective = objective';
        task_class = task_class';
        risk = risk';
        constraints = constraints';
        decisions = [];
      };
      artifacts = [];
      next_actions = [];
      revision = 0;
      epoch = 0;
      created_at = at;
      updated_at = at;
      handoffs = [];
      timeline = [];
    }
    import_agent_state platform (record { payload = base; checkpoint = checkpoint_of at base })

  -- The switch.
  unfoldable pub apply_action : Text → (ℕ → Text) → Action → Payload → Checked Change
  apply_action at uuid (decision_add value) p = do
    let decision = (← text "decision" 2048 value)
    check (not (is_member decision p.invariant.decisions)) "duplicate decision"
    check (not (leb max_list (length p.invariant.decisions))) "decision limit"
    ok (
        plain_change
          (record p {
            invariant = record p.invariant { decisions = p.invariant.decisions ++ decision ∷ [] };
          })
          (codes "DECISION_ADD"))
  apply_action at uuid (artifact_add kind ref summary) p = do
    check (not (leb max_list (length p.artifacts))) "artifact limit"
    let id = (← text "artifact id" 160 (uuid 0))
    let kind' = (← text "artifact kind" 64 kind)
    let ref' = (← text "artifact ref" 2048 ref)
    let summary' = (← text "artifact summary" 2048 summary)
    let artifact : Artifact = record {
      id = id;
      kind = kind';
      ref = ref';
      summary = summary';
      at = at;
    }
    let next = record p { artifacts = p.artifacts ++ artifact ∷ [] }
    ok (record { payload = next; type = codes "ARTIFACT_ADD"; reason = none; uuids = 1 })
  apply_action at uuid (next_actions_set values) p = do
    let next_actions = (← unique_text "next actions" values)
    ok (plain_change (record p { next_actions = next_actions }) (codes "NEXT_ACTIONS_SET"))
  apply_action at uuid (objective_revise objective reason) p = do
    let objective' = (← text "objective" max_text objective)
    let reason' = (← text "scope change reason" 2048 reason)
    ok (scope_change (record p.invariant { objective = objective' }) reason' p)
  apply_action at uuid (constraints_set values reason) p = do
    let constraints = (← unique_text "constraints" values)
    let reason' = (← text "scope change reason" 2048 reason)
    ok (scope_change (record p.invariant { constraints = constraints }) reason' p)
  apply_action at uuid (handoff to reason) p = do
    check (not (leb max_list (length p.handoffs))) "handoff limit"
    let id = (← text "handoff id" 160 (uuid 0))
    let to' = (← text "handoff to" 160 to)
    let reason' = (← text "handoff reason" 2048 reason)
    let entry : HandoffRecord = record {
      id = id;
      at = at;
      to = to';
      reason = reason';
      invariant_hash = agent_invariant_hash platform p.invariant;
    }
    let next = record p { handoffs = p.handoffs ++ entry ∷ [] }
    ok (record { payload = next; type = codes "HANDOFF"; reason = none; uuids = 1 })

  -- `addTimeline`, behind the two assignments before it
  unfoldable pub add_timeline : Text → Text → Change → Checked Payload
  add_timeline at id c = do
    let p = c.payload
    check (not (leb max_timeline (length p.timeline))) "timeline limit"
    let entry : TimelineEntry = record { id = id; at = at; type = c.type; reason = c.reason }
    ok (record p {
      revision = p.revision + 1;
      updated_at = at;
      timeline = p.timeline ++ entry ∷ [];
    })

  -- The source then gives the last handoff the checkpoint's invariant hash, the one that it has.
  unfoldable pub reduce_agent_state :
      (now : Text) → (uuid : ℕ → Text) → Action → AgentState → Checked AgentState
  reduce_agent_state now uuid action current = do
    let valid = (← import_agent_state platform current)
    check (not (valid.payload.revision == max_safe_integer)) "revision limit"
    let at = (← timestamp platform "updatedAt" now)
    let change = (← apply_action at uuid action valid.payload)
    let id = (← text "timeline id" 160 (uuid change.uuids))
    let next = (← add_timeline at id change)
    import_agent_state platform (record { payload = next; checkpoint = checkpoint_of at next })
