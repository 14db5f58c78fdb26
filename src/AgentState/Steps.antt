-- ===== src/AgentState/Steps.antt =====
-- A call of reduceAgentState of src/core/agent-state.js as a step of a state that was imported.
use para11ax.Common.{
  ℕ, ◌+◌, ◌≡◌, refl, sym, ap, ◌∙◌, subst, true, not, [], ◌∷◌, ◌++◌, leb, ◌==◌, length,
}
use para11ax.JsText.{Text}
use para11ax.AgentState.{
  ok, text, timestamp, max_timeline, max_safe_integer, TimelineEntry, Payload, AgentState, Platform,
}
use para11ax.AgentState.Import.{import_agent_state}
use para11ax.AgentState.Reduce.{
  Action, Change, checkpoint_of, apply_action, add_timeline, reduce_agent_state,
}
use para11ax.AgentState.Stable.{ok_eq, bind-ok, check-ok, text-IsStable}
use para11ax.AgentState.Validated.{IsNormal, payload-again, import_agent_state_twice}
use para11ax.AgentState.Sound.{IsSound, with_entry}
use para11ax.AgentState.Actions.{apply_action-IsSound}
use para11ax.AgentState.History.{ScopeKept, Keeps, IsKept, apply_action-IsKept}
use para11ax.AgentState.Stamped.{
  state_of, stamped, imported-IsNormal, import-same, stamp-again, entry-again, timestamp-ok,
}

-- What a step promises of the payload `p` that it begins with and of the state that it returns.
pub record IsStep (platform : Platform) (now : Text) (p : Payload) (t : AgentState) : Type 0 where
  pub keeps : Keeps p t.payload
  pub revision : t.payload.revision ≡ p.revision + 1
  pub updated : t.payload.updated_at ≡ now
  pub timeline :
      (e : TimelineEntry) × (t.payload.timeline ≡ p.timeline ++ e ∷ [])
      × (e.at ≡ now)
      × ScopeKept p t.payload e.type e.reason
  pub checkpoint : t.checkpoint ≡ checkpoint_of platform now t.payload

module _ (platform : Platform) where
  change-IsStep :
      (p : Payload) (now id : Text) (c : Change)
      → IsKept p c
      → IsStep platform now p
          (state_of (stamped now id c) (checkpoint_of platform now (stamped now id c)))
  change-IsStep p now id c k =
      let e : TimelineEntry = record { id = id; at = now; type = c.type; reason = c.reason } in
      record {
        keeps = record {
          id = k.keeps.id;
          created = k.keeps.created;
          task_class = k.keeps.task_class;
          risk = k.keeps.risk;
          decisions = k.keeps.decisions;
          artifacts = k.keeps.artifacts;
          handoffs = k.keeps.handoffs;
        };
        revision = ap (λ n. n + 1) k.revision;
        updated = refl;
        timeline = (e, ap (λ es. es ++ e ∷ []) k.timeline, refl, k.scope);
        checkpoint = refl;
      }

  pub stamped-IsNormal :
      (now id : Text) (c : Change)
      → platform.is_timestamp now ≡ true
      → IsSound platform c
      → text "timeline id" 160 id ≡ ok id
      → not (leb max_timeline (length c.payload.timeline)) ≡ true
      → IsNormal platform (stamped now id c)
  stamped-IsNormal now id c dated sound h room =
      with_entry platform c.payload _ (c.payload.revision + 1) now sound.normal room
        (entry-again platform _ h dated sound.type sound.reason) (rw dated refl)

  -- Where reduceAgentState returns a state, the state that it was given was let through, as one of payload
  -- `v.payload`; the returned state is a step from that payload, and `importAgentState` returns it unchanged.
  pub reduce_agent_state-IsStep :
      (now : Text) (uuid : ℕ → Text) (action : Action) (s t : AgentState)
      → reduce_agent_state platform now uuid action s ≡ ok t
      → (v : AgentState) × (import_agent_state platform s ≡ ok v)
        × IsStep platform now v.payload t
        × (import_agent_state platform t ≡ ok t)
  unfolding reduce_agent_state add_timeline
  reduce_agent_state-IsStep now uuid action s t h =
      let (v, h₀, r₀) = bind-ok (import_agent_state platform s) _ t h in
      let (limit, r₁) = check-ok (not (v.payload.revision == max_safe_integer)) _ _ t r₀ in
      let (at, h₂, r₂) = bind-ok (timestamp platform "updatedAt" now) _ t r₁ in
      let (dated, e₂) = timestamp-ok platform "updatedAt" now at h₂ in
      let (c, h₃, r₃) = bind-ok (apply_action platform at uuid action v.payload) _ t r₂ in
      let (id, h₄, r₄) = bind-ok (text "timeline id" 160 (uuid c.uuids)) _ t r₃ in
      let (next, h₅, r₅) = bind-ok (add_timeline platform at id c) _ t r₄ in
      let (room, h₆) = check-ok (not (leb max_timeline (length c.payload.timeline))) _ _ next h₅ in
      let dated_at : platform.is_timestamp at ≡ true = ap platform.is_timestamp (sym e₂) ∙ dated in
      let sound : IsSound platform c =
        apply_action-IsSound platform at dated_at uuid action v.payload c
          (imported-IsNormal platform s v h₀) h₃ in
      let e₆ : stamped at id c ≡ next = ok_eq _ _ h₆ in
      let normal : IsNormal platform next = subst (IsNormal platform) e₆ (
        stamped-IsNormal at id c dated_at sound
          (text-IsStable "timeline id" 160 (uuid c.uuids) id h₄) room) in
      let same : t ≡ state_of next (checkpoint_of platform at next) =
        import-same platform (state_of next (checkpoint_of platform at next)) t
          (payload-again platform next normal) (stamp-again platform at next dated_at) r₅ in
      let step : IsStep platform at v.payload (state_of next (checkpoint_of platform at next)) =
        subst (λ q. IsStep platform at v.payload (state_of q (checkpoint_of platform at q))) e₆
          (change-IsStep v.payload at id c
            (apply_action-IsKept platform at uuid action v.payload c h₃)) in
      (
        v,
        h₀,
        subst (λ n. IsStep platform n v.payload t) (sym e₂)
            (subst (IsStep platform at v.payload) (sym same) step),
        import_agent_state_twice platform _ t r₅,
      )
