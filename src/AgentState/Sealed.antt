-- ===== src/AgentState/Sealed.antt =====
-- What createHandoffEnvelope of src/core/agent-state.js makes of a state that was imported.
use para11ax.Common.{◌≡◌, refl, ap, ◌∙◌, subst, true, List, [], ◌∷◌, ◌==◌}
use para11ax.JsText.{Text, same_text}
use para11ax.JsText.Laws.{same_text_refl}
use para11ax.Sha256.{sha256_hex}
use para11ax.AgentState.{
  ok, text, unique_text, map_checked, is_hash, Artifact, Invariant, Payload, Checkpoint, Platform,
  AgentState, agent_invariant_hash, timestamp,
}
use para11ax.AgentState.Import.{
  validate_artifact, normalize_payload, check_payload, normalize_checkpoint, check_checkpoint,
  import_agent_state,
}
use para11ax.AgentState.Stable.{ok_eq, bind-ok, check-ok, unique_text-IsStable}
use para11ax.AgentState.Validated.{IsNormal, checkpoint-IsStable}
use para11ax.AgentState.Hashes.{text-sha256_hex, is_hash-sha256_hex}
use para11ax.AgentState.Changes.{text_field, again, cons_parts}
use para11ax.AgentState.Sound.{IsNormalInvariant, invariant-parts}
use para11ax.AgentState.Stamped.{imported-IsNormal}
use para11ax.AgentState.Defined.{IsChecked, imported-IsChecked}
use para11ax.AgentState.Handoff.{
  HandoffPayload, agent_handoff_hash, validate_handoff_artifact, handoff_invariant,
  normalize_handoff, check_handoff, import_handoff_envelope, handoff_payload, sealed,
  create_handoff_envelope,
}

-- What the checks of an imported state's checkpoint have found.
record IsStamp (platform : Platform) (p : Payload) (c : Checkpoint) : Type 0 where
  first : text "checkpoint invariant hash" 64 c.invariant_hash ≡ ok c.invariant_hash
  second : text "checkpoint state hash" 64 c.state_hash ≡ ok c.state_hash
  first_hash : is_hash c.invariant_hash ≡ true
  second_hash : is_hash c.state_hash ≡ true
  fits : same_text c.invariant_hash (agent_invariant_hash platform p.invariant) ≡ true

module _ (platform : Platform) where
  IsStamp-parts :
      (p : Payload) (c : Checkpoint)
      → normalize_checkpoint platform c ≡ ok c
      → check_checkpoint platform c p ≡ ok tt
      → IsStamp platform p c
  unfolding normalize_checkpoint check_checkpoint
  IsStamp-parts p c hc h =
      let (at, h₀, r₀) = bind-ok (timestamp platform "checkpoint at" c.at) _ c hc in
      let (a, h₁, r₁) = bind-ok (text "checkpoint invariant hash" 64 c.invariant_hash) _ c r₀ in
      let (b, h₂, r₂) = bind-ok (text "checkpoint state hash" 64 c.state_hash) _ c r₁ in
      let e = ok_eq _ c r₂ in
      let (k₀, q₀) = check-ok (c.revision == p.revision) _ _ tt h in
      let (k₁, q₁) = check-ok (is_hash c.invariant_hash) _ _ tt q₀ in
      let (k₂, q₂) = check-ok (is_hash c.state_hash) _ _ tt q₁ in
      let (k₃, q₃) =
        check-ok (same_text c.invariant_hash (agent_invariant_hash platform p.invariant)) _ _ tt
          q₂ in
      record {
        first = h₁ ∙ ap (λ (d : Checkpoint). ok d.invariant_hash) e;
        second = h₂ ∙ ap (λ (d : Checkpoint). ok d.state_hash) e;
        first_hash = k₁;
        second_hash = k₂;
        fits = k₃;
      }

  imported-IsStamp :
      (s t : AgentState)
      → import_agent_state platform s ≡ ok t
      → IsStamp platform t.payload t.checkpoint
  unfolding import_agent_state
  imported-IsStamp s t h =
      let (p, h₀, r₀) = bind-ok (normalize_payload platform s.payload) _ t h in
      let (done, h₁, r₁) = bind-ok (check_payload p) _ t r₀ in
      let (c, h₂, r₂) = bind-ok (normalize_checkpoint platform s.checkpoint) _ t r₁ in
      let (done', h₃, r₃) = bind-ok (check_checkpoint platform c p) _ t r₂ in
      subst (λ (a : AgentState). IsStamp platform a.payload a.checkpoint) (ok_eq _ t r₃)
        (IsStamp-parts p c (checkpoint-IsStable platform s.checkpoint c h₂) h₃)

module _ (platform : Platform) (handoff_json : HandoffPayload → Text) where
  artifacts-again :
      (as' : List Artifact)
      → map_checked (validate_artifact platform) as' ≡ ok as'
      → map_checked (validate_handoff_artifact platform handoff_json) as' ≡ ok as'
  artifacts-again [] h = refl
  artifacts-again (a ∷ as') h =
      let (here, later) = cons_parts (validate_artifact platform) a as' h in
      rw (here, artifacts-again as' later) refl

  handoff_invariant-again :
      (i : Invariant) → IsNormalInvariant platform i → handoff_invariant i ≡ ok i
  unfolding handoff_invariant
  handoff_invariant-again i n = rw (n.objective, n.constraints, n.decisions) refl

  payload-again :
      (v : AgentState) (to reason : Text) (refs : List Text)
      → IsNormal platform v.payload
      → IsChecked v.payload
      → IsStamp platform v.payload v.checkpoint
      → text "to" 160 to ≡ ok to
      → text "reason" 2048 reason ≡ ok reason
      → unique_text "context refs" refs ≡ ok refs
      → normalize_handoff platform handoff_json (handoff_payload v to reason refs)
        ≡ ok (handoff_payload v to reason refs)
  unfolding normalize_handoff
  payload-again v to reason refs n k stamp h₀ h₁ h₂ =
      rw
        (
          k.revision,
          k.epoch,
          k.task_class,
          k.risk,
          text_field "id" "state id" 160 v.payload.id v.payload.id n.id,
          h₀,
          h₁,
          handoff_invariant-again v.payload.invariant
              (invariant-parts platform v.payload.invariant n.invariant),
          n.few_artifacts,
          artifacts-again v.payload.artifacts n.artifacts,
          n.actions,
          h₂,
          text_field "checkpoint invariant hash" "invariant hash" 64 v.checkpoint.invariant_hash
              v.checkpoint.invariant_hash stamp.first,
          text_field "checkpoint state hash" "source state hash" 64 v.checkpoint.state_hash
              v.checkpoint.state_hash stamp.second,
        )
        refl

  checks-pass :
      (v : AgentState) (to reason : Text) (refs : List Text)
      → IsChecked v.payload
      → IsStamp platform v.payload v.checkpoint
      → (let p = handoff_payload v to reason refs in
          check_handoff platform handoff_json p (agent_handoff_hash platform handoff_json p)
          ≡ ok tt)
  unfolding check_handoff agent_handoff_hash
  checks-pass v to reason refs k stamp =
      let p = handoff_payload v to reason refs in
      rw
        (
          k.artifacts,
          stamp.first_hash,
          stamp.second_hash,
          stamp.fits,
          is_hash-sha256_hex (platform.utf8 (handoff_json p)),
          same_text_refl (sha256_hex (platform.utf8 (handoff_json p))),
        )
        refl

  sealed-again :
      (p : HandoffPayload)
      → normalize_handoff platform handoff_json p ≡ ok p
      → check_handoff platform handoff_json p (agent_handoff_hash platform handoff_json p) ≡ ok tt
      → import_handoff_envelope platform handoff_json (sealed platform handoff_json p)
        ≡ ok (sealed platform handoff_json p)
  unfolding import_handoff_envelope agent_handoff_hash
  sealed-again p h k =
      rw (h, text-sha256_hex "handoff hash" (platform.utf8 (handoff_json p)), k) refl

  -- For a state that importAgentState lets through, a receiver and a reason that are let through as texts and
  -- references that are let through as a list, createHandoffEnvelope never fails: it returns the envelope
  -- with the fields of the imported state and the hashes of its checkpoint, and importHandoffEnvelope returns
  -- that envelope unchanged.
  pub create_handoff_envelope-import :
      (s v : AgentState) (to reason to' reason' : Text) (refs refs' : List Text)
      → import_agent_state platform s ≡ ok v
      → text "handoff to" 160 to ≡ ok to'
      → text "handoff reason" 2048 reason ≡ ok reason'
      → unique_text "context refs" refs ≡ ok refs'
      → (let e = sealed platform handoff_json (handoff_payload v to' reason' refs') in
          (create_handoff_envelope platform handoff_json s to reason refs ≡ ok e)
          × (import_handoff_envelope platform handoff_json e ≡ ok e))
  unfolding create_handoff_envelope
  create_handoff_envelope-import s v to reason to' reason' refs refs' h₀ h₁ h₂ h₃ =
      let k = imported-IsChecked platform s v h₀ in
      let stamp = imported-IsStamp platform s v h₀ in
      let p = handoff_payload v to' reason' refs' in
      let unchanged : import_handoff_envelope platform handoff_json (sealed platform handoff_json p)
          ≡ ok (sealed platform handoff_json p) =
        sealed-again p
          (payload-again v to' reason' refs' (imported-IsNormal platform s v h₀) k stamp
            (again "handoff to" "to" 160 to to' h₁)
            (again "handoff reason" "reason" 2048 reason reason' h₂)
            (unique_text-IsStable "context refs" refs refs' h₃))
          (checks-pass v to' reason' refs' k stamp) in
      (rw (h₀, h₁, h₂, h₃) unchanged, unchanged)
