-- ===== src/ModelRouting/Strong.antt =====
-- What makes a draft of routeModelTask of src/core/model-routing.js strong.
use para11ax.Common.{
  ◌≤◌, ◌≡◌, refl, sym, subst, inl, inr, true, false, not, ◌&&◌, some, arith, leb, Bool-cases,
  leb→le,
}
use para11ax.JsText.{codes, same_text}
use para11ax.JsText.Laws.{same_text-eq}
use para11ax.ModelRouting.{
  Draft, Effort, Request, balanced, because, class_draft, complexity_gate, context_gate, cost_gate,
  draft, draft_before, effort_index, frontier_max, high, is_complexity, is_maximal_class, is_medium,
  is_risk, latency_gate, level, low, max_effort, medium, reviewed, risk_gate, strengthen,
}
use para11ax.ModelRouting.Gates.{
  implies-true, and-true, IsStrong, IsBelow, IsBelow-refl, IsStrong-IsBelow, strengthen-IsStrong,
  strengthen-IsBelow,
}

pub risk_gate_high :
    (r : Request) (d : Draft)
    → is_risk r "high" ≡ true
    → risk_gate r d ≡ because "high_risk_review_gate" (reviewed (strengthen d))
unfolding risk_gate
risk_gate_high r d h = rw h refl

risk_gate_other : (r : Request) (d : Draft) → is_risk r "high" ≡ false → risk_gate r d ≡ d
unfolding risk_gate
risk_gate_other r d h = rw h refl

risk_gate-IsBelow : (r : Request) (d : Draft) → IsBelow d (risk_gate r d)
risk_gate-IsBelow r d = elim (Bool-cases (is_risk r "high")) [
  | inl risky ↦ subst (IsBelow d) (sym (risk_gate_high r d risky)) (record {
    tier = (strengthen-IsBelow d).tier;
    effort = (strengthen-IsBelow d).effort;
    review = implies-true d.independent_review true refl;
    family = implies-true d.different_family true refl;
  })
  | inr other ↦ subst (IsBelow d) (sym (risk_gate_other r d other)) (IsBelow-refl d)
]

context_gate-IsStrong : (r : Request) (d : Draft) → IsStrong d → IsStrong (context_gate r d)
unfolding context_gate
context_gate-IsStrong r d h = elim (Bool-cases (leb 250000 r.context_tokens)) [
  | inl large ↦ rw (large, context_gate) (record { tier = h.tier; effort = h.effort })
  | inr small ↦ rw (small, context_gate) h
]

medium_low : (e : Effort) → 2 ≤ effort_index e → is_medium e ≡ true → ⊥
medium_low low h k = cc
medium_low medium h k = omega (arith, h)
medium_low high h k = cc
medium_low max_effort h k = cc

latency_gate-IsStrong : (r : Request) (d : Draft) → IsStrong d → IsStrong (latency_gate r d)
unfolding latency_gate
latency_gate-IsStrong r d h =
    elim (Bool-cases (
      r.latency_sensitive
      && is_risk r "low"
      && not (is_complexity r "high")
      && is_medium d.reasoning_effort)) [
        | inl lowered ↦ absurd (medium_low d.reasoning_effort h.effort (and-true _ _ lowered).1)
        | inr kept ↦ rw (kept, latency_gate) h
      ]

cost_gate-IsStrong : (r : Request) (d : Draft) → IsStrong d → IsStrong (cost_gate r d)
unfolding cost_gate
cost_gate-IsStrong r d h =
    elim (Bool-cases (
      r.cost_sensitive
      && not (is_risk r "high")
      && is_complexity r "low"
      && leb (level d.tier) (level balanced))) [
        | inl lowered ↦
            absurd (omega (arith, h.tier, leb→le (level d.tier) 1 (and-true _ _ lowered).1))
        | inr kept ↦ rw (kept, cost_gate) h
      ]

class_draft_deep :
    (r : Request)
    → r.task_class ≡ codes "deep_reasoning"
    → class_draft r ≡ draft frontier_max max_effort true false "deep_reasoning"
unfolding class_draft
class_draft_deep r h = rw h refl

class_draft_cyber :
    (r : Request)
    → r.task_class ≡ codes "cyber_research"
    → class_draft r
      ≡ record (draft frontier_max max_effort true true "advanced_authorized_cyber_research") {
        specialist_hint = some (codes "cyber");
      }
unfolding class_draft
class_draft_cyber r h = rw h refl

class_draft_maximal :
    (r : Request) → is_maximal_class r.task_class ≡ true → IsStrong (class_draft r)
unfolding class_draft
class_draft_maximal r h = elim (Bool-cases (same_text (codes "deep_reasoning") r.task_class)) [
  | inl deep ↦
      let e : codes "deep_reasoning" ≡ r.task_class = same_text-eq _ _ deep in
      subst IsStrong (sym (class_draft_deep r (sym e)))
        (record { tier = omega arith; effort = omega arith })
  | inr other ↦ elim (Bool-cases (same_text (codes "cyber_research") r.task_class)) [
    | inl cyber ↦
        let e : codes "cyber_research" ≡ r.task_class = same_text-eq _ _ cyber in
        subst IsStrong (sym (class_draft_cyber r (sym e)))
          (record { tier = omega arith; effort = omega arith })
    | inr neither ↦ cc (rw (other, neither) at h)
  ]
]

complexity_gate-IsStrong :
    (r : Request) → is_complexity r "high" ≡ true → IsStrong (complexity_gate r (class_draft r))
unfolding complexity_gate
complexity_gate-IsStrong r h = elim (Bool-cases (is_maximal_class r.task_class)) [
  | inl maximal ↦ rw (h, maximal, complexity_gate) (class_draft_maximal r maximal)
  | inr other ↦ rw (h, other, complexity_gate) (strengthen-IsStrong (class_draft r))
]

-- A high complexity or a high risk is enough for a strong draft.
pub draft_before_complex : (r : Request) → is_complexity r "high" ≡ true → IsStrong (draft_before r)
unfolding draft_before
draft_before_complex r h =
    let d₀ = complexity_gate r (class_draft r) in
    let d₁ = cost_gate r d₀ in
    let d₂ = latency_gate r d₁ in
    let d₃ = context_gate r d₂ in
    IsStrong-IsBelow d₃ (risk_gate r d₃)
      (context_gate-IsStrong r d₂
        (latency_gate-IsStrong r d₁ (cost_gate-IsStrong r d₀ (complexity_gate-IsStrong r h))))
      (risk_gate-IsBelow r d₃)

risk_gate-IsStrong : (r : Request) (d : Draft) → is_risk r "high" ≡ true → IsStrong (risk_gate r d)
risk_gate-IsStrong r d h =
    subst IsStrong (sym (risk_gate_high r d h))
      (record { tier = (strengthen-IsStrong d).tier; effort = (strengthen-IsStrong d).effort })

pub draft_before_risky : (r : Request) → is_risk r "high" ≡ true → IsStrong (draft_before r)
unfolding draft_before
draft_before_risky r h = risk_gate-IsStrong r _ h
