-- ===== src/ModelRouting/Bounds.antt =====
-- The least that routeModelTask of src/core/model-routing.js gives a task.
use para11ax.Common.{
  ℕ, ◌≤◌, ◌≡◌, refl, sym, ap, subst, inl, inr, Bool, true, false, ◌||◌, List, arith, leb, ◌==◌,
  if◌then◌else◌, Bool-cases,
}
use para11ax.JsText.{Text, is_member}
use para11ax.AgentState.{ok, max_safe_integer, is_agent_task_class, is_agent_risk_level}
use para11ax.AgentState.Stable.{ok_eq, check-ok}
use para11ax.ModelRouting.{
  route_of, Draft, Request, Route, class_draft, complexities, complexity_gate, context_gate,
  cost_gate, draft_before, effort_index, failure_gate, is_complexity, is_risk, latency_gate, level,
  risk_gate, route_model_task,
}
use para11ax.ModelRouting.Gates.{
  implies, implies-true, implies_trans, IsStrong, IsBelow, IsMaximal, IsStrong-IsBelow,
  strengthen-IsStrong, failure_gate-IsMaximal, failure_gate_grows,
}
use para11ax.ModelRouting.Strong.{draft_before_complex, draft_before_risky}

-- The least place of the tier and of the effort: the last with two failures, the third with one, at a high
-- risk or with a high complexity.
abbrev pub least_level : Request → ℕ
least_level r =
    if leb 2 r.failures
    then 3
    else if r.failures == 1 || is_risk r "high" || is_complexity r "high"
    then 2
    else 0

-- When both reviews are asked for.
abbrev pub needs_review : Request → Bool
needs_review r = leb 2 r.failures || is_risk r "high"

-- What a draft must have for a request.
pub record IsEnough (r : Request) (d : Draft) : Type 0 where
  pub tier : least_level r ≤ level d.tier
  pub effort : least_level r ≤ effort_index d.reasoning_effort
  pub review : implies (needs_review r) d.independent_review ≡ true
  pub family : implies (needs_review r) d.different_family ≡ true

IsMaximal-IsEnough :
    (r : Request) (d : Draft) → leb 2 r.failures ≡ true → IsMaximal d → IsEnough r d
IsMaximal-IsEnough r d h m = record {
  tier = rw (h, m.tier) (omega arith);
  effort = rw (h, m.effort) (omega arith);
  review = implies-true (needs_review r) d.independent_review m.review;
  family = implies-true (needs_review r) d.different_family m.family;
}

least_small : (r : Request) → leb 2 r.failures ≡ false → least_level r ≤ 2
least_small r h =
    elim (Bool-cases (r.failures == 1 || is_risk r "high" || is_complexity r "high")) [
      | inl strong ↦ rw (h, strong) (omega arith)
      | inr plain ↦ rw (h, plain) (omega arith)
    ]

IsStrong-IsEnough :
    (r : Request) (d : Draft)
    → leb 2 r.failures ≡ false
    → IsStrong d
    → implies (is_risk r "high") d.independent_review ≡ true
    → implies (is_risk r "high") d.different_family ≡ true
    → IsEnough r d
IsStrong-IsEnough r d h s review family =
    let two = least_small r h in
    record {
      tier = omega (arith, two, s.tier);
      effort = omega (arith, two, s.effort);
      review = rw h review;
      family = rw h family;
    }

risk_gate_reviews :
    (r : Request) (d : Draft)
    → (implies (is_risk r "high") (risk_gate r d).independent_review ≡ true)
      × (implies (is_risk r "high") (risk_gate r d).different_family ≡ true)
unfolding risk_gate
risk_gate_reviews r d = elim (Bool-cases (is_risk r "high")) [
  | inl risky ↦ rw (risky, risk_gate) (refl, refl)
  | inr other ↦ rw other (refl, refl)
]

draft_before_reviews :
    (r : Request)
    → (implies (is_risk r "high") (draft_before r).independent_review ≡ true)
      × (implies (is_risk r "high") (draft_before r).different_family ≡ true)
unfolding draft_before
draft_before_reviews r = risk_gate_reviews r _

failure_gate_none : (d : Draft) → failure_gate 0 d ≡ d
unfolding failure_gate
failure_gate_none d = refl

failure_gate_above : (n : ℕ) (d : Draft) → IsBelow d (failure_gate n d)
failure_gate_above n d =
    subst (λ e. IsBelow e (failure_gate n d)) (failure_gate_none d)
      (failure_gate_grows 0 n d (omega arith))

once-IsStrong : (n : ℕ) (d : Draft) → (n == 1) ≡ true → IsStrong (failure_gate n d)
unfolding failure_gate
once-IsStrong n d h =
    let e : n ≡ 1 = ground arith in
    rw (e, failure_gate)
      (record { tier = (strengthen-IsStrong d).tier; effort = (strengthen-IsStrong d).effort })

failure_gate-IsStrong :
    (r : Request)
    → (r.failures == 1 || is_risk r "high" || is_complexity r "high") ≡ true
    → IsStrong (failure_gate r.failures (draft_before r))
failure_gate-IsStrong r h =
    let d = draft_before r in
    let below = failure_gate_above r.failures d in
    elim (Bool-cases (r.failures == 1)) [
      | inl once ↦ once-IsStrong r.failures d once
      | inr other ↦ elim (Bool-cases (is_risk r "high")) [
        | inl risky ↦ IsStrong-IsBelow d _ (draft_before_risky r risky) below
        | inr safe ↦ IsStrong-IsBelow d _ (draft_before_complex r (rw (other, safe) at h)) below
      ]
    ]

failure_gate-IsEnough : (r : Request) → IsEnough r (failure_gate r.failures (draft_before r))
failure_gate-IsEnough r =
    let d = draft_before r in
    let e = failure_gate r.failures d in
    elim (Bool-cases (leb 2 r.failures)) [
      | inl twice ↦ IsMaximal-IsEnough r e twice (failure_gate-IsMaximal r.failures d twice)
      | inr fewer ↦
          let below : IsBelow d e = failure_gate_above r.failures d in
          let (review, family) = draft_before_reviews r in
          let review' =
            implies_trans _ d.independent_review e.independent_review review below.review in
          let family' = implies_trans _ d.different_family e.different_family family below.family in
          elim (Bool-cases (r.failures == 1 || is_risk r "high" || is_complexity r "high")) [
            | inl strong ↦
                IsStrong-IsEnough r e fewer (failure_gate-IsStrong r strong) review' family'
            | inr plain ↦ record {
              tier = rw (fewer, plain) (omega arith);
              effort = rw (fewer, plain) (omega arith);
              review = rw fewer review';
              family = rw fewer family';
            }
          ]
    ]

-- routeModelTask returns a route for every class, complexity and risk of its tables and a safe number of
-- failures. Its tier and effort are the strongest from two failures on, and at least the second strongest
-- with one failure, at a high risk or with a high complexity; an independent review by another family is
-- asked for from two failures on and at a high risk.
pub route_model_task-IsEnough :
    (r : Request)
    → is_agent_task_class r.task_class ≡ true
    → is_member r.complexity complexities ≡ true
    → is_agent_risk_level r.risk ≡ true
    → leb r.failures max_safe_integer ≡ true
    → (t : Route) × (route_model_task r ≡ ok t) × IsEnough r t.choice
unfolding route_model_task
route_model_task-IsEnough r h₀ h₁ h₂ h₃ =
    let e = failure_gate-IsEnough r in
    (
      route_of r (failure_gate r.failures (draft_before r)),
      rw (h₀, h₁, h₂, h₃) refl,
      record { tier = e.tier; effort = e.effort; review = e.review; family = e.family },
    )

route_choice :
    (r : Request) (t : Route)
    → route_model_task r ≡ ok t
    → (ts : List Text) × (t.choice
        ≡ record (failure_gate r.failures (draft_before r)) { reasons = ts })
unfolding route_model_task
route_choice r t h =
    let (h₀, r₀) = check-ok (is_agent_task_class r.task_class) _ _ t h in
    let (h₁, r₁) = check-ok (is_member r.complexity complexities) _ _ t r₀ in
    let (h₂, r₂) = check-ok (is_agent_risk_level r.risk) _ _ t r₁ in
    let (h₃, r₃) = check-ok (leb r.failures max_safe_integer) _ _ t r₂ in
    (_, sym (ap (λ (u : Route). u.choice) (ok_eq _ t r₃)))

-- Routes of requests that differ in their failures only: the one with more failures has no lower tier, no
-- lower effort and every review that the other has.
pub route_model_task_grows :
    (r : Request) (n : ℕ) (t u : Route)
    → r.failures ≤ n
    → route_model_task r ≡ ok t
    → route_model_task (record r { failures = n }) ≡ ok u
    → IsBelow t.choice u.choice
unfolding draft_before class_draft complexity_gate cost_gate failure_gate latency_gate context_gate
    risk_gate
route_model_task_grows r n t u h ht hu =
    let (ts, et) = route_choice r t ht in
    let (us, eu) = route_choice (record r { failures = n }) u hu in
    let b = failure_gate_grows r.failures n (draft_before r) h in
    rw (et, eu) (record { tier = b.tier; effort = b.effort; review = b.review; family = b.family })
