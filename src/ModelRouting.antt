-- ===== src/ModelRouting.antt =====
-- routeModelTask of src/core/model-routing.js: the tier of models and the effort that a task is given. The
-- number of context tokens is a natural.
pub mod Gates
pub mod Strong
pub mod Bounds
mod Examples
use para11ax.Common.{
  ℕ, zero, suc, ◌+◌, ◌-◌, ◌*◌, ◌/◌, ◌%◌, ◌≤◌, ◌<◌, min, max, String, ◌≡◌, refl, sym, ap, ◌∙◌, subst,
  ◌≢◌, ◌↔◌, ◌⊎◌, inl, inr, Bool, true, false, not, ◌&&◌, ◌||◌, Option, none, some, List, [], ◌∷◌,
  ◌++◌, map, arith, ◌==ₛ◌, eq_iff, ltb, leb, ◌==◌, if◌then◌else◌, Bool-cases, Option-cases, ltb→lt,
  ltb→le, leb→le, leb→lt, lt→ltb, ltb-false, le→leb, tests, length, drop, length-append, sum_of,
  sum_of-append, All, All-append, get_elem?, without, sum_of-without, All-without, some_eq,
  length-without, append_nil, append_snoc,
}
use para11ax.JsText.{Text, codes, same_text, is_member}
use para11ax.AgentState.{
  Checked, ok, ◌>>◌, check, max_safe_integer, is_agent_task_class, is_agent_risk_level,
}

pub data Tier : Type 0 where
  economy balanced frontier frontier_max : Tier

-- LEVEL
abbrev pub level : Tier → ℕ
level economy = 0
level balanced = 1
level frontier = 2
level frontier_max = 3

pub data Effort : Type 0 where
  low medium high max_effort : Effort

-- EFFORT.indexOf
abbrev pub effort_index : Effort → ℕ
effort_index low = 0
effort_index medium = 1
effort_index high = 2
effort_index max_effort = 3

-- EFFORT[i]; the table has four places
abbrev pub effort_at : ℕ → Effort
effort_at n = if n == 0 then low else if n == 1 then medium else if n == 2 then high else max_effort

abbrev pub at_least : Tier → Tier → Tier
at_least current minimum = if leb (level minimum) (level current) then current else minimum

-- EFFORT[Math.max(EFFORT.indexOf(effort), EFFORT.indexOf('high'))]
abbrev pub raise_effort : Effort → Effort
raise_effort e = effort_at (max (effort_index e) (effort_index high))

-- COMPLEXITIES
abbrev pub complexities : List Text
complexities = codes "low" ∷ codes "medium" ∷ codes "high" ∷ []

pub record Request : Type 0 where
  pub task_class : Text
  pub complexity : Text
  pub risk : Text
  pub context_tokens : ℕ
  pub latency_sensitive : Bool
  pub cost_sensitive : Bool
  pub failures : ℕ

-- The variables of the function.
pub record Draft : Type 0 where
  pub tier : Tier
  pub reasoning_effort : Effort
  pub specialist_hint : Option Text
  pub independent_review : Bool
  pub different_family : Bool
  pub reasons : List Text

abbrev pub draft : Tier → Effort → Bool → Bool → String → Draft
draft tier effort review family reason = record {
  tier = tier;
  reasoning_effort = effort;
  specialist_hint = none;
  independent_review = review;
  different_family = family;
  reasons = codes reason ∷ [];
}

abbrev pub because : String → Draft → Draft
because reason d = record d { reasons = d.reasons ++ codes reason ∷ [] }

-- tier = atLeast(tier, 'frontier'), and the effort at least high
abbrev pub strengthen : Draft → Draft
strengthen d = record d {
  tier = at_least d.tier frontier;
  reasoning_effort = raise_effort d.reasoning_effort;
}

abbrev pub is_complexity : Request → String → Bool
is_complexity r name = same_text r.complexity (codes name)

abbrev pub is_risk : Request → String → Bool
is_risk r name = same_text r.risk (codes name)

-- The case of `research`, `analysis` and the default.
abbrev pub default_draft : Request → Draft
default_draft r =
    if is_complexity r "high"
    then draft frontier high false false "high_complexity"
    else draft balanced medium false false "balanced_default"

-- The switch.
unfoldable pub class_draft : Request → Draft
class_draft r =
    if same_text r.task_class (codes "simple_transform")
    then draft economy low false false "routine_transform"
    else if same_text r.task_class (codes "coding")
    then draft frontier high false false "coding_agent_quality"
    else if same_text r.task_class (codes "security_analysis")
    then draft frontier high false false "security_reasoning"
    else if same_text r.task_class (codes "cyber_research")
    then record (draft frontier_max max_effort true true "advanced_authorized_cyber_research") {
      specialist_hint = some (codes "cyber");
    }
    else if same_text r.task_class (codes "deep_reasoning")
    then draft frontier_max max_effort true false "deep_reasoning"
    else if same_text r.task_class (codes "long_context")
    then draft frontier high false false "long_context_reliability"
    else if same_text r.task_class (codes "review")
    then draft frontier high true true "independent_review"
    else default_draft r

abbrev pub is_maximal_class : Text → Bool
is_maximal_class t = is_member t (codes "deep_reasoning" ∷ codes "cyber_research" ∷ [])

unfoldable pub complexity_gate : Request → Draft → Draft
complexity_gate r d =
    if is_complexity r "high" && not (is_maximal_class r.task_class) then strengthen d else d

unfoldable pub cost_gate : Request → Draft → Draft
cost_gate r d =
    if r.cost_sensitive
      && not (is_risk r "high")
      && is_complexity r "low"
      && leb (level d.tier) (level balanced)
    then because "cost_sensitive" (record d { tier = economy; reasoning_effort = low })
    else d

abbrev pub is_medium : Effort → Bool
is_medium medium = true
is_medium e = false

unfoldable pub latency_gate : Request → Draft → Draft
latency_gate r d =
    if r.latency_sensitive
      && is_risk r "low"
      && not (is_complexity r "high")
      && is_medium d.reasoning_effort
    then because "latency_sensitive" (record d { reasoning_effort = low })
    else d

unfoldable pub context_gate : Request → Draft → Draft
context_gate r d = if leb 250000 r.context_tokens then because "large_context" d else d

abbrev pub reviewed : Draft → Draft
reviewed d = record d { independent_review = true; different_family = true }

unfoldable pub risk_gate : Request → Draft → Draft
risk_gate r d =
    if is_risk r "high" then because "high_risk_review_gate" (reviewed (strengthen d)) else d

unfoldable pub failure_gate : ℕ → Draft → Draft
failure_gate failures d =
    if leb 2 failures
    then because "failure_escalation"
        (reviewed (record d { tier = frontier_max; reasoning_effort = max_effort }))
    else if failures == 1
    then because "single_failure_escalation" (strengthen d)
    else d

-- What the function's variables hold before the failures are looked at.
unfoldable pub draft_before : Request → Draft
draft_before r =
    risk_gate r (context_gate r (latency_gate r (cost_gate r (complexity_gate r (class_draft r)))))

-- [...new Set(reasons)]
abbrev pub unique_from : List Text → List Text → List Text
unique_from seen [] = []
unique_from seen (t ∷ ts) =
    let old = is_member t seen in
    let rest = unique_from (if old then seen else t ∷ seen) ts in if old then rest else t ∷ rest

pub record Route : Type 0 where
  pub task_class : Text
  pub choice : Draft
  pub context_policy : Text

-- The result.
abbrev pub route_of : Request → Draft → Route
route_of r d = record {
  task_class = r.task_class;
  choice = record d { reasons = unique_from [] d.reasons };
  context_policy =
      if leb 250000 r.context_tokens
      then codes "durable-state-plus-jit-retrieval"
      else codes "durable-state-first";
}

unfoldable pub route_model_task : Request → Checked Route
route_model_task r = do
  check (is_agent_task_class r.task_class) "taskClass"
  check (is_member r.complexity complexities) "complexity"
  check (is_agent_risk_level r.risk) "risk"
  check (leb r.failures max_safe_integer) "failures"
  ok (route_of r (failure_gate r.failures (draft_before r)))
