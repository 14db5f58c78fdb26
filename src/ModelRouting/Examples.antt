-- ===== src/ModelRouting/Examples.antt =====
-- Routes of src/core/model-routing.js.
use para11ax.Common.{ℕ, ◌≡◌, refl, true, arith}
use para11ax.JsText.{codes}
use para11ax.AgentState.{ok, is_agent_task_class, is_agent_risk_level}
use para11ax.ModelRouting.{
  Request, economy, frontier_max, Route, route_of, class_draft, complexity_gate, cost_gate,
  latency_gate, context_gate, risk_gate, failure_gate, draft_before, route_model_task,
}
use para11ax.ModelRouting.Gates.{IsBelow}
use para11ax.ModelRouting.Bounds.{IsEnough, route_model_task-IsEnough, route_model_task_grows}

-- A cheap and urgent transformation at a low risk, that has failed so often.
abbrev request : ℕ → Request
request failures = record {
  task_class = codes "research";
  complexity = codes "low";
  risk = codes "low";
  context_tokens = 300000;
  latency_sensitive = true;
  cost_sensitive = true;
  failures = failures;
}

abbrev route : ℕ → Route
route failures =
    route_of (request failures) (failure_gate failures (draft_before (request failures)))

class_known : is_agent_task_class (request 1).task_class ≡ true
unfolding is_agent_task_class
class_known = refl

risk_known : is_agent_risk_level (request 1).risk ≡ true
unfolding is_agent_risk_level
risk_known = refl

never_failed : route_model_task (request 0) ≡ ok (route 0)
unfolding route_model_task is_agent_task_class is_agent_risk_level
never_failed = refl

failed_twice : route_model_task (request 2) ≡ ok (route 2)
unfolding route_model_task is_agent_task_class is_agent_risk_level
failed_twice = refl

-- The costs take the tier down when nothing has failed.
never_failed_tier : (route 0).choice.tier ≡ economy
unfolding failure_gate draft_before class_draft complexity_gate cost_gate latency_gate context_gate
    risk_gate
never_failed_tier = refl

failed_twice_tier : (route 2).choice.tier ≡ frontier_max
unfolding failure_gate draft_before class_draft complexity_gate cost_gate latency_gate context_gate
    risk_gate
failed_twice_tier = refl

route_model_task-IsEnough_example :
    (t : Route) × (route_model_task (request 1) ≡ ok t) × IsEnough (request 1) t.choice
route_model_task-IsEnough_example =
    route_model_task-IsEnough (request 1) class_known refl risk_known refl

route_model_task_grows_example : IsBelow (route 0).choice (route 2).choice
route_model_task_grows_example =
    route_model_task_grows (request 0) 2 (route 0) (route 2) (omega arith) never_failed failed_twice
