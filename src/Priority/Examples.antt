-- ===== src/Priority/Examples.antt =====
-- Runs of src/core/provider-priority.js at concrete inputs, and instances of the theorems about it.
use mathlib.Core.List.{Perm}
use mathlib.Core.Bool.{xor}
use para11ax.Common.{String, ◌≡◌, refl, Option, none, some, List, [], ◌∷◌, map}
use para11ax.Common.Lex.{lex}
use para11ax.Common.Sort.Laws.{IsOrdered}
use para11ax.Priority.{
  Descriptor, Adapter, Priority, compare_ranked, compare_priority, provider_priority, compare_valid,
  rank_providers_for_execution, with_priorities,
}
use para11ax.Priority.Laws.{
  adapters, vector, of_vector, compare_priority-vector, rank-perm, rank-IsOrdered, rank_stable,
}

abbrev descriptor : String → Descriptor
descriptor authority = record {
  authority = authority;
  uniqueness = "unique";
  intelligence = "direct";
  pivot = "high";
  latency = "fast";
}

abbrev adapter : String → Option Descriptor → Adapter
adapter name d = record {
  name = name;
  scheduler_for_type = d;
  tier = some 1;
  workflow_index = none;
  cost_class = "free";
  timeout_ms = none;
}

-- The second is no known authority, so it falls back, behind the others.
abbrev providers : List Adapter
providers =
    adapter "p" (some (descriptor "community"))
    ∷ adapter "q" (some (descriptor "rumour"))
    ∷ adapter "r" (some (descriptor "first_party"))
    ∷ []

ranked_names :
    map {B = String × String}
      (λ r. (r.adapter.name, r.priority.rationale))
      (rank_providers_for_execution providers "ip")
    ≡ ("r", "authorityClass") ∷ ("p", "priority_vector") ∷ ("q", "legacy_priority_fallback") ∷ []
unfolding rank_providers_for_execution xor compare_valid
ranked_names = refl

abbrev priority_of : String → Priority
priority_of authority = provider_priority (adapter "p" (some (descriptor authority))) "ip" 0

compare_priority-vector_example :
    compare_priority (priority_of "community") (priority_of "rumour")
    ≡ lex (vector (priority_of "community")) (vector (priority_of "rumour"))
compare_priority-vector_example =
    compare_priority-vector (priority_of "community") (priority_of "rumour")

rank-perm_example : Perm (adapters (rank_providers_for_execution providers "ip")) providers
rank-perm_example = rank-perm providers "ip"

rank-IsOrdered_example : IsOrdered compare_ranked (rank_providers_for_execution providers "ip")
rank-IsOrdered_example = rank-IsOrdered providers "ip"

rank_stable_example :
    adapters (of_vector (1 ∷ 1 ∷ 1 ∷ []) (rank_providers_for_execution providers "ip"))
    ≡ adapters (of_vector (1 ∷ 1 ∷ 1 ∷ []) (with_priorities "ip" 0 providers))
rank_stable_example = rank_stable (1 ∷ 1 ∷ 1 ∷ []) providers "ip"
