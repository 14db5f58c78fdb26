-- ===== src/Breaker/Examples.antt =====
-- Runs of src/core/circuit-breaker.js at concrete inputs, and instances of the theorems about it.
use para11ax.Common.{◌⊎◌, ℕ, ◌≡◌, refl, true, false, none, some, [], ◌∷◌, map, arith, eq_iff}
use para11ax.JsMap.{get, put, delete}
use para11ax.Breaker.{
  Circuit, Breaker, create, closed, can_run, record_success, record_failure, touch, trim,
}
use para11ax.Breaker.Invariant.{asks, succeeds, fails, step, run, IsValid, run-IsBounded}
use para11ax.Breaker.Trip.{Failure, record_failures, tripped, can_run-record_failures}
use para11ax.Breaker.Isolation.{Evicted, get-step_other}

abbrev fresh : Breaker
fresh = record { failure_threshold = 2; open_ms = 50; max_providers = 2; circuits = [] }

abbrev opened : Circuit
opened = record closed { consecutive_failures = 2; open_until = 60; last_failure_at = some 10 }

abbrev one_open : Breaker
one_open = record fresh { circuits = ("a", opened) ∷ [] }

abbrev failure : ℕ → Failure
failure t = record { now = t; later = t; retry_after = none }

-- The second failure in a row opens the circuit for 50 ms.
refuses_at_30 :
    (can_run 30 "a" (record_failures "a" (failure 5 ∷ failure 10 ∷ []) fresh)).0
    ≡ record { allowed = false; retry_after_ms = 30 }
unfolding can_run record_failure touch trim get put delete
refuses_at_30 = refl

-- A third provider takes the place of the one that was used least recently.
forgets_oldest :
    map
      (λ p. p.0)
      (run (succeeds 1 "a" ∷ succeeds 2 "b" ∷ asks 3 "a" ∷ succeeds 4 "c" ∷ []) fresh).circuits
    ≡ "a" ∷ "c" ∷ []
unfolding run step record_success can_run touch trim get put delete
forgets_oldest = refl

run-IsBounded_example :
    IsValid (run (succeeds 1 "a" ∷ fails 2 2 "b" true none ∷ asks 3 "c" ∷ []) fresh)
unfolding create
run-IsBounded_example =
    run-IsBounded 2 50 2 fresh (succeeds 1 "a" ∷ fails 2 2 "b" true none ∷ asks 3 "c" ∷ []) refl

can_run-record_failures_example :
    (can_run 30 "a"
      (record_failures "a" (failure 5 ∷ failure 10 ∷ []) (record_success 1 "a" fresh))).0
    ≡ tripped 2 2 60 30
can_run-record_failures_example =
    can_run-record_failures "a" (failure 5 ∷ []) (failure 10) 1 30 fresh

one_open-IsValid : IsValid one_open
unfolding get
one_open-IsValid = record {
  one = omega arith;
  sound = record { distinct = (refl, tt); few = omega arith };
}

-- Of two circuits in a breaker for two, the older goes when a third provider fails.
abbrev both : Breaker
both = record fresh { circuits = ("a", opened) ∷ ("c", closed) ∷ [] }

both-IsValid : IsValid both
unfolding get
both-IsValid = record {
  one = omega arith;
  sound = record { distinct = (refl, (refl, tt)); few = omega arith };
}

get-step_other_example :
    (get "a" (step (fails 4 5 "b" true none) both).circuits ≡ get "a" both.circuits)
    ⊎ Evicted (fails 4 5 "b" true none) "a" both
get-step_other_example =
    get-step_other (fails 4 5 "b" true none) "a" both both-IsValid (λ e. cc ((eq_iff "b" "a").1 e))

evicts_oldest_circuit : get "a" (step (fails 4 5 "b" true none) both).circuits ≡ none
unfolding step record_failure touch trim get put delete
evicts_oldest_circuit = refl
