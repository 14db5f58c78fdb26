-- ===== src/Batch/Examples.antt =====
-- A batch of src/core/batch.js at concrete inputs, and instances of the theorems about it.
use para11ax.Common.{
  ◌≤◌, String, ◌≡◌, refl, Option, none, some, List, [], ◌∷◌, ◌==ₛ◌, if◌then◌else◌,
}
use para11ax.JsMap.{JsMap, get, put}
use para11ax.Batch.{
  Classified, Unique, key_of, collect, nothing_collected, thrown, returned, begin, end, Work, rows,
}
use para11ax.Batch.Collect.{grouped, positions, invalid, collect-groups}
use para11ax.Batch.Rows.{rows_for, rows-positions}
use para11ax.Batch.Pool.{
  Pool, Event, takes, ends, Options, opening, settle, take_next, end_task, step, run, refusal_of,
}
use para11ax.Batch.Budget.{IsFunded, run-IsFunded}

abbrev classify : String → Option Classified
classify text = if text ==ₛ "?" then none else some (record { type = "domain"; value = text })

abbrev inputs : List String
inputs = "a" ∷ "?" ∷ "b" ∷ "a" ∷ []

abbrev key : String
key = key_of (record { type = "domain"; value = "a" })

collect-groups_example :
    (get key (collect classify 0 inputs nothing_collected).unique
      ≡ grouped key none (positions classify key 0 inputs))
    × ((collect classify 0 inputs nothing_collected).rejected ≡ invalid classify 0 inputs)
collect-groups_example = collect-groups classify inputs key

rejected-inputs : (collect classify 0 inputs nothing_collected).rejected ≡ 1 ∷ []
unfolding collect
rejected-inputs = refl

abbrev item : Unique
item = record {
  key = key;
  classified = record { type = "domain"; value = "a" };
  first_index = 0;
  indices = 0 ∷ 3 ∷ [];
}

abbrev work : Work
work = record { status = "ok"; request_status = "completed"; reason = none; enrichment = none }

found : get key (collect classify 0 inputs nothing_collected).unique ≡ some item
unfolding collect get put key_of
found = refl

rows-positions_example :
    rows item work item.indices ≡ rows_for work (positions classify key 0 inputs)
rows-positions_example = rows-positions classify inputs key item work found

abbrev options : Options
options = record {
  max_inputs = 20;
  provider_call_limit = 5;
  indicator_concurrency = 2;
  deadline_ms = 100;
}

accepted : refusal_of options 4 ≡ none
unfolding refusal_of
accepted = refl

abbrev unique : JsMap Unique
unique = (key, item) ∷ ("domain b", record item { key = "domain b" }) ∷ []

-- The second item gets the two calls that the first left; the first throws and loses its three.
abbrev script : List Event
script =
    takes 0 3
    ∷ takes 1 4
    ∷ ends 1 thrown
    ∷ ends 0 (returned (record { status = "ok"; provider_calls = 1 }))
    ∷ []

abbrev last : Option Pool
last = run 100 2 script (opening options unique)

abbrev end_pool : Pool
end_pool = elim last [ none ↦ opening options [] | some q ↦ q ]

ran : run 100 2 script (opening options unique) ≡ some end_pool
unfolding run step take_next end_task begin end settle
ran = refl

ran-actual : end_pool.shared.actual ≡ 4
unfolding run step take_next end_task begin end settle
ran-actual = refl

run-IsFunded_example : IsFunded 5 2 2 end_pool × end_pool.shared.actual ≤ 5
run-IsFunded_example = run-IsFunded options unique 100 script end_pool ran
