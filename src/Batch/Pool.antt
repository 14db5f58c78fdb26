-- ===== src/Batch/Pool.antt =====
-- The second half of `runBatch` of src/core/batch.js: `runPool` with its worker, as a sequence of events,
-- and the assembly of the results.
use para11ax.Common.{
  ℕ, ◌+◌, false, ◌||◌, Option, none, some, List, [], ◌∷◌, ◌++◌, ltb, leb, ◌==◌, if◌then◌else◌,
  length, get_elem?, without,
}
use para11ax.JsMap.{JsMap}
use para11ax.Batch.{
  Unique, Shared, Outcome, Work, Phase, enriching, finished, begin, end, Row, rows,
}

-- A worker that waits for `enrichOne`, with the place of its item among `unique`.
pub record Task : Type 0 where
  pub index : ℕ
  pub reserved : ℕ

pub record Pool : Type 0 where
  -- the items that no worker has taken, with their places
  pub waiting : List (ℕ × Unique)
  pub active : List Task
  -- `completed`, as far as it is filled
  pub completed : List (ℕ × Work)
  pub shared : Shared

pub data Event : Type 0 where
  -- a worker takes the next item; the caller's `callLimitFor` gives `call_limit`
  takes : (now call_limit : ℕ) → Event
  -- `enrichOne` ends for the worker that stands `place`-th among the active ones
  ends : (place : ℕ) → Outcome → Event

abbrev pub numbered : ℕ → JsMap Unique → List (ℕ × Unique)
numbered n [] = []
numbered n ((k, u) ∷ m) = (n, u) ∷ numbered (n + 1) m

-- The guards of `runBatch`; `deadline_ms` is in whole milliseconds.
pub record Options : Type 0 where
  pub max_inputs : ℕ
  pub provider_call_limit : ℕ
  pub indicator_concurrency : ℕ
  pub deadline_ms : ℕ

pub data Refusal : Type 0 where
  invalid_batch_size invalid_batch_provider_call_limit : Refusal
  invalid_batch_concurrency invalid_batch_deadline : Refusal

unfoldable pub refusal_of : Options → ℕ → Option Refusal
refusal_of o inputs =
    if ltb inputs 1 || ltb o.max_inputs inputs
    then some invalid_batch_size
    else if ltb o.provider_call_limit 1 || ltb 200 o.provider_call_limit
    then some invalid_batch_provider_call_limit
    else if ltb o.indicator_concurrency 1 || ltb 3 o.indicator_concurrency
    then some invalid_batch_concurrency
    else if leb o.deadline_ms 0
    then some invalid_batch_deadline
    else none

abbrev pub opening : Options → JsMap Unique → Pool
opening o unique = record {
  waiting = numbered 0 unique;
  active = [];
  completed = [];
  shared = record {
    available = o.provider_call_limit;
    actual = 0;
    deadline_exhausted = false;
    call_budget_exhausted = false;
  };
}

-- The worker returned, or waits for `enrichOne`.
unfoldable pub settle : ℕ → Phase × Shared → Pool → Pool
settle index (finished work, s) p = record p { completed = (index, work) ∷ p.completed; shared = s }
settle index (enriching reserved remaining_ms, s) p = record p {
  active = record { index = index; reserved = reserved } ∷ p.active;
  shared = s;
}

abbrev pub complete : ℕ → Work × Shared → Pool → Pool
complete index (work, s) p = record p { completed = (index, work) ∷ p.completed; shared = s }

module _ (deadline_at concurrency : ℕ) where
  unfoldable pub take_next : (now call_limit : ℕ) → List (ℕ × Unique) → Pool → Option Pool
  take_next now call_limit [] p = none
  take_next now call_limit ((index, u) ∷ rest) p =
      if ltb (length p.active) concurrency
      then some
          (settle index (begin deadline_at now call_limit p.shared) (record p { waiting = rest }))
      else none

  unfoldable pub end_task : ℕ → Outcome → Option Task → Pool → Option Pool
  end_task place outcome none p = none
  end_task place outcome (some t) p = some (
      complete t.index (end t.reserved outcome p.shared)
        (record p { active = without place p.active }))

  -- `none` where the event cannot happen
  unfoldable pub step : Event → Pool → Option Pool
  step (takes now call_limit) p = take_next now call_limit p.waiting p
  step (ends place outcome) p = end_task place outcome (get_elem? p.active place) p

  unfoldable pub run : List Event → Pool → Option Pool
  run [] p = some p
  run (e ∷ es) p = elim (step e p) [ none ↦ none | some q ↦ run es q ]

abbrev pub work_at : ℕ → List (ℕ × Work) → Option Work
work_at i [] = none
work_at i ((j, work) ∷ ws) = if j == i then some work else work_at i ws

abbrev pub rows_of : Unique → Option Work → List Row
rows_of u none = []
rows_of u (some work) = rows u work u.indices

-- The last loop: the rows of all items, in the order in which they are assigned to `results`.
unfoldable pub assemble : List (ℕ × Work) → List (ℕ × Unique) → List Row
assemble completed [] = []
assemble completed ((n, u) ∷ us) = rows_of u (work_at n completed) ++ assemble completed us
