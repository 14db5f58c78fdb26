-- ===== src/Scheduler/Pool.antt =====
-- `runPool` of src/core/scheduler.js with `runOne` as its worker: `concurrency` workers take the items in
-- order and share the counters. The event loop chooses which worker goes on, so a run of the pool is a
-- sequence of events.
use para11ax.Common.{
  ℕ, ◌+◌, Option, none, some, List, [], ◌∷◌, ltb, if◌then◌else◌, length, get_elem?, without,
}
use para11ax.Scheduler.{
  Platform, Adapter, Result, Item, Phase, calling, sleeping, finished, Shared, loop_head, start,
  resume,
}

-- A worker at an await, with the index of its item.
pub record Task : Type 0 where
  pub index : ℕ
  pub adapter : Adapter
  pub phase : Phase

pub record Pool : Type 0 where
  -- the items that no worker has taken, with their indices
  pub waiting : List (ℕ × Adapter)
  pub active : List Task
  -- `results`, as far as it is filled
  pub results : List (ℕ × Item)
  pub shared : Shared

pub data Event : Type 0 where
  -- a worker without an item takes the next one
  takes : (clock : ℕ → ℕ) → Event
  -- `execute` answers the worker that stands `place`-th among the active ones
  answers : (place : ℕ) (clock : ℕ → ℕ) → Result → Event
  -- the worker's `sleep` ends
  wakes : (place : ℕ) (clock : ℕ → ℕ) → Event

abbrev pub indexed : ℕ → List Adapter → List (ℕ × Adapter)
indexed n [] = []
indexed n (a ∷ as') = (n, a) ∷ indexed (n + 1) as'

abbrev pub opening : Shared → List Adapter → Pool
opening s items = record { waiting = indexed 0 items; active = []; results = []; shared = s }

-- A part of `runOne` ended at an await or returned: then the item's place of `results` is filled.
unfoldable pub settle : ℕ → Adapter → Phase × Shared → Pool → Pool
settle index a (finished item, s) p = record p { results = (index, item) ∷ p.results; shared = s }
settle index a (phase, s) p = record p {
  active = record { index = index; adapter = a; phase = phase } ∷ p.active;
  shared = s;
}

module _ (platform : Platform) (call_limit deadline_at concurrency : ℕ) where
  unfoldable pub take_next : (ℕ → ℕ) → List (ℕ × Adapter) → Pool → Option Pool
  take_next clock [] p = none
  take_next clock ((index, a) ∷ rest) p =
      if ltb (length p.active) concurrency
      then some (
          settle index a (start call_limit deadline_at a clock p.shared)
            (record p { waiting = rest }))
      else none

  -- the worker goes on from its await: `none` where the event does not fit it
  unfoldable pub go_on : Phase → Event → Adapter → Shared → Option (Phase × Shared)
  go_on (calling attempts remaining timeout) (answers place clock result) a s =
      some (resume call_limit deadline_at platform a clock attempts result s)
  go_on (sleeping attempts result) (wakes place clock) a s =
      some (loop_head call_limit deadline_at a (clock 0) attempts result s)
  go_on _ _ a s = none

  unfoldable pub resettle : ℕ → Task → Option (Phase × Shared) → Pool → Option Pool
  resettle place t none p = none
  resettle place t (some next) p =
      some (settle t.index t.adapter next (record p { active = without place p.active }))

  unfoldable pub at_place : ℕ → Event → Option Task → Pool → Option Pool
  at_place place e none p = none
  at_place place e (some t) p = resettle place t (go_on t.phase e t.adapter p.shared) p

  -- `none` where the event cannot happen
  unfoldable pub step : Event → Pool → Option Pool
  step (takes clock) p = take_next clock p.waiting p
  step (answers place clock result) p =
      at_place place (answers place clock result) (get_elem? p.active place) p
  step (wakes place clock) p = at_place place (wakes place clock) (get_elem? p.active place) p

  unfoldable pub run : List Event → Pool → Option Pool
  run [] p = some p
  run (e ∷ es) p = elim (step e p) [ none ↦ none | some q ↦ run es q ]
