-- ===== src/Batch.antt =====
-- src/core/batch.js: a batch of indicators. `classify`, `callLimitFor` and `enrichOne` are the caller's:
-- `classify` is an argument, `none` where it throws; what `enrichOne` does is part of an event.
pub mod Collect
pub mod Pool
pub mod Rows
pub mod Budget
mod Examples
use Prim.Native.String as Text
use para11ax.Common.{
  ℕ, zero, suc, ◌+◌, ◌-◌, ◌*◌, ◌/◌, ◌%◌, ◌≤◌, ◌<◌, min, max, String, ◌≡◌, refl, sym, ap, ◌∙◌, subst,
  ◌≢◌, ◌↔◌, ◌⊎◌, inl, inr, Bool, true, false, not, ◌&&◌, ◌||◌, Option, none, some, List, [], ◌∷◌,
  ◌++◌, map, arith, ◌==ₛ◌, eq_iff, ltb, leb, ◌==◌, if◌then◌else◌, Bool-cases, Option-cases, ltb→lt,
  ltb→le, leb→le, leb→lt, lt→ltb, ltb-false, le→leb, tests, length, drop, length-append, sum_of,
  sum_of-append, All, All-append,
}
use para11ax.JsMap.{JsMap, get, put}

pub record Classified : Type 0 where
  pub type : String
  pub value : String

-- An item of `unique`, which is also a value of `keys`.
pub record Unique : Type 0 where
  pub key : String
  pub classified : Classified
  pub first_index : ℕ
  pub indices : List ℕ

unfoldable pub key_of : Classified → String
key_of c = Text.◌++◌ c.type (Text.◌++◌ "\0" c.value)

-- `keys`, whose values in order are `unique`, and the indices of the inputs that were rejected.
pub record Collected : Type 0 where
  pub unique : JsMap Unique
  pub rejected : List ℕ

-- The state before the loop.
abbrev pub nothing_collected : Collected
nothing_collected = record { unique = []; rejected = [] }

abbrev pub add_index : ℕ → Classified → Option Unique → Unique
add_index index c (some u) = record u { indices = u.indices ++ index ∷ [] }
add_index index c none = record {
  key = key_of c;
  classified = c;
  first_index = index;
  indices = index ∷ [];
}

-- One round of the first loop.
abbrev pub collect_one : ℕ → Option Classified → Collected → Collected
collect_one index none s = record s { rejected = s.rejected ++ index ∷ [] }
collect_one index (some c) s = record s {
  unique = put (key_of c) (add_index index c (get (key_of c) s.unique)) s.unique;
}

module _ {ℓ} {Input : Type ℓ} (classify : Input → Option Classified) where
  unfoldable pub collect : ℕ → List Input → Collected → Collected
  collect index [] s = s
  collect index (input ∷ inputs) s =
      collect (index + 1) inputs (collect_one index (classify input) s)

-- The variables that the workers share.
pub record Shared : Type 0 where
  pub available : ℕ
  pub actual : ℕ
  pub deadline_exhausted : Bool
  pub call_budget_exhausted : Bool

pub record Enrichment : Type 0 where
  pub status : String
  pub provider_calls : ℕ

-- How `enrichOne` ends; `nothing` is a falsy value.
pub data Outcome : Type 0 where
  thrown nothing : Outcome
  returned : Enrichment → Outcome

-- What a worker returns for an item.
pub record Work : Type 0 where
  pub status : String
  pub request_status : String
  pub reason : Option String
  pub enrichment : Option Enrichment

pub data Phase : Type 0 where
  enriching : (reserved remaining_ms : ℕ) → Phase
  finished : Work → Phase

abbrev pub skip : String → Work
skip reason = record {
  status = "skipped";
  request_status = "skipped";
  reason = some reason;
  enrichment = none;
}

-- The worker up to its `await`; `desired` is `Number(callLimitFor(type)) || 1`.
unfoldable pub begin : (deadline_at now call_limit : ℕ) → Shared → Phase × Shared
begin deadline_at now call_limit s =
    if leb deadline_at now
    then (finished (skip "batch_deadline_exhausted"), record s { deadline_exhausted = true })
    else let reserved = min (max 1 call_limit) s.available in
      if reserved == 0
      then (
        finished (skip "batch_provider_call_budget_exhausted"),
        record s { call_budget_exhausted = true },
      )
      else (enriching reserved (deadline_at - now), record s { available = s.available - reserved })

-- Math.max(0, Math.min(reserved, …)), or all of it where the consumption is not known
abbrev pub used : ℕ → Outcome → ℕ
used reserved thrown = reserved
used reserved nothing = 0
used reserved (returned e) = min reserved e.provider_calls

abbrev pub known_status : String → String
known_status status =
    if status ==ₛ "ok" || status ==ₛ "partial" || status ==ₛ "error" then status else "error"

abbrev pub enriched : Enrichment → Work
enriched e =
    let status = known_status e.status in
    record {
      status = status;
      request_status = if status ==ₛ "error" then "failed" else "completed";
      reason = none;
      enrichment = some e;
    }

abbrev pub failed : Work
failed = record {
  status = "error";
  request_status = "failed";
  reason = some "batch_enrichment_error";
  enrichment = none;
}

abbrev pub work_of : Outcome → Work
work_of (returned e) = enriched e
work_of _ = failed

-- The worker from the end of `enrichOne` on.
unfoldable pub end : ℕ → Outcome → Shared → Work × Shared
end reserved outcome s =
    let n = used reserved outcome in
    (work_of outcome, record s { actual = s.actual + n; available = s.available + (reserved - n) })

-- An entry of `results`.
pub record Row : Type 0 where
  pub index : ℕ
  pub canonical : String
  pub type : String
  pub duplicate_of : Option ℕ
  pub work : Work

-- The last loop, for one item.
unfoldable pub rows : Unique → Work → List ℕ → List Row
rows u work [] = []
rows u work (index ∷ indices) =
    record {
      index = index;
      canonical = u.classified.value;
      type = u.classified.type;
      duplicate_of = if index == u.first_index then none else some u.first_index;
      work = work;
    }
    ∷ rows u work indices
