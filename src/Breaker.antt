-- ===== src/Breaker.antt =====
-- src/core/circuit-breaker.js: the circuit of each provider. Times are natural numbers of milliseconds,
-- and an operation takes the readings of `now()` that it makes as arguments.
mod Examples
pub mod Invariant
pub mod Trip
mod Isolation
use para11ax.Common.{
  ℕ, zero, suc, ◌+◌, ◌-◌, ◌*◌, ◌/◌, ◌%◌, ◌≤◌, ◌<◌, min, max, String, ◌≡◌, refl, sym, ap, ◌∙◌, subst,
  ◌≢◌, ◌↔◌, ◌⊎◌, inl, inr, Bool, true, false, not, ◌&&◌, ◌||◌, Option, none, some, List, [], ◌∷◌,
  ◌++◌, map, arith, ◌==ₛ◌, eq_iff, ltb, leb, ◌==◌, if◌then◌else◌, Bool-cases, Option-cases, ltb→lt,
  ltb→le, leb→le, leb→lt, lt→ltb, ltb-false, le→leb, tests, length, drop, length-append, sum_of,
  sum_of-append, All, All-append,
}
use para11ax.JsMap.{JsMap, get, put, delete, size}

-- The state of one provider. `open_until` is 0 while the circuit was never opened.
pub record Circuit : Type 0 where
  pub consecutive_failures : ℕ
  pub open_until : ℕ
  pub last_failure_at : Option ℕ
  pub last_success_at : Option ℕ
  pub retry_after : Option String

pub record Breaker : Type 0 where
  pub failure_threshold : ℕ
  pub open_ms : ℕ
  pub max_providers : ℕ
  pub circuits : JsMap Circuit

-- The constructor: `none` is its TypeError.
unfoldable pub create : ℕ → ℕ → ℕ → Option Breaker
create failure_threshold open_ms max_providers =
    if ltb failure_threshold 1 || ltb open_ms 1 || ltb max_providers 1
    then none
    else some record {
      failure_threshold = failure_threshold;
      open_ms = open_ms;
      max_providers = max_providers;
      circuits = [];
    }

abbrev pub closed : Circuit
closed = record {
  consecutive_failures = 0;
  open_until = 0;
  last_failure_at = none;
  last_success_at = none;
  retry_after = none;
}

-- The loop of `#touch`. It deletes the first key, which leaves the rest of the map.
unfoldable pub trim : ℕ → JsMap Circuit → JsMap Circuit
trim max [] = []
trim max ((oldest, c) ∷ rest) =
    let fewer = trim max rest in
    if leb max (size ((oldest, c) ∷ rest)) then fewer else (oldest, c) ∷ rest

-- #touch: what it returns, and the map
unfoldable pub touch : ℕ → String → Bool → JsMap Circuit → Option Circuit × JsMap Circuit
touch max name creates m = elim (get name m) [
  | some c ↦ (some c, put name c (delete name m))
  | none ↦ if creates then (some closed, put name closed (trim max m)) else (none, m)
]

-- The assignments to the fields of the state that `#touch` returned.
abbrev pub assign : String → (Circuit → Circuit) → Option Circuit × JsMap Circuit → JsMap Circuit
assign name f (none, m) = m
assign name f (some c, m) = put name (f c) m

pub record Permission : Type 0 where
  pub allowed : Bool
  pub retry_after_ms : ℕ

abbrev pub granted : Permission
granted = record { allowed = true; retry_after_ms = 0 }

-- The three assignments of `canRun`, where the time of an open circuit is up.
abbrev pub half_open : Circuit → Circuit
half_open c =
    if c.open_until == 0
    then c
    else record c { open_until = 0; consecutive_failures = 0; retry_after = none }

unfoldable pub can_run : ℕ → String → Breaker → Permission × Breaker
can_run now name b =
    let (found, m) = touch b.max_providers name false b.circuits in
    elim found [
      | none ↦ (granted, record b { circuits = m })
      | some c ↦
          if ltb now c.open_until
          then (
            record { allowed = false; retry_after_ms = c.open_until - now },
            record b { circuits = m },
          )
          else (granted, record b { circuits = put name (half_open c) m })
    ]

abbrev pub succeed : ℕ → Circuit → Circuit
succeed now c = record c {
  consecutive_failures = 0;
  open_until = 0;
  retry_after = none;
  last_success_at = some now;
}

unfoldable pub record_success : ℕ → String → Breaker → Breaker
record_success now name b = record b {
  circuits = assign name (succeed now) (touch b.max_providers name true b.circuits);
}

-- The assignments of `recordFailure`; `later` is its second reading of the clock.
abbrev pub fail : ℕ → ℕ → (now later : ℕ) → Bool → Option String → Circuit → Circuit
fail threshold open_ms now later retryable retry_after c =
    let failed = record c { last_failure_at = some now; retry_after = retry_after } in
    if retryable
    then (let count = c.consecutive_failures + 1 in
        if leb threshold count
        then record failed { consecutive_failures = count; open_until = later + open_ms }
        else record failed { consecutive_failures = count })
    else record failed { consecutive_failures = 0 }

unfoldable pub record_failure :
    (now later : ℕ)
    → String
    → (retryable : Bool) → (retry_after : Option String) → Breaker
    → Breaker
record_failure now later name retryable retry_after b = record b {
  circuits =
      assign name (fail b.failure_threshold b.open_ms now later retryable retry_after)
        (touch b.max_providers name true b.circuits);
}

-- What `state` reports.
pub record Report : Type 0 where
  pub consecutive_failures : ℕ
  pub is_open : Bool
  pub open_until : Option ℕ
  pub last_failure_at : Option ℕ
  pub last_success_at : Option ℕ
  pub retry_after : Option String

abbrev pub report : ℕ → Circuit → Report
report now c =
    let is_open = ltb now c.open_until in
    record {
      consecutive_failures = c.consecutive_failures;
      is_open = is_open;
      open_until = if is_open then some c.open_until else none;
      last_failure_at = c.last_failure_at;
      last_success_at = c.last_success_at;
      retry_after = c.retry_after;
    }

abbrev pub no_report : Report
no_report = record {
  consecutive_failures = 0;
  is_open = false;
  open_until = none;
  last_failure_at = none;
  last_success_at = none;
  retry_after = none;
}

-- `state`, which moves the provider to the end of the map too
unfoldable pub state : ℕ → String → Breaker → Report × Breaker
state now name b =
    let (found, m) = touch b.max_providers name false b.circuits in
    (elim found [ none ↦ no_report | some c ↦ report now c ], record b { circuits = m })

-- the loop of `stats`
unfoldable pub count_open : ℕ → JsMap Circuit → ℕ
count_open now [] = 0
count_open now ((name, c) ∷ m) =
    if ltb now c.open_until then suc (count_open now m) else count_open now m
