-- ===== src/Scheduler.antt =====
-- src/core/scheduler.js: the run of one provider. `runOne` is cut at its awaits into the parts that run
-- without a break: from its call to the first `execute`, from the answer of an `execute` to the next
-- await or the return, and from the end of a `sleep`. The readings of the clock that such a part makes
-- are `clock 0`, `clock 1` and so on, arbitrary numbers of milliseconds. The reading of a retry-after
-- text belongs to the platform (`Number`, `Date.parse`).
pub mod Pool
pub mod Spending
pub mod Budget
pub mod Progress
pub mod Tiers
pub mod Retry
pub mod Report
pub mod Whole
pub mod Served
pub mod Queues
pub mod Calls
mod Examples
use para11ax.Common.{
  ℕ, zero, suc, ◌+◌, ◌-◌, ◌*◌, ◌/◌, ◌%◌, ◌≤◌, ◌<◌, min, max, String, ◌≡◌, refl, sym, ap, ◌∙◌, subst,
  ◌≢◌, ◌↔◌, ◌⊎◌, inl, inr, Bool, true, false, not, ◌&&◌, ◌||◌, Option, none, some, List, [], ◌∷◌,
  ◌++◌, map, arith, ◌==ₛ◌, eq_iff, ltb, leb, ◌==◌, if◌then◌else◌, Bool-cases, Option-cases, ltb→lt,
  ltb→le, leb→le, leb→lt, lt→ltb, ltb-false, le→leb, tests, length, drop, length-append, sum_of,
  sum_of-append, All, All-append,
}
use para11ax.Breaker
use para11ax.Breaker.{Breaker, Permission}

-- PROVIDER_MAX_ATTEMPTS
abbrev pub max_attempts : ℕ
max_attempts = 2

pub record Failure : Type 0 where
  pub reason : String
  pub status : Option ℕ
  pub retry_after : Option String

-- What `execute` resolves to; `unknown` is a value with neither `ok` nor `failure`.
pub data Result : Type 0 where
  success unknown : Result
  failure : Failure → Result

-- `seconds`: the text is a decimal number, of so many milliseconds; `date`: it is a date.
pub record Platform : Type 0 where
  pub seconds : String → Option ℕ
  pub date : String → Option ℕ

abbrev is_server_error : Option ℕ → Bool
is_server_error none = false
is_server_error (some status) = leb 500 status

unfoldable pub retryable_failure : Result → Bool
retryable_failure success = false
retryable_failure unknown = false
retryable_failure (failure f) =
    if f.reason ==ₛ "timeout"
      || f.reason ==ₛ "provider_error"
      || f.reason ==ₛ "provider_transport_error"
      || f.reason ==ₛ "rate_limited"
    then true
    else f.reason ==ₛ "http_error" && is_server_error f.status

-- result?.failure?.retryAfter ?? null
abbrev pub retry_after : Result → Option String
retry_after (failure f) = f.retry_after
retry_after _ = none

abbrev date_delay : ℕ → Option ℕ → ℕ
date_delay now none = 0
date_delay now (some at) = at - now

unfoldable pub retry_delay_ms : Platform → ℕ → Result → ℕ
retry_delay_ms platform now result = elim (retry_after result) [
  | none ↦ 0
  | some text ↦ elim (platform.seconds text) [
    | some ms ↦ ms
    | none ↦ date_delay now (platform.date text)
  ]
]

-- What the scheduler reads of an adapter.
pub record Adapter : Type 0 where
  pub name : String
  pub timeout_ms : Option ℕ

abbrev or_else : ℕ → Option ℕ → ℕ
or_else d none = d
or_else d (some n) = n

-- Math.max(1, Math.min(adapter.timeoutMs ?? remainingMs, remainingMs))
unfoldable pub timeout_for : Adapter → ℕ → ℕ
timeout_for a remaining_ms = max 1 (min (or_else remaining_ms a.timeout_ms) remaining_ms)

-- What `runOne` returns.
pub data Item : Type 0 where
  skipped : (provider reason : String) → (retry_after_ms : ℕ) → Item
  ran : (provider : String) → (attempts : ℕ) → Result → Item

abbrev pub attempts_of : Item → ℕ
attempts_of (skipped provider reason retry_after_ms) = 0
attempts_of (ran provider attempts result) = attempts

-- Where a run of `runOne` stands at an await, with the attempts that it made; `calling` has what
-- `execute` is given.
pub data Phase : Type 0 where
  calling : (attempts remaining_ms timeout_ms : ℕ) → Phase
  sleeping : (attempts : ℕ) → Result → Phase
  finished : Item → Phase

-- What the runs share.
pub record Shared : Type 0 where
  pub calls : ℕ
  pub breaker : Option Breaker

-- circuitBreaker?.canRun?.(adapter.name)
abbrev pub ask_breaker : ℕ → String → Shared → Option Permission × Shared
ask_breaker now name s = elim s.breaker [
  | none ↦ (none, s)
  | some b ↦
      let (permission, b') = Breaker.can_run now name b in
      (some permission, record s { breaker = some b' })
]

abbrev pub tell_breaker : (Breaker → Breaker) → Shared → Shared
tell_breaker f s = elim s.breaker [ none ↦ s | some b ↦ record s { breaker = some (f b) } ]

abbrev pub is_success : Result → Bool
is_success success = true
is_success _ = false

module _ (call_limit deadline_at : ℕ) where
  -- The head of the loop: its test, and its body up to `execute`. `result` is that of the last attempt.
  pub loop_head : Adapter → ℕ → (attempts : ℕ) → Result → Shared → Phase × Shared
  loop_head a now attempts result s =
      if ltb attempts max_attempts
      then (if leb deadline_at now
          then (if attempts == 0
              then (finished (skipped a.name "request_deadline_exhausted" 0), s)
              else (finished (ran a.name attempts result), s))
          else if leb call_limit s.calls
          then (if attempts == 0
              then (finished (skipped a.name "provider_call_budget_exhausted" 0), s)
              else (finished (ran a.name attempts result), s))
          else (
            calling (attempts + 1) (deadline_at - now) (timeout_for a (deadline_at - now)),
            record s { calls = s.calls + 1 },
          ))
      else (finished (ran a.name attempts result), s)

  abbrev pub admit : Adapter → (ℕ → ℕ) → Option Permission × Shared → Phase × Shared
  admit a clock (none, s) = loop_head a (clock 2) 0 unknown s
  admit a clock (some p, s) =
      if p.allowed
      then loop_head a (clock 2) 0 unknown s
      else (finished (skipped a.name "circuit_open" p.retry_after_ms), s)

  -- `runOne` up to its first await.
  pub start : Adapter → (clock : ℕ → ℕ) → Shared → Phase × Shared
  start a clock s =
      if leb deadline_at (clock 0)
      then (finished (skipped a.name "request_deadline_exhausted" 0), s)
      else if leb call_limit s.calls
      then (finished (skipped a.name "provider_call_budget_exhausted" 0), s)
      else admit a clock (ask_breaker (clock 1) a.name s)

  -- From the answer of `execute` on.
  pub resume :
      Platform → Adapter → (clock : ℕ → ℕ) → (attempts : ℕ) → Result → Shared → Phase × Shared
  resume platform a clock attempts result s =
      if is_success result
      then (
        finished (ran a.name attempts result),
        tell_breaker (Breaker.record_success (clock 0) a.name) s,
      )
      else let retryable = retryable_failure result in
        let s' =
          tell_breaker
            (Breaker.record_failure (clock 0) (clock 1) a.name retryable (retry_after result)) s in
        if not retryable || leb max_attempts attempts || leb call_limit s'.calls
        then (finished (ran a.name attempts result), s')
        else let delay = retry_delay_ms platform (clock 2) result in
          if leb (deadline_at - clock 3) delay
          then (finished (ran a.name attempts result), s')
          else if ltb 0 delay
          then (sleeping attempts result, s')
          else loop_head a (clock 4) attempts result s'
