-- ===== src/Scheduler/Retry.antt =====
-- When `runOne` of src/core/scheduler.js calls a provider, and when it calls it again.
use para11ax.Common.{◌+◌, ℕ, ◌≤◌, ◌<◌, ◌≡◌, true}
use para11ax.Breaker
use para11ax.Breaker.{Breaker}
use para11ax.Scheduler.{
  Adapter, Result, ran, Phase, calling, sleeping, finished, Shared, max_attempts, retryable_failure,
}

module _ (call_limit deadline_at : ℕ) (a : Adapter) where
  -- A call that is made at the time `now` is given the time that is left until the deadline, which is not
  -- over, and a time limit of at least 1 ms that ends by the deadline.
  abbrev pub IsTimely : ℕ → Phase → Type 0
  IsTimely now (calling attempts remaining_ms timeout_ms) =
      (now < deadline_at)
      × (now + remaining_ms ≡ deadline_at)
      × (0 < timeout_ms)
      × (now + timeout_ms ≤ deadline_at)
  IsTimely now _ = Unit

  -- What a part returns after `n` attempts, the last of them with `result`: the answer itself, the next
  -- attempt, or a sleep that keeps both.
  abbrev pub GoesOn : ℕ → Result → Shared → Phase → Type 0
  GoesOn n result s (finished item) = item ≡ ran a.name n result
  GoesOn n result s (calling attempts remaining_ms timeout_ms) =
      (attempts ≡ n + 1) × (n < max_attempts) × (s.calls < call_limit)
  GoesOn n result s (sleeping attempts r) =
      (attempts ≡ n) × (r ≡ result) × (n < max_attempts) × (s.calls < call_limit)

  -- It goes on after a failure that may be retried only.
  abbrev pub Retries : ℕ → Result → Shared → Phase → Type 0
  Retries n result s (finished item) = item ≡ ran a.name n result
  Retries n result s phase = (retryable_failure result ≡ true) × GoesOn n result s phase
