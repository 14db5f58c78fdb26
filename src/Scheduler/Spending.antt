-- ===== src/Scheduler/Spending.antt =====
-- What one uninterrupted part of `runOne` in src/core/scheduler.js spends of the call budget.
use para11ax.Common.{
  ℕ, ◌+◌, ◌-◌, ◌≤◌, String, ◌≡◌, refl, inl, inr, not, ◌||◌, Option, none, some, arith, ltb, leb,
  Bool-cases, ◌*◌, ◌<◌,
}
use para11ax.Breaker
use para11ax.Breaker.{Breaker, Permission}
use para11ax.Scheduler.{
  Platform, Adapter, Result, unknown, attempts_of, Phase, calling, sleeping, finished, Shared,
  max_attempts, loop_head, start, resume, ask_breaker, tell_breaker, is_success, admit,
  retryable_failure, retry_after, retry_delay_ms,
}

abbrev pub phase_attempts : Phase → ℕ
phase_attempts (calling attempts remaining timeout) = attempts
phase_attempts (sleeping attempts result) = attempts
phase_attempts (finished item) = attempts_of item

-- A bound on the awaits that are left.
abbrev pub phase_weight : Phase → ℕ
phase_weight (calling attempts remaining timeout) = 2 * (3 - attempts)
phase_weight (sleeping attempts result) = 2 * (3 - attempts) - 1
phase_weight (finished item) = 0

-- One part of `runOne`, entered with `n` attempts made: it counts what it calls, and keeps the limits.
pub record Spends (limit n : ℕ) (s : Shared) (next : Phase × Shared) : Type 0 where
  pub counted : next.1.calls + n ≡ s.calls + phase_attempts next.0
  pub within : s.calls ≤ limit → next.1.calls ≤ limit
  pub twice : n ≤ max_attempts → phase_attempts next.0 ≤ max_attempts
  pub shrinks : n ≤ max_attempts → phase_weight next.0 < 2 * (3 - n)

calls-ask_breaker :
    (now : ℕ) (name : String) (s : Shared) → (ask_breaker now name s).1.calls ≡ s.calls
calls-ask_breaker now name s = ground arith

pub calls-tell_breaker : (f : Breaker → Breaker) (s : Shared) → (tell_breaker f s).calls ≡ s.calls
calls-tell_breaker f s = ground arith

Spends-calls :
    {limit n : ℕ} {s t : Shared} {next : Phase × Shared}
    → t.calls ≡ s.calls
    → Spends limit n t next
    → Spends limit n s next
Spends-calls e h = record {
  counted = omega (arith, h.counted, e);
  within = λ k. h.within (omega (arith, e));
  twice = h.twice;
  shrinks = h.shrinks;
}

-- A part that makes no call.
Spends-none :
    {limit n : ℕ} {s t : Shared} {phase : Phase}
    → t.calls ≡ s.calls
    → phase_attempts phase ≡ n
    → (n ≤ max_attempts → phase_weight phase < 2 * (3 - n))
    → Spends limit n s (phase, t)
Spends-none e h w = record {
  shrinks = w;
  counted = omega (arith, e, h);
  within = λ k. omega (arith, e);
  twice = λ k. omega (arith, h);
}

module _ (call_limit deadline_at : ℕ) where
  pub loop_head-Spends :
      (a : Adapter) (now n : ℕ) (r : Result) (s : Shared)
      → Spends call_limit n s (loop_head call_limit deadline_at a now n r s)
  unfolding loop_head
  loop_head-Spends a now n r s = record {
    counted = ground arith;
    within = λ h. ground arith;
    twice = λ h. ground arith;
    shrinks = λ h. ground arith;
  }

  admit-Spends :
      (a : Adapter) (clock : ℕ → ℕ) (o : Option Permission) (s : Shared)
      → Spends call_limit 0 s (admit call_limit deadline_at a clock (o, s))
  admit-Spends a clock none s = loop_head-Spends a (clock 2) 0 unknown s
  admit-Spends a clock (some p) s = elim (Bool-cases p.allowed) [
    | inl allowed ↦ rw allowed (loop_head-Spends a (clock 2) 0 unknown s)
    | inr refused ↦ rw refused (Spends-none refl refl (λ h. omega arith))
  ]

  pub start-Spends :
      (a : Adapter) (clock : ℕ → ℕ) (s : Shared)
      → Spends call_limit 0 s (start call_limit deadline_at a clock s)
  unfolding start
  start-Spends a clock s = elim (Bool-cases (leb deadline_at (clock 0))) [
    | inl late ↦ rw late (Spends-none refl refl (λ h. omega arith))
    | inr early ↦ elim (Bool-cases (leb call_limit s.calls)) [
      | inl spent ↦ rw (early, spent) (Spends-none refl refl (λ h. omega arith))
      | inr left ↦
          let asked = ask_breaker (clock 1) a.name s in
          rw (early, left)
            (Spends-calls (calls-ask_breaker (clock 1) a.name s)
              (admit-Spends a clock asked.0 asked.1))
    ]
  ]

  pub resume-Spends :
      (platform : Platform) (a : Adapter) (clock : ℕ → ℕ) (n : ℕ) (r : Result) (s : Shared)
      → Spends call_limit n s (resume call_limit deadline_at platform a clock n r s)
  unfolding resume
  resume-Spends platform a clock n r s =
      let told =
        tell_breaker
          (Breaker.record_failure (clock 0) (clock 1) a.name (retryable_failure r) (retry_after r))
          s in
      let same =
        calls-tell_breaker
          (Breaker.record_failure (clock 0) (clock 1) a.name (retryable_failure r) (retry_after r))
          s in
      elim (Bool-cases (is_success r)) [
        | inl good ↦ rw good (
            Spends-none (calls-tell_breaker (Breaker.record_success (clock 0) a.name) s) refl
              (λ h. omega arith))
        | inr bad ↦
            elim (Bool-cases
              (not (retryable_failure r) || leb max_attempts n || leb call_limit told.calls)) [
                | inl over ↦ rw (bad, over) (Spends-none same refl (λ h. omega arith))
                | inr again ↦
                    elim (Bool-cases
                      (leb (deadline_at - clock 3) (retry_delay_ms platform (clock 2) r))) [
                        | inl late ↦
                            rw (bad, again, late) (Spends-none same refl (λ h. omega arith))
                        | inr early ↦
                            elim (Bool-cases (ltb 0 (retry_delay_ms platform (clock 2) r))) [
                              | inl waits ↦
                                  rw (bad, again, early, waits)
                                    (Spends-none same refl (λ h. omega arith))
                              | inr at_once ↦
                                  rw (bad, again, early, at_once)
                                    (Spends-calls same (loop_head-Spends a (clock 4) n r told))
                            ]
                      ]
              ]
      ]

  -- After a `sleep` there is one await less to come.
  pub loop_head_shrinks :
      (a : Adapter) (now n : ℕ) (r : Result) (s : Shared)
      → n ≤ max_attempts
      → phase_weight (loop_head call_limit deadline_at a now n r s).0 < 2 * (3 - n) - 1
  unfolding loop_head
  loop_head_shrinks a now n r s h = ground arith
