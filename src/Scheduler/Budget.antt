-- ===== src/Scheduler/Budget.antt =====
-- The budget of src/core/scheduler.js holds in every interleaving of the workers: no more calls than the
-- limit, each counted once, at most two for a provider, and never more workers than `concurrency`.
use para11ax.Common.{
  ℕ, suc, ◌+◌, ◌≤◌, ◌<◌, ◌≡◌, refl, ap, subst, inl, inr, Option, some, List, [], ◌∷◌, arith, ltb,
  Bool-cases, Option-cases, ltb→lt, length, sum_of, All, get_elem?, without, sum_of-without,
  All-without, some_eq, length-without,
}
use para11ax.Breaker.{Breaker}
use para11ax.Scheduler.{
  Platform, Adapter, Item, attempts_of, Phase, calling, sleeping, finished, Shared, max_attempts,
  start,
}
use para11ax.Scheduler.Spending.{
  phase_attempts, Spends, start-Spends, resume-Spends, loop_head-Spends,
}
use para11ax.Scheduler.Pool.{
  Task, Pool, Event, takes, answers, wakes, indexed, opening, settle, take_next, go_on, resettle,
  at_place, step, run,
}

abbrev pub task_attempts : Task → ℕ
task_attempts t = phase_attempts t.phase

abbrev pub result_attempts : ℕ × Item → ℕ
result_attempts r = attempts_of r.1

-- The invariant of the pool, `total` items and no calls from the start.
pub record IsWithin (limit concurrency total : ℕ) (p : Pool) : Type 0 where
  pub counted : p.shared.calls ≡ sum_of task_attempts p.active + sum_of result_attempts p.results
  pub within : p.shared.calls ≤ limit
  pub active_twice : All (λ t. task_attempts t ≤ max_attempts) p.active
  pub results_twice : All (λ r. result_attempts r ≤ max_attempts) p.results
  pub width : length p.active ≤ concurrency
  pub conserved : length p.waiting + length p.active + length p.results ≡ total

-- A pool to which one worker, with `n` attempts made, is yet to return.
record IsOpen (limit concurrency total n : ℕ) (p : Pool) : Type 0 where
  counted : p.shared.calls ≡ n + sum_of task_attempts p.active + sum_of result_attempts p.results
  within : p.shared.calls ≤ limit
  active_twice : All (λ t. task_attempts t ≤ max_attempts) p.active
  results_twice : All (λ r. result_attempts r ≤ max_attempts) p.results
  width : length p.active < concurrency
  conserved : length p.waiting + length p.active + length p.results + 1 ≡ total

settle-IsWithin :
    (limit concurrency total n index : ℕ) (a : Adapter) (phase : Phase) (s : Shared) (p : Pool)
    → n ≤ max_attempts
    → Spends limit n p.shared (phase, s)
    → IsOpen limit concurrency total n p
    → IsWithin limit concurrency total (settle index a (phase, s) p)
unfolding settle
settle-IsWithin limit concurrency total n index a (finished item) s p few h v = record {
  counted = omega (arith, v.counted, h.counted);
  within = h.within v.within;
  active_twice = v.active_twice;
  results_twice = (h.twice few, v.results_twice);
  width = omega (arith, v.width);
  conserved = omega (arith, v.conserved);
}
settle-IsWithin limit concurrency total n index a phase s p few h v = record {
  counted = omega (arith, v.counted, h.counted);
  within = h.within v.within;
  active_twice = (h.twice few, v.active_twice);
  results_twice = v.results_twice;
  width = v.width;
  conserved = omega (arith, v.conserved);
}

pub length-indexed : (n : ℕ) (items : List Adapter) → length (indexed n items) ≡ length items
length-indexed n [] = refl
length-indexed n (a ∷ items) = ap suc (length-indexed (n + 1) items)

module _ (platform : Platform) (limit deadline_at concurrency : ℕ) where
  take_next-IsWithin :
      (total : ℕ) (clock : ℕ → ℕ) (ws : List (ℕ × Adapter)) (p q : Pool)
      → p.waiting ≡ ws
      → IsWithin limit concurrency total p
      → take_next platform limit deadline_at concurrency clock ws p ≡ some q
      → IsWithin limit concurrency total q
  unfolding take_next
  take_next-IsWithin total clock [] p q e v h = cc
  take_next-IsWithin total clock ((index, a) ∷ rest) p q e v h =
      elim (Bool-cases (ltb (length p.active) concurrency)) [
        | inr full ↦ cc (rw full at h)
        | inl free ↦
            let shorter : length p.waiting ≡ suc (length rest) = ap length e in
            let next = start limit deadline_at a clock p.shared in
            subst (IsWithin limit concurrency total) (some_eq _ _ (rw free at h)) (
              settle-IsWithin limit concurrency total 0 index a next.0 next.1
                (record p { waiting = rest }) (omega arith)
                (start-Spends limit deadline_at a clock p.shared)
                (record {
                  counted = omega (arith, v.counted);
                  within = v.within;
                  active_twice = v.active_twice;
                  results_twice = v.results_twice;
                  width = ltb→lt _ _ free;
                  conserved = omega (arith, v.conserved, shorter);
                }))
      ]

  go_on-Spends :
      (phase : Phase) (e : Event) (a : Adapter) (s : Shared) (next : Phase × Shared)
      → go_on platform limit deadline_at concurrency phase e a s ≡ some next
      → Spends limit (phase_attempts phase) s next
  unfolding go_on
  go_on-Spends (calling n remaining timeout) (answers place clock result) a s next h =
      subst (Spends limit n s) (some_eq _ _ h)
        (resume-Spends limit deadline_at platform a clock n result s)
  go_on-Spends (sleeping n result) (wakes place clock) a s next h =
      subst (Spends limit n s) (some_eq _ _ h)
        (loop_head-Spends limit deadline_at a (clock 0) n result s)
  go_on-Spends _ _ a s next h = cc

  at_place-IsWithin :
      (total place : ℕ) (e : Event) (p q : Pool)
      → IsWithin limit concurrency total p
      → at_place platform limit deadline_at concurrency place e (get_elem? p.active place) p
        ≡ some q
      → IsWithin limit concurrency total q
  unfolding at_place resettle
  at_place-IsWithin total place e p q v h = elim (Option-cases (get_elem? p.active place)) [
    | inl no_task ↦ cc (rw (no_task, at_place) at h)
    | inr (t, there) ↦
        let went = go_on platform limit deadline_at concurrency t.phase e t.adapter p.shared in
        let h' : resettle platform limit deadline_at concurrency place t went p ≡ some q =
          rw (there, at_place) at h in
        elim (Option-cases went) [
          | inl stuck ↦ cc (rw (stuck, resettle) at h')
          | inr (next, goes) ↦
              let (few, others) =
                All-without (λ u. task_attempts u ≤ max_attempts) place t p.active there
                  v.active_twice in
              let sums = sum_of-without task_attempts place t p.active there in
              let fewer = length-without place t p.active there in
              subst (IsWithin limit concurrency total) (some_eq _ _ (rw (goes, resettle) at h')) (
                settle-IsWithin limit concurrency total (task_attempts t) t.index t.adapter next.0
                  next.1 (record p { active = without place p.active }) few
                  (go_on-Spends t.phase e t.adapter p.shared next goes)
                  (record {
                    counted = omega (arith, v.counted, sums);
                    within = v.within;
                    active_twice = others;
                    results_twice = v.results_twice;
                    width = omega (arith, v.width, fewer);
                    conserved = omega (arith, v.conserved, fewer);
                  }))
        ]
  ]

  pub step-IsWithin :
      (total : ℕ) (e : Event) (p q : Pool)
      → IsWithin limit concurrency total p
      → step platform limit deadline_at concurrency e p ≡ some q
      → IsWithin limit concurrency total q
  unfolding step
  step-IsWithin total (takes clock) p q v h = take_next-IsWithin total clock p.waiting p q refl v h
  step-IsWithin total (answers place clock result) p q v h =
      at_place-IsWithin total place (answers place clock result) p q v h
  step-IsWithin total (wakes place clock) p q v h =
      at_place-IsWithin total place (wakes place clock) p q v h

  pub run-keeps :
      (total : ℕ) (es : List Event) (p q : Pool)
      → IsWithin limit concurrency total p
      → run platform limit deadline_at concurrency es p ≡ some q
      → IsWithin limit concurrency total q
  unfolding run
  run-keeps total [] p q v h = subst (IsWithin limit concurrency total) (some_eq _ _ h) v
  run-keeps total (e ∷ es) p q v h =
      elim (Option-cases (step platform limit deadline_at concurrency e p)) [
        | inl stuck ↦ cc (rw (stuck, run) at h)
        | inr (next, goes) ↦
            run-keeps total es next q (step-IsWithin total e p next v goes) (rw (goes, run) at h)
      ]

  -- In whatever order the workers go on, whatever `execute` answers and the clock shows: the calls made
  -- are the attempts of all providers together and never more than the limit, no provider has more
  -- than two, at most `concurrency` run at once, and each is waiting, active or done.
  pub run-IsWithin :
      (breaker : Option Breaker) (items : List Adapter) (es : List Event) (q : Pool)
      → run platform limit deadline_at concurrency es
          (opening (record { calls = 0; breaker = breaker }) items)
        ≡ some q
      → IsWithin limit concurrency (length items) q
  run-IsWithin breaker items es q h =
      run-keeps (length items) es _ q
        (record {
          counted = refl;
          within = omega arith;
          active_twice = tt;
          results_twice = tt;
          width = omega arith;
          conserved = omega (arith, length-indexed 0 items);
        })
        h
