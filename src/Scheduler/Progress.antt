-- ===== src/Scheduler/Progress.antt =====
-- The pool of src/core/scheduler.js comes to an end: a bound on the events of any run, and an event that
-- can happen as long as a provider is not done.
use para11ax.Common.{
  ℕ, suc, ◌+◌, ◌-◌, ◌*◌, ◌≤◌, ◌<◌, ◌≡◌, refl, ap, subst, ◌⊎◌, inl, inr, true, Option, some, List,
  [], ◌∷◌, arith, ltb, Bool-cases, Option-cases, lt→ltb, length, sum_of, All, get_elem?, without,
  sum_of-without, All-without, some_eq,
}
use para11ax.Breaker.{Breaker}
use para11ax.Scheduler.{
  Platform, Adapter, Result, success, Phase, calling, sleeping, finished, Shared, max_attempts,
  loop_head, start, resume,
}
use para11ax.Scheduler.Spending.{
  phase_attempts, phase_weight, start-Spends, resume-Spends, loop_head_shrinks,
}
use para11ax.Scheduler.Pool.{
  Task, Pool, Event, takes, answers, wakes, opening, settle, take_next, go_on, resettle, at_place,
  step, run,
}
use para11ax.Scheduler.Budget.{IsWithin, task_attempts, step-IsWithin, length-indexed, run-IsWithin}

abbrev pub task_weight : Task → ℕ
task_weight t = phase_weight t.phase

-- A bound on the events that are left.
abbrev pub weight : Pool → ℕ
weight p = 6 * length p.waiting + sum_of task_weight p.active

weight-settle :
    (index : ℕ) (a : Adapter) (phase : Phase) (s : Shared) (p : Pool)
    → weight (settle index a (phase, s) p) ≡ weight p + phase_weight phase
unfolding settle
weight-settle index a (finished item) s p = omega arith
weight-settle index a phase s p = omega arith

-- A worker at an await has not returned.
abbrev IsPending : Phase → Type 0
IsPending (finished item) = ⊥
IsPending _ = Unit

abbrev AllPending : Pool → Type 0
AllPending p = All (λ t. IsPending t.phase) p.active

settle-AllPending :
    (index : ℕ) (a : Adapter) (phase : Phase) (s : Shared) (p : Pool)
    → AllPending p
    → AllPending (settle index a (phase, s) p)
unfolding settle
settle-AllPending index a (finished item) s p h = h
settle-AllPending index a phase s p h = (tt, h)

module _ (platform : Platform) (limit deadline_at concurrency : ℕ) where
  go_on_shrinks :
      (phase : Phase) (e : Event) (a : Adapter) (s : Shared) (next : Phase × Shared)
      → phase_attempts phase ≤ max_attempts
      → go_on platform limit deadline_at concurrency phase e a s ≡ some next
      → phase_weight next.0 < phase_weight phase
  unfolding go_on
  go_on_shrinks (calling n remaining timeout) (answers place clock result) a s next few h =
      subst (λ x. phase_weight x.0 < 2 * (3 - n)) (some_eq _ _ h)
        ((resume-Spends limit deadline_at platform a clock n result s).shrinks few)
  go_on_shrinks (sleeping n result) (wakes place clock) a s next few h =
      subst (λ x. phase_weight x.0 < 2 * (3 - n) - 1) (some_eq _ _ h)
        (loop_head_shrinks limit deadline_at a (clock 0) n result s few)
  go_on_shrinks _ _ a s next few h = cc

  abbrev Shrinks : Pool → Pool → Type 0
  Shrinks p q = (weight q < weight p) × AllPending q

  take_next-Shrinks :
      (clock : ℕ → ℕ) (ws : List (ℕ × Adapter)) (p q : Pool)
      → p.waiting ≡ ws
      → AllPending p
      → take_next platform limit deadline_at concurrency clock ws p ≡ some q
      → Shrinks p q
  unfolding take_next
  take_next-Shrinks clock [] p q e v h = cc
  take_next-Shrinks clock ((index, a) ∷ rest) p q e v h =
      elim (Bool-cases (ltb (length p.active) concurrency)) [
        | inr full ↦ cc (rw full at h)
        | inl free ↦
            let shorter : length p.waiting ≡ suc (length rest) = ap length e in
            let next = start limit deadline_at a clock p.shared in
            let p' : Pool = record p { waiting = rest } in
            let less = (start-Spends limit deadline_at a clock p.shared).shrinks (omega arith) in
            subst (Shrinks p) (some_eq _ _ (rw free at h)) (
              omega (arith, weight-settle index a next.0 next.1 p', shorter, less),
              settle-AllPending index a next.0 next.1 p' v,
            )
      ]

  at_place-Shrinks :
      (total place : ℕ) (e : Event) (p q : Pool)
      → IsWithin limit concurrency total p
      → AllPending p
      → at_place platform limit deadline_at concurrency place e (get_elem? p.active place) p
        ≡ some q
      → Shrinks p q
  unfolding at_place resettle
  at_place-Shrinks total place e p q v pending h = elim (Option-cases (get_elem? p.active place)) [
    | inl no_task ↦ cc (rw (no_task, at_place) at h)
    | inr (t, there) ↦
        let went = go_on platform limit deadline_at concurrency t.phase e t.adapter p.shared in
        let h' : resettle platform limit deadline_at concurrency place t went p ≡ some q =
          rw (there, at_place) at h in
        elim (Option-cases went) [
          | inl stuck ↦ cc (rw (stuck, resettle) at h')
          | inr (next, goes) ↦
              let few =
                All-without (λ u. task_attempts u ≤ max_attempts) place t p.active there
                  v.active_twice in
              let others = All-without (λ u. IsPending u.phase) place t p.active there pending in
              let sums = sum_of-without task_weight place t p.active there in
              let less = go_on_shrinks t.phase e t.adapter p.shared next few.0 goes in
              let p' : Pool = record p { active = without place p.active } in
              subst (Shrinks p) (some_eq _ _ (rw (goes, resettle) at h')) (
                omega (arith, weight-settle t.index t.adapter next.0 next.1 p', sums, less),
                settle-AllPending t.index t.adapter next.0 next.1 p' others.1,
              )
        ]
  ]

  step-Shrinks :
      (total : ℕ) (e : Event) (p q : Pool)
      → IsWithin limit concurrency total p
      → AllPending p
      → step platform limit deadline_at concurrency e p ≡ some q
      → Shrinks p q
  unfolding step
  step-Shrinks total (takes clock) p q v pending h =
      take_next-Shrinks clock p.waiting p q refl pending h
  step-Shrinks total (answers place clock result) p q v pending h =
      at_place-Shrinks total place (answers place clock result) p q v pending h
  step-Shrinks total (wakes place clock) p q v pending h =
      at_place-Shrinks total place (wakes place clock) p q v pending h

  run_shrinks :
      (total : ℕ) (es : List Event) (p q : Pool)
      → IsWithin limit concurrency total p
      → AllPending p
      → run platform limit deadline_at concurrency es p ≡ some q
      → (length es + weight q ≤ weight p) × AllPending q
  unfolding run
  run_shrinks total [] p q v pending h =
      let same = some_eq p q h in
      (subst (λ x. 0 + weight x ≤ weight p) same (omega arith), subst AllPending same pending)
  run_shrinks total (e ∷ es) p q v pending h =
      elim (Option-cases (step platform limit deadline_at concurrency e p)) [
        | inl stuck ↦ cc (rw (stuck, run) at h)
        | inr (next, goes) ↦
            let (less, still) = step-Shrinks total e p next v pending goes in
            let within =
              step-IsWithin platform limit deadline_at concurrency total e p next v goes in
            let (rest, end) = run_shrinks total es next q within still (rw (goes, run) at h) in
            (omega arith, end)
      ]

  abbrev pub CanStep : Pool → Type 0
  CanStep p = (e : Event) × (q : Pool) × (step platform limit deadline_at concurrency e p ≡ some q)

  at_head :
      (t : Task) (ts : List Task) (p : Pool) → p.active ≡ t ∷ ts → get_elem? p.active 0 ≡ some t
  at_head t ts p at = ap (λ l. get_elem? l 0) at

  active-CanStep :
      (clock : ℕ → ℕ) (result : Result) (t : Task) (ts : List Task) (phase : Phase) (p : Pool)
      → p.active ≡ t ∷ ts
      → t.phase ≡ phase
      → IsPending phase
      → CanStep p
  unfolding step at_place resettle go_on
  active-CanStep clock result t ts (calling n remaining timeout) p at now_calling h =
      let next = resume limit deadline_at platform t.adapter clock n result p.shared in
      (
        answers 0 clock result,
        settle t.index t.adapter next (record p { active = without 0 p.active }),
        rw (at_head t ts p at, at_place, now_calling, go_on) refl,
      )
  active-CanStep clock result t ts (sleeping n r) p at now_sleeping h =
      let next = loop_head limit deadline_at t.adapter (clock 0) n r p.shared in
      (
        wakes 0 clock,
        settle t.index t.adapter next (record p { active = without 0 p.active }),
        rw (at_head t ts p at, at_place, now_sleeping, go_on) refl,
      )
  active-CanStep clock result t ts (finished item) p at e h = elim h [ ]

  waiting-CanStep :
      (clock : ℕ → ℕ) (next : ℕ × Adapter) (rest : List (ℕ × Adapter)) (p : Pool)
      → 0 < concurrency
      → p.waiting ≡ next ∷ rest
      → p.active ≡ []
      → CanStep p
  unfolding step take_next
  waiting-CanStep clock (index, a) rest p some_worker at idle =
      let free : ltb (length p.active) concurrency ≡ true = lt→ltb _ _ (rw idle some_worker) in
      (
        takes clock,
        settle index a (start limit deadline_at a clock p.shared) (record p { waiting = rest }),
        rw (at, take_next, free) refl,
      )

  can_step :
      (clock : ℕ → ℕ) (result : Result) (ws : List (ℕ × Adapter)) (ts : List Task) (p : Pool)
      → 0 < concurrency
      → p.waiting ≡ ws
      → p.active ≡ ts
      → AllPending p
      → ((ws ≡ []) × (ts ≡ [])) ⊎ CanStep p
  can_step clock result [] [] p some_worker at idle pending = inl (refl, refl)
  can_step clock result (w ∷ ws) [] p some_worker at idle pending =
      inr (waiting-CanStep clock w ws p some_worker at idle)
  can_step clock result ws (t ∷ ts) p some_worker at busy pending = inr (
      active-CanStep clock result t ts t.phase p busy refl
        (subst (All (λ u. IsPending u.phase)) busy pending).0)

  -- With a worker, no run of the pool has more than six events for each provider; and as long as not
  -- every provider has its result, one more event can happen.
  pub pool_ends :
      (breaker : Option Breaker) (items : List Adapter) (es : List Event) (q : Pool)
      → 0 < concurrency
      → run platform limit deadline_at concurrency es
          (opening (record { calls = 0; breaker = breaker }) items)
        ≡ some q
      → (length es ≤ 6 * length items) × ((length q.results ≡ length items) ⊎ CanStep q)
  unfolding run
  pool_ends breaker items es q some_worker h =
      let first = opening (record { calls = 0; breaker = breaker }) items in
      let before =
        run-IsWithin platform limit deadline_at concurrency breaker items [] first refl in
      let after = run-IsWithin platform limit deadline_at concurrency breaker items es q h in
      let (short, pending) = run_shrinks (length items) es first q before tt h in
      (
        omega (arith, short, length-indexed 0 items),
        elim (can_step (λ _. 0) success q.waiting q.active q some_worker refl refl pending) [
          | inl over ↦ inl (omega (arith, after.conserved, ap length over.0, ap length over.1))
          | inr more ↦ inr more
        ],
      )
