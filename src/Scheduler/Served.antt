-- ===== src/Scheduler/Served.antt =====
-- Which providers the results of `runPool` and of the groups of src/core/scheduler.js are for.
use para11ax.Common.{
  true, false, ℕ, ◌+◌, ◌≡◌, refl, sym, ap, ◌∙◌, subst, inl, inr, String, Option, none, some, List,
  [], ◌∷◌, arith, ltb, leb, Bool-cases, Option-cases, length, sum_of, get_elem?, without,
  sum_of-without, some_eq, Bool,
}
use para11ax.Breaker
use para11ax.Breaker.{Permission}
use para11ax.Scheduler.{
  tell_breaker, retryable_failure, retry_after, Platform, Adapter, Item, skipped, ran, Result,
  unknown, Phase, calling, sleeping, finished, Shared, loop_head, admit, start, resume, ask_breaker,
}
use para11ax.Scheduler.Pool.{
  Task, Pool, Event, takes, answers, wakes, indexed, opening, settle, take_next, go_on, resettle,
  at_place, step, run,
}
use para11ax.Scheduler.Report.{skip_all, run_pool}
use para11ax.Scheduler.Whole.{pool_end-some}

abbrev pub provider_of : Item → String
provider_of (skipped provider reason retry_after_ms) = provider
provider_of (ran provider attempts result) = provider

abbrev pub one_if : Bool → ℕ
one_if true = 1
one_if false = 0

-- What `runOne` returns is for its provider.
abbrev IsOf : Adapter → Phase → Type 0
IsOf a (finished item) = provider_of item ≡ a.name
IsOf a phase = Unit

module _ (limit deadline_at : ℕ) (a : Adapter) where
  loop_head-IsOf :
      (now n : ℕ) (r : Result) (s : Shared) → IsOf a (loop_head limit deadline_at a now n r s).0
  unfolding loop_head
  loop_head-IsOf now n r s = ground arith

  admit-IsOf :
      (clock : ℕ → ℕ) (answer : Option Permission × Shared)
      → IsOf a (admit limit deadline_at a clock answer).0
  admit-IsOf clock (none, s) = loop_head-IsOf (clock 2) 0 unknown s
  admit-IsOf clock (some p, s) = elim (Bool-cases p.allowed) [
    | inl allows ↦ rw allows (loop_head-IsOf (clock 2) 0 unknown s)
    | inr refuses ↦ rw refuses refl
  ]

  start-IsOf : (clock : ℕ → ℕ) (s : Shared) → IsOf a (start limit deadline_at a clock s).0
  unfolding start
  start-IsOf clock s = elim (Bool-cases (leb deadline_at (clock 0))) [
    | inl late ↦ rw late refl
    | inr early ↦ elim (Bool-cases (leb limit s.calls)) [
      | inl spent ↦ rw (early, spent) refl
      | inr left ↦ rw (early, left) (admit-IsOf clock (ask_breaker (clock 1) a.name s))
    ]
  ]

  resume-IsOf :
      (platform : Platform) (clock : ℕ → ℕ) (n : ℕ) (r : Result) (s : Shared)
      → IsOf a (resume limit deadline_at platform a clock n r s).0
  unfolding resume
  resume-IsOf platform clock n r s =
      let told =
        tell_breaker
          (Breaker.record_failure (clock 0) (clock 1) a.name (retryable_failure r) (retry_after r))
          s in
      ground (arith, loop_head-IsOf (clock 4) n r told)

-- A weight of the providers, summed over a pool.
module _ (w : String → ℕ) where
  abbrev pub adapter_weight : Adapter → ℕ
  adapter_weight a = w a.name

  abbrev pub result_weight : ℕ × Item → ℕ
  result_weight r = w (provider_of r.1)

  abbrev waiting_weight : ℕ × Adapter → ℕ
  waiting_weight i = w i.1.name

  abbrev task_weight : Task → ℕ
  task_weight t = w t.adapter.name

  abbrev weight : Pool → ℕ
  weight p =
      sum_of waiting_weight p.waiting + sum_of task_weight p.active + sum_of result_weight p.results

  weight-settle :
      (index : ℕ) (a : Adapter) (phase : Phase) (s : Shared) (p : Pool)
      → IsOf a phase
      → weight (settle index a (phase, s) p) ≡ w a.name + weight p
  unfolding settle
  weight-settle index a (finished item) s p h = omega (arith, ap w h)
  weight-settle index a (calling n remaining timeout) s p h = omega arith
  weight-settle index a (sleeping n result) s p h = omega arith

  weight-indexed :
      (n : ℕ) (items : List Adapter)
      → sum_of waiting_weight (indexed n items) ≡ sum_of adapter_weight items
  weight-indexed n [] = refl
  weight-indexed n (a ∷ items) = ap (λ (k : ℕ). w a.name + k) (weight-indexed (n + 1) items)

  pub weight-skip_all :
      (reason : String) (n : ℕ) (items : List Adapter)
      → sum_of result_weight (skip_all reason n items) ≡ sum_of adapter_weight items
  weight-skip_all reason n [] = refl
  weight-skip_all reason n (a ∷ items) =
      ap (λ (k : ℕ). w a.name + k) (weight-skip_all reason (n + 1) items)

  module _ (platform : Platform) (limit deadline_at concurrency : ℕ) where
    weight-take_next :
        (clock : ℕ → ℕ) (ws : List (ℕ × Adapter)) (p q : Pool)
        → p.waiting ≡ ws
        → take_next platform limit deadline_at concurrency clock ws p ≡ some q
        → weight q ≡ weight p
    unfolding take_next
    weight-take_next clock [] p q e h = cc
    weight-take_next clock ((index, a) ∷ rest) p q e h =
        elim (Bool-cases (ltb (length p.active) concurrency)) [
          | inr full ↦ cc (rw full at h)
          | inl free ↦
              let (phase, s) = start limit deadline_at a clock p.shared in
              let next = start limit deadline_at a clock p.shared in
              let heavier =
                weight-settle index a next.0 next.1 (record p { waiting = rest })
                  (start-IsOf limit deadline_at a clock p.shared) in
              let before = ap (sum_of waiting_weight) e in
              subst (λ r. weight r ≡ weight p) (some_eq _ _ (rw free at h))
                (omega (arith, heavier, before))
        ]

    go_on-IsOf :
        (phase : Phase) (e : Event) (a : Adapter) (s : Shared) (next : Phase × Shared)
        → go_on platform limit deadline_at concurrency phase e a s ≡ some next
        → IsOf a next.0
    unfolding go_on
    go_on-IsOf (calling n remaining timeout) (answers place clock result) a s next h =
        subst (λ (d : Phase × Shared). IsOf a d.0) (some_eq _ _ h)
          (resume-IsOf limit deadline_at a platform clock n result s)
    go_on-IsOf (sleeping n result) (wakes place clock) a s next h =
        subst (λ (d : Phase × Shared). IsOf a d.0) (some_eq _ _ h)
          (loop_head-IsOf limit deadline_at a (clock 0) n result s)
    go_on-IsOf _ _ a s next h = cc

    weight-at_place :
        (place : ℕ) (e : Event) (p q : Pool)
        → at_place platform limit deadline_at concurrency place e (get_elem? p.active place) p
          ≡ some q
        → weight q ≡ weight p
    unfolding at_place resettle
    weight-at_place place e p q h = elim (Option-cases (get_elem? p.active place)) [
      | inl no_task ↦ cc (rw (no_task, at_place) at h)
      | inr (t, there) ↦
          let went = go_on platform limit deadline_at concurrency t.phase e t.adapter p.shared in
          let h' : resettle platform limit deadline_at concurrency place t went p ≡ some q =
            rw (there, at_place) at h in
          elim (Option-cases went) [
            | inl stuck ↦ cc (rw (stuck, resettle) at h')
            | inr (next, goes) ↦
                let heavier =
                  weight-settle t.index t.adapter next.0 next.1
                    (record p { active = without place p.active })
                    (go_on-IsOf t.phase e t.adapter p.shared next goes) in
                let sums = sum_of-without task_weight place t p.active there in
                subst (λ r. weight r ≡ weight p) (some_eq _ _ (rw (goes, resettle) at h'))
                  (omega (arith, heavier, sums))
          ]
    ]

    weight-step :
        (e : Event) (p q : Pool)
        → step platform limit deadline_at concurrency e p ≡ some q
        → weight q ≡ weight p
    unfolding step
    weight-step (takes clock) p q h = weight-take_next clock p.waiting p q refl h
    weight-step (answers place clock result) p q h =
        weight-at_place place (answers place clock result) p q h
    weight-step (wakes place clock) p q h = weight-at_place place (wakes place clock) p q h

    weight-run :
        (es : List Event) (p q : Pool)
        → run platform limit deadline_at concurrency es p ≡ some q
        → weight q ≡ weight p
    unfolding run
    weight-run [] p q h = sym (ap weight (some_eq _ _ h))
    weight-run (e ∷ es) p q h =
        elim (Option-cases (step platform limit deadline_at concurrency e p)) [
          | inl stuck ↦ cc (rw (stuck, run) at h)
          | inr (next, goes) ↦
              weight-run es next q (rw (goes, run) at h) ∙ weight-step e p next goes
        ]

    -- The results of a pool are for its items.
    pub weight-run_pool :
        (es : List Event) (g : List Adapter) (items : List (ℕ × Item)) (s u : Shared)
        → run_pool platform limit deadline_at concurrency es g s ≡ some (items, u)
        → sum_of result_weight items ≡ sum_of adapter_weight g
    unfolding run_pool
    weight-run_pool es g items s u h =
        elim (Option-cases (run platform limit deadline_at concurrency es (opening s g))) [
          | inl stuck ↦ cc (rw stuck at h)
          | inr (q, ends) ↦
              let (no_waiting, no_active, same_items, same_shared) =
                pool_end-some q items u (rw ends at h) in
              omega (
                arith,
                weight-run es (opening s g) q ends,
                ap (sum_of waiting_weight) no_waiting,
                ap (sum_of task_weight) no_active,
                ap (sum_of result_weight) same_items,
                weight-indexed 0 g,
              )
        ]
