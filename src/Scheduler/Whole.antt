-- ===== src/Scheduler/Whole.antt =====
-- The calls of all pools of `runScheduledProviders` of src/core/scheduler.js together.
use para11ax.Common.{
  ℕ, ◌+◌, ◌≤◌, ◌≡◌, refl, ap, ◌∙◌, subst, inl, inr, Option, none, some, List, [], ◌∷◌, ◌++◌, arith,
  ltb, ◌==◌, Bool-cases, Option-cases, length, length-append, sum_of, All, get_elem?, without,
  some_eq,
}
use para11ax.Scheduler.{
  max_attempts, Platform, Adapter, Item, Phase, calling, sleeping, finished, Shared, start,
}
use para11ax.Scheduler.Pool.{
  Task, Pool, Event, takes, answers, wakes, opening, settle, take_next, go_on, resettle, at_place,
  step, run,
}
use para11ax.Scheduler.Budget.{task_attempts, result_attempts, run-keeps, length-indexed}
use para11ax.Scheduler.Report.{push_all, pool_end, run_pool}

-- A pool with results from before.
abbrev with_earlier : List (ℕ × Item) → Pool → Pool
with_earlier old p = record p { results = p.results ++ old }

abbrev each_earlier : List (ℕ × Item) → Option Pool → Option Pool
each_earlier old none = none
each_earlier old (some p) = some (with_earlier old p)

settle-earlier :
    (old : List (ℕ × Item)) (index : ℕ) (a : Adapter) (phase : Phase) (s : Shared) (p : Pool)
    → settle index a (phase, s) (with_earlier old p)
      ≡ with_earlier old (settle index a (phase, s) p)
unfolding settle
settle-earlier old index a (finished item) s p = refl
settle-earlier old index a (calling attempts remaining timeout) s p = refl
settle-earlier old index a (sleeping attempts result) s p = refl

module _ (platform : Platform) (limit deadline_at concurrency : ℕ) (old : List (ℕ × Item)) where
  take_next-earlier :
      (clock : ℕ → ℕ) (ws : List (ℕ × Adapter)) (p : Pool)
      → take_next platform limit deadline_at concurrency clock ws (with_earlier old p)
        ≡ each_earlier old (take_next platform limit deadline_at concurrency clock ws p)
  unfolding take_next
  take_next-earlier clock [] p = refl
  take_next-earlier clock ((index, a) ∷ rest) p =
      elim (Bool-cases (ltb (length p.active) concurrency)) [
        | inl free ↦
            let next = start limit deadline_at a clock p.shared in
            rw free
              (ap some (settle-earlier old index a next.0 next.1 (record p { waiting = rest })))
        | inr full ↦ rw full refl
      ]

  resettle-earlier :
      (place : ℕ) (t : Task) (next : Option (Phase × Shared)) (p : Pool)
      → resettle platform limit deadline_at concurrency place t next (with_earlier old p)
        ≡ each_earlier old (resettle platform limit deadline_at concurrency place t next p)
  unfolding resettle
  resettle-earlier place t none p = refl
  resettle-earlier place t (some (phase, s)) p =
      ap some (
        settle-earlier old t.index t.adapter phase s (record p { active = without place p.active }))

  at_place-earlier :
      (place : ℕ) (e : Event) (t : Option Task) (p : Pool)
      → at_place platform limit deadline_at concurrency place e t (with_earlier old p)
        ≡ each_earlier old (at_place platform limit deadline_at concurrency place e t p)
  unfolding at_place
  at_place-earlier place e none p = refl
  at_place-earlier place e (some t) p =
      resettle-earlier place t
        (go_on platform limit deadline_at concurrency t.phase e t.adapter p.shared) p

  step-earlier :
      (e : Event) (p : Pool)
      → step platform limit deadline_at concurrency e (with_earlier old p)
        ≡ each_earlier old (step platform limit deadline_at concurrency e p)
  unfolding step
  step-earlier (takes clock) p = take_next-earlier clock p.waiting p
  step-earlier (answers place clock result) p =
      at_place-earlier place (answers place clock result) (get_elem? p.active place) p
  step-earlier (wakes place clock) p =
      at_place-earlier place (wakes place clock) (get_elem? p.active place) p

  -- Results from before change nothing of a run.
  run-earlier :
      (es : List Event) (p : Pool)
      → run platform limit deadline_at concurrency es (with_earlier old p)
        ≡ each_earlier old (run platform limit deadline_at concurrency es p)
  unfolding run
  run-earlier [] p = refl
  run-earlier (e ∷ es) p = elim (Option-cases (step platform limit deadline_at concurrency e p)) [
    | inl stuck ↦ rw (run, step-earlier e p, stuck) refl
    | inr (next, goes) ↦ rw (run, step-earlier e p, goes) (run-earlier es next)
  ]

-- The calls are the attempts of the results, within the limit, and no result has more than two.
pub record IsTallied (limit : ℕ) (results : List (ℕ × Item)) (s : Shared) : Type 0 where
  pub counted : s.calls ≡ sum_of result_attempts results
  pub within : s.calls ≤ limit
  pub twice : All (λ r. result_attempts r ≤ max_attempts) results

-- One more group of results.
pub record IsNext (limit : ℕ) (old items : List (ℕ × Item)) (s : Shared) (n : ℕ) : Type 0 where
  pub tallied : IsTallied limit (items ++ old) s
  pub size : length items ≡ n

length-none : {A : Type 0} (xs : List A) → length xs ≡ 0 → xs ≡ []
length-none [] h = refl
length-none (x ∷ xs) h = absurd (omega (arith, h))

pub pool_end-some :
    (q : Pool) (items : List (ℕ × Item)) (s : Shared)
    → pool_end (some q) ≡ some (items, s)
    → (q.waiting ≡ []) × (q.active ≡ []) × (q.results ≡ items) × (q.shared ≡ s)
pool_end-some q items s h = elim (Bool-cases (length q.waiting + length q.active == 0)) [
  | inl over ↦
      let none_waiting : length q.waiting ≡ 0 = ground arith in
      let none_active : length q.active ≡ 0 = ground arith in
      let e : (q.results, q.shared) ≡ (items, s) = some_eq _ _ (rw over at h) in
      (
        length-none q.waiting none_waiting,
        length-none q.active none_active,
        ap (λ (d : List (ℕ × Item) × Shared). d.0) e,
        ap (λ (d : List (ℕ × Item) × Shared). d.1) e,
      )
  | inr running ↦ cc (rw running at h)
]

-- push_all, where something is returned
pub push_all-some :
    (items : List (ℕ × Item)) (later : Option (List (ℕ × Item) × Shared)) (rest : List (ℕ × Item))
    (u : Shared)
    → push_all items later ≡ some (rest, u)
    → (tail : List (ℕ × Item)) × (later ≡ some (tail, u)) × (items ++ tail ≡ rest)
push_all-some items none rest u h = cc
push_all-some items (some (tail, v)) rest u h =
    let e : (items ++ tail, v) ≡ (rest, u) = some_eq _ _ h in
    let same : v ≡ u = ap (λ (d : List (ℕ × Item) × Shared). d.1) e in
    (tail, ap (λ w. some (tail, w)) same, ap (λ (d : List (ℕ × Item) × Shared). d.0) e)

module _ (platform : Platform) (limit deadline_at concurrency : ℕ) where
  pub run_pool-IsNext :
      (es : List Event) (g : List Adapter) (old items : List (ℕ × Item)) (s u : Shared)
      → IsTallied limit old s
      → run_pool platform limit deadline_at concurrency es g s ≡ some (items, u)
      → IsNext limit old items u (length g)
  unfolding run_pool
  run_pool-IsNext es g old items s u v h =
      elim (Option-cases (run platform limit deadline_at concurrency es (opening s g))) [
        | inl stuck ↦ cc (rw stuck at h)
        | inr (q, ends) ↦
            let (no_waiting, no_active, same_items, same_shared) =
              pool_end-some q items u (rw ends at h) in
            let ends' =
              run-earlier platform limit deadline_at concurrency old es (opening s g)
              ∙ ap (each_earlier old) ends in
            let w =
              run-keeps platform limit deadline_at concurrency (length g + length old) es
                (with_earlier old (opening s g)) (with_earlier old q)
                (record {
                  counted = omega (arith, v.counted);
                  within = v.within;
                  active_twice = tt;
                  results_twice = v.twice;
                  width = omega arith;
                  conserved = omega (arith, length-indexed 0 g);
                })
                ends' in
            let waiting_none = ap length no_waiting in
            let active_none = ap length no_active in
            let active_sum = ap (sum_of task_attempts) no_active in
            record {
              tallied = record {
                counted =
                    subst (λ t. t.calls ≡ sum_of result_attempts (items ++ old)) same_shared
                      (subst
                        (λ (is : List (ℕ × Item)).
                          q.shared.calls ≡ sum_of result_attempts (is ++ old))
                        same_items (omega (arith, w.counted, active_sum)));
                within = subst (λ (t : Shared). t.calls ≤ limit) same_shared w.within;
                twice =
                    subst (λ is. All (λ r. result_attempts r ≤ max_attempts) (is ++ old)) same_items
                      w.results_twice;
              };
              size = omega (
                arith,
                w.conserved,
                waiting_none,
                active_none,
                length-append q.results old,
                ap length same_items,
              );
            }
      ]
