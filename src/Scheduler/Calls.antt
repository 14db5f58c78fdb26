-- ===== src/Scheduler/Calls.antt =====
-- The report of `runScheduledProviders` of src/core/scheduler.js.
use para11ax.Common.{
  sym, not, ◌==ₛ◌, ℕ, suc, ◌+◌, ◌≤◌, String, ◌≡◌, refl, ap, ◌∙◌, subst, inl, inr, ◌||◌, Option,
  none, some, List, [], ◌∷◌, ◌++◌, arith, ltb, leb, ◌==◌, Bool-cases, Option-cases, length,
  length-append, sum_of, sum_of-append, All, All-append, some_eq, append_nil,
}
use para11ax.Breaker.{Breaker}
use para11ax.Priority
use para11ax.Scheduler.{max_attempts, Platform, Adapter, Item, Shared}
use para11ax.Scheduler.Pool.{Event}
use para11ax.Scheduler.Budget.{result_attempts}
use para11ax.Scheduler.Report.{
  queue_of, concurrency_max, skip_all, RunReport, run_pool, run_groups, report_of, groups_of,
  with_report, typed_report, run_scheduled_providers,
}
use para11ax.Scheduler.Tiers.Size.{sum_of-one, sum_of-lengths}
use para11ax.Scheduler.Served.{provider_of, one_if, weight-run_pool}
use para11ax.Scheduler.Queues.{sum_of-queue_of, sum_of-groups_of, weight-run_groups}
use para11ax.Scheduler.Whole.{push_all-some, IsTallied, IsNext, run_pool-IsNext}

abbrev IsTwice : ℕ × Item → Type 0
IsTwice r = result_attempts r ≤ max_attempts

All-front : (xs ys : List (ℕ × Item)) → All IsTwice (xs ++ ys) → All IsTwice xs
All-front [] ys h = tt
All-front (x ∷ xs) ys h = (h.0, All-front xs ys h.1)

skip_all-tally :
    (reason : String) (n : ℕ) (g : List Adapter)
    → (sum_of result_attempts (skip_all reason n g) ≡ 0)
      × All IsTwice (skip_all reason n g)
      × (length (skip_all reason n g) ≡ length g)
skip_all-tally reason n [] = (refl, tt, refl)
skip_all-tally reason n (a ∷ g) =
    let (none_made, few, long) = skip_all-tally reason (n + 1) g in
    (omega (arith, none_made), (omega arith, few), ap suc long)

-- The results of some groups, behind those from before.
record IsRest (limit : ℕ) (old rest : List (ℕ × Item)) (u : Shared) (n : ℕ) : Type 0 where
  counted : u.calls ≡ sum_of result_attempts rest + sum_of result_attempts old
  within : u.calls ≤ limit
  twice : All IsTwice rest
  size : length rest ≡ n

IsRest-skipped :
    (limit : ℕ) (reason : String) (g : List Adapter) (old rest : List (ℕ × Item)) (u : Shared)
    (n : ℕ)
    → IsRest limit old rest u n
    → IsRest limit old (skip_all reason 0 g ++ rest) u (length g + n)
IsRest-skipped limit reason g old rest u n h =
    let skips = skip_all reason 0 g in
    let (none_made, few, long) = skip_all-tally reason 0 g in
    record {
      counted = omega (arith, h.counted, none_made, sum_of-append result_attempts skips rest);
      within = h.within;
      twice = All-append IsTwice skips rest few h.twice;
      size = omega (arith, h.size, long, length-append skips rest);
    }

IsRest-run :
    (limit : ℕ) (old items rest : List (ℕ × Item)) (s u : Shared) (n m : ℕ)
    → IsNext limit old items s m
    → IsRest limit (items ++ old) rest u n
    → IsRest limit old (items ++ rest) u (m + n)
IsRest-run limit old items rest s u n m k h = record {
  counted = omega (
    arith,
    h.counted,
    sum_of-append result_attempts items old,
    sum_of-append result_attempts items rest,
  );
  within = h.within;
  twice = All-append IsTwice items rest (All-front items old k.tallied.twice) h.twice;
  size = omega (arith, h.size, k.size, length-append items rest);
}

module _ (platform : Platform) (limit deadline_at concurrency : ℕ) where
  run_groups-IsRest :
      (script : List (ℕ × List Event)) (gs : List (List Adapter)) (old rest : List (ℕ × Item))
      (s u : Shared)
      → IsTallied limit old s
      → run_groups platform limit deadline_at concurrency script gs s ≡ some (rest, u)
      → IsRest limit old rest u (sum_of length gs)
  unfolding run_groups
  run_groups-IsRest script [] old rest s u v h =
      let nothing : List (ℕ × Item) × Shared = ([], s) in
      let e : nothing ≡ (rest, u) = some_eq nothing (rest, u) h in
      let done : IsRest limit old [] s 0 = record {
        counted = omega (arith, v.counted);
        within = v.within;
        twice = tt;
        size = refl;
      } in
      subst (λ (d : List (ℕ × Item) × Shared). IsRest limit old d.0 d.1 0) e done
  run_groups-IsRest [] (g ∷ gs) old rest s u v h = cc
  run_groups-IsRest ((now, es) ∷ script) (g ∷ gs) old rest s u v h =
      elim (Bool-cases (leb deadline_at now)) [
        | inl late ↦
            let (tail, later, e) = push_all-some _ _ rest u (rw (late, run_groups) at h) in
            subst (λ is. IsRest limit old is u (length g + sum_of length gs)) e
              (IsRest-skipped limit _ g old tail u (sum_of length gs)
                (run_groups-IsRest script gs old tail s u v later))
        | inr early ↦ elim (Bool-cases (leb limit s.calls)) [
          | inl spent ↦
              let (tail, later, e) =
                push_all-some _ _ rest u (rw (early, spent, run_groups) at h) in
              subst (λ is. IsRest limit old is u (length g + sum_of length gs)) e
                (IsRest-skipped limit _ g old tail u (sum_of length gs)
                  (run_groups-IsRest script gs old tail s u v later))
          | inr left ↦
              elim (Option-cases (run_pool platform limit deadline_at concurrency es g s)) [
                | inl stuck ↦ cc (rw (early, left, stuck, run_groups) at h)
                | inr ((items, s'), ends) ↦
                    let (tail, later, e) =
                      push_all-some items _ rest u (rw (early, left, ends, run_groups) at h) in
                    let k =
                      run_pool-IsNext platform limit deadline_at concurrency es g old items s s' v
                        ends in
                    subst (λ is. IsRest limit old is u (length g + sum_of length gs)) e
                      (IsRest-run limit old items tail s' u (sum_of length gs) (length g) k
                        (run_groups-IsRest script gs (items ++ old) tail s' u k.tallied later))
              ]
        ]
      ]

-- The report counts each call once, stays within the limit, and has one result for each provider: each name
-- stands for as many results as providers.
pub record IsReport (limit : ℕ) (providers : List Priority.Adapter) (r : RunReport) : Type 0 where
  pub counted : r.calls ≡ sum_of result_attempts r.results
  pub within : r.calls ≤ limit
  pub twice : All (λ x. result_attempts x ≤ max_attempts) r.results
  pub size : length r.results ≡ length providers
  pub served :
      (name : String)
      → sum_of (λ x. one_if (provider_of x.1 ==ₛ name)) r.results
        ≡ sum_of (λ a. one_if (a.name ==ₛ name)) providers

with_report-some :
    (limit : ℕ) (done : Option (List (ℕ × Item) × Shared)) (r : RunReport)
    → with_report limit done ≡ some r
    → (d : List (ℕ × Item) × Shared) × (done ≡ some d) × (report_of limit d ≡ r)
with_report-some limit none r h = cc
with_report-some limit (some d) r h = (d, refl, some_eq _ _ h)

length-queue_of :
    (type : String) (providers : List Priority.Adapter)
    → length (queue_of type providers) ≡ length providers
length-queue_of type providers =
    sym (sum_of-one (queue_of type providers))
    ∙ sum_of-queue_of (λ a. 1) type providers
    ∙ sum_of-one providers

length-groups_of :
    (providers : List Priority.Adapter) → sum_of length (groups_of providers) ≡ length providers
length-groups_of providers =
    sym (sum_of-lengths (groups_of providers))
    ∙ sum_of-groups_of (λ a. 1) providers
    ∙ sum_of-one providers

module _ (platform : Platform) where
  fresh :
      (limit : ℕ) (breaker : Option Breaker)
      → IsTallied limit [] (record { calls = 0; breaker = breaker })
  fresh limit breaker = record { counted = refl; within = omega arith; twice = tt }

  typed-IsReport :
      (script : List (ℕ × List Event)) (type : String) (providers : List Priority.Adapter)
      (concurrency limit deadline_at : ℕ) (breaker : Option Breaker) (r : RunReport)
      → typed_report platform script type providers concurrency limit deadline_at breaker ≡ some r
      → IsReport limit providers r
  typed-IsReport [] type providers concurrency limit deadline_at breaker r h = cc
  typed-IsReport ((now, es) ∷ script) type providers concurrency limit deadline_at breaker r h =
      let ((items, u), ends, made) = with_report-some limit _ r h in
      let queue = queue_of type providers in
      let k =
        run_pool-IsNext platform limit deadline_at concurrency es queue [] items _ u
          (fresh limit breaker) ends in
      let t : IsTallied limit items u =
        subst (λ is. IsTallied limit is u) (append_nil items) k.tallied in
      subst (IsReport limit providers) made (record {
        counted = t.counted;
        within = t.within;
        twice = t.twice;
        size = k.size ∙ length-queue_of type providers;
        served = λ name.
            weight-run_pool (λ n. one_if (n ==ₛ name)) platform limit deadline_at concurrency es
              queue items _ u ends
            ∙ sum_of-queue_of (λ (a : Adapter). one_if (a.name ==ₛ name)) type providers;
      })

  -- For any clock, answers and interleaving that the guards let run to the end, with a type, where the
  -- providers run in the order of their ranking, and without, where they run tier by tier: the calls that
  -- the report counts are the attempts of all its results and not more than the limit, no result has
  -- more than two, there are as many results as providers, and each name stands for as many results as
  -- providers, also across the pools of the tiers and the groups that are skipped.
  pub run_scheduled_providers-IsReport :
      (type : String) (providers : List Priority.Adapter)
      (concurrency deadline_ms call_limit started_at : ℕ) (breaker : Option Breaker)
      (script : List (ℕ × List Event)) (r : RunReport)
      → run_scheduled_providers platform type providers concurrency deadline_ms call_limit
          started_at breaker script
        ≡ some r
      → IsReport call_limit providers r
  unfolding run_scheduled_providers
  run_scheduled_providers-IsReport type providers concurrency deadline_ms limit started_at breaker
        script r h =
      elim (Bool-cases
        (ltb concurrency 1 || ltb concurrency_max concurrency || deadline_ms == 0 || ltb limit 1)) [
          | inl refused ↦ cc (rw (refused, run_scheduled_providers) at h)
          | inr fine ↦ elim (Bool-cases (not (type ==ₛ ""))) [
            | inl by_type ↦
                typed-IsReport script type providers concurrency limit (started_at + deadline_ms)
                  breaker r (rw (fine, by_type, run_scheduled_providers) at h)
            | inr by_tier ↦
                let deadline_at = started_at + deadline_ms in
                let groups = groups_of providers in
                let ((items, u), ends, made) =
                  with_report-some limit _ r (rw (fine, by_tier, run_scheduled_providers) at h) in
                let k =
                  run_groups-IsRest platform limit deadline_at concurrency script groups [] items _
                    u (fresh limit breaker) ends in
                subst (IsReport limit providers) made (record {
                  counted = omega (arith, k.counted);
                  within = k.within;
                  twice = k.twice;
                  size = k.size ∙ length-groups_of providers;
                  served = λ name.
                      weight-run_groups (λ n. one_if (n ==ₛ name)) platform limit deadline_at
                        concurrency script groups items _ u ends
                      ∙ sum_of-groups_of (λ (a : Adapter). one_if (a.name ==ₛ name)) providers;
                })
          ]
        ]
