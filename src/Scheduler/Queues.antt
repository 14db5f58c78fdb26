-- ===== src/Scheduler/Queues.antt =====
-- The pools of `runScheduledProviders` of src/core/scheduler.js run each provider once: any weight of the
-- providers is that of the ranking, of the groups and of the results.
use para11ax.Common.{
  ℕ, ◌+◌, ◌≡◌, refl, sym, ap, ◌∙◌, inl, inr, String, some, List, [], ◌∷◌, ◌++◌, map, arith, leb,
  Bool-cases, Option-cases, sum_of, sum_of-append, some_eq,
}
use para11ax.Priority
use para11ax.Priority.{Ranked, rank_providers_for_execution, with_priorities, compare_ranked}
use para11ax.Priority.Laws.{adapters, adapters-with_rationales, adapters-with_priorities}
use para11ax.Scheduler.{Platform, Adapter, Item, Shared}
use para11ax.Scheduler.Pool.{Event}
use para11ax.Scheduler.Report.{run_pool, run_groups, scheduled, queue_of, tier_of, groups_of}
use para11ax.Scheduler.Tiers.{Group, group_by_tier}
use para11ax.Scheduler.Tiers.Size.{sum_of-map, sum_of-sort, sum_of-group_by_tier}
use para11ax.Scheduler.Served.{adapter_weight, result_weight, weight-run_pool, weight-skip_all}
use para11ax.Scheduler.Whole.{push_all-some}

module _ (w : Adapter → ℕ) where
  pub sum_of-queue_of :
      (type : String) (providers : List Priority.Adapter)
      → sum_of w (queue_of type providers) ≡ sum_of (λ a. w (scheduled a)) providers
  unfolding rank_providers_for_execution
  sum_of-queue_of type providers =
      let entries = with_priorities type 0 providers in
      let v : Priority.Adapter → ℕ = λ a. w (scheduled a) in
      sum_of-map w scheduled (adapters (rank_providers_for_execution providers type))
      ∙ ap (sum_of v) (adapters-with_rationales _)
      ∙ sum_of-map v (λ (r : Ranked). r.adapter) _
      ∙ sum_of-sort (λ (r : Ranked). v r.adapter) compare_ranked entries
      ∙ sym (sum_of-map v (λ (r : Ranked). r.adapter) entries)
      ∙ ap (sum_of v) (adapters-with_priorities type 0 providers)

  sum_of-scheduled :
      (gs : List (Group tier_of))
      → sum_of (sum_of w) (map (λ (g : Group tier_of). map scheduled g.providers) gs)
        ≡ sum_of (λ (g : Group tier_of). sum_of (λ a. w (scheduled a)) g.providers) gs
  sum_of-scheduled [] = refl
  sum_of-scheduled (g ∷ gs) = omega (arith, sum_of-map w scheduled g.providers, sum_of-scheduled gs)

  pub sum_of-groups_of :
      (providers : List Priority.Adapter)
      → sum_of (sum_of w) (groups_of providers) ≡ sum_of (λ a. w (scheduled a)) providers
  sum_of-groups_of providers =
      sum_of-scheduled (group_by_tier tier_of providers)
      ∙ sum_of-group_by_tier (λ a. w (scheduled a)) tier_of providers

weight_pushed :
    (w : String → ℕ) (items tail rest : List (ℕ × Item)) (n m : ℕ)
    → items ++ tail ≡ rest
    → sum_of (result_weight w) items ≡ n
    → sum_of (result_weight w) tail ≡ m
    → sum_of (result_weight w) rest ≡ n + m
weight_pushed w items tail rest n m e h k =
    sym (ap (sum_of (result_weight w)) e)
    ∙ sum_of-append (result_weight w) items tail
    ∙ omega (arith, h, k)

module _ (w : String → ℕ) (platform : Platform) (limit deadline_at concurrency : ℕ) where
  pub weight-run_groups :
      (script : List (ℕ × List Event)) (gs : List (List Adapter)) (rest : List (ℕ × Item))
      (s u : Shared)
      → run_groups platform limit deadline_at concurrency script gs s ≡ some (rest, u)
      → sum_of (result_weight w) rest ≡ sum_of (sum_of (adapter_weight w)) gs
  unfolding run_groups
  weight-run_groups script [] rest s u h =
      let nothing : List (ℕ × Item) × Shared = ([], s) in
      let e : nothing ≡ (rest, u) = some_eq nothing (rest, u) h in
      sym (ap (λ (d : List (ℕ × Item) × Shared). sum_of (result_weight w) d.0) e)
  weight-run_groups [] (g ∷ gs) rest s u h = cc
  weight-run_groups ((now, es) ∷ script) (g ∷ gs) rest s u h =
      elim (Bool-cases (leb deadline_at now)) [
        | inl late ↦
            let (tail, later, e) = push_all-some _ _ rest u (rw (late, run_groups) at h) in
            weight_pushed w _ tail rest _ _ e (weight-skip_all w _ 0 g)
              (weight-run_groups script gs tail s u later)
        | inr early ↦ elim (Bool-cases (leb limit s.calls)) [
          | inl spent ↦
              let (tail, later, e) =
                push_all-some _ _ rest u (rw (early, spent, run_groups) at h) in
              weight_pushed w _ tail rest _ _ e (weight-skip_all w _ 0 g)
                (weight-run_groups script gs tail s u later)
          | inr left ↦
              elim (Option-cases (run_pool platform limit deadline_at concurrency es g s)) [
                | inl stuck ↦ cc (rw (early, left, stuck, run_groups) at h)
                | inr ((items, s'), ends) ↦
                    let (tail, later, e) =
                      push_all-some items _ rest u (rw (early, left, ends, run_groups) at h) in
                    weight_pushed w items tail rest _ _ e
                      (weight-run_pool w platform limit deadline_at concurrency es g items s s'
                        ends)
                      (weight-run_groups script gs tail s' u later)
              ]
        ]
      ]
