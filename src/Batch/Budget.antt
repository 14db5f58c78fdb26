-- ===== src/Batch/Budget.antt =====
-- The call budget of src/core/batch.js: reservations and refunds of concurrent workers.
use para11ax.Common.{
  ℕ, suc, ◌+◌, ◌≤◌, ◌<◌, min, max, ◌≡◌, refl, ap, subst, inl, inr, some, List, [], ◌∷◌, arith, ltb,
  leb, ◌==◌, Bool-cases, Option-cases, ltb→lt, length, sum_of, All, get_elem?, sum_of-without,
  All-without, some_eq, length-without,
}
use para11ax.JsMap.{JsMap, size}
use para11ax.Batch.{
  Unique, Shared, Outcome, thrown, nothing, returned, used, Phase, enriching, finished, begin, end,
}
use para11ax.Batch.Pool.{
  Task, Pool, Event, takes, ends, numbered, Options, opening, settle, take_next, end_task, step,
  run,
}

abbrev pub reserved_of : Task → ℕ
reserved_of t = t.reserved

-- The invariant of the pool over `total` items.
pub record IsFunded (limit concurrency total : ℕ) (p : Pool) : Type 0 where
  pub balance : p.shared.available + sum_of reserved_of p.active + p.shared.actual ≡ limit
  pub funded : All (λ t. 1 ≤ t.reserved) p.active
  pub width : length p.active ≤ concurrency
  pub conserved : length p.waiting + length p.active + length p.completed ≡ total

used-bound : (reserved : ℕ) (outcome : Outcome) → used reserved outcome ≤ reserved
used-bound reserved thrown = omega arith
used-bound reserved nothing = omega arith
used-bound reserved (returned e) = omega arith

-- What is taken out of the account for a phase.
abbrev held : Phase → ℕ
held (enriching reserved remaining_ms) = reserved
held (finished work) = 0

-- A call that is made has a limit of at least one provider call.
abbrev IsFundedPhase : Phase → Type 0
IsFundedPhase (enriching reserved remaining_ms) = 1 ≤ reserved
IsFundedPhase (finished work) = Unit

record Pays (s : Shared) (next : Phase × Shared) : Type 0 where
  account : next.1.available + held next.0 ≡ s.available
  same : next.1.actual ≡ s.actual
  positive : IsFundedPhase next.0

begin-Pays :
    (deadline_at now call_limit : ℕ) (s : Shared) → Pays s (begin deadline_at now call_limit s)
unfolding begin
begin-Pays deadline_at now call_limit s = elim (Bool-cases (leb deadline_at now)) [
  | inl late ↦ rw (late, begin) (record { account = omega arith; same = refl; positive = tt })
  | inr early ↦ elim (Bool-cases (min (max 1 call_limit) s.available == 0)) [
    | inl broke ↦
        rw (early, broke, begin) (record { account = omega arith; same = refl; positive = tt })
    | inr funds ↦
        let some_left : 1 ≤ min (max 1 call_limit) s.available = ground arith in
        rw (early, funds, begin)
          (record { account = omega arith; same = refl; positive = some_left })
  ]
]

settle-IsFunded :
    (limit concurrency total index : ℕ) (s : Shared) (next : Phase × Shared) (p : Pool)
    → p.shared ≡ s
    → Pays s next
    → length p.active < concurrency
    → length p.waiting + length p.active + length p.completed + 1 ≡ total
    → IsFunded limit concurrency (length p.waiting + length p.active + length p.completed) p
    → IsFunded limit concurrency total (settle index next p)
unfolding settle
settle-IsFunded limit concurrency total index s (finished work, after) p e pays free one_more v =
    record {
      balance = omega (
        arith,
        v.balance,
        pays.account,
        pays.same,
        ap (λ t. t.available) e,
        ap (λ t. t.actual) e,
      );
      funded = v.funded;
      width = v.width;
      conserved = omega (arith, one_more);
    }
settle-IsFunded limit concurrency total index s (enriching n ms, after) p e pays free one_more v =
    record {
      balance = omega (
        arith,
        v.balance,
        pays.account,
        pays.same,
        ap (λ t. t.available) e,
        ap (λ t. t.actual) e,
      );
      funded = (pays.positive, v.funded);
      width = free;
      conserved = omega (arith, one_more);
    }

module _ (deadline_at limit concurrency : ℕ) where
  take_next-IsFunded :
      (total now call_limit : ℕ) (ws : List (ℕ × Unique)) (p q : Pool)
      → p.waiting ≡ ws
      → IsFunded limit concurrency total p
      → take_next deadline_at concurrency now call_limit ws p ≡ some q
      → IsFunded limit concurrency total q
  unfolding take_next
  take_next-IsFunded total now call_limit [] p q e v h = cc
  take_next-IsFunded total now call_limit ((index, u) ∷ rest) p q e v h =
      elim (Bool-cases (ltb (length p.active) concurrency)) [
        | inr full ↦ cc (rw full at h)
        | inl free ↦
            let shorter : length p.waiting ≡ suc (length rest) = ap length e in
            subst (IsFunded limit concurrency total) (some_eq _ _ (rw free at h)) (
              settle-IsFunded limit concurrency total index p.shared
                (begin deadline_at now call_limit p.shared) (record p { waiting = rest }) refl
                (begin-Pays deadline_at now call_limit p.shared) (ltb→lt _ _ free)
                (omega (arith, v.conserved, shorter))
                (record {
                  balance = v.balance;
                  funded = v.funded;
                  width = v.width;
                  conserved = refl;
                }))
      ]

  end_task-IsFunded :
      (total place : ℕ) (outcome : Outcome) (p q : Pool)
      → IsFunded limit concurrency total p
      → end_task deadline_at concurrency place outcome (get_elem? p.active place) p ≡ some q
      → IsFunded limit concurrency total q
  unfolding end_task end
  end_task-IsFunded total place outcome p q v h = elim (Option-cases (get_elem? p.active place)) [
    | inl no_task ↦ cc (rw (no_task, end_task) at h)
    | inr (t, there) ↦
        let (here, others) = All-without (λ u. 1 ≤ u.reserved) place t p.active there v.funded in
        let sums = sum_of-without reserved_of place t p.active there in
        let fewer = length-without place t p.active there in
        let bound = used-bound t.reserved outcome in
        subst (IsFunded limit concurrency total) (some_eq _ _ (rw (there, end_task) at h)) (record {
          balance = omega (arith, v.balance, sums, bound);
          funded = others;
          width = omega (arith, v.width, fewer);
          conserved = omega (arith, v.conserved, fewer);
        })
  ]

  step-IsFunded :
      (total : ℕ) (e : Event) (p q : Pool)
      → IsFunded limit concurrency total p
      → step deadline_at concurrency e p ≡ some q
      → IsFunded limit concurrency total q
  unfolding step
  step-IsFunded total (takes now call_limit) p q v h =
      take_next-IsFunded total now call_limit p.waiting p q refl v h
  step-IsFunded total (ends place outcome) p q v h = end_task-IsFunded total place outcome p q v h

  run-keeps :
      (total : ℕ) (es : List Event) (p q : Pool)
      → IsFunded limit concurrency total p
      → run deadline_at concurrency es p ≡ some q
      → IsFunded limit concurrency total q
  unfolding run
  run-keeps total [] p q v h = subst (IsFunded limit concurrency total) (some_eq _ _ h) v
  run-keeps total (e ∷ es) p q v h = elim (Option-cases (step deadline_at concurrency e p)) [
    | inl stuck ↦ cc (rw (stuck, run) at h)
    | inr (next, goes) ↦
        run-keeps total es next q (step-IsFunded total e p next v goes) (rw (goes, run) at h)
  ]

length-numbered : (n : ℕ) (m : JsMap Unique) → length (numbered n m) ≡ size m
length-numbered n [] = refl
length-numbered n ((k, u) ∷ m) = ap suc (length-numbered (n + 1) m)

-- In whatever order the workers go on, whatever time it is and however each `enrichOne` ends: the calls
-- left, those reserved by the running workers and those counted as made are together the limit, so no
-- more are counted than the limit; each running call of `enrichOne` has at least one provider call; at
-- most `indicatorConcurrency` run; and each item is waiting, running or completed.
pub run-IsFunded :
    (o : Options) (unique : JsMap Unique) (deadline_at : ℕ) (es : List Event) (q : Pool)
    → run deadline_at o.indicator_concurrency es (opening o unique) ≡ some q
    → IsFunded o.provider_call_limit o.indicator_concurrency (size unique) q
      × q.shared.actual ≤ o.provider_call_limit
run-IsFunded o unique deadline_at es q h =
    let v =
      run-keeps deadline_at o.provider_call_limit o.indicator_concurrency (size unique) es _ q
        (record {
          balance = omega arith;
          funded = tt;
          width = omega arith;
          conserved = omega (arith, length-numbered 0 unique);
        })
        h in
    (v, omega (arith, v.balance))
