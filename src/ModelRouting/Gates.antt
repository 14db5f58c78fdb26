-- ===== src/ModelRouting/Gates.antt =====
-- What the gates of routeModelTask of src/core/model-routing.js make sure of.
use para11ax.Common.{
  ℕ, ◌≤◌, ◌≡◌, refl, sym, subst, inl, inr, Bool, true, false, not, ◌&&◌, ◌||◌, arith, leb, ◌==◌,
  Bool-cases,
}
use para11ax.ModelRouting.{
  because, reviewed, Tier, economy, balanced, frontier, frontier_max, level, Effort, low, medium,
  high, max_effort, effort_index, at_least, raise_effort, Draft, strengthen, failure_gate,
}

-- Tier and effort at least the second strongest.
pub record IsStrong (d : Draft) : Type 0 where
  pub tier : 2 ≤ level d.tier
  pub effort : 2 ≤ effort_index d.reasoning_effort

abbrev pub implies : Bool → Bool → Bool
implies a b = not a || b

pub implies_refl : (a : Bool) → implies a a ≡ true
implies_refl true = refl
implies_refl false = refl

pub implies-true : (a b : Bool) → b ≡ true → implies a b ≡ true
implies-true true b h = h
implies-true false b h = refl

pub implies_trans : (a b c : Bool) → implies a b ≡ true → implies b c ≡ true → implies a c ≡ true
implies_trans true true c h k = k
implies_trans true false c h k = cc
implies_trans false b c h k = refl

pub and-true : (a b : Bool) → (a && b) ≡ true → (a ≡ true) × (b ≡ true)
and-true true b h = (refl, h)
and-true false b h = cc

at_least-level :
    (t : Tier) → (2 ≤ level (at_least t frontier)) × (level t ≤ level (at_least t frontier))
at_least-level economy = (omega arith, omega arith)
at_least-level balanced = (omega arith, omega arith)
at_least-level frontier = (omega arith, omega arith)
at_least-level frontier_max = (omega arith, omega arith)

raise_effort-index :
    (e : Effort)
    → (2 ≤ effort_index (raise_effort e)) × (effort_index e ≤ effort_index (raise_effort e))
raise_effort-index low = (omega arith, omega arith)
raise_effort-index medium = (omega arith, omega arith)
raise_effort-index high = (omega arith, omega arith)
raise_effort-index max_effort = (omega arith, omega arith)

level_bound : (t : Tier) → level t ≤ 3
level_bound economy = omega arith
level_bound balanced = omega arith
level_bound frontier = omega arith
level_bound frontier_max = omega arith

effort_bound : (e : Effort) → effort_index e ≤ 3
effort_bound low = omega arith
effort_bound medium = omega arith
effort_bound high = omega arith
effort_bound max_effort = omega arith

-- One draft asks for no less than another.
pub record IsBelow (d e : Draft) : Type 0 where
  pub tier : level d.tier ≤ level e.tier
  pub effort : effort_index d.reasoning_effort ≤ effort_index e.reasoning_effort
  pub review : implies d.independent_review e.independent_review ≡ true
  pub family : implies d.different_family e.different_family ≡ true

pub IsBelow-trans : (d e f : Draft) → IsBelow d e → IsBelow e f → IsBelow d f
IsBelow-trans d e f h k = record {
  tier = omega (arith, h.tier, k.tier);
  effort = omega (arith, h.effort, k.effort);
  review =
      implies_trans d.independent_review e.independent_review f.independent_review h.review
        k.review;
  family = implies_trans d.different_family e.different_family f.different_family h.family k.family;
}

pub IsStrong-IsBelow : (d e : Draft) → IsStrong d → IsBelow d e → IsStrong e
IsStrong-IsBelow d e h k = record {
  tier = omega (arith, h.tier, k.tier);
  effort = omega (arith, h.effort, k.effort);
}

pub strengthen-IsStrong : (d : Draft) → IsStrong (strengthen d)
strengthen-IsStrong d = record {
  tier = (at_least-level d.tier).0;
  effort = (raise_effort-index d.reasoning_effort).0;
}

pub strengthen-IsBelow : (d : Draft) → IsBelow d (strengthen d)
strengthen-IsBelow d = record {
  tier = (at_least-level d.tier).1;
  effort = (raise_effort-index d.reasoning_effort).1;
  review = implies_refl d.independent_review;
  family = implies_refl d.different_family;
}

pub IsBelow-refl : (d : Draft) → IsBelow d d
IsBelow-refl d = record {
  tier = omega arith;
  effort = omega arith;
  review = implies_refl d.independent_review;
  family = implies_refl d.different_family;
}

-- The strongest draft, with both reviews.
pub record IsMaximal (d : Draft) : Type 0 where
  pub tier : d.tier ≡ frontier_max
  pub effort : d.reasoning_effort ≡ max_effort
  pub review : d.independent_review ≡ true
  pub family : d.different_family ≡ true

IsMaximal-IsBelow : (d e : Draft) → IsMaximal e → IsBelow d e
IsMaximal-IsBelow d e m = record {
  tier = subst (λ t. level d.tier ≤ level t) (sym m.tier) (level_bound d.tier);
  effort =
      subst (λ f. effort_index d.reasoning_effort ≤ effort_index f) (sym m.effort)
        (effort_bound d.reasoning_effort);
  review = implies-true d.independent_review e.independent_review m.review;
  family = implies-true d.different_family e.different_family m.family;
}

failure_gate_twice :
    (n : ℕ) (d : Draft)
    → leb 2 n ≡ true
    → failure_gate n d
      ≡ because "failure_escalation"
          (reviewed (record d { tier = frontier_max; reasoning_effort = max_effort }))
unfolding failure_gate
failure_gate_twice n d h = rw h refl

failure_once : (d : Draft) → IsBelow (failure_gate 0 d) (failure_gate 1 d)
unfolding failure_gate
failure_once d = record {
  tier = (strengthen-IsBelow d).tier;
  effort = (strengthen-IsBelow d).effort;
  review = (strengthen-IsBelow d).review;
  family = (strengthen-IsBelow d).family;
}

pub failure_gate-IsMaximal : (n : ℕ) (d : Draft) → leb 2 n ≡ true → IsMaximal (failure_gate n d)
failure_gate-IsMaximal n d h =
    subst IsMaximal (sym (failure_gate_twice n d h))
      (record { tier = refl; effort = refl; review = refl; family = refl })

-- More failures ask for no less.
pub failure_gate_grows :
    (m n : ℕ) (d : Draft) → m ≤ n → IsBelow (failure_gate m d) (failure_gate n d)
failure_gate_grows m n d h = elim (Bool-cases (leb 2 n)) [
  | inl twice ↦
      IsMaximal-IsBelow (failure_gate m d) (failure_gate n d) (failure_gate-IsMaximal n d twice)
  | inr fewer ↦ elim (Bool-cases (m == n)) [
    | inl same ↦
        let e : m ≡ n = ground arith in
        subst (λ k. IsBelow (failure_gate m d) (failure_gate k d)) e
          (IsBelow-refl (failure_gate m d))
    | inr other ↦
        let e₀ : m ≡ 0 = ground arith in
        let e₁ : n ≡ 1 = ground arith in rw (e₀, e₁) (failure_once d)
  ]
]
