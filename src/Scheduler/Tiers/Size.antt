-- ===== src/Scheduler/Tiers/Size.antt =====
-- The groups of `groupByTier` of src/core/scheduler.js and the sorting have the providers that there are: any
-- weight of them is kept.
use Prim.Native.Nat.{Ordering}
use para11ax.Common.{
  ℕ, ◌+◌, ◌≡◌, refl, ap, ◌∙◌, inl, inr, Option, List, [], ◌∷◌, map, arith, Bool-cases, length,
  sum_of, sum_of-append,
}
use para11ax.Common.Lex.{is_not_after}
use para11ax.Common.Sort.{sort, insert}
use para11ax.Scheduler.Tiers.{Placed, Group, placed, compare_placed, group_by_tier}
use para11ax.Scheduler.Tiers.Laws.{run_order, run_order-group_from}

pub sum_of-map {ℓ κ} :
    {A : Type ℓ} {B : Type κ} (w : B → ℕ) (f : A → B) (xs : List A)
    → sum_of w (map f xs) ≡ sum_of (λ x. w (f x)) xs
sum_of-map w f [] = refl
sum_of-map w f (x ∷ xs) = ap (λ (n : ℕ). w (f x) + n) (sum_of-map w f xs)

pub sum_of-one {ℓ} : {A : Type ℓ} (xs : List A) → sum_of (λ x. 1) xs ≡ length xs
sum_of-one [] = refl
sum_of-one (x ∷ xs) = omega (arith, sum_of-one xs)

pub sum_of-lengths {ℓ} :
    {A : Type ℓ} (gs : List (List A)) → sum_of (sum_of (λ x. 1)) gs ≡ sum_of length gs
sum_of-lengths [] = refl
sum_of-lengths (g ∷ gs) = omega (arith, sum_of-one g, sum_of-lengths gs)

module _ {ℓ} {A : Type ℓ} (w : A → ℕ) (cmp : A → A → Ordering) where
  sum_of-insert : (x : A) (xs : List A) → sum_of w (insert cmp x xs) ≡ w x + sum_of w xs
  unfolding insert
  sum_of-insert x [] = refl
  sum_of-insert x (y ∷ ys) = elim (Bool-cases (is_not_after (cmp x y))) [
    | inl before ↦ rw before refl
    | inr after ↦ rw after (omega (arith, sum_of-insert x ys))
  ]

  pub sum_of-sort : (xs : List A) → sum_of w (sort cmp xs) ≡ sum_of w xs
  unfolding sort
  sum_of-sort [] = refl
  sum_of-sort (x ∷ xs) = omega (arith, sum_of-insert x (sort cmp xs), sum_of-sort xs)

module _ {ℓ} {A : Type ℓ} (w : A → ℕ) (tier_of : A → Option ℕ) where
  sum_of-placed :
      (n : ℕ) (ps : List A)
      → sum_of (λ (i : Placed tier_of). w i.provider) (placed tier_of n ps) ≡ sum_of w ps
  sum_of-placed n [] = refl
  sum_of-placed n (p ∷ ps) = ap (λ (k : ℕ). w p + k) (sum_of-placed (n + 1) ps)

  sum_of-run_order :
      (gs : List (Group tier_of))
      → sum_of (λ (g : Group tier_of). sum_of w g.providers) gs ≡ sum_of w (run_order tier_of gs)
  sum_of-run_order [] = refl
  sum_of-run_order (g ∷ gs) =
      omega (arith, sum_of-run_order gs, sum_of-append w g.providers (run_order tier_of gs))

  pub sum_of-group_by_tier :
      (ps : List A)
      → sum_of (λ (g : Group tier_of). sum_of w g.providers) (group_by_tier tier_of ps)
        ≡ sum_of w ps
  unfolding group_by_tier
  sum_of-group_by_tier ps =
      let order = sort (compare_placed tier_of) (placed tier_of 0 ps) in
      sum_of-run_order (group_by_tier tier_of ps)
      ∙ ap (sum_of w) (run_order-group_from tier_of [] order)
      ∙ sum_of-map w (λ (i : Placed tier_of). i.provider) order
      ∙ sum_of-sort (λ (i : Placed tier_of). w i.provider) (compare_placed tier_of)
          (placed tier_of 0 ps)
      ∙ sum_of-placed 0 ps
