-- ===== src/Scheduler/Tiers/Laws.antt =====
-- `groupByTier` of src/core/scheduler.js loses no provider and runs the tiers in order.
use mathlib.Core.List.{Perm, reverse, reverse_aux, reverse-cons, append_assoc, append-nil}
use para11ax.Common.{
  ℕ, ◌+◌, ◌≡◌, refl, sym, ◌∙◌, inl, inr, Option, List, [], ◌∷◌, ◌++◌, map, arith, ◌==◌, Bool-cases,
  All, All-append,
}
use para11ax.Common.Lex.{lex, is_not_after}
use para11ax.Common.Sort.{sort, insert}
use para11ax.Common.Sort.Laws.{IsOrdered, sort-perm, sort-IsOrdered}
use para11ax.Scheduler.Tiers.{
  Placed, Group, tier_or_last, placed, compare_placed, add_to_groups, group_from, group_by_tier,
}

module _ {ℓ} {A : Type ℓ} (tier_of : A → Option ℕ) where
  -- The order in which the groups run their providers.
  abbrev pub run_order : List (Group tier_of) → List A
  run_order [] = []
  run_order (g ∷ gs) = g.providers ++ run_order gs

  run_order-append :
      (gs hs : List (Group tier_of)) → run_order (gs ++ hs) ≡ run_order gs ++ run_order hs
  run_order-append [] hs = refl
  run_order-append (g ∷ gs) hs =
      rw (run_order-append gs hs) (sym (append_assoc g.providers (run_order gs) (run_order hs)))

  add-run_order :
      (item : Placed tier_of) (gs : List (Group tier_of))
      → run_order (reverse (add_to_groups tier_of item gs))
        ≡ run_order (reverse gs) ++ item.provider ∷ []
  unfolding add_to_groups
  add-run_order item [] = refl
  add-run_order item (g ∷ gs) = elim (Bool-cases (g.tier == item.tier)) [
    | inl same ↦
        rw (same, reverse-cons, reverse-cons) (simp (run_order-append, append-nil, append_assoc))
    | inr new ↦ rw (new, reverse-cons) (run_order-append (reverse (g ∷ gs)) _)
  ]

  pub run_order-group_from :
      (gs : List (Group tier_of)) (items : List (Placed tier_of))
      → run_order (group_from tier_of gs items)
        ≡ run_order (reverse gs) ++ map (λ i. i.provider) items
  unfolding group_from
  run_order-group_from gs [] = sym (append-nil _)
  run_order-group_from gs (item ∷ items) =
      run_order-group_from (add_to_groups tier_of item gs) items
      ∙ rw (add-run_order item gs)
          (append_assoc (run_order (reverse gs)) (item.provider ∷ []) (map (λ i. i.provider) items))

  -- All the providers of a group have its tier.
  abbrev pub IsUniform : Group tier_of → Type 0
  IsUniform g = All (λ p. tier_or_last tier_of (tier_of p) ≡ g.tier) g.providers

  abbrev IsPlaced : Placed tier_of → Type 0
  IsPlaced i = tier_or_last tier_of (tier_of i.provider) ≡ i.tier

  All-reverse :
      (gs hs : List (Group tier_of))
      → All IsUniform gs
      → All IsUniform hs
      → All IsUniform (reverse_aux gs hs)
  All-reverse [] hs u v = v
  All-reverse (g ∷ gs) hs (u, us) v = All-reverse gs (g ∷ hs) us (u, v)

  add-IsUniform :
      (item : Placed tier_of) (gs : List (Group tier_of))
      → IsPlaced item
      → All IsUniform gs
      → All IsUniform (add_to_groups tier_of item gs)
  unfolding add_to_groups
  add-IsUniform item [] at u = ((at, tt), tt)
  add-IsUniform item (g ∷ gs) at (u, us) = elim (Bool-cases (g.tier == item.tier)) [
    | inl same ↦
        let tier : g.tier ≡ item.tier = ground arith in
        rw same (All-append _ g.providers (item.provider ∷ []) u ((at ∙ sym tier), tt), us)
    | inr new ↦ rw new ((at, tt), (u, us))
  ]

  group_from-IsUniform :
      (gs : List (Group tier_of)) (items : List (Placed tier_of))
      → All IsPlaced items
      → All IsUniform gs
      → All IsUniform (group_from tier_of gs items)
  unfolding group_from
  group_from-IsUniform gs [] at u = All-reverse gs [] u tt
  group_from-IsUniform gs (item ∷ items) (at, ats) u =
      group_from-IsUniform (add_to_groups tier_of item gs) items ats (add-IsUniform item gs at u)

  placed-IsPlaced : (n : ℕ) (ps : List A) → All IsPlaced (placed tier_of n ps)
  placed-IsPlaced n [] = tt
  placed-IsPlaced n (p ∷ ps) = (refl, placed-IsPlaced (n + 1) ps)

  insert-IsPlaced :
      (i : Placed tier_of) (is : List (Placed tier_of))
      → IsPlaced i
      → All IsPlaced is
      → All IsPlaced (insert (compare_placed tier_of) i is)
  unfolding insert
  insert-IsPlaced i [] p h = (p, tt)
  insert-IsPlaced i (j ∷ js) p (q, h) =
      elim (Bool-cases (is_not_after (compare_placed tier_of i j))) [
        | inl before ↦ rw before (p, (q, h))
        | inr after ↦ rw after (q, insert-IsPlaced i js p h)
      ]

  sort-IsPlaced :
      (is : List (Placed tier_of))
      → All IsPlaced is
      → All IsPlaced (sort (compare_placed tier_of) is)
  unfolding sort
  sort-IsPlaced [] h = tt
  sort-IsPlaced (i ∷ is) (p, h) =
      insert-IsPlaced i (sort (compare_placed tier_of) is) p (sort-IsPlaced is h)

  abbrev rank_of : Placed tier_of → List ℕ
  rank_of i = i.tier ∷ i.index ∷ []

  by_rank : (i j : Placed tier_of) → compare_placed tier_of i j ≡ lex (rank_of i) (rank_of j)
  unfolding lex
  by_rank i j = ground arith

  -- The groups hold the providers of one tier each, and run all of them, by tier and within a tier in
  -- the order of the input.
  pub group_by_tier_order :
      (providers : List A)
      → All IsUniform (group_by_tier tier_of providers)
        × ((order : List (Placed tier_of)) × (run_order (group_by_tier tier_of providers)
              ≡ map (λ i. i.provider) order)
            × IsOrdered (compare_placed tier_of) order
            × Perm order (placed tier_of 0 providers))
  unfolding group_by_tier
  group_by_tier_order providers =
      let items = placed tier_of 0 providers in
      let order = sort (compare_placed tier_of) items in
      (
        group_from-IsUniform [] order (sort-IsPlaced items (placed-IsPlaced 0 providers)) tt,
        (
          order,
          run_order-group_from [] order,
          sort-IsOrdered (compare_placed tier_of) rank_of by_rank items,
          sort-perm (compare_placed tier_of) items,
        ),
      )
