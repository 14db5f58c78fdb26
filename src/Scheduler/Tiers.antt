-- ===== src/Scheduler/Tiers.antt =====
-- `groupByTier` of src/core/scheduler.js, which orders the providers where the caller names no type. An
-- adapter's tier is `none` where it is no integer; negative tiers are left out.
pub mod Laws
pub mod Size
use Prim.Native.Nat.{compare, Ordering}
use mathlib.Core.List.{reverse}
use para11ax.Common.{ℕ, ◌+◌, Option, none, some, List, [], ◌∷◌, ◌++◌, ◌==◌, if◌then◌else◌}
use para11ax.Common.Lex.{then_compare}
use para11ax.Common.Sort.{sort}

module _ {ℓ} {A : Type ℓ} (tier_of : A → Option ℕ) where
  pub record Placed : Type ℓ where
    pub provider : A
    pub index : ℕ
    pub tier : ℕ

  pub record Group : Type ℓ where
    pub tier : ℕ
    pub providers : List A

  abbrev pub tier_or_last : Option ℕ → ℕ
  tier_or_last none = 5
  tier_or_last (some t) = t

  abbrev pub placed : ℕ → List A → List Placed
  placed n [] = []
  placed n (p ∷ ps) =
      record { provider = p; index = n; tier = tier_or_last (tier_of p) } ∷ placed (n + 1) ps

  abbrev pub compare_placed : Placed → Placed → Ordering
  compare_placed a b = then_compare (compare a.tier b.tier) (compare a.index b.index)

  -- `groups`, with the last group at the head
  unfoldable pub add_to_groups : Placed → List Group → List Group
  add_to_groups item [] = record { tier = item.tier; providers = item.provider ∷ [] } ∷ []
  add_to_groups item (g ∷ gs) =
      if g.tier == item.tier
      then record g { providers = g.providers ++ item.provider ∷ [] } ∷ gs
      else record { tier = item.tier; providers = item.provider ∷ [] } ∷ g ∷ gs

  unfoldable pub group_from : List Group → List Placed → List Group
  unfolding add_to_groups
  group_from groups [] = reverse groups
  group_from groups (item ∷ items) = group_from (add_to_groups item groups) items

  unfoldable pub group_by_tier : List A → List Group
  unfolding group_from
  group_by_tier providers = group_from [] (sort compare_placed (placed 0 providers))
