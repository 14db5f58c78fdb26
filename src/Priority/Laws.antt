-- ===== src/Priority/Laws.antt =====
-- The ranking of src/core/provider-priority.js orders all the providers by one vector of numbers.
use Prim.Native.Nat.{compare, Ordering}
use mathlib.Core.Bool.{xor}
use mathlib.Core.List.{Perm}
use mathlib.Core.List.Perm
use para11ax.Common.{
  ℕ, ◌+◌, String, ◌≡◌, refl, sym, ap, ◌∙◌, subst, inl, inr, Bool, true, false, List, [], ◌∷◌, map,
  arith, if◌then◌else◌, Bool-cases, All,
}
use para11ax.Common.Lex.{then_compare, lex, is_not_after, is_eq}
use para11ax.Common.Sort.{sort}
use para11ax.Common.Sort.Laws.{IsOrdered, sort-perm, sort-IsOrdered, with_key, with_key-sort}
use para11ax.Priority.{
  Field, descriptor_fields, rank_table, cost_table, Adapter, Priority, rank, described,
  compare_fields, compare_tier, compare_valid, compare_priority, Ranked, compare_ranked,
  with_priorities, with_rationale, next_priority, with_rationales, rank_providers_for_execution,
}

-- The priority vector. A provider with no descriptor comes after all that have one, and then by its
-- tier and place alone.
abbrev pub field_ranks : List Field → Priority → List ℕ → List ℕ
field_ranks [] p rest = rest
field_ranks (f ∷ fs) p rest = rank (rank_table f) (described f p) ∷ field_ranks fs p rest

-- What follows the ranks of the fields.
abbrev pub last_ranks : Priority → List ℕ
last_ranks p = rank cost_table p.cost_class ∷ p.tier ∷ p.workflow_index ∷ []

abbrev pub vector_if : Bool → Priority → List ℕ
vector_if fallback p =
    if fallback
    then 1 ∷ p.tier ∷ p.workflow_index ∷ []
    else 0 ∷ field_ranks descriptor_fields p (last_ranks p)

abbrev pub vector : Priority → List ℕ
vector p = vector_if p.fallback p

lex-field_ranks :
    (fs : List Field) (a b : Priority) (xs ys : List ℕ)
    → lex (field_ranks fs a xs) (field_ranks fs b ys) ≡ compare_fields fs a b (lex xs ys)
unfolding lex
lex-field_ranks [] a b xs ys = refl
lex-field_ranks (f ∷ fs) a b xs ys =
    ap
      (then_compare
        (compare (rank (rank_table f) (described f a)) (rank (rank_table f) (described f b))))
      (lex-field_ranks fs a b xs ys)

lex-tier :
    (a b : Priority)
    → lex (a.tier ∷ a.workflow_index ∷ []) (b.tier ∷ b.workflow_index ∷ []) ≡ compare_tier a b
unfolding lex
lex-tier a b = ground arith

lex-valid :
    (a b : Priority)
    → lex
        (field_ranks descriptor_fields a (last_ranks a))
        (field_ranks descriptor_fields b (last_ranks b))
      ≡ compare_valid a b
unfolding compare_valid lex
lex-valid a b =
    lex-field_ranks descriptor_fields a b (last_ranks a) (last_ranks b)
    ∙ ap
        (λ o.
          compare_fields descriptor_fields a b (
            then_compare (compare (rank cost_table a.cost_class) (rank cost_table b.cost_class)) o))
        (lex-tier a b)

abbrev by_fallback : Bool → Bool → Priority → Priority → Ordering
by_fallback x y a b =
    if xor x y
    then (if x then Ordering.gt else Ordering.lt)
    else if x
    then compare_tier a b
    else compare_valid a b

lex-by_fallback :
    (x y : Bool) (a b : Priority) → lex (vector_if x a) (vector_if y b) ≡ by_fallback x y a b
unfolding lex xor
lex-by_fallback true true a b = lex-tier a b
lex-by_fallback true false a b = refl
lex-by_fallback false true a b = refl
lex-by_fallback false false a b = lex-valid a b

-- `comparePriority` is the lexicographic order of the vectors, so it is a consistent comparator.
pub compare_priority-vector : (a b : Priority) → compare_priority a b ≡ lex (vector a) (vector b)
unfolding compare_priority
compare_priority-vector a b = sym (lex-by_fallback a.fallback b.fallback a b)

abbrev pub adapters : List Ranked → List Adapter
adapters rs = map (λ r. r.adapter) rs

pub adapters-with_priorities :
    (type : String) (index : ℕ) (providers : List Adapter)
    → adapters (with_priorities type index providers) ≡ providers
unfolding with_priorities
adapters-with_priorities type index [] = refl
adapters-with_priorities type index (a ∷ as') =
    ap (λ l. a ∷ l) (adapters-with_priorities type (index + 1) as')

pub adapters-with_rationales : (rs : List Ranked) → adapters (with_rationales rs) ≡ adapters rs
unfolding with_rationales
adapters-with_rationales [] = refl
adapters-with_rationales (r ∷ rs) = ap (λ l. r.adapter ∷ l) (adapters-with_rationales rs)

-- The ranking holds each provider as often as the input does.
pub rank-perm :
    (providers : List Adapter) (type : String)
    → Perm (adapters (rank_providers_for_execution providers type)) providers
unfolding rank_providers_for_execution
rank-perm providers type =
    let entries = with_priorities type 0 providers in
    subst (λ l. Perm l providers) (sym (adapters-with_rationales (sort compare_ranked entries)))
      (subst (λ l. Perm (adapters (sort compare_ranked entries)) l)
        (adapters-with_priorities type 0 providers)
        (Perm.map (λ r. r.adapter) (sort-perm compare_ranked entries)))

All-with_rationales :
    (r : Ranked) (rs : List Ranked)
    → All (λ s. is_not_after (compare_ranked r s) ≡ true) rs
    → All (λ s. is_not_after (compare_ranked r s) ≡ true) (with_rationales rs)
unfolding with_rationales compare_priority compare_valid
All-with_rationales r [] h = tt
All-with_rationales r (s ∷ rs) h = (h.0, All-with_rationales r rs h.1)

All-rationale :
    (r r' : Ranked) (rs : List Ranked)
    → vector r.priority ≡ vector r'.priority
    → All (λ s. is_not_after (compare_ranked r s) ≡ true) rs
    → All (λ s. is_not_after (compare_ranked r' s) ≡ true) rs
All-rationale r r' [] e h = tt
All-rationale r r' (s ∷ rs) e h = (
  rw (compare_priority-vector r'.priority s.priority, ← e)
      (rw (compare_priority-vector r.priority s.priority) at h.0),
  All-rationale r r' rs e h.1,
)

with_rationales-IsOrdered :
    (rs : List Ranked) → IsOrdered compare_ranked rs → IsOrdered compare_ranked (with_rationales rs)
unfolding with_rationales
with_rationales-IsOrdered [] o = tt
with_rationales-IsOrdered (r ∷ rs) (first, o) = (
  All-rationale r (with_rationale (next_priority rs) r) (with_rationales rs) refl
      (All-with_rationales r rs first),
  with_rationales-IsOrdered rs o,
)

-- Each provider of the ranking is in order with all that follow it: none of them has a lower vector.
pub rank-IsOrdered :
    (providers : List Adapter) (type : String)
    → IsOrdered compare_ranked (rank_providers_for_execution providers type)
unfolding rank_providers_for_execution
rank-IsOrdered providers type = with_rationales-IsOrdered _ (
    sort-IsOrdered compare_ranked (λ r. vector r.priority)
      (λ r s. compare_priority-vector r.priority s.priority) (with_priorities type 0 providers))

abbrev pub of_vector : List ℕ → List Ranked → List Ranked
of_vector =
    with_key compare_ranked (λ r. vector r.priority)
      (λ r s. compare_priority-vector r.priority s.priority)

of_vector-with_rationales :
    (k : List ℕ) (rs : List Ranked)
    → adapters (of_vector k (with_rationales rs)) ≡ adapters (of_vector k rs)
unfolding with_rationales
of_vector-with_rationales k [] = refl
of_vector-with_rationales k (r ∷ rs) = elim (Bool-cases (is_eq (lex (vector r.priority) k))) [
  | inl same ↦ rw same (ap (λ l. r.adapter ∷ l) (of_vector-with_rationales k rs))
  | inr other ↦ rw other (of_vector-with_rationales k rs)
]

-- Providers with the same vector keep the order of the input.
pub rank_stable :
    (k : List ℕ) (providers : List Adapter) (type : String)
    → adapters (of_vector k (rank_providers_for_execution providers type))
      ≡ adapters (of_vector k (with_priorities type 0 providers))
unfolding rank_providers_for_execution
rank_stable k providers type =
    let entries = with_priorities type 0 providers in
    of_vector-with_rationales k (sort compare_ranked entries)
    ∙ ap adapters (
        with_key-sort compare_ranked (λ r. vector r.priority)
          (λ r s. compare_priority-vector r.priority s.priority) k entries)
