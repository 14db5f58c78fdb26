-- ===== src/Priority.antt =====
-- src/core/provider-priority.js: the Provider Value Scheduler's order of the providers.
-- An adapter's `schedulerByType[type]` is an argument, `none` where it is no object; a field of it that
-- is missing or no text is the empty text, which no table has. A tier or index is `none` where it is no
-- integer from 0 on. A comparator's number is modelled by its sign.
pub mod Laws
mod Examples
use Prim.Native.Nat.{compare, Ordering, ◌^◌}
use mathlib.Core.Bool.{xor}
use para11ax.Common.{
  ℕ, zero, suc, ◌+◌, ◌-◌, ◌*◌, ◌/◌, ◌%◌, ◌≤◌, ◌<◌, min, max, String, ◌≡◌, refl, sym, ap, ◌∙◌, subst,
  ◌≢◌, ◌↔◌, ◌⊎◌, inl, inr, Bool, true, false, not, ◌&&◌, ◌||◌, Option, none, some, List, [], ◌∷◌,
  ◌++◌, map, arith, ◌==ₛ◌, eq_iff, ltb, leb, ◌==◌, if◌then◌else◌, Bool-cases, Option-cases, ltb→lt,
  ltb→le, leb→le, leb→lt, lt→ltb, ltb-false, le→leb, tests, length, drop, length-append, sum_of,
  sum_of-append, All, All-append,
}
use para11ax.Common.Lex.{then_compare}
use para11ax.Common.Sort.{sort}
use para11ax.JsMap.{JsMap, get, has}

-- DESCRIPTOR_FIELDS
pub data Field : Type 0 where
  authority_class semantic_uniqueness intelligence_value pivot_value latency_class : Field

abbrev pub descriptor_fields : List Field
descriptor_fields =
    authority_class ∷ semantic_uniqueness ∷ intelligence_value ∷ pivot_value ∷ latency_class ∷ []

abbrev pub field_name : Field → String
field_name authority_class = "authorityClass"
field_name semantic_uniqueness = "semanticUniqueness"
field_name intelligence_value = "intelligenceValue"
field_name pivot_value = "pivotValue"
field_name latency_class = "latencyClass"

-- RANK
abbrev pub rank_table : Field → JsMap ℕ
rank_table authority_class =
    ("authoritative", 0)
    ∷ ("first_party", 1)
    ∷ ("specialist", 2)
    ∷ ("aggregator", 3)
    ∷ ("community", 4)
    ∷ ("contextual", 5)
    ∷ []
rank_table semantic_uniqueness = ("unique", 0) ∷ ("complementary", 1) ∷ ("duplicative", 2) ∷ []
rank_table intelligence_value = ("direct", 0) ∷ ("supporting", 1) ∷ ("contextual", 2) ∷ []
rank_table pivot_value = ("high", 0) ∷ ("medium", 1) ∷ ("low", 2) ∷ ("none", 3) ∷ []
rank_table latency_class = ("fast", 0) ∷ ("normal", 1) ∷ ("slow", 2) ∷ []

-- RANK.costClass
abbrev pub cost_table : JsMap ℕ
cost_table = ("free", 0) ∷ ("quota", 1) ∷ ("scarce", 2) ∷ []

pub record Descriptor : Type 0 where
  pub authority : String
  pub uniqueness : String
  pub intelligence : String
  pub pivot : String
  pub latency : String

abbrev pub field : Field → Descriptor → String
field authority_class d = d.authority
field semantic_uniqueness d = d.uniqueness
field intelligence_value d = d.intelligence
field pivot_value d = d.pivot
field latency_class d = d.latency

-- What the ranking and the scheduler read of an adapter.
pub record Adapter : Type 0 where
  pub name : String
  pub scheduler_for_type : Option Descriptor
  pub tier : Option ℕ
  pub workflow_index : Option ℕ
  pub cost_class : String
  pub timeout_ms : Option ℕ

-- The loop of `normalizeDescriptor`: `false` is its `return null`.
unfoldable pub has_known_fields : List Field → Descriptor → Bool
has_known_fields [] d = true
has_known_fields (f ∷ fs) d =
    if has (field f d) (rank_table f) then has_known_fields fs d else false

unfoldable pub normalize_descriptor : Adapter → Option Descriptor
unfolding has_known_fields has
normalize_descriptor a = elim a.scheduler_for_type [
  | none ↦ none
  | some d ↦ if has_known_fields descriptor_fields d then some d else none
]

-- Number.MAX_SAFE_INTEGER
abbrev pub max_safe_integer : ℕ
max_safe_integer = 2 ^ 53 - 1

abbrev pub or_else {ℓ} : {A : Type ℓ} → A → Option A → A
or_else d none = d
or_else d (some a) = a

pub record Priority : Type 0 where
  pub type : String
  pub provider : String
  pub fallback : Bool
  pub rationale : String
  pub descriptor : Option Descriptor
  pub cost_class : String
  pub tier : ℕ
  pub workflow_index : ℕ

abbrev pub is_fallback : Option Descriptor → Bool
is_fallback none = true
is_fallback (some d) = false

unfoldable pub provider_priority : Adapter → String → ℕ → Priority
unfolding normalize_descriptor
provider_priority a type index =
    let descriptor = normalize_descriptor a in
    let fallback = is_fallback descriptor in
    record {
      type = type;
      provider = a.name;
      fallback = fallback;
      rationale = if fallback then "legacy_priority_fallback" else "priority_vector";
      descriptor = descriptor;
      cost_class = if has a.cost_class cost_table then a.cost_class else "scarce";
      tier = or_else max_safe_integer a.tier;
      workflow_index = or_else index a.workflow_index;
    }

-- RANK[field][value] of a known value
abbrev pub rank : JsMap ℕ → String → ℕ
rank table value = or_else 0 (get value table)

-- priority.descriptor[field], of a priority with a descriptor
abbrev pub described : Field → Priority → String
described f p = elim p.descriptor [ none ↦ "" | some d ↦ field f d ]

-- The loop of `compareValid`, and what follows it.
abbrev pub compare_fields : List Field → Priority → Priority → Ordering → Ordering
compare_fields [] a b rest = rest
compare_fields (f ∷ fs) a b rest =
    then_compare
      (compare (rank (rank_table f) (described f a)) (rank (rank_table f) (described f b)))
      (compare_fields fs a b rest)

abbrev pub compare_tier : Priority → Priority → Ordering
compare_tier a b =
    if a.tier == b.tier then compare a.workflow_index b.workflow_index else compare a.tier b.tier

unfoldable pub compare_valid : Priority → Priority → Ordering
unfolding get
compare_valid a b = compare_fields descriptor_fields a b (
    then_compare (compare (rank cost_table a.cost_class) (rank cost_table b.cost_class))
      (compare_tier a b))

unfoldable pub compare_priority : Priority → Priority → Ordering
compare_priority a b =
    if xor a.fallback b.fallback
    then (if a.fallback then Ordering.gt else Ordering.lt)
    else if a.fallback
    then compare_tier a b
    else compare_valid a b

-- The loop of `firstDifference`, and what follows it.
abbrev pub first_field : List Field → Priority → Priority → String → String
first_field [] a b rest = rest
first_field (f ∷ fs) a b rest =
    if described f a ==ₛ described f b then first_field fs a b rest else field_name f

unfoldable pub first_difference : Priority → Option Priority → String
first_difference a none = if a.fallback then "legacy_priority_fallback" else "priority_vector"
first_difference a (some b) =
    if a.fallback || b.fallback
    then (if a.fallback then "legacy_priority_fallback" else "priority_vector")
    else first_field descriptor_fields a b (
        if a.cost_class ==ₛ b.cost_class
        then (if a.tier == b.tier
            then (if a.workflow_index == b.workflow_index
                then "priority_vector"
                else "workflowIndex")
            else "tier")
        else "costClass")

pub record Ranked : Type 0 where
  pub adapter : Adapter
  pub priority : Priority

-- providers.map, with the index
unfoldable pub with_priorities : String → ℕ → List Adapter → List Ranked
with_priorities type index [] = []
with_priorities type index (a ∷ as') =
    record { adapter = a; priority = provider_priority a type index }
    ∷ with_priorities type (index + 1) as'

abbrev pub compare_ranked : Ranked → Ranked → Ordering
compare_ranked left right = compare_priority left.priority right.priority

abbrev pub next_priority : List Ranked → Option Priority
next_priority [] = none
next_priority (r ∷ rs) = some r.priority

abbrev pub with_rationale : Option Priority → Ranked → Ranked
with_rationale next r = record {
  adapter = r.adapter;
  priority = record (r.priority) {
    rationale =
        if r.priority.fallback
        then "legacy_priority_fallback"
        else first_difference r.priority next;
  };
}

-- ranked.map, with the next entry
unfoldable pub with_rationales : List Ranked → List Ranked
with_rationales [] = []
with_rationales (r ∷ rs) = with_rationale (next_priority rs) r ∷ with_rationales rs

unfoldable pub rank_providers_for_execution : List Adapter → String → List Ranked
unfolding with_priorities with_rationales sort first_difference compare_priority provider_priority
rank_providers_for_execution providers type =
    with_rationales (sort compare_ranked (with_priorities type 0 providers))
