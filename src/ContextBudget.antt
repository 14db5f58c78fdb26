-- ===== src/ContextBudget.antt =====
-- selectContextItems of src/core/context-budget.js. The length of a text and its trimming belong to the
-- platform; recencies are natural numbers.
pub mod Laws
pub mod Accounting
pub mod Plan
mod Examples
use Prim.Native.Nat.{compare, Ordering}
use para11ax.Common.{
  ℕ, zero, suc, ◌+◌, ◌-◌, ◌*◌, ◌/◌, ◌%◌, ◌≤◌, ◌<◌, min, max, String, ◌≡◌, refl, sym, ap, ◌∙◌, subst,
  ◌≢◌, ◌↔◌, ◌⊎◌, inl, inr, Bool, true, false, not, ◌&&◌, ◌||◌, Option, none, some, List, [], ◌∷◌,
  ◌++◌, map, arith, ◌==ₛ◌, eq_iff, ltb, leb, ◌==◌, if◌then◌else◌, Bool-cases, Option-cases, ltb→lt,
  ltb→le, leb→le, leb→lt, lt→ltb, ltb-false, le→leb, tests, length, drop, length-append, sum_of,
  sum_of-append, All, All-append, get_elem?, without, sum_of-without, All-without, some_eq,
  length-without, append_nil, append_snoc,
}
use para11ax.Common.Lex.{then_compare}
use para11ax.Common.Sort.{sort}

pub data Kind : Type 0 where
  invariant decision artifact_ref recent evidence tool_output scratch : Kind

-- PRIORITY
abbrev pub priority : Kind → ℕ
priority invariant = 1000
priority decision = 950
priority artifact_ref = 850
priority recent = 750
priority evidence = 650
priority tool_output = 300
priority scratch = 100

-- The kind of a name that PRIORITY has.
abbrev pub kind_of : String → Option Kind
kind_of name =
    if name ==ₛ "invariant"
    then some invariant
    else if name ==ₛ "decision"
    then some decision
    else if name ==ₛ "artifact_ref"
    then some artifact_ref
    else if name ==ₛ "recent"
    then some recent
    else if name ==ₛ "evidence"
    then some evidence
    else if name ==ₛ "tool_output"
    then some tool_output
    else if name ==ₛ "scratch"
    then some scratch
    else none

-- DURABLE_KINDS
abbrev pub is_durable : Kind → Bool
is_durable invariant = true
is_durable decision = true
is_durable _ = false

-- An item as the caller gives it; `none` is a property that is not there.
pub record Given : Type 0 where
  pub id : String
  pub kind : String
  pub text : String
  pub tokens : Option ℕ
  pub recency : Option ℕ

pub record Item : Type 0 where
  pub id : String
  pub kind : Kind
  pub text : String
  pub tokens : ℕ
  pub recency : ℕ
  pub index : ℕ

pub record Platform : Type 0 where
  pub trim : String → String
  -- text.length
  pub text_length : String → ℕ

-- Math.ceil(text.length / 3.5)
abbrev pub estimate_tokens : Platform → String → ℕ
estimate_tokens platform text = (2 * platform.text_length text + 6) / 7

abbrev pub tokens_of : Platform → Given → Option ℕ
tokens_of platform g = elim g.tokens [
  | none ↦ some (estimate_tokens platform g.text)
  | some n ↦ if leb n 0 then none else some n
]

abbrev pub recency_of : ℕ → Option ℕ → ℕ
recency_of index none = index
recency_of index (some n) = n

abbrev pub build_item : String → Given → ℕ → Option Kind → Option ℕ → Option Item
build_item id g index (some kind) (some tokens) = some (record {
  id = id;
  kind = kind;
  text = g.text;
  tokens = tokens;
  recency = recency_of index g.recency;
  index = index;
})
build_item id g index _ _ = none

-- `none` where it throws
abbrev pub normalize_item : Platform → Given → ℕ → Option Item
normalize_item platform g index =
    let id = platform.trim g.id in
    if id ==ₛ "" || g.text ==ₛ ""
    then none
    else build_item id g index (kind_of (platform.trim g.kind)) (tokens_of platform g)

abbrev pub prepend_item : Option Item → Option (List Item) → Option (List Item)
prepend_item (some i) (some is) = some (i ∷ is)
prepend_item _ _ = none

-- items.map(normalizeItem)
unfoldable pub normalize_from : Platform → ℕ → List Given → Option (List Item)
normalize_from platform index [] = some []
normalize_from platform index (g ∷ gs) =
    prepend_item (normalize_item platform g index) (normalize_from platform (index + 1) gs)

abbrev pub has_id : String → List String → Bool
has_id id [] = false
has_id id (j ∷ js) = j ==ₛ id || has_id id js

abbrev pub ids_of : List Item → List String
ids_of [] = []
ids_of (i ∷ is) = i.id ∷ ids_of is

abbrev pub has_duplicate : List String → Bool
has_duplicate [] = false
has_duplicate (id ∷ ids) = has_id id ids || has_duplicate ids

unfoldable pub keep : (Item → Bool) → List Item → List Item
keep test [] = []
keep test (i ∷ is) = let rest = keep test is in if test i then i ∷ rest else rest

abbrev pub durable : Item → Bool
durable i = is_durable i.kind

abbrev pub optional : Item → Bool
optional i = not (is_durable i.kind)

-- The comparator of the optional items: higher priority first, then the more recent, then by index.
unfoldable pub compare_optional : Item → Item → Ordering
compare_optional l r =
    then_compare (compare (priority r.kind) (priority l.kind))
      (then_compare (compare r.recency l.recency) (compare l.index r.index))

unfoldable pub compare_index : Item → Item → Ordering
compare_index l r = compare l.index r.index

-- `chosen` and `usedTokens`
pub record Choice : Type 0 where
  pub chosen : List String
  pub used : ℕ

unfoldable pub choose_one : ℕ → Item → Choice → Choice
choose_one limit i s =
    if ltb limit (s.used + i.tokens)
    then s
    else record { chosen = i.id ∷ s.chosen; used = s.used + i.tokens }

unfoldable pub choose : ℕ → List Item → Choice → Choice
choose limit [] s = s
choose limit (i ∷ is) s = choose limit is (choose_one limit i s)

pub record Selection : Type 0 where
  pub items : List Item
  pub dropped : List Item
  pub used_tokens : ℕ
  pub max_tokens : ℕ

pub data Outcome : Type 0 where
  invalid_max_tokens invalid_item duplicate_id durable_exceeds_budget : Outcome
  selected : Selection → Outcome

abbrev pub chosen_in : Choice → Item → Bool
chosen_in s i = has_id i.id s.chosen

abbrev pub left_by : Choice → Item → Bool
left_by s i = not (has_id i.id s.chosen)

abbrev pub selection_of : ℕ → List Item → Choice → Selection
selection_of limit normalized s = record {
  items = sort compare_index (keep (chosen_in s) normalized);
  dropped = sort compare_index (keep (left_by s) normalized);
  used_tokens = s.used;
  max_tokens = limit;
}

abbrev pub tokens : Item → ℕ
tokens i = i.tokens

abbrev pub choice_of : ℕ → List Item → Choice
choice_of limit normalized =
    let kept = keep durable normalized in
    choose limit (sort compare_optional (keep optional normalized))
      (record { chosen = ids_of kept; used = sum_of tokens kept })

unfoldable pub select_normalized : ℕ → List Item → Outcome
select_normalized limit normalized =
    if has_duplicate (ids_of normalized)
    then duplicate_id
    else if ltb limit (sum_of tokens (keep durable normalized))
    then durable_exceeds_budget
    else selected (selection_of limit normalized (choice_of limit normalized))

unfoldable pub select_context_items : Platform → List Given → ℕ → Outcome
select_context_items platform items limit =
    if leb limit 0 then invalid_max_tokens else elim (normalize_from platform 0 items) [
      | none ↦ invalid_item
      | some normalized ↦ select_normalized limit normalized
    ]
