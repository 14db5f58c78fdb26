-- ===== src/ContextBudget/Accounting.antt =====
-- The tokens that selectContextItems of src/core/context-budget.js counts are those of its items.
use Prim.Native.Nat.{Ordering}
use para11ax.Common.{
  ℕ, ◌+◌, ◌≤◌, String, ◌≡◌, refl, sym, ap, ◌∙◌, subst, inl, inr, Bool, true, false, List, [], ◌∷◌,
  arith, ◌==ₛ◌, eq_iff, ltb, leb, if◌then◌else◌, Bool-cases, Option-cases, sum_of, All,
}
use para11ax.Common.Lex.{is_not_after}
use para11ax.Common.Sort.{insert, sort}
use para11ax.ContextBudget.{
  Platform, Given, Item, has_id, ids_of, has_duplicate, keep, durable, optional, is_durable,
  compare_optional, compare_index, Choice, choose_one, choose, Selection, selected, chosen_in,
  selection_of, tokens, choice_of, normalize_from, select_normalized, select_context_items,
}
use para11ax.ContextBudget.Laws.{choose-IsLater, ids-All, same_id, selected_eq}

sum_of-insert :
    (f : Item → ℕ) (cmp : Item → Item → Ordering) (x : Item) (xs : List Item)
    → sum_of f (insert cmp x xs) ≡ f x + sum_of f xs
unfolding insert
sum_of-insert f cmp x [] = refl
sum_of-insert f cmp x (y ∷ ys) = elim (Bool-cases (is_not_after (cmp x y))) [
  | inl before ↦ rw before refl
  | inr after ↦ rw after (omega (arith, sum_of-insert f cmp x ys))
]

sum_of-sort :
    (f : Item → ℕ) (cmp : Item → Item → Ordering) (xs : List Item)
    → sum_of f (sort cmp xs) ≡ sum_of f xs
unfolding sort
sum_of-sort f cmp [] = refl
sum_of-sort f cmp (x ∷ xs) =
    omega (arith, sum_of-insert f cmp x (sort cmp xs), sum_of-sort f cmp xs)

-- How often an identifier stands in a list.
abbrev one_if : Bool → ℕ
one_if true = 1
one_if false = 0

abbrev times : String → List String → ℕ
times id [] = 0
times id (j ∷ js) = one_if (j ==ₛ id) + times id js

abbrev occurs : String → Item → ℕ
occurs id i = one_if (i.id ==ₛ id)

has_id-times : (id : String) (ids : List String) → times id ids ≡ 0 → has_id id ids ≡ false
has_id-times id [] h = refl
has_id-times id (j ∷ js) h = elim (Bool-cases (j ==ₛ id)) [
  | inl same ↦ ground (arith, rw same at h)
  | inr other ↦ rw other (has_id-times id js (let h' = rw other at h in omega (arith, h')))
]

times-none : (id : String) (ids : List String) → has_id id ids ≡ false → times id ids ≡ 0
times-none id [] h = refl
times-none id (j ∷ js) h = elim (Bool-cases (j ==ₛ id)) [
  | inl same ↦ cc (rw same at h)
  | inr other ↦ rw other (omega (arith, times-none id js (rw other at h)))
]

times-once : (id : String) (ids : List String) → has_duplicate ids ≡ false → times id ids ≤ 1
times-once id [] h = omega arith
times-once id (j ∷ js) h = elim (Bool-cases (has_id j js)) [
  | inl twice ↦ cc (rw twice at h)
  | inr once ↦
      let rest = times-once id js (rw once at h) in
      elim (Bool-cases (j ==ₛ id)) [
        | inl same ↦
            let e : j ≡ id = (eq_iff j id).0 same in
            let zero_times = subst (λ k. times k js ≡ 0) e (times-none j js once) in
            rw same (omega (arith, zero_times))
        | inr other ↦ rw other (omega (arith, rest))
      ]
]

times-ids_of : (id : String) (is : List Item) → times id (ids_of is) ≡ sum_of (occurs id) is
times-ids_of id [] = refl
times-ids_of id (i ∷ is) = ap (λ n. one_if (i.id ==ₛ id) + n) (times-ids_of id is)

sum_of-split :
    (f : Item → ℕ) (is : List Item)
    → sum_of f is ≡ sum_of f (keep durable is) + sum_of f (keep optional is)
unfolding keep
sum_of-split f [] = refl
sum_of-split f (i ∷ is) = elim (Bool-cases (is_durable i.kind)) [
  | inl lasting ↦ rw (lasting, keep) (omega (arith, sum_of-split f is))
  | inr passing ↦ rw (passing, keep) (omega (arith, sum_of-split f is))
]

abbrev weight : Choice → Item → ℕ
weight t i = if has_id i.id t.chosen then i.tokens else 0

sum_of-chosen :
    (t : Choice) (is : List Item) → sum_of tokens (keep (chosen_in t) is) ≡ sum_of (weight t) is
unfolding keep
sum_of-chosen t [] = refl
sum_of-chosen t (i ∷ is) = elim (Bool-cases (has_id i.id t.chosen)) [
  | inl chosen ↦ rw (chosen, keep) (omega (arith, sum_of-chosen t is))
  | inr left ↦ rw (left, keep) (omega (arith, sum_of-chosen t is))
]

sum_of-All_chosen :
    (t : Choice) (is : List Item)
    → All (λ i. has_id i.id t.chosen ≡ true) is
    → sum_of (weight t) is ≡ sum_of tokens is
sum_of-All_chosen t [] h = refl
sum_of-All_chosen t (i ∷ is) h = rw h.0 (ap (λ n. i.tokens + n) (sum_of-All_chosen t is h.1))

times-choose_one :
    (limit : ℕ) (id : String) (i : Item) (s : Choice)
    → times id (choose_one limit i s).chosen ≤ times id s.chosen + occurs id i
unfolding choose_one
times-choose_one limit id i s = elim (Bool-cases (ltb limit (s.used + i.tokens))) [
  | inl large ↦ rw large (omega arith)
  | inr fits ↦ rw fits (omega arith)
]

times-choose :
    (limit : ℕ) (id : String) (is : List Item) (s : Choice)
    → times id (choose limit is s).chosen ≤ times id s.chosen + sum_of (occurs id) is
unfolding choose
times-choose limit id [] s = omega arith
times-choose limit id (i ∷ is) s =
    omega (arith, times-choose limit id is (choose_one limit i s), times-choose_one limit id i s)

-- No identifier stands twice among the chosen and those yet to be looked at.
abbrev IsOnce : List Item → Choice → Type 0
IsOnce is s = (id : String) → times id s.chosen + sum_of (occurs id) is ≤ 1

choose_one-weight :
    (limit : ℕ) (i : Item) (is : List Item) (s : Choice)
    → IsOnce (i ∷ is) s
    → (let t = choose limit is (choose_one limit i s) in
        (choose_one limit i s).used ≡ s.used + weight t i)
unfolding choose_one
choose_one-weight limit i is s once =
    let own = once i.id in
    let here = ap one_if (same_id i.id) in
    elim (Bool-cases (ltb limit (s.used + i.tokens))) [
      | inl large ↦
          let bound = times-choose limit i.id is s in
          let absent =
            has_id-times i.id (choose limit is s).chosen (omega (arith, own, here, bound)) in
          rw (large, absent) (omega arith)
      | inr fits ↦
          let taken : Choice = record { chosen = i.id ∷ s.chosen; used = s.used + i.tokens } in
          let there : has_id i.id taken.chosen ≡ true = rw (same_id i.id) refl in
          rw (fits, (choose-IsLater limit is taken).kept i.id there) refl
    ]

-- The loop counts the tokens of what it chooses.
choose-weight :
    (limit : ℕ) (is : List Item) (s : Choice)
    → IsOnce is s
    → (choose limit is s).used ≡ s.used + sum_of (weight (choose limit is s)) is
unfolding choose
choose-weight limit [] s once = omega arith
choose-weight limit (i ∷ is) s once = omega (
  arith,
  choose_one-weight limit i is s once,
  choose-weight limit is (choose_one limit i s)
      (λ id. omega (arith, once id, times-choose_one limit id i s)),
)

-- The choice that selectContextItems makes counts what it chooses of all items.
choice_of-weight :
    (limit : ℕ) (is : List Item)
    → has_duplicate (ids_of is) ≡ false
    → (choice_of limit is).used ≡ sum_of (weight (choice_of limit is)) is
choice_of-weight limit is once =
    let kept = keep durable is in
    let rest = keep optional is in
    let start : Choice = record { chosen = ids_of kept; used = sum_of tokens kept } in
    let t = choice_of limit is in
    let sorted = sort compare_optional rest in
    let looped = choose-weight limit sorted start (λ id. omega (
      arith,
      times-once id (ids_of is) once,
      times-ids_of id is,
      times-ids_of id kept,
      sum_of-split (occurs id) is,
      sum_of-sort (occurs id) compare_optional rest,
    )) in
    let all_kept =
      sum_of-All_chosen t kept (ids-All kept t.chosen (choose-IsLater limit sorted start).kept) in
    omega (
      arith,
      looped,
      all_kept,
      sum_of-split (weight t) is,
      sum_of-sort (weight t) compare_optional rest,
    )

select_normalized-sum :
    (limit : ℕ) (normalized : List Item) (s : Selection)
    → select_normalized limit normalized ≡ selected s
    → s.used_tokens ≡ sum_of tokens s.items
unfolding select_normalized
select_normalized-sum limit normalized s h = elim (Bool-cases (has_duplicate (ids_of normalized))) [
  | inl twice ↦ cc (rw (twice, select_normalized) at h)
  | inr once ↦ elim (Bool-cases (ltb limit (sum_of tokens (keep durable normalized)))) [
    | inl large ↦ cc (rw (once, large, select_normalized) at h)
    | inr fits ↦
        let t = choice_of limit normalized in
        subst (λ r. r.used_tokens ≡ sum_of tokens r.items)
          (selected_eq (selection_of limit normalized t) s
            (rw (once, fits, select_normalized) at h))
          (choice_of-weight limit normalized once
            ∙ sym (sum_of-chosen t normalized)
            ∙ sym (sum_of-sort tokens compare_index (keep (chosen_in t) normalized)))
  ]
]

-- If a selection is made, the tokens that it says it uses are those of its items together.
pub select-sum :
    (platform : Platform) (items : List Given) (limit : ℕ) (s : Selection)
    → select_context_items platform items limit ≡ selected s
    → s.used_tokens ≡ sum_of tokens s.items
unfolding select_context_items
select-sum platform items limit s h = elim (Bool-cases (leb limit 0)) [
  | inl none_left ↦ cc (rw (none_left, select_context_items) at h)
  | inr some_left ↦ elim (Option-cases (normalize_from platform 0 items)) [
    | inl invalid ↦ cc (rw (some_left, invalid, select_context_items) at h)
    | inr (normalized, valid) ↦
        select_normalized-sum limit normalized s (rw (some_left, valid, select_context_items) at h)
  ]
]
