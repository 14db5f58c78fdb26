-- ===== src/ContextBudget/Laws.antt =====
-- What selectContextItems of src/core/context-budget.js keeps and drops.
use Prim.Native.Nat.{Ordering}
use para11ax.Common.{
  ℕ, ◌+◌, ◌≤◌, ◌<◌, String, ◌≡◌, refl, ap, subst, ◌⊎◌, inl, inr, Bool, true, false, not, ◌||◌, List,
  [], ◌∷◌, arith, ◌==ₛ◌, eq_iff, ltb, leb, Bool-cases, Option-cases, ltb→lt, ltb→le, sum_of, All,
}
use para11ax.Common.Lex.{is_not_after}
use para11ax.Common.Sort.{insert, sort}
use para11ax.ContextBudget.{
  Platform, Given, Item, has_id, ids_of, has_duplicate, keep, durable, optional, is_durable,
  compare_optional, compare_index, Choice, choose_one, choose, Selection, selected, left_by,
  selection_of, tokens, choice_of, normalize_from, select_normalized, select_context_items,
}

-- A predicate on all items goes through sorting, both ways.
module _ {ℓ κ} {A : Type ℓ} (P : A → Type κ) (cmp : A → A → Ordering) where
  All-insert : (x : A) (xs : List A) → P x → All P xs → All P (insert cmp x xs)
  unfolding insert
  All-insert x [] h hs = (h, tt)
  All-insert x (y ∷ ys) h hs = elim (Bool-cases (is_not_after (cmp x y))) [
    | inl before ↦ rw before (h, hs)
    | inr after ↦ rw after (hs.0, All-insert x ys h hs.1)
  ]

  All-sort : (xs : List A) → All P xs → All P (sort cmp xs)
  unfolding sort
  All-sort [] hs = tt
  All-sort (x ∷ xs) hs = All-insert x (sort cmp xs) hs.0 (All-sort xs hs.1)

  insert-All : (x : A) (xs : List A) → All P (insert cmp x xs) → P x × All P xs
  unfolding insert
  insert-All x [] hs = (hs.0, tt)
  insert-All x (y ∷ ys) hs = elim (Bool-cases (is_not_after (cmp x y))) [
    | inl before ↦ let h = rw before at hs in (h.0, h.1)
    | inr after ↦
        let h = rw after at hs in let (first, rest) = insert-All x ys h.1 in (first, (h.0, rest))
  ]

  sort-All : (xs : List A) → All P (sort cmp xs) → All P xs
  unfolding sort
  sort-All [] hs = tt
  sort-All (x ∷ xs) hs =
      let (first, rest) = insert-All x (sort cmp xs) hs in (first, sort-All xs rest)

-- The item is chosen, or does not fit.
abbrev IsSettled : ℕ → Choice → Item → Type 0
IsSettled limit s i = (has_id i.id s.chosen ≡ true) ⊎ limit < s.used + i.tokens

-- A later choice has all that an earlier has, and uses no less.
pub record IsLater (s t : Choice) : Type 0 where
  pub kept : (id : String) → has_id id s.chosen ≡ true → has_id id t.chosen ≡ true
  pub grown : s.used ≤ t.used

IsSettled-later :
    (limit : ℕ) (s t : Choice) (i : Item) → IsLater s t → IsSettled limit s i → IsSettled limit t i
IsSettled-later limit s t i later (inl chosen) = inl (later.kept i.id chosen)
IsSettled-later limit s t i later (inr large) = inr (omega (arith, later.grown, large))

or_true : (b : Bool) → (b || true) ≡ true
or_true true = refl
or_true false = refl

choose_one-IsLater : (limit : ℕ) (i : Item) (s : Choice) → IsLater s (choose_one limit i s)
unfolding choose_one
choose_one-IsLater limit i s = elim (Bool-cases (ltb limit (s.used + i.tokens))) [
  | inl large ↦ rw large (record { kept = λ id h. h; grown = omega arith })
  | inr fits ↦
      rw fits (record { kept = (λ id h. rw h (or_true (i.id ==ₛ id))); grown = omega arith })
]

choose_one-IsSettled :
    (limit : ℕ) (i : Item) (s : Choice) → IsSettled limit (choose_one limit i s) i
unfolding choose_one
choose_one-IsSettled limit i s = elim (Bool-cases (ltb limit (s.used + i.tokens))) [
  | inl large ↦ rw large (inr (ltb→lt _ _ large))
  | inr fits ↦
      let own : (i.id ==ₛ i.id) ≡ true = (eq_iff i.id i.id).1 refl in rw fits (inl (rw own refl))
]

pub choose-IsLater : (limit : ℕ) (is : List Item) (s : Choice) → IsLater s (choose limit is s)
unfolding choose
choose-IsLater limit [] s = record { kept = λ id h. h; grown = omega arith }
choose-IsLater limit (i ∷ is) s =
    let one = choose_one-IsLater limit i s in
    let rest = choose-IsLater limit is (choose_one limit i s) in
    record {
      kept = λ id h. rest.kept id (one.kept id h);
      grown = omega (arith, one.grown, rest.grown);
    }

choose-IsSettled :
    (limit : ℕ) (is : List Item) (s : Choice) → All (IsSettled limit (choose limit is s)) is
unfolding choose
choose-IsSettled limit [] s = tt
choose-IsSettled limit (i ∷ is) s = (
  IsSettled-later limit (choose_one limit i s) (choose limit is (choose_one limit i s)) i
      (choose-IsLater limit is (choose_one limit i s)) (choose_one-IsSettled limit i s),
  choose-IsSettled limit is (choose_one limit i s),
)

choose_one-within :
    (limit : ℕ) (i : Item) (s : Choice) → s.used ≤ limit → (choose_one limit i s).used ≤ limit
unfolding choose_one
choose_one-within limit i s h = elim (Bool-cases (ltb limit (s.used + i.tokens))) [
  | inl large ↦ rw large h
  | inr fits ↦ rw fits (ltb→le _ _ fits)
]

choose-within :
    (limit : ℕ) (is : List Item) (s : Choice) → s.used ≤ limit → (choose limit is s).used ≤ limit
unfolding choose
choose-within limit [] s h = h
choose-within limit (i ∷ is) s h =
    choose-within limit is (choose_one limit i s) (choose_one-within limit i s h)

-- An item that is not durable and for which there is no room.
abbrev pub IsTooLarge : ℕ → ℕ → Item → Type 0
IsTooLarge limit used i = (optional i ≡ true) × limit < used + i.tokens

pub same_id : (id : String) → (id ==ₛ id) ≡ true
same_id id = (eq_iff id id).1 refl

pub ids-All :
    (js : List Item) (ids : List String)
    → ((id : String) → has_id id (ids_of js) ≡ true → has_id id ids ≡ true)
    → All (λ j. has_id j.id ids ≡ true) js
ids-All [] ids f = tt
ids-All (j ∷ js) ids f =
    (f j.id (rw (same_id j.id) refl), ids-All js ids (λ id h. f id (rw h (or_true (j.id ==ₛ id)))))

dropped-IsTooLarge :
    (limit : ℕ) (t : Choice) (is : List Item)
    → All (IsSettled limit t) (keep optional is)
    → All (λ j. has_id j.id t.chosen ≡ true) (keep durable is)
    → All (IsTooLarge limit t.used) (keep (left_by t) is)
unfolding keep
dropped-IsTooLarge limit t [] settled kept = tt
dropped-IsTooLarge limit t (i ∷ is) settled kept = elim (Bool-cases (is_durable i.kind)) [
  | inl lasting ↦
      let settled' = rw (lasting, keep) at settled in
      let kept' = rw (lasting, keep) at kept in
      rw (kept'.0, keep) (dropped-IsTooLarge limit t is settled' kept'.1)
  | inr passing ↦
      let settled' = rw (passing, keep) at settled in
      let kept' = rw (passing, keep) at kept in
      let rest = dropped-IsTooLarge limit t is settled'.1 kept' in
      elim (Bool-cases (has_id i.id t.chosen)) [
        | inl chosen ↦ rw (chosen, keep) rest
        | inr left ↦ elim settled'.0 [
          | inl chosen ↦ cc (left, chosen)
          | inr large ↦ rw (left, keep) ((ap not passing, large), rest)
        ]
      ]
]

pub selected_eq : (s t : Selection) → selected s ≡ selected t → s ≡ t
selected_eq s t h = cc

select_normalized-keeps :
    (limit : ℕ) (normalized : List Item) (s : Selection)
    → select_normalized limit normalized ≡ selected s
    → s.used_tokens ≤ limit × All (IsTooLarge limit s.used_tokens) s.dropped
unfolding select_normalized
select_normalized-keeps limit normalized s h =
    elim (Bool-cases (has_duplicate (ids_of normalized))) [
      | inl twice ↦ cc (rw (twice, select_normalized) at h)
      | inr once ↦ elim (Bool-cases (ltb limit (sum_of tokens (keep durable normalized)))) [
        | inl large ↦ cc (rw (once, large, select_normalized) at h)
        | inr fits ↦
            let t = choice_of limit normalized in
            let start : Choice = record {
              chosen = ids_of (keep durable normalized);
              used = sum_of tokens (keep durable normalized);
            } in
            let later =
              choose-IsLater limit (sort compare_optional (keep optional normalized)) start in
            subst (λ r. r.used_tokens ≤ limit × All (IsTooLarge limit r.used_tokens) r.dropped)
              (selected_eq (selection_of limit normalized t) s
                (rw (once, fits, select_normalized) at h))
              (
                choose-within limit (sort compare_optional (keep optional normalized)) start
                    (ltb→le _ _ fits),
                All-sort (IsTooLarge limit t.used) compare_index (keep (left_by t) normalized) (
                    dropped-IsTooLarge limit t normalized
                      (sort-All (IsSettled limit t) compare_optional (keep optional normalized) (
                        choose-IsSettled limit (sort compare_optional (keep optional normalized))
                          start))
                      (ids-All (keep durable normalized) t.chosen later.kept)),
              )
      ]
    ]

-- If a selection is made, it uses no more tokens than the limit, and every dropped item is neither an
-- invariant nor a decision and has more tokens than the selection leaves.
pub select-keeps :
    (platform : Platform) (items : List Given) (limit : ℕ) (s : Selection)
    → select_context_items platform items limit ≡ selected s
    → s.used_tokens ≤ limit × All (IsTooLarge limit s.used_tokens) s.dropped
unfolding select_context_items
select-keeps platform items limit s h = elim (Bool-cases (leb limit 0)) [
  | inl none_left ↦ cc (rw (none_left, select_context_items) at h)
  | inr some_left ↦ elim (Option-cases (normalize_from platform 0 items)) [
    | inl invalid ↦ cc (rw (some_left, invalid, select_context_items) at h)
    | inr (normalized, valid) ↦
        select_normalized-keeps limit normalized s
          (rw (some_left, valid, select_context_items) at h)
  ]
]
