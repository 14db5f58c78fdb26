-- ===== src/Batch/Rows.antt =====
-- The rows that `runBatch` of src/core/batch.js makes of an item: one for each input with its key.
use para11ax.Common.{
  ℕ, suc, ◌+◌, ◌≤◌, ◌<◌, String, ◌≡◌, refl, sym, ◌∙◌, subst, inl, inr, true, false, Option, none,
  some, List, [], ◌∷◌, ◌++◌, map, arith, ◌==ₛ◌, ◌==◌, Bool-cases, some_eq,
}
use para11ax.JsMap.{get}
use para11ax.Batch.{Classified, Unique, key_of, Work, Row, rows, collect, nothing_collected}
use para11ax.Batch.Collect.{indices_of, grouped, found_at, positions, collect-groups}

abbrev pub row : Work → Classified → Option ℕ → ℕ → Row
row work c duplicate_of index = record {
  index = index;
  canonical = c.value;
  type = c.type;
  duplicate_of = duplicate_of;
  work = work;
}

-- The rows of the inputs of one key: the first counts, the others are its duplicates.
abbrev pub rows_for : Work → List (ℕ × Classified) → List Row
rows_for work [] = []
rows_for work ((i, c) ∷ ps) = row work c none i ∷ map (λ p. row work c (some i) p.0) ps

abbrev IsSortedFrom : ℕ → List (ℕ × Classified) → Type 0
IsSortedFrom n [] = Unit
IsSortedFrom n (p ∷ ps) = n ≤ p.0 × IsSortedFrom (suc p.0) ps

IsSortedFrom-weaken :
    (m n : ℕ) (ps : List (ℕ × Classified)) → m ≤ n → IsSortedFrom n ps → IsSortedFrom m ps
IsSortedFrom-weaken m n [] le h = tt
IsSortedFrom-weaken m n (p ∷ ps) le h = (omega (arith, h.0), h.1)

module _ {ℓ} {Input : Type ℓ} (classify : Input → Option Classified) where
  found_at-IsSortedFrom :
      (k : String) (index : ℕ) (found : Option Classified) (ps : List (ℕ × Classified))
      → IsSortedFrom (index + 1) ps
      → IsSortedFrom index (found_at classify k index found ++ ps)
  found_at-IsSortedFrom k index none ps h = IsSortedFrom-weaken index (index + 1) ps (omega arith) h
  found_at-IsSortedFrom k index (some c) ps h = elim (Bool-cases (key_of c ==ₛ k)) [
    | inl same ↦
        rw same (omega arith, IsSortedFrom-weaken (suc index) (index + 1) ps (omega arith) h)
    | inr other ↦ rw other (IsSortedFrom-weaken index (index + 1) ps (omega arith) h)
  ]

  positions-IsSortedFrom :
      (k : String) (inputs : List Input) (index : ℕ)
      → IsSortedFrom index (positions classify k index inputs)
  positions-IsSortedFrom k [] index = tt
  positions-IsSortedFrom k (input ∷ inputs) index =
      found_at-IsSortedFrom k index (classify input) (positions classify k (index + 1) inputs)
        (positions-IsSortedFrom k inputs (index + 1))

rows-duplicates :
    (u : Unique) (work : Work) (n : ℕ) (ps : List (ℕ × Classified))
    → u.first_index < n
    → IsSortedFrom n ps
    → rows u work (indices_of ps) ≡ map (λ p. row work u.classified (some u.first_index) p.0) ps
unfolding rows
rows-duplicates u work n [] later h = refl
rows-duplicates u work n (p ∷ ps) later h =
    let other : (p.0 == u.first_index) ≡ false = ground (arith, h.0) in
    rw (other, rows-duplicates u work (suc p.0) ps (omega (arith, h.0)) h.1) refl

rows-grouped :
    (k : String) (work : Work) (ps : List (ℕ × Classified)) (u : Unique) (n : ℕ)
    → grouped k none ps ≡ some u
    → IsSortedFrom n ps
    → rows u work u.indices ≡ rows_for work ps
unfolding rows
rows-grouped k work [] u n e h = cc
rows-grouped k work ((i, c) ∷ ps) u n e h =
    let own : (i == i) ≡ true = ground arith in
    let item : Unique = record {
      key = k;
      classified = c;
      first_index = i;
      indices = i ∷ indices_of ps;
    } in
    subst (λ v. rows v work v.indices ≡ rows_for work ((i, c) ∷ ps)) (some_eq item u e)
      (rw (own, rows-duplicates item work (suc i) ps (omega arith) h.1) refl)

-- Of an item of `unique` the batch makes one row for each input with its key, in order: the first of
-- these inputs has no `duplicateOf`, all others name it there, and all have the canonical value, the
-- type and the work of the first.
pub rows-positions {ℓ} :
    {Input : Type ℓ} (classify : Input → Option Classified) (inputs : List Input) (k : String)
    (u : Unique) (work : Work)
    → get k (collect classify 0 inputs nothing_collected).unique ≡ some u
    → rows u work u.indices ≡ rows_for work (positions classify k 0 inputs)
rows-positions classify inputs k u work h =
    rows-grouped k work (positions classify k 0 inputs) u 0
      (sym (collect-groups classify inputs k).0 ∙ h) (positions-IsSortedFrom classify k inputs 0)
