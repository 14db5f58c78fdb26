-- ===== src/Batch/Collect.antt =====
-- The first loop of src/core/batch.js groups the inputs by their keys.
use para11ax.Common.{
  ℕ, ◌+◌, String, ◌≡◌, refl, sym, ap, ◌∙◌, subst, inl, inr, Option, none, some, List, [], ◌∷◌, ◌++◌,
  map, ◌==ₛ◌, eq_iff, if◌then◌else◌, Bool-cases, append_nil, append_snoc,
}
use para11ax.JsMap.{get}
use para11ax.JsMap.Laws.{get-put}
use para11ax.Batch.{
  Classified, Unique, key_of, Collected, add_index, collect_one, collect, nothing_collected,
}

abbrev pub indices_of : List (ℕ × Classified) → List ℕ
indices_of ps = map (λ p. p.0) ps

-- The item of a key after more inputs with this key, as the list says at which indices.
abbrev pub grouped : String → Option Unique → List (ℕ × Classified) → Option Unique
grouped k none [] = none
grouped k none ((i, c) ∷ ps) =
    some (record { key = k; classified = c; first_index = i; indices = i ∷ indices_of ps })
grouped k (some u) ps = some (record u { indices = u.indices ++ indices_of ps })

module _ {ℓ} {Input : Type ℓ} (classify : Input → Option Classified) where
  abbrev pub found_at : String → ℕ → Option Classified → List (ℕ × Classified)
  found_at k index none = []
  found_at k index (some c) = if key_of c ==ₛ k then (index, c) ∷ [] else []

  -- The inputs of a key, with their indices.
  abbrev pub positions : String → ℕ → List Input → List (ℕ × Classified)
  positions k index [] = []
  positions k index (input ∷ inputs) =
      found_at k index (classify input) ++ positions k (index + 1) inputs

  abbrev pub invalid_at : ℕ → Option Classified → List ℕ
  invalid_at index none = index ∷ []
  invalid_at index (some c) = []

  abbrev pub invalid : ℕ → List Input → List ℕ
  invalid index [] = []
  invalid index (input ∷ inputs) = invalid_at index (classify input) ++ invalid (index + 1) inputs

grouped-nil : (k : String) (found : Option Unique) → grouped k found [] ≡ found
grouped-nil k none = refl
grouped-nil k (some u) = ap (λ is. some (record u { indices = is })) (append_nil u.indices)

grouped-add :
    (i : ℕ) (c : Classified) (found : Option Unique) (ps : List (ℕ × Classified))
    → grouped (key_of c) (some (add_index i c found)) ps ≡ grouped (key_of c) found ((i, c) ∷ ps)
grouped-add i c none ps = refl
grouped-add i c (some u) ps =
    ap (λ is. some (record u { indices = is })) (append_snoc u.indices i (indices_of ps))

module _ {ℓ} {Input : Type ℓ} (classify : Input → Option Classified) where
  grouped-collect_one :
      (k : String) (index : ℕ) (found : Option Classified) (s : Collected)
      (ps : List (ℕ × Classified))
      → grouped k (get k (collect_one index found s).unique) ps
        ≡ grouped k (get k s.unique) (found_at classify k index found ++ ps)
  grouped-collect_one k index none s ps = refl
  grouped-collect_one k index (some c) s ps =
      let item = add_index index c (get (key_of c) s.unique) in
      let stored = get-put (key_of c) k item s.unique in
      elim (Bool-cases (key_of c ==ₛ k)) [
        | inr other ↦ rw (stored, other)
        | inl same ↦
            let e : key_of c ≡ k = (eq_iff (key_of c) k).0 same in
            rw (stored, same)
              (subst (λ j. grouped j (some item) ps ≡ grouped j (get j s.unique) ((index, c) ∷ ps))
                e (grouped-add index c (get (key_of c) s.unique) ps))
      ]

  -- What the map has for a key after the loop is made of the inputs with this key.
  get-collect :
      (k : String) (inputs : List Input) (index : ℕ) (s : Collected)
      → get k (collect classify index inputs s).unique
        ≡ grouped k (get k s.unique) (positions classify k index inputs)
  unfolding collect
  get-collect k [] index s = sym (grouped-nil k (get k s.unique))
  get-collect k (input ∷ inputs) index s =
      get-collect k inputs (index + 1) (collect_one index (classify input) s)
      ∙ grouped-collect_one k index (classify input) s (positions classify k (index + 1) inputs)

  rejected-collect_one :
      (index : ℕ) (found : Option Classified) (s : Collected) (later : List ℕ)
      → (collect_one index found s).rejected ++ later
        ≡ s.rejected ++ (invalid_at classify index found ++ later)
  rejected-collect_one index none s later = append_snoc s.rejected index later
  rejected-collect_one index (some c) s later = refl

  rejected-collect :
      (inputs : List Input) (index : ℕ) (s : Collected)
      → (collect classify index inputs s).rejected ≡ s.rejected ++ invalid classify index inputs
  unfolding collect
  rejected-collect [] index s = sym (append_nil s.rejected)
  rejected-collect (input ∷ inputs) index s =
      rejected-collect inputs (index + 1) (collect_one index (classify input) s)
      ∙ rejected-collect_one index (classify input) s (invalid classify (index + 1) inputs)

  -- After the loop over all inputs the map has an item for just the keys of valid inputs: its first index
  -- and classification are those of the first input with the key, its indices those of all of them in
  -- order; and the rejected inputs are those that `classify` refuses, in order.
  pub collect-groups :
      (inputs : List Input) (k : String)
      → (get k (collect classify 0 inputs nothing_collected).unique
          ≡ grouped k none (positions classify k 0 inputs))
        × ((collect classify 0 inputs nothing_collected).rejected ≡ invalid classify 0 inputs)
  unfolding get
  collect-groups inputs k =
      (get-collect k inputs 0 nothing_collected, rejected-collect inputs 0 nothing_collected)
