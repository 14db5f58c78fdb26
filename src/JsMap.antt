-- ===== src/JsMap.antt =====
-- The `Map` of JavaScript with string keys: an association list in insertion order, which is the order
-- in which `keys()` and `values()` go through it.
pub mod Laws
use para11ax.Common.{
  ℕ, zero, suc, String, ◌==ₛ◌, Bool, true, false, Option, none, some, List, [], ◌∷◌, if◌then◌else◌,
  length,
}

abbrev pub JsMap {ℓ} : Type ℓ → Type ℓ
JsMap V = List (String × V)

module _ {ℓ} {V : Type ℓ} where
  -- map.get(key): `none` is `undefined`
  unfoldable pub get : String → JsMap V → Option V
  get k [] = none
  get k ((j, v) ∷ m) = if j ==ₛ k then some v else get k m

  -- map.has(key)
  unfoldable pub has : String → JsMap V → Bool
  has k [] = false
  has k ((j, v) ∷ m) = if j ==ₛ k then true else has k m

  -- map.set(key, value): a key that is there keeps its place, a new one goes to the end
  unfoldable pub put : String → V → JsMap V → JsMap V
  put k v [] = (k, v) ∷ []
  put k v ((j, w) ∷ m) = if j ==ₛ k then (j, v) ∷ m else (j, w) ∷ put k v m

  -- map.delete(key)
  unfoldable pub delete : String → JsMap V → JsMap V
  delete k [] = []
  delete k ((j, w) ∷ m) = if j ==ₛ k then m else (j, w) ∷ delete k m

  -- map.size
  abbrev pub size : JsMap V → ℕ
  size m = length m

  -- map.keys().next().value
  abbrev pub first_key : JsMap V → Option String
  first_key [] = none
  first_key ((j, v) ∷ m) = some j
