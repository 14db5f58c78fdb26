-- ===== src/JsMap/Laws.antt =====
-- Laws of the ordered map. A map that the operations built has distinct keys.
use para11ax.Common.{
  ℕ, ◌+◌, String, ◌≡◌, refl, inl, inr, true, false, none, some, [], ◌∷◌, ◌++◌, arith, ◌==ₛ◌, eq_iff,
  if◌then◌else◌, Bool-cases, ◌≢◌,
}
use para11ax.JsMap.{JsMap, get, has, put, delete, size}

module _ {ℓ} {V : Type ℓ} where
  abbrev pub IsDistinct : JsMap V → Type ℓ
  IsDistinct [] = Unit
  IsDistinct ((j, v) ∷ m) = (get j m ≡ none) × IsDistinct m

  pub get-put :
      (k j : String) (v : V) (m : JsMap V)
      → get j (put k v m) ≡ (if k ==ₛ j then some v else get j m)
  unfolding get put
  get-put k j v [] = refl
  get-put k j v ((i, w) ∷ m) = ground (arith, eq_iff k j, eq_iff i k, eq_iff i j, get-put k j v m)

  pub get-delete :
      (k j : String) (m : JsMap V)
      → IsDistinct m
      → get j (delete k m) ≡ (if k ==ₛ j then none else get j m)
  unfolding get delete
  get-delete k j [] d = ground arith
  get-delete k j ((i, w) ∷ m) d =
      ground (arith, eq_iff k j, eq_iff i k, eq_iff i j, get-delete k j m)

  pub put-IsDistinct : (k : String) (v : V) (m : JsMap V) → IsDistinct m → IsDistinct (put k v m)
  unfolding put get
  put-IsDistinct k v [] d = ground arith
  put-IsDistinct k v ((i, w) ∷ m) d =
      ground (arith, eq_iff k i, eq_iff i k, put-IsDistinct k v m, get-put k i v m)

  pub delete-IsDistinct : (k : String) (m : JsMap V) → IsDistinct m → IsDistinct (delete k m)
  unfolding delete
  delete-IsDistinct k [] d = d
  delete-IsDistinct k ((i, w) ∷ m) d = ground (arith, delete-IsDistinct k m, get-delete k i m)

  -- The sum of a measure of the values.
  abbrev pub total : (V → ℕ) → JsMap V → ℕ
  total f [] = 0
  total f ((j, v) ∷ m) = f v + total f m

  pub total-append : (f : V → ℕ) (m n : JsMap V) → total f (m ++ n) ≡ total f m + total f n
  total-append f [] n = omega arith
  total-append f ((j, v) ∷ m) n = omega (arith, total-append f m n)

  pub get-none_of_has : (k : String) (m : JsMap V) → has k m ≡ false → get k m ≡ none
  unfolding has get
  get-none_of_has k [] h = refl
  get-none_of_has k ((j, v) ∷ m) h = ground (arith, get-none_of_has k m)

  pub get-some_of_has : (k : String) (m : JsMap V) → has k m ≡ true → (v : V) × (get k m ≡ some v)
  unfolding has get
  get-some_of_has k [] h = cc
  get-some_of_has k ((j, v) ∷ m) h = elim (Bool-cases (j ==ₛ k)) [
    | inl same ↦ (v, rw same refl)
    | inr other ↦ let (w, e) = get-some_of_has k m (rw (other, has) at h) in (w, rw other e)
  ]

  pub size-delete :
      (k : String) (v : V) (m : JsMap V) → get k m ≡ some v → size (delete k m) + 1 ≡ size m
  unfolding get delete
  size-delete k v [] h = cc
  size-delete k v ((j, w) ∷ m) h = ground (arith, size-delete k v m)

  pub total-delete :
      (f : V → ℕ) (k : String) (v : V) (m : JsMap V)
      → get k m ≡ some v
      → f v + total f (delete k m) ≡ total f m
  unfolding get delete
  total-delete f k v [] h = cc
  total-delete f k v ((j, w) ∷ m) h = ground (arith, total-delete f k v m)

  pub delete-absent : (k : String) (m : JsMap V) → get k m ≡ none → delete k m ≡ m
  unfolding get delete
  delete-absent k [] h = refl
  delete-absent k ((j, w) ∷ m) h = ground (arith, delete-absent k m)

  pub put-absent :
      (k : String) (v : V) (m : JsMap V) → get k m ≡ none → put k v m ≡ m ++ (k, v) ∷ []
  unfolding get put
  put-absent k v [] h = refl
  put-absent k v ((j, w) ∷ m) h = ground (arith, put-absent k v m)

  pub get-delete_self : (k : String) (m : JsMap V) → IsDistinct m → get k (delete k m) ≡ none
  get-delete_self k m d = ground (arith, get-delete k k m d, eq_iff k k)

  pub delete-head : (k : String) (v : V) (m : JsMap V) → delete k ((k, v) ∷ m) ≡ m
  unfolding delete
  delete-head k v m = ground (arith, eq_iff k k)

  pub get-delete_other : (k j : String) (m : JsMap V) → k ≢ j → get j (delete k m) ≡ get j m
  unfolding get delete
  get-delete_other k j [] h = refl
  get-delete_other k j ((i, w) ∷ m) h =
      ground (arith, eq_iff i k, eq_iff i j, eq_iff k j, get-delete_other k j m)

  pub get-put_other : (k j : String) (v : V) (m : JsMap V) → k ≢ j → get j (put k v m) ≡ get j m
  get-put_other k j v m h = ground (arith, get-put k j v m, eq_iff k j)
