-- ===== src/Common/Lists.antt =====
-- Lists measured by the native numbers, and predicates on all the items of a list.
use Prim.Native.Nat.{ℕ, zero, suc, ◌+◌}
use mathlib.Core.Path.{◌≡◌, refl, ap, subst}
use mathlib.Core.Option.{Option, none, some}
use mathlib.Core.List.{List, [], ◌∷◌, ◌++◌}
use native.Mathlib.Omega.{arith}

module _ {ℓ} {A : Type ℓ} where
  abbrev pub length : List A → ℕ
  length [] = 0
  length (x ∷ xs) = suc (length xs)

  pub length-append : (xs ys : List A) → length (xs ++ ys) ≡ length xs + length ys
  length-append [] ys = omega arith
  length-append (x ∷ xs) ys = omega (arith, length-append xs ys)

  abbrev pub drop : ℕ → List A → List A
  drop zero xs = xs
  drop (suc n) [] = []
  drop (suc n) (x ∷ xs) = drop n xs

  abbrev pub sum_of : (A → ℕ) → List A → ℕ
  sum_of f [] = 0
  sum_of f (x ∷ xs) = f x + sum_of f xs

  pub sum_of-append : (f : A → ℕ) (xs ys : List A) → sum_of f (xs ++ ys) ≡ sum_of f xs + sum_of f ys
  sum_of-append f [] ys = omega arith
  sum_of-append f (x ∷ xs) ys = omega (arith, sum_of-append f xs ys)

module _ {ℓ κ} {A : Type ℓ} where
  abbrev pub All : (A → Type κ) → List A → Type κ
  All P [] = Unit
  All P (x ∷ xs) = P x × All P xs

  pub All-append : (P : A → Type κ) (xs ys : List A) → All P xs → All P ys → All P (xs ++ ys)
  All-append P [] ys hx hy = hy
  All-append P (x ∷ xs) ys hx hy = (hx.0, All-append P xs ys hx.1 hy)

abbrev pub get_elem? {ℓ} : {A : Type ℓ} → List A → ℕ → Option A
get_elem? [] i = none
get_elem? (x ∷ xs) zero = some x
get_elem? (x ∷ xs) (suc i) = get_elem? xs i

-- The list without its item at a place.
abbrev pub without {ℓ} : {A : Type ℓ} → ℕ → List A → List A
without i [] = []
without zero (x ∷ xs) = xs
without (suc i) (x ∷ xs) = x ∷ without i xs

module _ {ℓ} {A : Type ℓ} where
  pub sum_of-without :
      (f : A → ℕ) (i : ℕ) (x : A) (xs : List A)
      → get_elem? xs i ≡ some x
      → sum_of f xs ≡ f x + sum_of f (without i xs)
  sum_of-without f i x [] h = cc
  sum_of-without f zero x (y ∷ ys) h = ground arith
  sum_of-without f (suc i) x (y ∷ ys) h = omega (arith, sum_of-without f i x ys h)

  pub All-without :
      (P : A → Type 0) (i : ℕ) (x : A) (xs : List A)
      → get_elem? xs i ≡ some x
      → All P xs
      → P x × All P (without i xs)
  All-without P i x [] h p = cc
  All-without P zero x (y ∷ ys) h p = (let same : y ≡ x = cc in subst P same p.0, p.1)
  All-without P (suc i) x (y ∷ ys) h p =
      let (here, rest) = All-without P i x ys h p.1 in (here, (p.0, rest))

pub some_eq {ℓ} : {A : Type ℓ} (a b : A) → some a ≡ some b → a ≡ b
some_eq a b h = cc

pub length-without {ℓ} :
    {A : Type ℓ} (i : ℕ) (x : A) (xs : List A)
    → get_elem? xs i ≡ some x
    → length xs ≡ length (without i xs) + 1
length-without i x [] h = cc
length-without zero x (y ∷ ys) h = omega arith
length-without (suc i) x (y ∷ ys) h = omega (arith, length-without i x ys h)

pub append_nil {ℓ} : {A : Type ℓ} (xs : List A) → xs ++ [] ≡ xs
append_nil [] = refl
append_nil (x ∷ xs) = ap (λ ys. x ∷ ys) (append_nil xs)

pub append_snoc {ℓ} :
    {A : Type ℓ} (xs : List A) (y : A) (zs : List A) → (xs ++ y ∷ []) ++ zs ≡ xs ++ y ∷ zs
append_snoc [] y zs = refl
append_snoc (x ∷ xs) y zs = ap (λ ws. x ∷ ws) (append_snoc xs y zs)
